-- ===== src/Context/Resources.antt =====
-- lib/pygpgme-data.c: `pygpgme_data_new` and `release_cb`. lib/pygpgme-context.c: the arrays of keys
-- that four methods build from a Python sequence.
use pygpgme.Base.{
  ℕ, ◌+◌, ◌-◌, Bool, true, false, not, ◌||◌, Option, none, some, List, [], ◌∷◌, if◌then◌else◌,
}
use pygpgme.Python.Value.{type_error}
use pygpgme.Python.State.{Platform, new_object}
use pygpgme.Errors.Convert.{check_error}
use pygpgme.Gpgme.Engine.{Handle, Engine}
use pygpgme.Context.World.{World, incref, decref, with_error}

-- The end of `pygpgme_data_new`: `true` is the result -1. On an error the block is freed again;
-- else the new handle holds a reference on the file and on the context.
data_made : {C : Type 0} → ℕ → ℕ → Bool → World C → Bool × Handle × World C
data_made self fp true w = (true, none, record w { blocks = w.blocks - 1 })
data_made self fp false w = (false, some fp, record w { refs = incref self (incref fp w.refs) })

-- After the `PyMem_Malloc`, which `PyErr_NoMemory` reports.
data_from : {C : Type 0} → Platform → Engine C → ℕ → ℕ → Bool → World C → Bool × Handle × World C
data_from P E self fp false w = (true, none, w)
data_from P E self fp true w =
    let (err, c) = E.new_data w.lib in
    let (bad, s) = check_error P err w.py in
    data_made self fp bad (record w { py = s; lib = c; blocks = w.blocks + 1 })

-- `pygpgme_data_new`; the file `none` is `Py_None`.
unfoldable pub data_new :
    {C : Type 0} → Platform → Engine C → ℕ → Option ℕ → World C → Bool × Handle × World C
unfolding data_from data_made
data_new P E self none w = (false, none, w)
data_new P E self (some fp) w =
    let (fits, s) = new_object w.py in data_from P E self fp fits (record w { py = s })

-- `gpgme_data_release`, which calls `release_cb`. That must be done with the interpreter held.
unfoldable pub data_release : {C : Type 0} → ℕ → Handle → World C → World C
data_release self none w = w
data_release self (some fp) w = record w {
  refs = decref self (decref fp w.refs);
  blocks = w.blocks - 1;
  broken = w.broken || not w.gil;
}

-- An item of a sequence: a `Key` with its `gpgme_key_t`, or an object of another class.
pub data Item : Type 0 where
  key_item : ℕ → Item
  other_item : Item

-- An argument that should be a sequence, with the number of the object that `PySequence_Fast` gives.
pub data SeqArg : Type 0 where
  not_sequence : SeqArg
  sequence : ℕ → List Item → SeqArg

-- What the building of an array leaves: the sequence held, whether the array is allocated, and the
-- keys, or `none` where an exception is set.
pub record KeyArray : Type 0 where
  pub seq : Option ℕ
  pub array : Bool
  pub keys : Option (List ℕ)

-- The loop: every item must be a `Key`.
unfoldable pub collect_keys : List Item → Option (List ℕ)
collect_keys [] = some []
collect_keys (key_item k ∷ rest) = elim (collect_keys rest) [
  | none ↦ none
  | some ks ↦ some (k ∷ ks)
]
collect_keys (other_item ∷ rest) = none

module _ {C : Type 0} where
  array_of : ℕ → Option (List ℕ) → World C → KeyArray × World C
  array_of o none w = (record { seq = some o; array = true; keys = none }, with_error type_error w)
  array_of o (some ks) w = (record { seq = some o; array = true; keys = some ks }, w)

  -- `PySequence_Fast`, the array and the loop over the items.
  unfoldable pub key_array : SeqArg → World C → KeyArray × World C
  unfolding array_of
  key_array not_sequence w =
      (record { seq = none; array = false; keys = none }, with_error type_error w)
  key_array (sequence o items) w =
      array_of o (collect_keys items) (record w { refs = incref o w.refs; blocks = w.blocks + 1 })

  -- `Py_XDECREF` of the sequence and `free` of the array.
  unfoldable pub release_array : KeyArray → World C → World C
  release_array a w = record w {
    refs = elim a.seq [ none ↦ w.refs | some o ↦ decref o w.refs ];
    blocks = if a.array then w.blocks - 1 else w.blocks;
  }
