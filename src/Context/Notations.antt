-- ===== src/Context/Notations.antt =====
-- lib/pygpgme-context.c: the notations of a Context, `pygpgme_context_get_sig_notations` and its
-- setter.
pub mod RoundTrip
pub mod Tests
use pygpgme.Base.{ℕ, Bool, true, false, not, Option, none, some, List, [], ◌∷◌, ◌==◌, if◌then◌else◌}
use pygpgme.Python.Value.{
  Text, Value, none_value, str, bytes, SigNotation, type_error, value_error, attribute_error,
}
use pygpgme.Python.State.{Platform, PyState, set_error}
use pygpgme.Errors.Convert.{check_error}
use pygpgme.Gpgme.Structs.{NotationRaw}
use pygpgme.Signature.Lists.{is_human_readable, sig_notation_list_new}
use pygpgme.Context.Patterns.{c_string}
use pygpgme.Context.World.{World, incref, decref, with_error, lock_context, unlock_context}

-- `gpgme_sig_notation_clear`, `gpgme_sig_notation_add` with a name and a value that may be `NULL`, and
-- `gpgme_sig_notation_get`.
pub record NotationStore (C : Type 0) : Type 0 where
  pub clear : C → C
  pub add : C → Option Text → Option Text → ℕ → ℕ × C
  pub notations : C → List NotationRaw

-- An item of the sequence: a `SigNotation` that is initialised, or an object of another class.
pub data NotationItem : Type 0 where
  notation : SigNotation → NotationItem
  not_notation : NotationItem

-- A value that is set, with the number of the object that `PySequence_Fast` gives.
pub data NotationsArg : Type 0 where
  no_sequence : NotationsArg
  items : ℕ → List NotationItem → NotationsArg

-- `PyUnicode_AsUTF8AndSize`; a lone surrogate makes it fail.
unfoldable pub as_utf8 : Platform → Value → PyState → Option Text × PyState
unfolding c_string
as_utf8 P (str t) s = elim (P.encode_utf8 t) [
  | none ↦ (none, set_error value_error s)
  | some b ↦ (some (c_string b), s)
]
as_utf8 P v s = (none, set_error type_error s)

-- `PyBytes_AsString`
unfoldable pub as_bytes : Value → PyState → Option Text × PyState
unfolding c_string
as_bytes (bytes b) s = (some (c_string b), s)
as_bytes v s = (none, set_error type_error s)

-- The name, which is left `NULL` for `None`.
unfoldable pub name_of : Platform → Value → PyState → Option Text × PyState
unfolding as_utf8
name_of P none_value s = (none, s)
name_of P v s = as_utf8 P v s

unfoldable pub value_of : Platform → SigNotation → PyState → Option Text × PyState
unfolding as_utf8 as_bytes
value_of P n s = if is_human_readable n.flags then as_utf8 P n.value s else as_bytes n.value s

module _ {C : Type 0} (P : Platform) (G : NotationStore C) where
  -- `pygpgme_context_get_sig_notations`: where no list is made, `NULL` is released.
  unfoldable pub get_sig_notations : World C → Option (List SigNotation) × World C
  unfolding lock_context unlock_context sig_notation_list_new
  get_sig_notations w =
      let w1 = lock_context w in
      let (list, s) = sig_notation_list_new P (G.notations w1.lib) w1.py in
      let w2 = unlock_context (record w1 { py = s }) in
      elim list [
        | none ↦ (none, record w2 { py = record s { fault = true } })
        | some l ↦ (some l, w2)
      ]

  -- The loop over the items; `true` is the result -1.
  unfoldable pub add_notations : List NotationItem → World C → Bool × World C
  add_notations [] w = (false, w)
  add_notations (not_notation ∷ rest) w = (true, with_error type_error w)
  add_notations (notation n ∷ rest) w =
      let (name, s1) = name_of P n.name w.py in
      let (value, s2) = value_of P n s1 in
      let (err, c) = G.add w.lib name value n.flags in
      let (failed, s3) = check_error P err s2 in
      let w1 : World C = record w { py = s3; lib = c } in
      let next = add_notations rest w1 in if failed then (true, w1) else next

  -- `pygpgme_context_set_sig_notations`; a value `none` is a deletion.
  unfoldable pub set_sig_notations : Option NotationsArg → World C → Bool × World C
  unfolding lock_context unlock_context add_notations
  set_sig_notations none w = (true, with_error attribute_error w)
  set_sig_notations (some no_sequence) w = (true, with_error type_error w)
  set_sig_notations (some (items o l)) w =
      let w1 = lock_context (record w { refs = incref o w.refs }) in
      let (bad, w2) = add_notations l (record w1 { lib = G.clear w1.lib }) in
      let w3 = unlock_context w2 in (bad, record w3 { refs = decref o w3.refs })
