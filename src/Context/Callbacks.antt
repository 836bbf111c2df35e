-- ===== src/Context/Callbacks.antt =====
-- lib/pygpgme-context.c: the functions that gpgme calls back, `pygpgme_passphrase_cb`,
-- `pygpgme_progress_cb` and `pygpgme_edit_cb`, and the attributes that hold Python callbacks.
pub mod Leaves
pub mod Tests
use pygpgme.Base.{ℕ, Bool, true, false, not, ◌||◌, Option, none, some, if◌then◌else◌}
use pygpgme.Base.Int.{pos}
use pygpgme.Python.Value.{EnumName, Value}
use pygpgme.Python.State.{Platform, PyState, clear_error}
use pygpgme.Constants.Lookup.{enum_value_new}
use pygpgme.Errors.Convert.{check_pyerror}
use pygpgme.Context.World.{World, incref, decref, lock_context, unlock_context}

-- The call of the function of `pygpgme_edit_cb` with the object for the status.
unfoldable pub edit_call : (Value → PyState → PyState) → Option Value × PyState → PyState
edit_call call (none, s) = record s { fault = true }
edit_call call (some v, s) = call v s

module _ {C : Type 0} where
  -- The assertion and `PyEval_RestoreThread(self->tstate)`. The field keeps its old pointer.
  unfoldable pub restore_thread : World C → World C
  restore_thread w = record w { gil = true; broken = w.broken || (not w.tstate || w.gil) }

  -- `self->tstate = PyEval_SaveThread()`
  unfoldable pub save_thread : World C → World C
  save_thread w = record w { gil = false; tstate = true; broken = w.broken || not w.gil }

  -- `call` is what the Python function does to the thread's state, the failure to build its arguments
  -- included; its result is released.
  unfoldable pub passphrase_cb : Platform → (PyState → PyState) → World C → ℕ × World C
  unfolding restore_thread save_thread
  passphrase_cb P call w =
      let w1 = restore_thread w in
      let (err, s) = check_pyerror P (call w1.py) in (err, save_thread (record w1 { py = s }))

  unfoldable pub progress_cb : (PyState → PyState) → World C → World C
  unfolding restore_thread save_thread
  progress_cb call w =
      let w1 = restore_thread w in save_thread (record w1 { py = clear_error (call w1.py) })

  -- The function gets the object for the status; where that is `NULL`, it is released all the same.
  unfoldable pub edit_cb : Platform → (Value → PyState → PyState) → ℕ → World C → ℕ × World C
  unfolding restore_thread save_thread
  edit_cb P call status w =
      let w1 = restore_thread w in
      let s = edit_call call (enum_value_new P EnumName.status (pos status) w1.py) in
      let (err, s1) = check_pyerror P s in (err, save_thread (record w1 { py = s1 }))

pub data Callback : Type 0 where
  passphrase progress : Callback

abbrev pub is_passphrase : Callback → Bool
is_passphrase passphrase = true
is_passphrase progress = false

-- gpgme's `gpgme_get_passphrase_cb` and `gpgme_set_passphrase_cb`, and those of the progress: whether
-- the function is the extension's.
pub record Hooks (C : Type 0) : Type 0 where
  pub get : Callback → C → Bool
  pub set : Callback → C → Bool → C

-- The fields `passphrase_cb` and `progress_cb` of `PyGpgmeContext`: objects by number, or `NULL`.
pub record Fields : Type 0 where
  pub passphrase_field : Option ℕ
  pub progress_field : Option ℕ

abbrev pub field_of : Callback → Fields → Option ℕ
field_of passphrase f = f.passphrase_field
field_of progress f = f.progress_field

abbrev pub set_field : Callback → Option ℕ → Fields → Fields
set_field passphrase o f = record f { passphrase_field = o }
set_field progress o f = record f { progress_field = o }

-- `Py_XDECREF`
abbrev pub drop_ref : Option ℕ → (ℕ → ℕ) → ℕ → ℕ
drop_ref none r = r
drop_ref (some o) r = decref o r

-- `Py_XINCREF`
abbrev pub take_ref : Option ℕ → (ℕ → ℕ) → ℕ → ℕ
take_ref none r = r
take_ref (some o) r = incref o r

module _ {C : Type 0} (G : Hooks C) where
  -- `pygpgme_context_set_passphrase_cb` and that of the progress; a value `none` is `None` or a
  -- deletion. The result is always 0.
  unfoldable pub set_callback : Callback → Option ℕ → Fields → World C → Fields × World C
  unfolding lock_context unlock_context
  set_callback k value f w =
      let w1 = lock_context w in
      let used : Bool = elim value [ none ↦ false | some o ↦ true ] in
      let w2 : World C = record w1 {
        refs = take_ref value (drop_ref (field_of k f) w1.refs);
        lib = G.set k w1.lib used;
      } in
      (set_field k value f, unlock_context w2)

  -- `pygpgme_context_get_passphrase_cb` and that of the progress; the inner `none` is `None`. The
  -- outer one is `NULL`, whose references are counted all the same.
  unfoldable pub get_callback : Callback → Fields → World C → Option (Option ℕ) × World C
  unfolding lock_context unlock_context
  get_callback k f w =
      let w1 = lock_context w in
      let found : Option (Option ℕ) =
        if G.get k w1.lib
        then elim (field_of k f) [ none ↦ none | some o ↦ some (some o) ]
        else some none in
      elim found [
        | none ↦ (none, unlock_context (record w1 { py = record w1.py { fault = true } }))
        | some v ↦ (some v, unlock_context (record w1 { refs = take_ref v w1.refs }))
      ]

  abbrev pub get_passphrase_cb : Fields → World C → Option (Option ℕ) × World C
  get_passphrase_cb = get_callback Callback.passphrase

  abbrev pub set_passphrase_cb : Option ℕ → Fields → World C → Fields × World C
  set_passphrase_cb = set_callback Callback.passphrase

  abbrev pub get_progress_cb : Fields → World C → Option (Option ℕ) × World C
  get_progress_cb = get_callback Callback.progress

  abbrev pub set_progress_cb : Option ℕ → Fields → World C → Fields × World C
  set_progress_cb = set_callback Callback.progress
