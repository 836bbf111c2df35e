-- ===== src/Context/Callbacks/Leaves.antt =====
-- What gpgme finds when one of its callbacks returns.
use mathlib.Core.Path.{subst}
use pygpgme.Base.{ℕ, ◌≡◌, true, false, Option, none, some, arith, ap, sym, ◌∙◌, inl, inr}
use pygpgme.Python.Value.{EnumName, Value, Exc}
use pygpgme.Python.State.{Platform, PyState}
use pygpgme.Base.Int.{pos}
use pygpgme.Constants.Lookup.{enum_value_new}
use pygpgme.Errors.Convert.{check_pyerror}
use pygpgme.Errors.Pending.{Means, check_pyerror-Means}
use pygpgme.Context.World.{World}
use pygpgme.Context.Callbacks.{
  edit_call, passphrase_cb, progress_cb, edit_cb, restore_thread, save_thread,
}

-- The thread runs an operation of gpgme: the interpreter is released and its state kept.
pub record IsInside {C : Type 0} (w : World C) : Type 0 where
  pub released : w.gil ≡ false
  pub kept : w.tstate ≡ true

-- A callback returned to the operation: as before it, with no exception pending, no rule about the
-- locks broken, and gpgme's context, the references and the memory that C code counts untouched.
pub record Leaves {C : Type 0} (w w' : World C) : Type 0 where
  pub released : w'.gil ≡ false
  pub kept : w'.tstate ≡ true
  pub mutex_same : w'.mutex ≡ w.mutex
  pub unbroken : w'.broken ≡ w.broken
  pub no_exc : w'.py.exc ≡ none
  pub lib_same : w'.lib ≡ w.lib
  pub refs_same : w'.refs ≡ w.refs
  pub blocks_same : w'.blocks ≡ w.blocks

-- The error that stands for how a Python function ended.
abbrev pub Reports : Platform → Option Exc → ℕ → Type 0
Reports P none err = err ≡ 0
Reports P (some e) err = Means P e.kind e.args err

check_pyerror-Reports :
    (P : Platform) (s : PyState)
    → Reports P s.exc (check_pyerror P s).0 × ((check_pyerror P s).1.exc ≡ none)
check_pyerror-Reports P s = elim (check_pyerror-Means P s) [
  | inl (q, e) ↦ (
    subst (λ o. Reports P o (check_pyerror P s).0) (sym q) (ap (λ r. r.0) e),
    ap (λ r. r.1.exc) e ∙ q,
  )
  | inr (x, q, m, e) ↦ (subst (λ o. Reports P o (check_pyerror P s).0) (sym q) m, ap (λ t. t.exc) e)
]

module _ {C : Type 0} (P : Platform) (w : World C) (h : IsInside w) where
  passphrase_cb-Leaves : (call : PyState → PyState) → Leaves w (passphrase_cb P call w).1
  unfolding passphrase_cb
  passphrase_cb-Leaves call = let r = check_pyerror-Reports P (call w.py) in ground arith

  progress_cb-Leaves : (call : PyState → PyState) → Leaves w (progress_cb call w)
  unfolding progress_cb
  progress_cb-Leaves call = ground arith

  pub edit_cb-Leaves :
      (call : Value → PyState → PyState) (status : ℕ) → Leaves w (edit_cb P call status w).1
  unfolding edit_cb
  edit_cb-Leaves call status =
      let s = edit_call call (enum_value_new P EnumName.status (pos status) w.py) in
      let r = check_pyerror-Reports P s in ground arith

  -- What `pygpgme_edit_cb` comes to, by the object for the status: where there is none, `Py_DECREF(NULL)`.
  abbrev pub Interacts : (Value → PyState → PyState) → Option Value → PyState → ℕ × World C → Type 0
  Interacts call none s (err, w') = w'.py.fault ≡ true
  Interacts call (some v) s (err, w') = Leaves w w' × Reports P (call v s).exc err

  edit_cb_end :
      (call : Value → PyState → PyState) (r : Option Value × PyState)
      → let (err, s1) = check_pyerror P (edit_call call r) in
        Interacts call r.0 r.1 (err, save_thread (record (restore_thread w) { py = s1 }))
  unfolding edit_call check_pyerror save_thread restore_thread
  edit_cb_end call (none, s) = ground arith
  edit_cb_end call (some v, s) = let r = check_pyerror-Reports P (call v s) in (ground arith, r.0)

  edit_cb-Interacts :
      (call : Value → PyState → PyState) (status : ℕ)
      → let (found, s) = enum_value_new P EnumName.status (pos status) w.py in
        Interacts call found s (edit_cb P call status w)
  unfolding edit_cb
  edit_cb-Interacts call status =
      edit_cb_end call (enum_value_new P EnumName.status (pos status) w.py)

  -- Whatever a Python callback does to its thread's state, each of the three functions that gpgme calls
  -- back returns to the operation as it was called, with the interpreter released and the thread state
  -- kept, no exception pending and no rule about the locks broken; the passphrase and the edit function
  -- return the error that stands for the exception that the Python function left, 0 if it left none. The
  -- edit function does so where there is an object for the status; where it cannot be made, the
  -- function calls `Py_DECREF(NULL)`, after which C promises nothing.
  pub callbacks-Leaves :
      (ask show : PyState → PyState) (interact : Value → PyState → PyState) (status : ℕ)
      → Leaves w (passphrase_cb P ask w).1
        × Reports P (ask w.py).exc (passphrase_cb P ask w).0
        × Leaves w (progress_cb show w)
        × (let (found, s) = enum_value_new P EnumName.status (pos status) w.py in
            Interacts interact found s (edit_cb P interact status w))
  unfolding passphrase_cb
  callbacks-Leaves ask show interact status = (
    passphrase_cb-Leaves ask,
    (check_pyerror-Reports P (ask w.py)).0,
    progress_cb-Leaves show,
    edit_cb-Interacts interact status,
  )
