-- ===== src/Threads/Moves.antt =====
-- The steps of `begin_allow_threads`, `end_allow_threads`, `lock_context`, `unlock_context` and of the
-- callbacks, one blocking or visible action at a time.
use pygpgme.Base.{ℕ, ◌≡◌, ◌≢◌, Option, none, some, ◌==◌, if◌then◌else◌}

-- The locks: the thread that holds the interpreter, the thread that holds the context's mutex, and
-- the thread whose state `self->tstate` keeps.
pub record Locks : Type 0 where
  pub gil : Option ℕ
  pub mutex : Option ℕ
  pub tstate : Option ℕ

-- Where a thread stands.
pub data Pc : Type 0 where
  -- in Python code, with or without the interpreter
  running parked : Pc
  -- `begin_allow_threads`: before `PyThread_acquire_lock`, and before the assertion
  acquiring asserting : Pc
  -- in gpgme, without the interpreter
  inside : Pc
  -- `end_allow_threads`: in `PyEval_RestoreThread`, before `self->tstate = NULL`, and before the release
  restoring clearing releasing : Pc
  -- a callback: in `PyEval_RestoreThread`, in its Python code with or without the interpreter, and
  -- before the assignment to `self->tstate`
  entering callback callback_parked saving : Pc
  -- `lock_context`: before the acquisition, before the interpreter is back, and until `unlock_context`
  locking locked_parked locked : Pc
  -- a method of the same context, called in the callback, that waits for the mutex
  nested : Pc
  -- a failed assertion, or `PyEval_RestoreThread` of a state that is not the thread's own
  crashed : Pc

-- The steps of thread `i`.
pub data Move (i : ℕ) (l : Locks) : Pc → Locks → Pc → Type 0 where
  park : Move i l Pc.running (record l { gil = none }) Pc.parked
  resume : l.gil ≡ none → Move i l Pc.parked (record l { gil = some i }) Pc.running
  -- `begin_allow_threads`
  begin_save : Move i l Pc.running (record l { gil = none }) Pc.acquiring
  begin_acquire : l.mutex ≡ none → Move i l Pc.acquiring (record l { mutex = some i }) Pc.asserting
  begin_set : l.tstate ≡ none → Move i l Pc.asserting (record l { tstate = some i }) Pc.inside
  begin_fail : l.tstate ≢ none → Move i l Pc.asserting l Pc.crashed
  -- `end_allow_threads`
  end_call : l.tstate ≡ some i → Move i l Pc.inside l Pc.restoring
  end_restore : l.gil ≡ none → Move i l Pc.restoring (record l { gil = some i }) Pc.clearing
  end_clear : Move i l Pc.clearing (record l { tstate = none }) Pc.releasing
  end_release : Move i l Pc.releasing (record l { mutex = none }) Pc.running
  -- the callbacks, and the assertion that `end_allow_threads` makes too
  enter_call : l.tstate ≡ some i → Move i l Pc.inside l Pc.entering
  inside_fail : l.tstate ≢ some i → Move i l Pc.inside l Pc.crashed
  enter_restore : l.gil ≡ none → Move i l Pc.entering (record l { gil = some i }) Pc.callback
  callback_park : Move i l Pc.callback (record l { gil = none }) Pc.callback_parked
  callback_resume :
      l.gil ≡ none → Move i l Pc.callback_parked (record l { gil = some i }) Pc.callback
  leave_save : Move i l Pc.callback (record l { gil = none }) Pc.saving
  leave_set : Move i l Pc.saving (record l { tstate = some i }) Pc.inside
  -- a callback that calls a method of its own context
  reenter : Move i l Pc.callback (record l { gil = none }) Pc.nested
  nested_acquire : l.mutex ≡ none → Move i l Pc.nested (record l { mutex = some i }) Pc.asserting
  -- `lock_context` and `unlock_context`
  lock_save : Move i l Pc.running (record l { gil = none }) Pc.locking
  lock_acquire : l.mutex ≡ none → Move i l Pc.locking (record l { mutex = some i }) Pc.locked_parked
  lock_restore : l.gil ≡ none → Move i l Pc.locked_parked (record l { gil = some i }) Pc.locked
  unlock : Move i l Pc.locked (record l { mutex = none }) Pc.running

pub record System : Type 0 where
  pub locks : Locks
  pub pc : ℕ → Pc

abbrev pub update : (ℕ → Pc) → ℕ → Pc → ℕ → Pc
update f i p j = if i == j then p else f j

pub data Step (s : System) : System → Type 0 where
  pick :
      (i : ℕ) {l : Locks} {p : Pc}
      → Move i s.locks (s.pc i) l p
      → Step s (record { locks = l; pc = update s.pc i p })

-- A new context: all threads are in Python code, and thread 0 holds the interpreter.
abbrev pub at_first : ℕ → Pc
at_first i = if i == 0 then Pc.running else Pc.parked

abbrev pub init : System
init = record { locks = record { gil = some 0; mutex = none; tstate = none }; pc = at_first }

pub data Reach : System → Type 0 where
  start : Reach init
  later : {s t : System} → Reach s → Step s t → Reach t

-- Any number of further steps.
pub data Steps : System → System → Type 0 where
  none_left : {s : System} → Steps s s
  then_step : {s t u : System} → Step s t → Steps t u → Steps s u
