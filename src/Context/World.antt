-- ===== src/Context/World.antt =====
-- lib/pygpgme-context.c: the state that a method call works on, and its locks.
use pygpgme.Base.{ℕ, ◌+◌, ◌-◌, Bool, true, false, not, ◌||◌, ◌==◌, if◌then◌else◌}
use pygpgme.Python.State.{PyState, set_error}
use pygpgme.Python.Value.{ExcType}
use pygpgme.Gpgme.Engine.{Op, Engine}

-- One `PyGpgmeContext` and the thread that calls it. `refs` and `keys` count the references that C
-- code holds on Python objects and on gpgme keys, by their numbers; `owned` counts the new Python
-- objects that only C code refers to, `blocks` the blocks of C memory in use. `broken` is set by a
-- failed assertion about the locks, by a wait for a mutex that the thread itself holds, and by a
-- call of gpgme or CPython with the wrong locks held.
pub record World (C : Type 0) : Type 0 where
  pub py : PyState
  pub lib : C
  pub gil : Bool
  pub mutex : Bool
  pub tstate : Bool
  pub refs : ℕ → ℕ
  pub keys : ℕ → ℕ
  pub owned : ℕ
  pub blocks : ℕ
  pub broken : Bool

-- 1 at the object itself, else 0.
unfoldable pub same : ℕ → ℕ → ℕ
same o x = if x == o then 1 else 0

-- `Py_INCREF` and `Py_DECREF`, on a table of references.
abbrev pub incref : ℕ → (ℕ → ℕ) → ℕ → ℕ
incref o r x = r x + same o x

abbrev pub decref : ℕ → (ℕ → ℕ) → ℕ → ℕ
decref o r x = r x - same o x

module _ {C : Type 0} where
  abbrev pub with_error : ExcType → World C → World C
  with_error k w = record w { py = set_error k w.py }

  -- `begin_allow_threads`: the interpreter is released, the mutex taken and the thread state kept.
  unfoldable pub begin_allow_threads : World C → World C
  begin_allow_threads w = record w {
    gil = false;
    mutex = true;
    tstate = true;
    broken = w.broken || (not w.gil || (w.mutex || w.tstate));
  }

  -- `end_allow_threads`
  unfoldable pub end_allow_threads : World C → World C
  end_allow_threads w = record w {
    gil = true;
    mutex = false;
    tstate = false;
    broken = w.broken || (not w.tstate || (w.gil || not w.mutex));
  }

  -- `lock_context`
  unfoldable pub lock_context : World C → World C
  lock_context w = record w { mutex = true; broken = w.broken || (not w.gil || w.mutex) }

  -- `unlock_context`
  unfoldable pub unlock_context : World C → World C
  unlock_context w = record w { mutex = false; broken = w.broken || not w.mutex }

  -- An operation of gpgme that calls back into Python: it must run with the interpreter released,
  -- under the mutex and with the thread state kept.
  unfoldable pub perform : Engine C → Op → World C → ℕ × World C
  perform E op w =
      let (err, c) = E.perform w.lib op in
      (err, record w { lib = c; broken = w.broken || (w.gil || (not w.mutex || not w.tstate)) })

  -- `begin_allow_threads(self); err = gpgme_op_...; end_allow_threads(self);`
  unfoldable pub run_op : Engine C → Op → World C → ℕ × World C
  unfolding begin_allow_threads perform end_allow_threads
  run_op E op w =
      let (err, w1) = perform E op (begin_allow_threads w) in (err, end_allow_threads w1)
