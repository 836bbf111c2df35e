-- ===== src/Threads/Safety.antt =====
-- What holds in every reachable state, and the one way in which a thread waits for ever.
use mathlib.Core.Path.{subst}
use pygpgme.Base.{
  ap, ◌∙◌, ℕ, ◌≡◌, ◌≢◌, refl, Bool, some, true, false, Option, ◌==◌, if◌then◌else◌, arith,
}
use pygpgme.Threads.Moves.{
  Locks, Pc, Move, nested_acquire, System, Step, pick, Reach, later, Steps, none_left, then_step,
}
use pygpgme.Threads.Invariant.{has_gil, has_mutex, Names, Holds, Reach-Inv}

holder :
    (o : Option ℕ) (i j : ℕ) (a b : Bool) → Names o i a → Names o j b → a ≡ true → b ≡ true → i ≡ j
holder o i j true true p q ea eb = ground arith
holder o i j _ _ p q ea eb = ground arith

named : (o : Option ℕ) (i : ℕ) (b : Bool) → Names o i b → b ≡ true → o ≡ some i
named o i true n e = n
named o i false n e = ground arith

-- In every state that any threads reach by any order of their steps, if a thread stands between a
-- `PyThread_acquire_lock` and its `PyThread_release_lock` in `begin_allow_threads`,
-- `end_allow_threads`, `lock_context`, `unlock_context` or a callback, then the mutex is the
-- thread's own, and any thread that stands at such a point too is the same thread. The calls of gpgme
-- that the source makes without the mutex (the iterator's, those for a call's result, and the first
-- one of `get_engine_info`) are no such points.
pub mutex_exclusive :
    {s : System}
    → Reach s
    → (i j : ℕ) → has_mutex (s.pc i) ≡ true
    → has_mutex (s.pc j) ≡ true
    → (s.locks.mutex ≡ some i) × (i ≡ j)
mutex_exclusive {s} r i j a b =
    let inv = Reach-Inv r in
    (
      named s.locks.mutex i _ (inv.holds i).mutex_at a,
      holder s.locks.mutex i j _ _ (inv.holds i).mutex_at (inv.holds j).mutex_at a b,
    )

-- In every reachable state, two threads that both run Python code (the method itself, or one that a
-- callback calls) are the same thread: the interpreter is given up before the mutex is waited for
-- and taken back before Python objects are used.
interpreter_exclusive :
    {s : System} → Reach s → (i j : ℕ) → has_gil (s.pc i) ≡ true → has_gil (s.pc j) ≡ true → i ≡ j
interpreter_exclusive {s} r i j a b =
    let inv = Reach-Inv r in
    holder s.locks.gil i j _ _ (inv.holds i).gil_at (inv.holds j).gil_at a b

-- In no reachable state has a thread failed: `begin_allow_threads` always finds `self->tstate` NULL,
-- and `end_allow_threads` and the callbacks always find the state that their own thread left.
pub assertions_hold : {s : System} → Reach s → (i : ℕ) → s.pc i ≢ Pc.crashed
assertions_hold r i = ((Reach-Inv r).holds i).alive

stuck : {i : ℕ} {l m : Locks} {p q : Pc} → Move i l p m q → Holds l i p → p ≢ Pc.nested
stuck (nested_acquire g) h = ground arith
stuck mv h = ground arith

Step-nested : {s t : System} (i : ℕ) → Reach s → s.pc i ≡ Pc.nested → Step s t → t.pc i ≡ Pc.nested
Step-nested {s} i r e (pick j {p} mv) = go (j == i) refl
  where
    waits : j ≡ i → s.pc j ≡ Pc.nested
    waits eq = ap s.pc eq ∙ e

    go : (b : Bool) → (j == i) ≡ b → (if b then p else s.pc i) ≡ Pc.nested
    go true eq = absurd (stuck mv ((Reach-Inv r).holds j) (waits (ground arith)))
    go false eq = e

nested-mutex : {l : Locks} {i : ℕ} {p : Pc} → p ≡ Pc.nested → Holds l i p → l.mutex ≡ some i
nested-mutex {l} {i} e h = subst (λ p. Names l.mutex i (has_mutex p)) e h.mutex_at

-- A callback that calls a method of its own context waits for ever: once a thread of a reachable state
-- waits for the mutex that it holds itself, then after any further steps of any threads it still
-- waits, and the mutex is still its own, so that no thread gets it again.
pub reentry_deadlocks :
    {s t : System}
    → Reach s
    → Steps s t
    → (i : ℕ) → s.pc i ≡ Pc.nested
    → (t.pc i ≡ Pc.nested) × (t.locks.mutex ≡ some i)
reentry_deadlocks r none_left i e = (e, nested-mutex e ((Reach-Inv r).holds i))
reentry_deadlocks r (then_step st more) i e =
    reentry_deadlocks (later r st) more i (Step-nested i r e st)
