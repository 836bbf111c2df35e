-- ===== src/Threads/Iteration.antt =====
-- lib/pygpgme-keyiter.c: `pygpgme_keyiter_next` among the other steps of the threads. It gives up the
-- interpreter around gpgme_op_keylist_next, and does not take the mutex.
use mathlib.Core.Path.{subst}
use pygpgme.Base.{
  ℕ, ◌≡◌, sym, ap, true, none, some, ◌==◌, if◌then◌else◌, arith, ==_iff, Bool-cases, inl, inr,
}
use pygpgme.Threads.Moves.{
  Locks, Pc, Move, park, resume, callback_park, callback_resume, System, pick, update, init, Reach,
  start, later,
}
use pygpgme.Threads.Invariant.{has_mutex, Names, Reach-Inv}

-- Where a thread stands in `pygpgme_keyiter_next`: not there, in gpgme, or in `Py_END_ALLOW_THREADS`.
pub data Iterating : Type 0 where
  outside in_next ending : Iterating

-- Python code, in a method or a callback, with and without the interpreter.
pub data Parks : Pc → Pc → Type 0 where
  in_method : Parks Pc.running Pc.parked
  in_callback : Parks Pc.callback Pc.callback_parked

-- The threads, and where they are with an iterator over the keys of the context. While a thread is in
-- `pygpgme_keyiter_next` it stands as one without the interpreter.
pub record Shared : Type 0 where
  pub base : System
  pub iterating : ℕ → Iterating

abbrev pub put_at : ℕ → Iterating → (ℕ → Iterating) → ℕ → Iterating
put_at i p f j = if i == j then p else f j

pub data SharedStep (s : Shared) : Shared → Type 0 where
  -- a step of a thread that is not in `pygpgme_keyiter_next`
  method :
      (i : ℕ) {l : Locks} {p : Pc}
      → s.iterating i ≡ Iterating.outside
      → Move i s.base.locks (s.base.pc i) l p
      → SharedStep s (record s { base = record { locks = l; pc = update s.base.pc i p } })
  -- `Py_BEGIN_ALLOW_THREADS`
  next_save :
      (i : ℕ) {q p : Pc}
      → s.iterating i ≡ Iterating.outside
      → s.base.pc i ≡ q
      → Parks q p
      → SharedStep s (record {
        base = record { locks = record s.base.locks { gil = none }; pc = update s.base.pc i p };
        iterating = put_at i Iterating.in_next s.iterating;
      })
  -- gpgme_op_keylist_next returns
  next_return :
      (i : ℕ)
      → s.iterating i ≡ Iterating.in_next
      → SharedStep s (record s { iterating = put_at i Iterating.ending s.iterating })
  -- `Py_END_ALLOW_THREADS`
  next_restore :
      (i : ℕ) {q p : Pc}
      → s.iterating i ≡ Iterating.ending
      → s.base.pc i ≡ p
      → Parks q p
      → s.base.locks.gil ≡ none
      → SharedStep s (record {
        base = record { locks = record s.base.locks { gil = some i }; pc = update s.base.pc i q };
        iterating = put_at i Iterating.outside s.iterating;
      })

pub data SharedReach : Shared → Type 0 where
  at_start : SharedReach (record { base = init; iterating = λ i. Iterating.outside })
  and_then : {s t : Shared} → SharedReach s → SharedStep s t → SharedReach t

parking : {q p : Pc} (i : ℕ) (l : Locks) → Parks q p → Move i l q (record l { gil = none }) p
parking i l in_method = park
parking i l in_callback = callback_park

resuming :
    {q p : Pc} (i : ℕ) (l : Locks)
    → Parks q p
    → l.gil ≡ none
    → Move i l p (record l { gil = some i }) q
resuming i l in_method e = resume e
resuming i l in_callback e = callback_resume e

-- Iterators change nothing about the locks: without their steps the state is reachable too.
pub SharedReach-Reach : {s : Shared} → SharedReach s → Reach s.base
SharedReach-Reach at_start = start
SharedReach-Reach (and_then r (method i o mv)) = later (SharedReach-Reach r) (pick i mv)
SharedReach-Reach (and_then {s} r (next_save i {q} {p} o e k)) = later (SharedReach-Reach r) (
    pick i (
      subst (λ x. Move i s.base.locks x (record s.base.locks { gil = none }) p) (sym e)
        (parking i s.base.locks k)))
SharedReach-Reach (and_then r (next_return i o)) = SharedReach-Reach r
SharedReach-Reach (and_then {s} r (next_restore i {q} {p} o e k g)) = later (SharedReach-Reach r) (
    pick i (
      subst (λ x. Move i s.base.locks x (record s.base.locks { gil = some i }) q) (sym e)
        (resuming i s.base.locks k g)))

has_mutex_named :
    {s : System} (i : ℕ) → Reach s → has_mutex (s.pc i) ≡ true → s.locks.mutex ≡ some i
has_mutex_named {s} i r e = subst (λ b. Names s.locks.mutex i b) e ((Reach-Inv r).holds i).mutex_at

-- Whatever the threads did before, while one of them is in gpgme for a method of the context, with the
-- mutex, any other that runs Python code and is not in an iterator can enter gpgme_op_keylist_next for
-- the same context: both are then in gpgme, and the first still has the mutex.
iterator_races :
    {s : Shared}
    → SharedReach s
    → (i j : ℕ) → s.base.pc i ≡ Pc.inside
    → s.base.pc j ≡ Pc.running
    → s.iterating j ≡ Iterating.outside
    → (t : Shared) × SharedReach t
      × (t.base.pc i ≡ Pc.inside)
      × (t.iterating j ≡ Iterating.in_next)
      × (t.base.locks.mutex ≡ some i)
iterator_races {s} r i j e f o =
    let still : update s.base.pc j Pc.parked i ≡ Pc.inside = elim (Bool-cases (j == i)) [
      | inl q ↦ absurd (ground (arith, e, f, ap s.base.pc ((==_iff j i).0 q)))
      | inr q ↦ ground (arith, q, e)
    ] in
    let step = next_save j o f in_method in
    let named = has_mutex_named i (SharedReach-Reach (and_then r step)) (ap has_mutex still) in
    (_, and_then r step, still, ground (arith, ==_iff j j), named)
