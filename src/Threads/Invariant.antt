-- ===== src/Threads/Invariant.antt =====
-- Who holds which lock, by where the threads stand; true at first and kept by every step.
use mathlib.Core.Path.{subst}
use pygpgme.Base.{
  Option-cases, inl, inr, ℕ, ◌≡◌, ◌≢◌, refl, Bool, true, false, Option, none, some, ◌==◌,
  if◌then◌else◌, arith,
}
use pygpgme.Threads.Moves.{
  Locks, Pc, Move, resume, begin_acquire, begin_set, begin_fail, end_call, end_restore, enter_call,
  inside_fail, enter_restore, callback_resume, nested_acquire, lock_acquire, lock_restore, System,
  Step, pick, update, init, Reach, start, later,
}

-- The thread holds the interpreter.
abbrev pub has_gil : Pc → Bool
has_gil Pc.running = true
has_gil Pc.clearing = true
has_gil Pc.releasing = true
has_gil Pc.callback = true
has_gil Pc.locked = true
has_gil _ = false

-- The thread holds the mutex.
abbrev pub has_mutex : Pc → Bool
has_mutex Pc.running = false
has_mutex Pc.parked = false
has_mutex Pc.acquiring = false
has_mutex Pc.locking = false
has_mutex Pc.crashed = false
has_mutex _ = true

-- The context keeps the thread's state.
abbrev pub keeps_tstate : Pc → Bool
keeps_tstate Pc.inside = true
keeps_tstate Pc.restoring = true
keeps_tstate Pc.clearing = true
keeps_tstate Pc.entering = true
keeps_tstate Pc.callback = true
keeps_tstate Pc.callback_parked = true
keeps_tstate Pc.saving = true
keeps_tstate Pc.nested = true
keeps_tstate _ = false

-- `o` names thread `j` exactly if `b`.
abbrev pub Names : Option ℕ → ℕ → Bool → Type 0
Names o j true = o ≡ some j
Names o j false = o ≢ some j

-- Thread `j` has exactly the locks that its place says, and no assertion of its has failed.
pub record Holds (l : Locks) (j : ℕ) (p : Pc) : Type 0 where
  pub gil_at : Names l.gil j (has_gil p)
  pub mutex_at : Names l.mutex j (has_mutex p)
  pub tstate_at : Names l.tstate j (keeps_tstate p)
  pub alive : p ≢ Pc.crashed

-- No state is kept for a thread but the one with the mutex.
abbrev Guarded : Locks → Type 0
Guarded l = (j : ℕ) → l.tstate ≡ some j → l.mutex ≡ some j

-- Every thread has the locks that its place says, and a kept state goes with the mutex.
pub record Inv (s : System) : Type 0 where
  pub holds : (j : ℕ) → Holds s.locks j (s.pc j)
  pub guarded : Guarded s.locks

-- The premise of a move, for the catch-all clauses below, which cannot name it.
abbrev Guard : {i : ℕ} {l m : Locks} {p q : Pc} → Move i l p m q → Type 0
Guard {l} (resume _) = l.gil ≡ none
Guard {l} (begin_acquire _) = l.mutex ≡ none
Guard {l} (begin_set _) = l.tstate ≡ none
Guard {l} (begin_fail _) = l.tstate ≢ none
Guard {i} {l} (end_call _) = l.tstate ≡ some i
Guard {l} (end_restore _) = l.gil ≡ none
Guard {i} {l} (enter_call _) = l.tstate ≡ some i
Guard {i} {l} (inside_fail _) = l.tstate ≢ some i
Guard {l} (enter_restore _) = l.gil ≡ none
Guard {l} (callback_resume _) = l.gil ≡ none
Guard {l} (nested_acquire _) = l.mutex ≡ none
Guard {l} (lock_acquire _) = l.mutex ≡ none
Guard {l} (lock_restore _) = l.gil ≡ none
Guard _ = Unit

guard : {i : ℕ} {l m : Locks} {p q : Pc} (mv : Move i l p m q) → Guard mv
guard (resume g) = g
guard (begin_acquire g) = g
guard (begin_set g) = g
guard (begin_fail g) = g
guard (end_call g) = g
guard (end_restore g) = g
guard (enter_call g) = g
guard (inside_fail g) = g
guard (enter_restore g) = g
guard (callback_resume g) = g
guard (nested_acquire g) = g
guard (lock_acquire g) = g
guard (lock_restore g) = g
guard _ = tt

-- A failed assertion needs a state that its thread did not leave.
no_crash :
    {i : ℕ} {l m : Locks} {p q : Pc} → Move i l p m q → Guarded l → Holds l i p → q ≢ Pc.crashed
no_crash {l} (begin_fail g) d h = elim (Option-cases l.tstate) [
  | inl e ↦ ground arith
  | inr (j, e) ↦ ground (arith, d j)
]
no_crash (inside_fail g) d h = ground arith
no_crash mv d h = ground arith

Move-self :
    {i : ℕ} {l m : Locks} {p q : Pc} → Move i l p m q → Guarded l → Holds l i p → Holds m i q
Move-self (resume g) d h = record {
  gil_at = ground arith;
  mutex_at = ground arith;
  tstate_at = ground arith;
  alive = no_crash (resume g) d h;
}
Move-self (begin_fail g) d h = absurd (no_crash (begin_fail g) d h refl)
Move-self mv d h = record {
  gil_at = ground (arith, guard mv);
  mutex_at = ground (arith, guard mv);
  tstate_at = ground (arith, guard mv, no_crash mv d h);
  alive = no_crash mv d h;
}

-- A move of thread `i` leaves each lock as it is for another thread `j`.
module _ {i j : ℕ} (ne : i ≢ j) where
  gil_kept :
      {l m : Locks} {p q : Pc}
      → Move i l p m q
      → Holds l i p
      → (b : Bool) → Names l.gil j b
      → Names m.gil j b
  gil_kept (resume g) h true n = ground arith
  gil_kept mv h true n = ground (arith, guard mv)
  gil_kept (resume g) h false n = ground arith
  gil_kept mv h false n = ground (arith, guard mv)

  mutex_kept :
      {l m : Locks} {p q : Pc}
      → Move i l p m q
      → Holds l i p
      → (b : Bool) → Names l.mutex j b
      → Names m.mutex j b
  mutex_kept (resume g) h b n = n
  mutex_kept mv h true n = ground (arith, guard mv)
  mutex_kept mv h false n = ground (arith, guard mv)

  tstate_kept :
      {l m : Locks} {p q : Pc}
      → Move i l p m q
      → Holds l i p
      → (b : Bool) → Names l.tstate j b
      → Names m.tstate j b
  tstate_kept (resume g) h b n = n
  tstate_kept mv h true n = ground (arith, guard mv)
  tstate_kept mv h false n = ground (arith, guard mv)

  Move-other : {l m : Locks} {p q r : Pc} → Move i l p m q → Holds l i p → Holds l j r → Holds m j r
  Move-other {r} mv h k = record {
    gil_at = gil_kept mv h (has_gil r) k.gil_at;
    mutex_at = mutex_kept mv h (has_mutex r) k.mutex_at;
    tstate_at = tstate_kept mv h (keeps_tstate r) k.tstate_at;
    alive = k.alive;
  }

Move-Guarded :
    {i : ℕ} {l m : Locks} {p q : Pc} → Move i l p m q → Guarded l → Holds l i p → Guarded m
Move-Guarded (resume g) d h j e = d j e
Move-Guarded mv d h j e = ground (arith, guard mv, d j)

init-Inv : Inv init
init-Inv = record {
  holds = λ j. record {
    gil_at = ground arith;
    mutex_at = ground arith;
    tstate_at = ground arith;
    alive = ground arith;
  };
  guarded = λ j e. ground arith;
}

update-Holds :
    (f : ℕ → Pc) {i j : ℕ} {m : Locks} {p : Pc}
    → Holds m i p
    → (i ≢ j → Holds m j (f j))
    → Holds m j (update f i p j)
update-Holds f {i} {j} {m} {p} new old = go (i == j) refl
  where
    go : (b : Bool) → (i == j) ≡ b → Holds m j (if b then p else f j)
    go true e = subst (λ k. Holds m k p) (ground arith) new
    go false e = old (ground arith)

Step-Inv : {s t : System} → Step s t → Inv s → Inv t
Step-Inv {s} (pick i mv) inv = record {
  holds = λ j.
      update-Holds s.pc (Move-self mv inv.guarded (inv.holds i))
        (λ ne. Move-other ne mv (inv.holds i) (inv.holds j));
  guarded = Move-Guarded mv inv.guarded (inv.holds i);
}

pub Reach-Inv : {s : System} → Reach s → Inv s
Reach-Inv start = init-Inv
Reach-Inv (later r st) = Step-Inv st (Reach-Inv r)
