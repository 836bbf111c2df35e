-- ===== src/Threads/Tests.antt =====
-- Two threads on one context, step by step.
use pygpgme.Base.{ℕ, ◌≡◌, ◌≢◌, refl, some}
use pygpgme.Threads.Moves.{
  Pc, System, Reach, start, later, pick, Steps, none_left, then_step, begin_save, begin_acquire,
  begin_set, enter_call, enter_restore, reenter, resume, lock_save,
}
use pygpgme.Threads.Safety.{mutex_exclusive, assertions_hold, reentry_deadlocks}

-- Thread 0 is in gpgme, for a method of the context.
abbrev in_gpgme : (s : System) × Reach s
in_gpgme = (
  _,
  later (later (later start (pick 0 begin_save)) (pick 0 (begin_acquire refl)))
      (pick 0 (begin_set refl)),
)

-- Its callback calls a method of the context again.
abbrev reentered : (s : System) × Reach s
reentered = (
  _,
  later (later (later in_gpgme.1 (pick 0 (enter_call refl))) (pick 0 (enter_restore refl)))
      (pick 0 reenter),
)

-- Thread 1 then runs, and waits for the context too.
abbrev both_wait : (s : System) × Steps reentered.0 s
both_wait = (_, then_step (pick 1 (resume refl)) (then_step (pick 1 lock_save) none_left))

mutex_exclusive_example : (in_gpgme.0.locks.mutex ≡ some 0) × (◌≡◌ {A = ℕ} 0 0)
mutex_exclusive_example = mutex_exclusive in_gpgme.1 0 0 refl refl

assertions_hold_example : in_gpgme.0.pc 0 ≢ Pc.crashed
assertions_hold_example = assertions_hold in_gpgme.1 0

reentry_deadlocks_example : (both_wait.0.pc 0 ≡ Pc.nested) × (both_wait.0.locks.mutex ≡ some 0)
reentry_deadlocks_example = reentry_deadlocks reentered.1 both_wait.1 0 refl
