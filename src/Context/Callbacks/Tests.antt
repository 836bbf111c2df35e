-- ===== src/Context/Callbacks/Tests.antt =====
-- Callbacks that raise, called from an operation.
use pygpgme.Base.{ℕ, refl, true, false}
use pygpgme.Base.Int.{pos}
use pygpgme.Python.Value.{EnumName, type_error}
use pygpgme.Constants.Lookup.{enum_value_new}
use pygpgme.Python.State.{PyState, set_error}
use pygpgme.Errors.Tests.{demo}
use pygpgme.Context.World.{World}
use pygpgme.Context.Tests.{fresh}
use pygpgme.Context.Callbacks.{passphrase_cb, progress_cb, edit_cb}
use pygpgme.Context.Callbacks.Leaves.{IsInside, Leaves, Reports, Interacts, callbacks-Leaves}

abbrev inside : World ℕ
inside = record fresh { gil = false; mutex = true; tstate = true }

inside-IsInside : IsInside inside
inside-IsInside = record { released = refl; kept = refl }

abbrev raising : PyState → PyState
raising = set_error type_error

callbacks-Leaves_example :
    Leaves inside (passphrase_cb demo raising inside).1
    × Reports demo (raising inside.py).exc (passphrase_cb demo raising inside).0
    × Leaves inside (progress_cb raising inside)
    × (let (found, s) = enum_value_new demo EnumName.status (pos 3) inside.py in
        Interacts demo inside inside-IsInside
          (λ v s. raising s)
          found
          s
          (edit_cb demo (λ v s. raising s) 3 inside))
callbacks-Leaves_example =
    callbacks-Leaves demo inside inside-IsInside raising raising (λ v s. raising s) 3
