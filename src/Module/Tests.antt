-- ===== src/Module/Tests.antt =====
-- A module set up with a failure, and one without.
use pygpgme.Base.{◌+◌, ◌≡◌, refl, Bool, true, false, none, List, [], ◌∷◌, arith}
use pygpgme.Context.World.{same}
use pygpgme.Module.State.{Field}
use pygpgme.Module.Exec.{mod_exec}
use pygpgme.Module.Collect.{mod_traverse, mod_clear}
use pygpgme.Module.Fields.{count, held}
use pygpgme.Module.Owners.{listed, enum_fields}
use pygpgme.Module.Clear.{new_module, mod_clear-mod_traverse, mod_exec-mod_clear}

-- The third class cannot be made.
abbrev failing : List Bool
failing = true ∷ true ∷ true ∷ false ∷ []

mod_exec_fails : (mod_exec (new_module failing)).0 ≡ true
unfolding mod_exec
mod_exec_fails = refl

mod_exec_works :
    ((mod_exec (new_module [])).0 ≡ false) × ((mod_exec (new_module [])).1.pending ≡ false)
unfolding mod_exec
mod_exec_works = (refl, refl)

-- The state and the module hold the class of contexts, object 1.
context_refs :
    let m = (mod_exec (new_module failing)).1 in (count 1 (mod_traverse m) ≡ 1) × (m.refs 1 ≡ 2)
unfolding mod_exec mod_traverse count same
context_refs = (refl, refl)

mod_clear-mod_traverse_example :
    let m = (mod_exec (new_module failing)).1 in
    ((f : Field) → (mod_clear m).slots f ≡ none)
    × ((mod_clear m).refs 1 + count 1 (mod_traverse m) ≡ m.refs 1)
mod_clear-mod_traverse_example =
    mod_clear-mod_traverse (mod_exec (new_module failing)).1 1 (omega (arith, context_refs))

mod_exec-mod_clear_example :
    let m = (mod_exec (new_module failing)).1 in
    (mod_clear m).refs 1 + held 1 enum_fields m.slots ≡ listed 1 (mod_clear m).attrs
mod_exec-mod_clear_example = mod_exec-mod_clear failing 1

-- The class of the first enumeration, object 13, is listed once by the module and has no reference.
over_released :
    let m = mod_clear (mod_exec (new_module [])).1 in (m.refs 13 ≡ 0) × (listed 13 m.attrs ≡ 1)
unfolding mod_exec mod_clear listed same
over_released = (refl, refl)
