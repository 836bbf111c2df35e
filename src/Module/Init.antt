-- ===== src/Module/Init.antt =====
-- lib/gpgme.c: `PyInit__gpgme` and the slots of the module.
use pygpgme.Base.{ℕ, Bool, true, false, ltb, Option, none, some, List, [], ◌∷◌, if◌then◌else◌}
use pygpgme.Python.Value.{ExcType, another}
use pygpgme.Python.State.{PyState, set_error}

-- `Py_mod_exec` with `pygpgme_mod_exec`, `Py_mod_multiple_interpreters` with a GIL for each, and
-- `Py_mod_gil` with none.
pub data ModuleSlot : Type 0 where
  mod_exec_slot per_interpreter_gil gil_not_used : ModuleSlot

-- The slots by `PY_VERSION_HEX`: 0x030c0000 and 0x030d0000 are the bounds.
unfoldable pub mod_slots : ℕ → List ModuleSlot
mod_slots version =
    let free = if ltb version 51183616 then [] else gil_not_used ∷ [] in
    let rest = if ltb version 51118080 then free else per_interpreter_gil ∷ free in
    mod_exec_slot ∷ rest

-- The class of `ImportError`.
abbrev pub import_error : ExcType
import_error = another 3

-- `PyInit__gpgme`, by whether gpgme is at least 1.13.0: the slots of the module, or `NULL`.
unfoldable pub init_module : Bool → ℕ → PyState → Option (List ModuleSlot) × PyState
init_module false version s = (none, set_error import_error s)
init_module true version s = (some (mod_slots version), s)
