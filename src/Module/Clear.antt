-- ===== src/Module/Clear.antt =====
-- lib/gpgme.c: `pygpgme_mod_clear` against `pygpgme_mod_traverse` and `pygpgme_mod_exec`.
use pygpgme.Base.{
  ℕ, ◌+◌, ◌≤◌, ◌≡◌, refl, ap, sym, ◌∙◌, Bool, true, false, none, List, [], ◌∷◌, ◌++◌, map, arith,
  Bool-cases, inl, inr, ==_iff, ◌==◌, if◌then◌else◌,
}
use pygpgme.Python.Value.{EnumName}
use pygpgme.Module.State.{
  context, engine_info, key, subkey, user_id, key_sig, key_iter, new_signature, signature,
  sig_notation, import_result, genkey_result, Field, type_field, enum_field, error_field, Module,
  index, clear_slot,
}
use pygpgme.Module.Exec.{all_types, mod_exec}
use pygpgme.Module.Collect.{clear_fields, traverse_fields, mod_traverse, clear_all, mod_clear}
use pygpgme.Module.Fields.{mem, distinct, count, held, slot_refs, Unset, count-objects, index_inj}
use pygpgme.Module.Owners.{IsBalanced, listed, enum_fields, own_fields}
use pygpgme.Module.Balance.{held_total, clear_all_refs, mod_exec-IsBalanced}

-- A module as the interpreter makes it, with the outcomes of the creations to come.
abbrev pub new_module : List Bool → Module
new_module outcomes = record {
  slots = λ f. none;
  attrs = [];
  refs = λ x. 0;
  next = 0;
  outcomes = outcomes;
  pending = false;
  fault = false;
}

clear_slot_slots :
    (f g : Field) (m : Module)
    → (clear_slot f m).slots g ≡ (if index f == index g then none else m.slots g)
unfolding clear_slot
clear_slot_slots f g m = elim (Bool-cases (index f == index g)) [
  | inl e ↦
      let alike : m.slots f ≡ m.slots g = ap m.slots (index_inj f g ((==_iff _ _).0 e)) in
      ground arith
  | inr e ↦ ground arith
]

clear_slot_attrs : (f : Field) (m : Module) → (clear_slot f m).attrs ≡ m.attrs
unfolding clear_slot
clear_slot_attrs f m = ground arith

clear_all_attrs : (fs : List Field) (m : Module) → (clear_all fs m).attrs ≡ m.attrs
unfolding clear_all
clear_all_attrs [] m = refl
clear_all_attrs (f ∷ rest) m = clear_all_attrs rest (clear_slot f m) ∙ clear_slot_attrs f m

clear_all_kept :
    (fs : List Field) (g : Field) (m : Module) → m.slots g ≡ none → (clear_all fs m).slots g ≡ none
unfolding clear_all
clear_all_kept [] g m e = e
clear_all_kept (f ∷ rest) g m e =
    clear_all_kept rest g (clear_slot f m) (ground (arith, clear_slot_slots f g m))

clear_all_slots :
    (fs : List Field) (g : Field) (m : Module) → mem g fs ≡ true → (clear_all fs m).slots g ≡ none
unfolding clear_all mem
clear_all_slots [] g m h = cc
clear_all_slots (f ∷ rest) g m h = elim (Bool-cases (index f == index g)) [
  | inl e ↦ clear_all_kept rest g (clear_slot f m) (ground (arith, clear_slot_slots f g m))
  | inr e ↦
      clear_all_slots rest g (clear_slot f m)
        (ground (arith, ==_iff (index f) (index g), ==_iff (index g) (index f)))
]

clears_each : (f : Field) → mem f clear_fields ≡ true
unfolding mem clear_fields
clears_each (type_field context) = refl
clears_each (type_field engine_info) = refl
clears_each (type_field key) = refl
clears_each (type_field subkey) = refl
clears_each (type_field user_id) = refl
clears_each (type_field key_sig) = refl
clears_each (type_field key_iter) = refl
clears_each (type_field new_signature) = refl
clears_each (type_field signature) = refl
clears_each (type_field sig_notation) = refl
clears_each (type_field import_result) = refl
clears_each (type_field genkey_result) = refl
clears_each (enum_field EnumName.data_encoding) = refl
clears_each (enum_field EnumName.pubkey_algo) = refl
clears_each (enum_field EnumName.hash_algo) = refl
clears_each (enum_field EnumName.sig_mode) = refl
clears_each (enum_field EnumName.validity) = refl
clears_each (enum_field EnumName.protocol) = refl
clears_each (enum_field EnumName.keylist_mode) = refl
clears_each (enum_field EnumName.pinentry_mode) = refl
clears_each (enum_field EnumName.export_mode) = refl
clears_each (enum_field EnumName.sig_notation_flags) = refl
clears_each (enum_field EnumName.status) = refl
clears_each (enum_field EnumName.encrypt_flags) = refl
clears_each (enum_field EnumName.sigsum) = refl
clears_each (enum_field EnumName.import_status) = refl
clears_each (enum_field EnumName.delete_flags) = refl
clears_each (enum_field EnumName.err_source) = refl
clears_each (enum_field EnumName.err_code) = refl
clears_each error_field = refl

clears_once : distinct clear_fields ≡ true
unfolding distinct mem clear_fields
clears_once = refl

visits_same : clear_fields ≡ traverse_fields
unfolding clear_fields traverse_fields
visits_same = refl

-- In any state whose objects have as many references as the fields hold, `pygpgme_mod_clear` sets
-- every field to `NULL`, and takes from each object just one reference for each visit that
-- `pygpgme_mod_traverse` makes to it.
pub mod_clear-mod_traverse :
    (m : Module) (x : ℕ)
    → count x (mod_traverse m) ≤ m.refs x
    → ((f : Field) → (mod_clear m).slots f ≡ none)
      × ((mod_clear m).refs x + count x (mod_traverse m) ≡ m.refs x)
unfolding mod_clear mod_traverse
mod_clear-mod_traverse m x h =
    let visits : count x (mod_traverse m) ≡ held x clear_fields m.slots =
      count-objects x traverse_fields m.slots ∙ ap (λ fs. held x fs m.slots) (sym visits_same) in
    let all = clear_all_refs x clear_fields m clears_once (omega (arith, visits)) in
    (λ f. clear_all_slots clear_fields f m (clears_each f), omega (arith, visits, all))

mod_clear_attrs : (m : Module) → (mod_clear m).attrs ≡ m.attrs
unfolding mod_clear
mod_clear_attrs m = clear_all_attrs clear_fields m

visits_total :
    (x : ℕ) (m : Module)
    → count x (mod_traverse m) ≡ held x own_fields m.slots + held x enum_fields m.slots
unfolding mod_traverse
visits_total x m = count-objects x traverse_fields m.slots ∙ held_total x m.slots

Unset-empty : (fs : List Field) → Unset fs (λ f. none)
Unset-empty [] = tt
Unset-empty (f ∷ rest) = (refl, Unset-empty rest)

new_module-IsBalanced : (x : ℕ) (outcomes : List Bool) → IsBalanced x (new_module outcomes)
unfolding listed held slot_refs
new_module-IsBalanced x outcomes = omega arith

-- However the creations of `pygpgme_mod_exec` end, clearing the state afterwards leaves each object
-- the references of the module's attributes, less one for each field of an enumeration that held it:
-- `make_enum` hands its only reference to the module, and `pygpgme_mod_clear` drops one more.
pub mod_exec-mod_clear :
    (outcomes : List Bool) (x : ℕ)
    → let m = (mod_exec (new_module outcomes)).1 in
      (mod_clear m).refs x + held x enum_fields m.slots ≡ listed x (mod_clear m).attrs
mod_exec-mod_clear outcomes x =
    let m = (mod_exec (new_module outcomes)).1 in
    let b =
      mod_exec-IsBalanced x (new_module outcomes) refl
        (Unset-empty (map type_field all_types ++ enum_fields))
        (new_module-IsBalanced x outcomes) in
    let visits = visits_total x m in
    let cleared = (mod_clear-mod_traverse m x (omega (arith, visits, b.balance, b.borrowed))).1 in
    let same : listed x (mod_clear m).attrs ≡ listed x m.attrs =
      ap (listed x) (mod_clear_attrs m) in
    omega (arith, visits, b.balance, b.borrowed, cleared, same)
