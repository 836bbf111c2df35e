-- ===== src/Module/Fields.antt =====
-- lib/gpgme.c: the fields of the state, told apart by their places, and the references they hold.
use pygpgme.Base.{
  ℕ, zero, suc, ◌+◌, ◌==◌, ◌≡◌, refl, ap, sym, ◌∙◌, Bool, true, false, Option, none, some, List, [],
  ◌∷◌, if◌then◌else◌, arith, Bool-cases, inl, inr, ==_iff,
}
use pygpgme.Python.Value.{EnumName}
use pygpgme.Context.World.{same}
use pygpgme.Module.State.{
  context, engine_info, key, subkey, user_id, key_sig, key_iter, new_signature, signature,
  sig_notation, import_result, genkey_result, Field, type_field, enum_field, error_field, Slots,
  set_slot, index,
}
use pygpgme.Module.Collect.{objects, traverse_fields}

unfoldable pub mem : Field → List Field → Bool
mem f [] = false
mem f (g ∷ rest) = if index f == index g then true else mem f rest

unfoldable pub distinct : List Field → Bool
distinct [] = true
distinct (f ∷ rest) = if mem f rest then false else distinct rest

-- The field at a place.
field_at : ℕ → List Field → Field
field_at n [] = error_field
field_at zero (f ∷ rest) = f
field_at (suc n) (f ∷ rest) = field_at n rest

field_at-index : (f : Field) → field_at (index f) traverse_fields ≡ f
unfolding field_at traverse_fields
field_at-index (type_field context) = refl
field_at-index (type_field engine_info) = refl
field_at-index (type_field key) = refl
field_at-index (type_field subkey) = refl
field_at-index (type_field user_id) = refl
field_at-index (type_field key_sig) = refl
field_at-index (type_field key_iter) = refl
field_at-index (type_field new_signature) = refl
field_at-index (type_field signature) = refl
field_at-index (type_field sig_notation) = refl
field_at-index (type_field import_result) = refl
field_at-index (type_field genkey_result) = refl
field_at-index (enum_field EnumName.data_encoding) = refl
field_at-index (enum_field EnumName.pubkey_algo) = refl
field_at-index (enum_field EnumName.hash_algo) = refl
field_at-index (enum_field EnumName.sig_mode) = refl
field_at-index (enum_field EnumName.validity) = refl
field_at-index (enum_field EnumName.protocol) = refl
field_at-index (enum_field EnumName.keylist_mode) = refl
field_at-index (enum_field EnumName.pinentry_mode) = refl
field_at-index (enum_field EnumName.export_mode) = refl
field_at-index (enum_field EnumName.sig_notation_flags) = refl
field_at-index (enum_field EnumName.status) = refl
field_at-index (enum_field EnumName.encrypt_flags) = refl
field_at-index (enum_field EnumName.sigsum) = refl
field_at-index (enum_field EnumName.import_status) = refl
field_at-index (enum_field EnumName.delete_flags) = refl
field_at-index (enum_field EnumName.err_source) = refl
field_at-index (enum_field EnumName.err_code) = refl
field_at-index error_field = refl

pub index_inj : (f g : Field) → index f ≡ index g → f ≡ g
index_inj f g e = sym (field_at-index f) ∙ ap (λ n. field_at n traverse_fields) e ∙ field_at-index g

-- How often a list holds `x`.
unfoldable pub count : ℕ → List ℕ → ℕ
count x [] = 0
count x (o ∷ rest) = same o x + count x rest

unfoldable pub slot_refs : ℕ → Option ℕ → ℕ
slot_refs x none = 0
slot_refs x (some o) = same o x

-- How many of the fields hold `x`.
unfoldable pub held : ℕ → List Field → Slots → ℕ
held x [] s = 0
held x (f ∷ rest) s = slot_refs x (s f) + held x rest s

pub count-objects : (x : ℕ) (fs : List Field) (s : Slots) → count x (objects fs s) ≡ held x fs s
unfolding count objects held slot_refs
count-objects x [] s = refl
count-objects x (f ∷ rest) s = ground (arith, count-objects x rest s)

pub held-set_slot_other :
    (x : ℕ) (fs : List Field) (f : Field) (o : Option ℕ) (s : Slots)
    → mem f fs ≡ false
    → held x fs (set_slot f o s) ≡ held x fs s
unfolding held mem
held-set_slot_other x [] f o s h = refl
held-set_slot_other x (g ∷ rest) f o s h = ground (arith, held-set_slot_other x rest f o s)

-- An object put into an empty field of the list.
pub held-set_slot :
    (x : ℕ) (fs : List Field) (f : Field) (o : Option ℕ) (s : Slots)
    → s f ≡ none
    → mem f fs ≡ true
    → distinct fs ≡ true
    → held x fs (set_slot f o s) ≡ slot_refs x o + held x fs s
unfolding held mem distinct slot_refs
held-set_slot x [] f o s e h d = cc
held-set_slot x (g ∷ rest) f o s e h d = elim (Bool-cases (index f == index g)) [
  | inl q ↦
      let same_field : f ≡ g = index_inj f g ((==_iff (index f) (index g)).0 q) in
      let empty : s g ≡ none = ap s (sym same_field) ∙ e in
      let absent : mem f rest ≡ false = ap (λ k. mem k rest) same_field ∙ ground (arith, d) in
      ground (arith, held-set_slot_other x rest f o s absent)
  | inr q ↦ ground (arith, held-set_slot x rest f o s e)
]

-- The fields of a list are `NULL`.
abbrev pub Unset : List Field → Slots → Type 0
Unset [] s = Unit
Unset (f ∷ rest) s = (s f ≡ none) × Unset rest s

pub Unset-set_slot :
    (fs : List Field) (f : Field) (o : Option ℕ) (s : Slots)
    → mem f fs ≡ false
    → Unset fs s
    → Unset fs (set_slot f o s)
unfolding mem
Unset-set_slot [] f o s h u = tt
Unset-set_slot (g ∷ rest) f o s h u = ground (arith, Unset-set_slot rest f o s)
