-- ===== src/Module/Balance.antt =====
-- lib/gpgme.c: the references that the state and the module hold after `pygpgme_mod_exec`.
use mathlib.Core.Path.{subst}
use pygpgme.Base.{
  ℕ, ◌+◌, ◌≤◌, ◌≡◌, refl, sym, true, false, Option, none, List, [], ◌∷◌, ◌++◌, map, arith,
  Bool-cases, inl, inr,
}
use pygpgme.Python.Value.{EnumName}
use pygpgme.Module.State.{
  TypeName, Field, type_field, enum_field, error_field, Slots, Module, set_slot, create, add_object,
  clear_slot,
}
use pygpgme.Module.Exec.{
  all_types, all_enums, add_error, init_type, init_types, make_enum, add_constants, add_version,
  mod_exec,
}
use pygpgme.Module.Collect.{traverse_fields, clear_all}
use pygpgme.Module.Fields.{
  mem, distinct, slot_refs, held, held-set_slot, held-set_slot_other, Unset, Unset-set_slot,
}
use pygpgme.Module.Owners.{
  own_fields, enum_fields, listed, IsBalanced, type_own, enum_borrowed, own_distinct, enum_distinct,
}

Unset-append : (fs gs : List Field) (s : Slots) → Unset (fs ++ gs) s → Unset gs s
Unset-append [] gs s u = u
Unset-append (f ∷ fs) gs s u = Unset-append fs gs s u.1

module _ (x : ℕ) where
  -- What a creation changes.
  record Creates (m : Module) (r : Option ℕ × Module) : Type 0 where
    slots_same : r.1.slots ≡ m.slots
    attrs_same : r.1.attrs ≡ m.attrs
    counted : r.1.refs x ≡ m.refs x + slot_refs x r.0

  create-Creates : (m : Module) → Creates m (create m)
  unfolding create slot_refs
  create-Creates m = ground arith

  init_type-IsBalanced :
      (t : TypeName) (m : Module)
      → m.slots (type_field t) ≡ none
      → IsBalanced x m
      → IsBalanced x (init_type t m).1
  unfolding init_type listed slot_refs
  init_type-IsBalanced t m e b =
      let c = create-Creates m in
      let o = (create m).0 in
      ground (
        arith,
        held-set_slot x own_fields (type_field t) o m.slots e (type_own t).0 own_distinct,
        held-set_slot_other x enum_fields (type_field t) o m.slots (type_own t).1,
      )

  make_enum-IsBalanced :
      (e : EnumName) (m : Module)
      → m.slots (enum_field e) ≡ none
      → IsBalanced x m
      → IsBalanced x (make_enum e m)
  unfolding make_enum listed slot_refs add_object
  make_enum-IsBalanced e m u b =
      let c = create-Creates m in
      let o = (create m).0 in
      ground (
        arith,
        held-set_slot x enum_fields (enum_field e) o m.slots u (enum_borrowed e).1 enum_distinct,
        held-set_slot_other x own_fields (enum_field e) o m.slots (enum_borrowed e).0,
      )

  add_error-IsBalanced :
      (m : Module) → m.slots error_field ≡ none → IsBalanced x m → IsBalanced x (add_error m)
  unfolding add_error listed slot_refs mem
  add_error-IsBalanced m u b =
      let c = create-Creates m in
      let o = (create m).0 in
      ground (
        arith,
        held-set_slot x own_fields error_field o m.slots u refl own_distinct,
        held-set_slot_other x enum_fields error_field o m.slots refl,
      )

  add_version-IsBalanced : (m : Module) → IsBalanced x m → IsBalanced x (add_version m)
  unfolding add_version listed
  add_version-IsBalanced m b = ground arith

  -- Each step leaves the other fields as they were.
  init_type-Unset :
      (t : TypeName) (fs : List Field) (m : Module)
      → mem (type_field t) fs ≡ false
      → Unset fs m.slots
      → Unset fs (init_type t m).1.slots
  unfolding init_type
  init_type-Unset t fs m h u =
      let c = create-Creates m in
      let e : (init_type t m).1.slots ≡ set_slot (type_field t) (create m).0 m.slots =
        ground arith in
      subst (Unset fs) (sym e) (Unset-set_slot fs (type_field t) (create m).0 m.slots h u)

  make_enum-Unset :
      (e : EnumName) (fs : List Field) (m : Module)
      → mem (enum_field e) fs ≡ false
      → Unset fs m.slots
      → Unset fs (make_enum e m).slots
  unfolding make_enum add_object
  make_enum-Unset e fs m h u =
      let c = create-Creates m in
      let same : (make_enum e m).slots ≡ set_slot (enum_field e) (create m).0 m.slots =
        ground arith in
      subst (Unset fs) (sym same) (Unset-set_slot fs (enum_field e) (create m).0 m.slots h u)

  init_types-IsBalanced :
      (ts : List TypeName) (later : List Field) (m : Module)
      → distinct (map type_field ts ++ later) ≡ true
      → Unset (map type_field ts ++ later) m.slots
      → IsBalanced x m
      → IsBalanced x (init_types ts m).1 × Unset later (init_types ts m).1.slots
  unfolding init_types distinct
  init_types-IsBalanced [] later m d u b = (b, u)
  init_types-IsBalanced (t ∷ rest) later m d u b =
      let absent : mem (type_field t) (map type_field rest ++ later) ≡ false = ground (arith, d) in
      let kept = init_type-Unset t (map type_field rest ++ later) m absent u.1 in
      let one = init_type-IsBalanced t m u.0 b in
      elim (Bool-cases (init_type t m).0) [
        | inl bad ↦
            rw (bad, init_types)
              (one, Unset-append (map type_field rest) later (init_type t m).1.slots kept)
        | inr good ↦
            rw (good, init_types)
              (init_types-IsBalanced rest later (init_type t m).1 (ground (arith, d)) kept one)
      ]

  add_constants-IsBalanced :
      (es : List EnumName) (m : Module)
      → distinct (map enum_field es) ≡ true
      → Unset (map enum_field es) m.slots
      → IsBalanced x m
      → IsBalanced x (add_constants es m)
  unfolding add_constants distinct
  add_constants-IsBalanced [] m d u b = b
  add_constants-IsBalanced (e ∷ rest) m d u b =
      let absent : mem (enum_field e) (map enum_field rest) ≡ false = ground (arith, d) in
      add_constants-IsBalanced rest (make_enum e m) (ground (arith, d))
        (make_enum-Unset e (map enum_field rest) m absent u.1) (make_enum-IsBalanced e m u.0 b)

  clear_slot_lem :
      (f : Field) (fs : List Field) (m : Module)
      → mem f fs ≡ false
      → slot_refs x (m.slots f) ≤ m.refs x
      → ((clear_slot f m).refs x + slot_refs x (m.slots f) ≡ m.refs x)
        × (held x fs (clear_slot f m).slots ≡ held x fs m.slots)
  unfolding clear_slot slot_refs
  clear_slot_lem f fs m h l = ground (arith, held-set_slot_other x fs f none m.slots h)

  -- Every field of the list is released once.
  pub clear_all_refs :
      (fs : List Field) (m : Module)
      → distinct fs ≡ true
      → held x fs m.slots ≤ m.refs x
      → (clear_all fs m).refs x + held x fs m.slots ≡ m.refs x
  unfolding clear_all distinct held
  clear_all_refs [] m d h = omega arith
  clear_all_refs (f ∷ rest) m d h =
      let absent : mem f rest ≡ false = ground (arith, d) in
      let one = clear_slot_lem f rest m absent (omega arith) in
      let all = clear_all_refs rest (clear_slot f m) (ground (arith, d)) (omega (arith, one)) in
      omega (arith, one, all)

  pub held_total :
      (s : Slots) → held x traverse_fields s ≡ held x own_fields s + held x enum_fields s
  unfolding held traverse_fields
  held_total s = omega arith

  add_error-Unset :
      (fs : List Field) (m : Module)
      → mem error_field fs ≡ false
      → Unset fs m.slots
      → Unset fs (add_error m).slots
  unfolding add_error add_object
  add_error-Unset fs m h u =
      let c = create-Creates m in
      let same : (add_error m).slots ≡ set_slot error_field (create m).0 m.slots = ground arith in
      subst (Unset fs) (sym same) (Unset-set_slot fs error_field (create m).0 m.slots h u)

  pub mod_exec-IsBalanced :
      (m : Module)
      → m.slots error_field ≡ none
      → Unset (map type_field all_types ++ enum_fields) m.slots
      → IsBalanced x m
      → IsBalanced x (mod_exec m).1
  unfolding mod_exec mem distinct
  mod_exec-IsBalanced m e u b =
      let kept = add_error-Unset (map type_field all_types ++ enum_fields) m refl u in
      let (b1, u1) =
        init_types-IsBalanced all_types enum_fields (add_error m) refl kept
          (add_error-IsBalanced m e b) in
      let m1 = (init_types all_types (add_error m)).1 in
      let b2 =
        add_version-IsBalanced (add_constants all_enums m1)
          (add_constants-IsBalanced all_enums m1 refl u1 b1) in
      elim (Bool-cases (init_types all_types (add_error m)).0) [
        | inl bad ↦ rw (bad, mod_exec) b1
        | inr good ↦ rw (good, mod_exec) b2
      ]
