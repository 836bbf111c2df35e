-- ===== src/Classes/Released.antt =====
-- What the release of a result gives back.
use Prim.Native.String.{String}
use pygpgme.Base.{
  ℕ, ◌+◌, ◌-◌, ◌≤◌, ◌≡◌, refl, ap, ◌∙◌, Bool, true, false, Option, none, some, List, [], ◌∷◌, map,
  arith, if◌then◌else◌,
}
use pygpgme.Context.World.{same}
use pygpgme.Classes.Lookup.{spec_of, members_of}
use pygpgme.Classes.Interface.{member_field}
use pygpgme.Classes.Release.{
  Struct, Memory, xdecref, xdecrefs, object_del, newsig_dealloc, sig_dealloc, sig_notation_dealloc,
  import_result_dealloc, genkey_result_dealloc, engine_info_dealloc, ResultName, type_of,
  dealloc_of,
}

-- The references on an object that a pointer or the fields hold.
abbrev pub held_by : ℕ → Option ℕ → ℕ
held_by x none = 0
held_by x (some o) = same o x

unfoldable pub held_in : ℕ → Struct → List String → ℕ
held_in x self [] = 0
held_in x self (f ∷ rest) = held_by x (self.field f) + held_in x self rest

-- The fields that the attributes of a class show.
unfoldable pub shown_fields : ResultName → List String
unfolding spec_of
shown_fields t = map member_field (members_of (spec_of true (type_of t)).slots)

-- Whether the object's memory is given back.
abbrev pub is_deleted : ResultName → Bool
is_deleted ResultName.engine_info = false
is_deleted ResultName.sig_notation = false
is_deleted _ = true

xdecref_refs :
    (p : Option ℕ) (m : Memory) (x : ℕ)
    → held_by x p ≤ m.refs x
    → ((xdecref p m).refs x + held_by x p ≡ m.refs x) × ((xdecref p m).objects ≡ m.objects)
xdecref_refs none m x h = (omega arith, refl)
xdecref_refs (some o) m x h = (omega (arith, h), refl)

xdecrefs_refs :
    (self : Struct) (fs : List String) (m : Memory) (x : ℕ)
    → held_in x self fs ≤ m.refs x
    → ((xdecrefs self fs m).refs x + held_in x self fs ≡ m.refs x)
      × ((xdecrefs self fs m).objects ≡ m.objects)
unfolding xdecrefs held_in
xdecrefs_refs self [] m x h = (omega arith, refl)
xdecrefs_refs self (f ∷ rest) m x h =
    let (a, b) = xdecref_refs (self.field f) m x (omega arith) in
    let (c, d) = xdecrefs_refs self rest (xdecref (self.field f) m) x (omega (arith, a)) in
    (omega (arith, a, c), d ∙ b)

-- The same where the object's memory is given back after it.
deleted_refs :
    (self : Struct) (fs : List String) (m : Memory) (x : ℕ)
    → held_in x self fs ≤ m.refs x
    → ((object_del (xdecrefs self fs m)).refs x + held_in x self fs ≡ m.refs x)
      × ((object_del (xdecrefs self fs m)).objects ≡ m.objects - 1)
deleted_refs self fs m x h = let (a, b) = xdecrefs_refs self fs m x h in (a, ap (λ n. n - 1) b)

abbrev pub Releases : ResultName → Struct → Memory → ℕ → Type 0
Releases t self m x =
    let after = dealloc_of t self m in
    (after.refs x + held_in x self (shown_fields t) ≡ m.refs x)
    × (after.objects ≡ (if is_deleted t then m.objects - 1 else m.objects))

-- The release of a result gives back, for each field that its attributes show, just the one reference
-- that the field holds, and takes no other from any object, that on the class included; the memory of
-- the object is given back as well, but not that of an EngineInfo or a SigNotation. This holds where
-- each object has the references that the fields hold.
pub dealloc-Releases :
    (t : ResultName) (self : Struct) (m : Memory) (x : ℕ)
    → held_in x self (shown_fields t) ≤ m.refs x
    → Releases t self m x
unfolding newsig_dealloc sig_dealloc sig_notation_dealloc import_result_dealloc
    genkey_result_dealloc engine_info_dealloc shown_fields spec_of
dealloc-Releases ResultName.new_signature self m x h =
    deleted_refs self (shown_fields ResultName.new_signature) m x h
dealloc-Releases ResultName.signature self m x h =
    deleted_refs self (shown_fields ResultName.signature) m x h
dealloc-Releases ResultName.sig_notation self m x h =
    xdecrefs_refs self (shown_fields ResultName.sig_notation) m x h
dealloc-Releases ResultName.import_result self m x h =
    deleted_refs self (shown_fields ResultName.import_result) m x h
dealloc-Releases ResultName.genkey_result self m x h =
    deleted_refs self (shown_fields ResultName.genkey_result) m x h
dealloc-Releases ResultName.engine_info self m x h =
    xdecrefs_refs self (shown_fields ResultName.engine_info) m x h
