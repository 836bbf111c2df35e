-- ===== src/Context/Notations/RoundTrip.antt =====
-- What the notations of a Context read after they were set.
use pygpgme.Base.{
  ℕ, ◌≡◌, refl, ap, sym, ◌∙◌, Bool, true, false, Option, none, some, List, [], ◌∷◌, ◌++◌, map, ◌==◌,
  arith, if◌then◌else◌,
}
use pygpgme.Python.Value.{Text, Value, none_value, str, bytes, SigNotation}
use pygpgme.Python.State.{Platform, PyState, or_none}
use pygpgme.Gpgme.Structs.{NotationRaw}
use pygpgme.Signature.Lists.{is_human_readable, sig_notation}
use pygpgme.Context.World.{World}
use pygpgme.Context.Patterns.{c_string}
use pygpgme.Context.Notations.{NotationStore, as_utf8}

-- gpgme keeps the notations that it accepts, in order.
pub record IsNotationStore {C : Type 0} (G : NotationStore C) : Type 0 where
  pub cleared : (c : C) → G.notations (G.clear c) ≡ []
  pub added :
      (c : C) (name : Option Text) (value : Text) (flags : ℕ)
      → (G.add c name (some value) flags).0 ≡ 0
      → G.notations (G.add c name (some value) flags).1
        ≡ G.notations c ++ (record { name = name; value = value; flags = flags } ∷ [])

-- No byte is NUL.
abbrev pub NoNul : Text → Type 0
NoNul [] = Unit
NoNul (b ∷ rest) = ((b == 0) ≡ false) × NoNul rest

-- A str whose bytes are `b`, without a NUL, and that they decode to.
pub record Encodes (P : Platform) (t b : Text) : Type 0 where
  pub encoded : P.encode_utf8 t ≡ some b
  pub decoded : P.decode_utf8 b ≡ t
  pub no_nul : NoNul b

c_string-NoNul : (b : Text) → NoNul b → c_string b ≡ b
unfolding c_string
c_string-NoNul [] h = refl
c_string-NoNul (b ∷ rest) h = ground (arith, c_string-NoNul rest)

-- The C structure that stands for a notation.
abbrev pub NameIs : Platform → Value → Option Text → Type 0
NameIs P v none = v ≡ none_value
NameIs P v (some b) = (t : Text) × (v ≡ str t) × Encodes P t b

abbrev pub ValueIs : Platform → Bool → Value → Text → Type 0
ValueIs P true v b = (t : Text) × (v ≡ str t) × Encodes P t b
ValueIs P false v b = (v ≡ bytes b) × NoNul b

pub record Stands (P : Platform) (n : SigNotation) (raw : NotationRaw) : Type 0 where
  pub name_is : NameIs P n.name raw.name
  pub value_is : ValueIs P (is_human_readable n.flags) n.value raw.value
  pub flags_same : n.flags ≡ raw.flags

module _ (P : Platform) where
  pub as_utf8-Encodes :
      (v : Value) (t b : Text) (s : PyState)
      → v ≡ str t
      → Encodes P t b
      → as_utf8 P v s ≡ (some b, s)
  unfolding as_utf8
  as_utf8-Encodes v t b s e h = rw e (ground (arith, h.encoded, c_string-NoNul b h.no_nul))

  read_name : (v : Value) (name : Option Text) → NameIs P v name → or_none P.decode_utf8 name ≡ v
  read_name v none h = sym h
  read_name v (some b) (t, e, h) = ap str h.decoded ∙ sym e

  read_value :
      (readable : Bool) (v : Value) (b : Text)
      → ValueIs P readable v b
      → (if readable then str (P.decode_utf8 b) else bytes b) ≡ v
  read_value true v b (t, e, h) = ap str h.decoded ∙ sym e
  read_value false v b (e, h) = sym e

  sig_notation-Stands :
      (n : SigNotation) (raw : NotationRaw) → Stands P n raw → sig_notation P raw ≡ n
  unfolding sig_notation
  sig_notation-Stands n raw h = ground (
    arith,
    h.flags_same,
    read_name n.name raw.name h.name_is,
    read_value (is_human_readable n.flags) n.value raw.value h.value_is,
  )

-- Each notation stands for the C structure at its place.
abbrev pub AllStand : Platform → List SigNotation → List NotationRaw → Type 0
AllStand P [] [] = Unit
AllStand P (n ∷ ns) (raw ∷ raws) = Stands P n raw × AllStand P ns raws
AllStand P _ _ = ⊥

-- gpgme accepts these structures one after another.
abbrev pub Accepts : {C : Type 0} → NotationStore C → C → List NotationRaw → Type 0
Accepts G c [] = Unit
Accepts G c (raw ∷ raws) =
    let (err, c') = G.add c raw.name (some raw.value) raw.flags in (err ≡ 0) × Accepts G c' raws

module _ {C : Type 0} (P : Platform) (G : NotationStore C) (k : IsNotationStore G) where
  read_all :
      (ns : List SigNotation) (raws : List NotationRaw)
      → AllStand P ns raws
      → map (sig_notation P) raws ≡ ns
  read_all [] [] h = refl
  read_all [] (raw ∷ raws) h = elim h [ ]
  read_all (n ∷ ns) [] h = elim h [ ]
  read_all (n ∷ ns) (raw ∷ raws) (h, t) =
      ground (arith, sig_notation-Stands P n raw h, read_all ns raws t)
