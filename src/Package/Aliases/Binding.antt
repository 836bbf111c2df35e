-- ===== src/Package/Aliases/Binding.antt =====
-- src/gpgme/__init__.py finds every member that it names.
use Prim.Native.String.{String}
use text.Mathlib.Text.{◌==◌}
use text.Mathlib.TextEquality.{eq_iff}
use mathlib.Core.List.{append-nil, append_assoc}
use pygpgme.Base.{
  ◌≡◌, refl, ap, ◌∙◌, Bool, true, false, ◌&&◌, none, some, List, [], ◌∷◌, ◌++◌, map, arith,
  Bool-cases, inl, inr,
}
use pygpgme.Base.Int.{ℤ}
use pygpgme.Python.Value.{EnumName}
use pygpgme.Constants.Enums.{
  Versions, Block, plain, gpgme_from, gpg_error_from, names, Dict, add_enum_value, members, lookup,
}
use pygpgme.Constants.Tables.{table}
use pygpgme.Constants.Members.{
  mem, distinct, mem-append, add_enum_value_absent, lookup-append_absent, names_apart,
  members-eq_map,
}
use pygpgme.Package.Aliases.Names.{Alias, to, bind, assign}
use pygpgme.Package.Aliases.All.{aliases}

-- The names of CONST lines without a condition.
plain_names : List Block → List String
plain_names [] = []
plain_names (plain ns ∷ rest) = ns ++ plain_names rest
plain_names (gpgme_from v ns ∷ rest) = plain_names rest
plain_names (gpg_error_from v ns ∷ rest) = plain_names rest

-- They are there with every version of the libraries.
plain_names-names :
    (V : Versions) (k : String) (bl : List Block)
    → mem k (plain_names bl) ≡ true
    → mem k (names V bl) ≡ true
unfolding names plain_names mem
plain_names-names V k [] h = h
plain_names-names V k (plain ns ∷ rest) h = ground (
  arith,
  plain_names-names V k rest,
  mem-append k ns (names V rest),
  mem-append k ns (plain_names rest),
)
plain_names-names V k (gpgme_from v ns ∷ rest) h =
    ground (arith, plain_names-names V k rest, mem-append k ns (names V rest))
plain_names-names V k (gpg_error_from v ns ∷ rest) h =
    ground (arith, plain_names-names V k rest, mem-append k ns (names V rest))

lookup-map :
    (f : String → ℤ) (k : String) (ns : List String)
    → mem k ns ≡ true
    → lookup k (map (λ n. (n, f n)) ns) ≡ some (f k)
unfolding lookup mem
lookup-map f k [] h = absurd (ground (arith, h))
lookup-map f k (n ∷ ns) h = elim (Bool-cases (n == k)) [
  | inl e ↦ ground (arith, e, ap f ((eq_iff n k).0 e))
  | inr e ↦ ground (arith, e, lookup-map f k ns)
]

abbrev pub alias_name : Alias → String
alias_name (to name t member) = name

-- The number of the macro that the member stands for.
abbrev pub number_of : (String → String → ℤ) → Alias → ℤ
number_of macro (to name t member) = macro (table t).prefix member

-- The member has a CONST line without a condition.
is_plain : Alias → Bool
is_plain (to name t member) = mem member (plain_names (table t).blocks)

all_plain : List Alias → Bool
all_plain [] = true
all_plain (a ∷ rest) = is_plain a && all_plain rest

aliases_plain : all_plain aliases ≡ true
unfolding all_plain is_plain mem plain_names table
aliases_plain = refl

aliases-distinct : distinct (map alias_name aliases) ≡ true
unfolding distinct mem
aliases-distinct = refl

module _ (macro : String → String → ℤ) (V : Versions) where
  -- The members of every class, as the extension makes them.
  abbrev pub enum : EnumName → Dict
  enum t = members macro V (table t)

  -- What a line binds.
  abbrev pub entry : Alias → String × ℤ
  entry a = (alias_name a, number_of macro a)

  member_found :
      (name : String) (t : EnumName) (member : String)
      → is_plain (to name t member) ≡ true
      → lookup member (enum t) ≡ some (number_of macro (to name t member))
  unfolding is_plain
  member_found name t member h = rw (members-eq_map macro V t) (
      lookup-map (macro (table t).prefix) member (names V (table t).blocks)
        (plain_names-names V member (table t).blocks h))

  assign_found :
      (name : String) (t : EnumName) (member : String) (rest : List Alias) (d : Dict) (z : ℤ)
      → lookup member (enum t) ≡ some z
      → assign enum (to name t member ∷ rest) d ≡ assign enum rest (add_enum_value name z d)
  unfolding assign
  assign_found name t member rest d z e =
      ap (λ o. elim (bind o name d) [ none ↦ none | some d' ↦ assign enum rest d' ]) e

  assign-eq_map :
      (xs : List Alias) (d : Dict)
      → all_plain xs ≡ true
      → distinct (map alias_name xs) ≡ true
      → ((j : String) → mem j (map alias_name xs) ≡ true → lookup j d ≡ none)
      → assign enum xs d ≡ some (d ++ map entry xs)
  unfolding assign all_plain distinct mem
  assign-eq_map [] d p u fresh = rw append-nil
  assign-eq_map (to name t member ∷ rest) d p u fresh =
      let z = number_of macro (to name t member) in
      let absent : lookup name d ≡ none = fresh name (ground (arith, eq_iff name name)) in
      let new : mem name (map alias_name rest) ≡ false = ground (arith, u) in
      let found = member_found name t member (ground (arith, p)) in
      let later =
        assign-eq_map rest (d ++ ((name, z) ∷ [])) (ground (arith, p)) (ground (arith, u))
          (λ (j : String) (m : mem j (map alias_name rest) ≡ true).
            lookup-append_absent name j z d (fresh j (ground (arith, m)))
              (names_apart name j (map alias_name rest) new m)) in
      assign_found name t member rest d z found
      ∙ (rw (add_enum_value_absent name z d absent)
          (later ∙ ap some (append_assoc d ((name, z) ∷ []) (map entry rest))))

  -- With any version of the libraries, every line of the file finds the member that it names, so that the
  -- import of the package fails at none; and the lines bind their names, each to the number of its
  -- macro, in order and none twice.
  pub assign-aliases : assign enum aliases [] ≡ some (map entry aliases)
  unfolding lookup
  assign-aliases = assign-eq_map aliases [] aliases_plain aliases-distinct (λ j m. refl)
