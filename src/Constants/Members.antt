-- ===== src/Constants/Members.antt =====
-- Every enumeration has exactly the members of its CONST lines: none is overwritten by another.
use Prim.Native.String.{String}
use text.Mathlib.Text.{◌==◌}
use text.Mathlib.TextEquality.{eq_iff}
use mathlib.Core.List.{append-nil, append_assoc}
use pygpgme.Base.{
  ◌≡◌, refl, ap, ◌∙◌, Bool, true, false, ◌||◌, none, List, [], ◌∷◌, ◌++◌, map, if◌then◌else◌, arith,
  Bool-cases, inl, inr,
}
use pygpgme.Base.Int.{ℤ}
use pygpgme.Python.Value.{EnumName}
use pygpgme.Constants.Enums.{
  Versions, Block, plain, gpgme_from, gpg_error_from, names, Dict, add_enum_value, add_all, members,
  lookup,
}
use pygpgme.Constants.Tables.{table}

unfoldable pub mem : String → List String → Bool
mem k [] = false
mem k (j ∷ rest) = if j == k then true else mem k rest

unfoldable pub distinct : List String → Bool
distinct [] = true
distinct (j ∷ rest) = if mem j rest then false else distinct rest

-- The names of all conditions.
all_names : List Block → List String
all_names [] = []
all_names (plain ns ∷ rest) = ns ++ all_names rest
all_names (gpgme_from v ns ∷ rest) = ns ++ all_names rest
all_names (gpg_error_from v ns ∷ rest) = ns ++ all_names rest

pub mem-append : (k : String) (a b : List String) → mem k (a ++ b) ≡ (mem k a || mem k b)
unfolding mem
mem-append k [] b = refl
mem-append k (j ∷ a) b = ground (arith, mem-append k a b)

distinct-append : (a b : List String) → distinct (a ++ b) ≡ true → distinct b ≡ true
unfolding distinct
distinct-append [] b h = h
distinct-append (j ∷ a) b h = ground (arith, distinct-append a b)

-- A smaller end keeps a list distinct.
distinct-narrow :
    (a b c : List String)
    → ((k : String) → mem k c ≡ true → mem k b ≡ true)
    → distinct c ≡ true
    → distinct (a ++ b) ≡ true
    → distinct (a ++ c) ≡ true
unfolding distinct
distinct-narrow [] b c sub d h = d
distinct-narrow (j ∷ a) b c sub d h =
    ground (arith, distinct-narrow a b c sub d, mem-append j a b, mem-append j a c, sub j)

module _ (V : Versions) where
  names-all_names :
      (k : String) (bl : List Block) → mem k (names V bl) ≡ true → mem k (all_names bl) ≡ true
  unfolding names all_names mem
  names-all_names k [] h = h
  names-all_names k (plain ns ∷ rest) h = ground (
    arith,
    names-all_names k rest,
    mem-append k ns (names V rest),
    mem-append k ns (all_names rest),
  )
  names-all_names k (gpgme_from v ns ∷ rest) h = ground (
    arith,
    names-all_names k rest,
    mem-append k ns (names V rest),
    mem-append k ns (all_names rest),
  )
  names-all_names k (gpg_error_from v ns ∷ rest) h = ground (
    arith,
    names-all_names k rest,
    mem-append k ns (names V rest),
    mem-append k ns (all_names rest),
  )

  distinct-names : (bl : List Block) → distinct (all_names bl) ≡ true → distinct (names V bl) ≡ true
  unfolding names all_names
  distinct-names [] h = h
  distinct-names (plain ns ∷ rest) h =
      let below = distinct-names rest (distinct-append ns (all_names rest) h) in
      distinct-narrow ns (all_names rest) (names V rest) (λ k. names-all_names k rest) below h
  distinct-names (gpgme_from v ns ∷ rest) h =
      let below = distinct-names rest (distinct-append ns (all_names rest) h) in
      let kept =
        distinct-narrow ns (all_names rest) (names V rest) (λ k. names-all_names k rest) below h in
      ground (arith, below, kept)
  distinct-names (gpg_error_from v ns ∷ rest) h =
      let below = distinct-names rest (distinct-append ns (all_names rest) h) in
      let kept =
        distinct-narrow ns (all_names rest) (names V rest) (λ k. names-all_names k rest) below h in
      ground (arith, below, kept)

pub add_enum_value_absent :
    (k : String) (v : ℤ) (d : Dict) → lookup k d ≡ none → add_enum_value k v d ≡ d ++ ((k, v) ∷ [])
unfolding add_enum_value lookup
add_enum_value_absent k v [] h = refl
add_enum_value_absent k v ((j, w) ∷ d) h = ground (arith, add_enum_value_absent k v d)

pub lookup-append_absent :
    (k j : String) (v : ℤ) (d : Dict)
    → lookup j d ≡ none
    → (k == j) ≡ false
    → lookup j (d ++ ((k, v) ∷ [])) ≡ none
unfolding lookup
lookup-append_absent k j v [] h e = ground arith
lookup-append_absent k j v ((i, w) ∷ d) h e = ground (arith, lookup-append_absent k j v d)

pub names_apart :
    (n j : String) (ns : List String) → mem n ns ≡ false → mem j ns ≡ true → (n == j) ≡ false
names_apart n j ns a b = elim (Bool-cases (n == j)) [
  | inl e ↦ let same : mem n ns ≡ mem j ns = ap (λ x. mem x ns) ((eq_iff n j).0 e) in cc
  | inr e ↦ e
]

module _ (value : String → ℤ) where
  add_all-eq_map :
      (ns : List String) (d : Dict)
      → distinct ns ≡ true
      → ((j : String) → mem j ns ≡ true → lookup j d ≡ none)
      → add_all value ns d ≡ d ++ map (λ n. (n, value n)) ns
  unfolding add_all distinct mem
  add_all-eq_map [] d u fresh = rw append-nil
  add_all-eq_map (n ∷ ns) d u fresh =
      let absent : lookup n d ≡ none = fresh n (ground (arith, eq_iff n n)) in
      let new : mem n ns ≡ false = ground (arith, u) in
      let rest =
        add_all-eq_map ns (d ++ ((n, value n) ∷ [])) (ground (arith, u))
          (λ (j : String) (m : mem j ns ≡ true).
            lookup-append_absent n j (value n) d (fresh j (ground (arith, m)))
              (names_apart n j ns new m)) in
      rw (add_enum_value_absent n (value n) d absent)
        (rest ∙ append_assoc d ((n, value n) ∷ []) (map (λ x. (x, value x)) ns))

tables_distinct : (t : EnumName) → distinct (all_names (table t).blocks) ≡ true
unfolding distinct all_names mem table
tables_distinct EnumName.data_encoding = refl
tables_distinct EnumName.pubkey_algo = refl
tables_distinct EnumName.hash_algo = refl
tables_distinct EnumName.sig_mode = refl
tables_distinct EnumName.validity = refl
tables_distinct EnumName.protocol = refl
tables_distinct EnumName.keylist_mode = refl
tables_distinct EnumName.pinentry_mode = refl
tables_distinct EnumName.export_mode = refl
tables_distinct EnumName.sig_notation_flags = refl
tables_distinct EnumName.status = refl
tables_distinct EnumName.encrypt_flags = refl
tables_distinct EnumName.sigsum = refl
tables_distinct EnumName.import_status = refl
tables_distinct EnumName.delete_flags = refl
tables_distinct EnumName.err_source = refl
tables_distinct EnumName.err_code = refl

-- The dict of every enumeration, built line by line, is the list of the names that the headers'
-- versions leave, in order, each with the value of its own macro: no line overwrites another.
pub members-eq_map :
    (macro : String → String → ℤ) (V : Versions) (t : EnumName)
    → members macro V (table t)
      ≡ map (λ n. (n, macro (table t).prefix n)) (names V (table t).blocks)
unfolding members lookup
members-eq_map macro V t =
    add_all-eq_map (macro (table t).prefix) (names V (table t).blocks) []
      (distinct-names V (table t).blocks (tables_distinct t)) (λ j m. refl)
