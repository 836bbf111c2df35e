-- ===== src/Constants/Enums.antt =====
-- lib/pygpgme-constants.c: `add_enum_value`, the macro CONST under its `#if` lines, and the dict of
-- names and values that `make_enum` gives to Python's `enum`.
use Prim.Native.Nat.{bit_or}
use Prim.Native.String.{String}
use text.Mathlib.Text.{◌==◌}
use pygpgme.Base.{ℕ, ◌*◌, Option, none, some, List, [], ◌∷◌, ◌++◌, leb, if◌then◌else◌}
use pygpgme.Base.Int.{ℤ}

-- The versions of gpgme and of libgpg-error whose headers the extension is compiled with.
pub record Versions : Type 0 where
  pub gpgme : ℕ
  pub gpg_error : ℕ

-- `VER`
abbrev pub ver : ℕ → ℕ → ℕ → ℕ
ver major minor micro = bit_or (bit_or (major * 65536) (minor * 256)) micro

-- A run of `CONST` lines: without a condition, or between `#if` and `#endif`.
pub data Block : Type 0 where
  plain : List String → Block
  gpgme_from : ℕ → List String → Block
  gpg_error_from : ℕ → List String → Block

-- The names that the preprocessor leaves.
unfoldable pub names : Versions → List Block → List String
names V [] = []
names V (plain ns ∷ rest) = ns ++ names V rest
names V (gpgme_from v ns ∷ rest) = (if leb v V.gpgme then ns else []) ++ names V rest
names V (gpg_error_from v ns ∷ rest) = (if leb v V.gpg_error then ns else []) ++ names V rest

-- The class that the enumeration derives from.
pub data BaseClass : Type 0 where
  int_enum int_flag : BaseClass

-- The part of `pygpgme_add_constants` for one class: what CONST puts before a name, the base and the
-- name of the class, and the CONST lines.
pub record Table : Type 0 where
  pub prefix : String
  pub base : BaseClass
  pub name : String
  pub blocks : List Block

-- A Python dict with str keys, in the order of insertion.
abbrev pub Dict : Type 0
Dict = List (String × ℤ)

-- `PyDict_SetItemString`, which `add_enum_value` calls.
unfoldable pub add_enum_value : String → ℤ → Dict → Dict
add_enum_value k v [] = (k, v) ∷ []
add_enum_value k v ((j, w) ∷ d) = if j == k then (j, v) ∷ d else (j, w) ∷ add_enum_value k v d

-- The CONST lines in their order; `value` gives the number that the headers define for a name.
unfoldable pub add_all : (String → ℤ) → List String → Dict → Dict
add_all value [] d = d
add_all value (n ∷ rest) d = add_all value rest (add_enum_value n (value n) d)

-- The dict `values` of a table; `macro` has the number of every macro of the headers, by its prefix
-- and its name.
unfoldable pub members : (String → String → ℤ) → Versions → Table → Dict
unfolding add_all add_enum_value names
members macro V t = add_all (macro t.prefix) (names V t.blocks) []

-- The entry of a key.
unfoldable pub lookup : String → Dict → Option ℤ
lookup k [] = none
lookup k ((j, v) ∷ d) = if j == k then some v else lookup k d
