-- ===== src/Package/Aliases/Names.antt =====
-- src/gpgme/__init__.py: its lines, each of which gives a member of an enumeration another name.
use Prim.Native.String.{String}
use pygpgme.Base.{Option, none, some, List, [], ◌∷◌}
use pygpgme.Base.Int.{ℤ}
use pygpgme.Python.Value.{EnumName}
use pygpgme.Constants.Enums.{Dict, add_enum_value, lookup}

-- `name = Enum.member`
pub data Alias : Type 0 where
  to : String → EnumName → String → Alias

-- The line, where the attribute is there: the name in the dict of the module. `Enum.member` is the
-- member's number here.
unfoldable pub bind : Option ℤ → String → Dict → Option Dict
bind none name d = none
bind (some z) name d = some (add_enum_value name z d)

-- The lines in their order; `none` is an `AttributeError`. `enum` has the members of every class.
unfoldable pub assign : (EnumName → Dict) → List Alias → Dict → Option Dict
unfolding bind
assign enum [] d = some d
assign enum (to name t member ∷ rest) d = elim (bind (lookup member (enum t)) name d) [
  | none ↦ none
  | some d' ↦ assign enum rest d'
]
