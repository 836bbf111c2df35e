-- ===== src/Constants/Values.antt =====
-- `pygpgme_enum_value_new` loses no value: whatever the class does not know stays a plain int.
use pygpgme.Base.{arith, ◌≡◌, refl, Option, none, some, ◌⊎◌, inl, inr}
use pygpgme.Base.Int.{ℤ}
use pygpgme.Python.Value.{EnumName, Value, as_int, value_error, member, int}
use pygpgme.Python.State.{Platform, found, raises, PyState}
use pygpgme.Constants.Lookup.{enum_value_new}

-- The class of an enumeration refuses a value by `ValueError` only.
pub record IsEnumeration (P : Platform) (t : EnumName) : Type 0 where
  pub known : (v : ℤ) → (P.enum_call t v ≡ found) ⊎ (P.enum_call t v ≡ raises value_error)

-- An object that reads back as `v`.
abbrev pub Reads : ℤ → Option Value → Type 0
Reads v o = (x : Value) × (o ≡ some x) × (as_int x ≡ some v)

-- From a class that refuses values by `ValueError` only, the result is never NULL and reads back as
-- the C value, and no new exception is pending: the one before is kept or cleared.
pub enum_value_new-Reads :
    (P : Platform) (t : EnumName) (v : ℤ) (s : PyState)
    → IsEnumeration P t
    → Reads v (enum_value_new P t v s).0
      × (((enum_value_new P t v s).1.exc ≡ s.exc) ⊎ ((enum_value_new P t v s).1.exc ≡ none))
unfolding enum_value_new
enum_value_new-Reads P t v s h = elim (h.known v) [
  | inl e ↦ rw e ((_, refl, refl), inl refl)
  | inr e ↦ rw e ((_, refl, refl), inr refl)
]

-- The object for a C value, described without the exceptions on the way.
abbrev pub enum_view : Platform → EnumName → ℤ → Value
enum_view P t v = elim (P.enum_call t v) [ found ↦ member t v | raises k ↦ int v ]

-- Where no exception is pending, the call leaves the state as it was.
pub enum_value_new-eq_view :
    (P : Platform) (t : EnumName) (v : ℤ) (s : PyState)
    → IsEnumeration P t
    → s.exc ≡ none
    → enum_value_new P t v s ≡ (some (enum_view P t v), s)
unfolding enum_value_new
enum_value_new-eq_view P t v s h q = elim (h.known v) [
  | inl e ↦ ground (arith, e)
  | inr e ↦ ground (arith, e)
]
