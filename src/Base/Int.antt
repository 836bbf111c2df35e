-- ===== src/Base/Int.antt =====
-- Signed integers, and the C conversions of a Python int: to `long`, `int` and `unsigned int`.
-- On the platforms of the extension `long` has 64 bits and `int` 32, in two's complement.
use Prim.Native.Nat.{ℕ, ◌-◌, ◌%◌, ◌^◌}
use mathlib.Core.Path.{◌≡◌}
use mathlib.Core.Bool.{Bool, true, false}
use native.Mathlib.Omega.{arith}
use pygpgme.Base.Tests.{ltb, ◌==◌, if◌then◌else◌}

-- `negsuc n` is -(n + 1).
pub data ℤ : Type 0 where
  pos : ℕ → ℤ
  negsuc : ℕ → ℤ

abbrev pub is_zero : ℤ → Bool
is_zero (pos n) = n == 0
is_zero (negsuc n) = false

abbrev pub int_eq : ℤ → ℤ → Bool
int_eq (pos n) (pos m) = n == m
int_eq (negsuc n) (negsuc m) = n == m
int_eq _ _ = false

-- The value is in the range of a C `long`.
abbrev pub fits_long : ℤ → Bool
fits_long (pos n) = ltb n (2 ^ 63)
fits_long (negsuc n) = ltb n (2 ^ 63)

-- The value is in the range of a C `int`.
abbrev pub fits_int : ℤ → Bool
fits_int (pos n) = ltb n (2 ^ 31)
fits_int (negsuc n) = ltb n (2 ^ 31)

-- The conversion to `unsigned int`, which is also that to an enumeration of gpgme.
abbrev pub to_uint : ℤ → ℕ
to_uint (pos n) = n % 2 ^ 32
to_uint (negsuc n) = 2 ^ 32 - 1 - n % 2 ^ 32

-- The conversion of an `unsigned int` to `int`.
abbrev pub int_of : ℕ → ℤ
int_of u = if ltb u (2 ^ 31) then pos u else negsuc (2 ^ 32 - 1 - u)

-- The conversion of a `long` to `int`.
abbrev pub to_int : ℤ → ℤ
to_int z = int_of (to_uint z)

-- `int` keeps what is in its range.
pub to_int-fits : (z : ℤ) → fits_int z ≡ true → to_int z ≡ z
to_int-fits (pos n) h = ground arith
to_int-fits (negsuc n) h = ground arith
