-- ===== src/Errors/Tests.antt =====
-- The conversions on a concrete platform, with the layout of libgpg-error: the source in bits 24 to
-- 30 and the code in bits 0 to 15.
use pygpgme.Base.{
  ℕ, ◌*◌, ◌/◌, ◌%◌, ◌+◌, ◌≡◌, refl, ◌⊎◌, inr, true, false, none, some, [], ◌∷◌, arith, ◌==◌, leb,
  if◌then◌else◌,
}
use pygpgme.Base.Int.{ℤ, pos, negsuc}
use pygpgme.Python.Value.{
  EnumName, int, str, err_source, err_code, value_error, gpgme_error, os_error,
}
use pygpgme.Python.State.{Platform, PyState, EnumCall, found, raises}
use pygpgme.Constants.Values.{IsEnumeration}
use pygpgme.Errors.Convert.{check_error, check_pyerror}
use pygpgme.Errors.RoundTrip.{IsPacked, check_pyerror-check_error}
use pygpgme.Errors.Pending.{Means, check_pyerror-Means}

-- The enumerations know the values up to 127.
abbrev known_below : EnumName → ℤ → EnumCall
known_below t (pos n) = if leb n 127 then found else raises value_error
known_below t (negsuc n) = raises value_error

abbrev make : ℕ → ℕ → ℕ
make source code = if code == 0 then 0 else source % 128 * 16777216 + code % 65536

abbrev pub demo : Platform
demo = record {
  decode_ascii = λ t. t;
  decode_utf8 = λ t. t;
  strict_utf8 = λ t. elim t [ [] ↦ some [] | x ∷ xs ↦ if leb x 127 then some (x ∷ xs) else none ];
  encode_utf8 = λ t. some t;
  enum_call = known_below;
  err_source = λ e. e / 16777216 % 128;
  err_code = λ e. e % 65536;
  err_make = make;
  code_from_errno = λ z. elim z [ pos n ↦ if n == 0 then 0 else 32768 + n | negsuc n ↦ 0 ];
  err_general = make 32 1;
  source_gpgme = 7;
  code_eof = 16383;
  strerror = λ e. none;
}

abbrev pub idle : PyState
idle = record { exc = none; mem = []; fault = false; lost = 0 }

pub demo-IsEnumeration : (t : EnumName) → IsEnumeration demo t
demo-IsEnumeration t = record { known = known }
  where
    known : (v : ℤ) → (demo.enum_call t v ≡ found) ⊎ (demo.enum_call t v ≡ raises value_error)
    known (pos n) = ground arith
    known (negsuc n) = inr refl

-- GPG_ERR_CANCELED of the source GPGME
abbrev pub canceled : ℕ
canceled = 7 * 16777216 + 99

canceled-IsPacked : IsPacked demo canceled
canceled-IsPacked = record {
  make_parts = refl;
  source_range = omega arith;
  code_range = omega arith;
  sources = demo-IsEnumeration err_source;
  codes = demo-IsEnumeration err_code;
}

check_pyerror-check_error_example :
    ((check_error demo canceled idle).0 ≡ true)
    × ((check_pyerror demo (check_error demo canceled idle).1).0 ≡ canceled)
    × ((check_pyerror demo (check_error demo canceled idle).1).1.exc ≡ none)
check_pyerror-check_error_example =
    check_pyerror-check_error demo canceled idle canceled-IsPacked (omega arith) refl

abbrev tight : PyState
tight = record { exc = none; mem = false ∷ []; fault = false; lost = 0 }

-- `OSError(2, ...)` is pending.
abbrev missing_file : PyState
missing_file = record idle {
  exc = some (record { kind = os_error; args = some (int (pos 2) ∷ str [] ∷ []); attrs = [] });
}

missing_file_error : (check_pyerror demo missing_file).0 ≡ 32770
unfolding check_pyerror
missing_file_error = refl

check_pyerror-Means_example :
    ((missing_file.exc ≡ none) × (check_pyerror demo missing_file ≡ (0, missing_file)))
    ⊎ ((e : _) × (missing_file.exc ≡ some e)
        × Means demo e.kind e.args (check_pyerror demo missing_file).0
        × ((check_pyerror demo missing_file).1 ≡ idle))
check_pyerror-Means_example = check_pyerror-Means demo missing_file

abbrev no_code : PyState
no_code = record idle {
  exc =
      some
        (record { kind = gpgme_error; args = some (int (pos 7) ∷ int (pos 0) ∷ []); attrs = [] });
}
