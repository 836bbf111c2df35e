-- ===== src/Errors/RoundTrip.antt =====
-- An error that is raised in a callback reaches gpgme as the same error.
use pygpgme.Base.{ℕ, ◌<◌, ◌^◌, ◌≡◌, ◌≢◌, true, none, [], arith}
use pygpgme.Base.Int.{pos, to_uint}
use pygpgme.Python.Value.{err_source, err_code}
use pygpgme.Python.State.{Platform, PyState, long_of}
use pygpgme.Constants.Values.{IsEnumeration}
use pygpgme.Errors.Convert.{check_error, check_pyerror}

-- What libgpg-error documents of an error value: it is put together from its two parts, which are
-- C enumeration values. The two enumerations refuse values as Python's do.
pub record IsPacked (P : Platform) (err : ℕ) : Type 0 where
  pub make_parts : P.err_make (P.err_source err) (P.err_code err) ≡ err
  pub source_range : P.err_source err < 2 ^ 32
  pub code_range : P.err_code err < 2 ^ 32
  pub sources : IsEnumeration P err_source
  pub codes : IsEnumeration P err_code

uint_of_long : (n : ℕ) → n < 2 ^ 32 → to_uint (long_of (pos n)) ≡ n
uint_of_long n h = ground arith

-- With memory for the exception, an error other than 0 is raised by `pygpgme_check_error`, which
-- says so; `pygpgme_check_pyerror` then returns that same error and leaves no exception pending.
pub check_pyerror-check_error :
    (P : Platform) (err : ℕ) (s : PyState)
    → IsPacked P err
    → err ≢ 0
    → s.mem ≡ []
    → ((check_error P err s).0 ≡ true)
      × ((check_pyerror P (check_error P err s).1).0 ≡ err)
      × ((check_pyerror P (check_error P err s).1).1.exc ≡ none)
unfolding check_error check_pyerror
check_pyerror-check_error P err s h ne m = ground (
  arith,
  h.make_parts,
  uint_of_long (P.err_source err) h.source_range,
  uint_of_long (P.err_code err) h.code_range,
  h.sources.known (pos (P.err_source err)),
  h.codes.known (pos (P.err_code err)),
)
