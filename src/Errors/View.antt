-- ===== src/Errors/View.antt =====
-- What `pygpgme_error_object` makes where memory lasts and no exception is pending.
use pygpgme.Base.{ℕ, ◌≡◌, none, [], ◌==◌, if◌then◌else◌, arith}
use pygpgme.Base.Int.{pos}
use pygpgme.Python.Value.{EnumName, ErrRef, py_none, instance_of, err_source, err_code}
use pygpgme.Python.State.{Platform, PyState}
use pygpgme.Constants.Values.{IsEnumeration, enum_view}
use pygpgme.Errors.Convert.{error_object, error_text}

-- Every enumeration refuses values by `ValueError` only.
pub record AreEnumerations (P : Platform) : Type 0 where
  pub each : (t : EnumName) → IsEnumeration P t

-- The calling thread has no exception pending and its allocations succeed.
pub record IsQuiet (s : PyState) : Type 0 where
  pub no_exc : s.exc ≡ none
  pub no_failure : s.mem ≡ []

-- `None` for no error, else the exception with the error's source, code and text.
unfoldable pub error_view : Platform → ℕ → ErrRef
error_view P err =
    if err == 0
    then py_none
    else instance_of (record {
      source = enum_view P EnumName.err_source (pos (P.err_source err));
      code = enum_view P EnumName.err_code (pos (P.err_code err));
      strerror = error_text P err;
    })

pub error_object-eq_view :
    (P : Platform) (err : ℕ) (s : PyState)
    → AreEnumerations P
    → IsQuiet s
    → error_object P err s ≡ (error_view P err, s)
unfolding error_object error_view
error_object-eq_view P err s h q = ground (
  arith,
  (h.each err_source).known (pos (P.err_source err)),
  (h.each err_code).known (pos (P.err_code err)),
)
