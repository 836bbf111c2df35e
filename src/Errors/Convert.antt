-- ===== src/Errors/Convert.antt =====
-- lib/pygpgme-error.c: the three conversions.
use pygpgme.Base.{ℕ, Bool, true, false, Option, none, some, List, [], ◌∷◌, ◌==◌, if◌then◌else◌}
use pygpgme.Base.Int.{ℤ, pos, to_uint, to_int}
use pygpgme.Python.Value.{
  EnumName, Text, Value, as_int, str, ErrorObject, ErrRef, null, py_none, instance_of, ExcType,
  gpgme_error, os_error, Exc, source_attr, code_attr, strerror_attr,
}
use pygpgme.Python.State.{Platform, PyState, new_object, clear_error, long_of}
use pygpgme.Constants.Lookup.{enum_value_new}

-- `strcpy(buf, "Unknown")`
abbrev pub unknown : Text
unknown = b'U' ∷ b'n' ∷ b'k' ∷ b'n' ∷ b'o' ∷ b'w' ∷ b'n' ∷ []

-- The decoded text of the error; the decoding replaces what is no UTF-8.
unfoldable pub error_text : Platform → ℕ → Value
error_text P err = elim (P.strerror err) [
  | none ↦ str (P.decode_utf8 unknown)
  | some buf ↦ str (P.decode_utf8 buf)
]

-- The call of `GpgmeError` with three arguments, which also become attributes.
make_error : Platform → ℕ → Value → Value → Bool × PyState → ErrRef × PyState
make_error P err source code (false, s) = (null, s)
make_error P err source code (true, s) =
    (instance_of (record { source = source; code = code; strerror = error_text P err }), s)

-- The second half of `pygpgme_error_object`, once the source is there.
object_code : Platform → ℕ → Value → Option Value × PyState → ErrRef × PyState
object_code P err source (none, s) = (null, s)
object_code P err source (some code, s) = make_error P err source code (new_object s)

-- The first half: the code is looked up only if the source was found.
object_source : Platform → ℕ → Option Value × PyState → ErrRef × PyState
object_source P err (none, s) = (null, s)
object_source P err (some source, s) =
    object_code P err source (enum_value_new P EnumName.err_code (pos (P.err_code err)) s)

-- `pygpgme_error_object`
unfoldable pub error_object : Platform → ℕ → PyState → ErrRef × PyState
unfolding object_source object_code make_error error_text enum_value_new
error_object P err s =
    if err == 0
    then (py_none, s)
    else object_source P err (enum_value_new P EnumName.err_source (pos (P.err_source err)) s)

-- An instance of `GpgmeError` as a pending exception, with the attributes set on it.
abbrev pub raised : ErrorObject → Exc
raised e = record {
  kind = gpgme_error;
  args = some (e.source ∷ e.code ∷ e.strerror ∷ []);
  attrs = source_attr e.source ∷ code_attr e.code ∷ strerror_attr e.strerror ∷ [];
}

-- `PyErr_SetObject`, if there is an object; `true` is the result -1. `None`, which the caller has
-- ruled out, would be passed as the value of the exception.
set_object : ErrRef × PyState → Bool × PyState
set_object (null, s) = (true, s)
set_object (py_none, s) =
    (true, record s { exc = some (record { kind = gpgme_error; args = some []; attrs = [] }) })
set_object (instance_of e, s) = (true, record s { exc = some (raised e) })

-- `pygpgme_check_error`; `true` is -1, an error.
unfoldable pub check_error : Platform → ℕ → PyState → Bool × PyState
unfolding error_object set_object
check_error P err s = if err == 0 then (false, s) else set_object (error_object P err s)

-- `gpgme_err_make` of two objects that must both be ints.
make_of : Platform → Option ℤ → Option ℤ → ℕ
make_of P (some source) (some code) = P.err_make (to_uint (long_of source)) (to_uint (long_of code))
make_of P _ _ = P.err_general

-- `gpgme_err_code_from_errno` of an object that must be an int.
errno_of : Platform → Option ℤ → ℕ
errno_of P none = P.err_general
errno_of P (some z) = P.code_from_errno (to_int (long_of z))

-- The error that `pygpgme_check_pyerror` makes of an exception's class and arguments.
unfoldable pub error_of : Platform → ExcType → Option (List Value) → ℕ
unfolding make_of errno_of
error_of P k none = P.err_general
error_of P k (some []) = P.err_general
error_of P gpgme_error (some (source ∷ [])) = P.err_general
error_of P gpgme_error (some (source ∷ code ∷ rest)) = make_of P (as_int source) (as_int code)
error_of P os_error (some (source ∷ rest)) = errno_of P (as_int source)
error_of P k (some (source ∷ rest)) = P.err_general

-- `pygpgme_check_pyerror`
unfoldable pub check_pyerror : Platform → PyState → ℕ × PyState
unfolding error_of
check_pyerror P s = elim s.exc [
  | none ↦ (0, s)
  | some e ↦ (error_of P e.kind e.args, clear_error s)
]
