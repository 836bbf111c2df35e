-- ===== src/Python/State.antt =====
-- The calling thread's pending exception, the outcomes of its allocations, and the functions of
-- CPython and libgpg-error that the extension calls, as a parameter.
use pygpgme.Base.{
  ℕ, Bool, true, false, not, Option, none, some, List, [], ◌∷◌, ◌++◌, ◌+◌, ◌==◌, if◌then◌else◌,
}
use pygpgme.Base.Int.{ℤ, fits_long}
use pygpgme.Python.Value.{
  EnumName, Text, Value, ExcType, Exc, Attr, as_int, boolean, str, none_value,
}

-- `mem` tells of each coming allocation that the code checks whether it succeeds; past its end all
-- do. `fault` is set where C has undefined behaviour, such as `Py_DECREF(NULL)`. `lost` counts the
-- objects that the extension makes and then neither returns, keeps nor frees.
pub record PyState : Type 0 where
  pub exc : Option Exc
  pub mem : List Bool
  pub fault : Bool
  pub lost : ℕ

-- How a call of an enumeration's class on an int ends: with the member of that value, or an
-- exception.
pub data EnumCall : Type 0 where
  found : EnumCall
  raises : ExcType → EnumCall

pub record Platform : Type 0 where
  -- CPython
  pub decode_ascii : Text → Text
  pub decode_utf8 : Text → Text
  -- without `replace`; `none` is a `UnicodeDecodeError`
  pub strict_utf8 : Text → Option Text
  pub encode_utf8 : Text → Option Text
  pub enum_call : EnumName → ℤ → EnumCall
  -- libgpg-error and gpgme
  pub err_source : ℕ → ℕ
  pub err_code : ℕ → ℕ
  pub err_make : ℕ → ℕ → ℕ
  pub code_from_errno : ℤ → ℕ
  pub err_general : ℕ
  -- GPG_ERR_SOURCE_GPGME and GPG_ERR_EOF
  pub source_gpgme : ℕ
  pub code_eof : ℕ
  -- `gpgme_strerror_r` into 255 bytes; `none` where it reports a failure
  pub strerror : ℕ → Option Text

-- `PyErr_SetString` and the like: a new exception replaces the pending one. Its argument is a
-- message, whose wording is left out.
abbrev pub set_error : ExcType → PyState → PyState
set_error k s = record s {
  exc = some (record { kind = k; args = some (message ∷ []); attrs = [] });
}
  where
    message : Value
    message = str []

abbrev pub lose : ℕ → PyState → PyState
lose n s = record s { lost = s.lost + n }

-- `PyErr_Clear`
abbrev pub clear_error : PyState → PyState
clear_error s = record s { exc = none }

-- `PyErr_Occurred`
abbrev pub occurred : PyState → Bool
occurred s = elim s.exc [ none ↦ false | some _ ↦ true ]

-- A checked allocation. The failing `PyObject_New` sets `MemoryError`.
abbrev pub new_object : PyState → Bool × PyState
new_object s = elim s.mem [
  | [] ↦ (true, s)
  | true ∷ m ↦ (true, record s { mem = m })
  | false ∷ m ↦ (false, set_error ExcType.memory_error (record s { mem = m }))
]

-- `PyObject_SetAttrString` on the pending exception, between a fetch and a restore.
abbrev pub set_attr : Attr → PyState → PyState
set_attr a s = elim s.exc [
  | none ↦ s
  | some e ↦ record s { exc = some (record e { attrs = e.attrs ++ (a ∷ []) }) }
]

-- `PyErr_GivenExceptionMatches` of the pending exception with `GpgmeError`.
abbrev pub is_gpgme_error : PyState → Bool
is_gpgme_error s = elim s.exc [
  | none ↦ false
  | some e ↦ elim e.kind [ ExcType.gpgme_error ↦ true | _ ↦ false ]
]

-- `PyBool_FromLong`
abbrev pub bool_from_long : ℕ → Value
bool_from_long n = boolean (not (n == 0))

-- `PyLong_AsLong`: an object that is no int gets `TypeError`, one out of range `OverflowError`, and
-- the result is then -1.
abbrev pub as_long : Value → PyState → ℤ × PyState
as_long v s = elim (as_int v) [
  | none ↦ (ℤ.negsuc 0, set_error ExcType.type_error s)
  | some z ↦ if fits_long z then (z, s) else (ℤ.negsuc 0, set_error ExcType.overflow_error s)
]

-- `PyLong_AsLong` of an object that is known to be an int.
abbrev pub long_of : ℤ → ℤ
long_of z = if fits_long z then z else ℤ.negsuc 0

-- A C string, decoded with `replace`, or `None` for `NULL`.
abbrev pub or_none : (Text → Text) → Option Text → Value
or_none decode none = none_value
or_none decode (some t) = str (decode t)
