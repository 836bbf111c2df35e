-- ===== src/Signature/Notation.antt =====
-- lib/pygpgme-signature.c: the class SigNotation. A result `none` is `NULL`, and `true` is -1.
use pygpgme.Base.{ℕ, ◌/◌, ◌%◌, Bool, true, false, Option, none, some, ◌||◌, ◌==◌, if◌then◌else◌}
use pygpgme.Base.Int.{ℤ, pos}
use pygpgme.Python.Value.{
  EnumName, Value, none_value, str, bytes, boolean, SigNotation, type_error, index_error,
}
use pygpgme.Python.State.{Platform, PyState, set_error}
use pygpgme.Constants.Lookup.{enum_value_new}
use pygpgme.Signature.Lists.{is_human_readable}

-- `PyUnicode_Check`
abbrev pub is_str : Value → Bool
is_str (str t) = true
is_str _ = false

-- `PyBytes_Check`
abbrev pub is_bytes : Value → Bool
is_bytes (bytes t) = true
is_bytes _ = false

abbrev pub is_none : Value → Bool
is_none none_value = true
is_none _ = false

-- The arguments, of which the flags may be missing.
pub record NotationArgs : Type 0 where
  pub name : Value
  pub value : Value
  pub flags : Option ℕ

-- GPGME_SIG_NOTATION_HUMAN_READABLE, the value of the flags where none are given.
abbrev pub given_flags : NotationArgs → ℕ
given_flags a = elim a.flags [ none ↦ 1 | some f ↦ f ]

-- The tests of the arguments: the value must be a str if the flags say that it is human readable,
-- else bytes.
unfoldable pub arguments_fit : NotationArgs → Bool
arguments_fit a =
    if is_none a.name || is_str a.name
    then (if is_human_readable (given_flags a) then is_str a.value else is_bytes a.value)
    else false

-- `pygpgme_sig_notation_init`, with the object's fields, `none` before the first call. Arguments `none`
-- are a failure of `PyArg_ParseTupleAndKeywords`.
unfoldable pub sig_notation_init :
    Option NotationArgs → Option SigNotation → PyState → Bool × Option SigNotation × PyState
unfolding arguments_fit
sig_notation_init none self s = (true, self, set_error type_error s)
sig_notation_init (some a) self s =
    if arguments_fit a
    then (false, some (record { name = a.name; value = a.value; flags = given_flags a }), s)
    else (true, self, set_error type_error s)

-- `pygpgme_sig_notation_length`
unfoldable pub sig_notation_length : SigNotation → ℕ
sig_notation_length self = 2

-- `pygpgme_sig_notation_item`
unfoldable pub sig_notation_item : SigNotation → ℤ → PyState → Option Value × PyState
sig_notation_item self (pos n) s =
    if n == 0
    then (some self.name, s)
    else (if n == 1 then (some self.value, s) else (none, set_error index_error s))
sig_notation_item self (ℤ.negsuc n) s = (none, set_error index_error s)

-- `pygpgme_sig_notation_get_flags`
unfoldable pub sig_notation_get_flags : Platform → SigNotation → PyState → Option Value × PyState
unfolding enum_value_new
sig_notation_get_flags P self s = enum_value_new P EnumName.sig_notation_flags (pos self.flags) s

-- `pygpgme_sig_notation_get_human_readable`
unfoldable pub sig_notation_get_human_readable : SigNotation → Value
sig_notation_get_human_readable self = boolean (is_human_readable self.flags)

-- `pygpgme_sig_notation_get_critical`; GPGME_SIG_NOTATION_CRITICAL is bit 1.
unfoldable pub sig_notation_get_critical : SigNotation → Value
sig_notation_get_critical self = boolean (self.flags / 2 % 2 == 1)
