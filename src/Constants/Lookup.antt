-- ===== src/Constants/Lookup.antt =====
-- lib/pygpgme-constants.c: `pygpgme_enum_value_new`, which turns a C value into an object.
use pygpgme.Base.{Option, none, some}
use pygpgme.Base.Int.{ℤ}
use pygpgme.Python.Value.{EnumName, Value, member, int, value_error}
use pygpgme.Python.State.{Platform, EnumCall, found, raises, PyState, set_error, clear_error}

-- What the `if` makes of a call of the class: a `ValueError` is cleared and the int stands in.
enum_or_int : EnumName → ℤ → EnumCall → PyState → Option Value × PyState
enum_or_int t v found s = (some (member t v), s)
enum_or_int t v (raises value_error) s = (some (int v), clear_error (set_error value_error s))
enum_or_int t v (raises k) s = (none, set_error k s)

-- `pygpgme_enum_value_new`; `none` is `NULL`.
unfoldable pub enum_value_new : Platform → EnumName → ℤ → PyState → Option Value × PyState
unfolding enum_or_int
enum_value_new P t v s = enum_or_int t v (P.enum_call t v) s
