-- ===== src/Results/Build.antt =====
-- lib/pygpgme-import.c: `pygpgme_import_result`. lib/pygpgme-genkey.c: `pygpgme_genkey_result`.
use pygpgme.Base.{Bool, true, false, Option, none, some, List, [], ◌∷◌, ◌++◌, if◌then◌else◌}
use pygpgme.Base.Int.{pos}
use pygpgme.Python.Value.{
  ExcType, Value, EnumName, ErrRef, null, Ref, null_ref, none_ref, object, ImportItem, ImportResult,
  GenkeyResult,
}
use pygpgme.Python.State.{
  Platform, PyState, occurred, set_error, new_object, or_none, bool_from_long, lose,
}
use pygpgme.Constants.Lookup.{enum_value_new}
use pygpgme.Errors.Convert.{error_object}
use pygpgme.Gpgme.Structs.{ImportStatusRaw, ImportRaw, GenkeyRaw}

-- `Py_BuildValue` that was given `NULL`: a `SystemError`, if no exception is pending.
unfoldable pub build_failed : PyState → PyState
build_failed s = if occurred s then s else set_error ExcType.system_error s

-- `Py_BuildValue` of three new references fails if one of them is `NULL`.
unfoldable pub import_item : Value → ErrRef → Option Value → Option ImportItem
import_item fpr null status = none
import_item fpr r none = none
import_item fpr r (some status) = some (record { fpr = fpr; result = r; status = some status })

-- The loop over the imported keys, with the tuples so far. The arguments of `Py_BuildValue` are
-- evaluated from left to right.
unfoldable pub imports_from :
    Platform → List ImportItem → List ImportStatusRaw → PyState → Option (List ImportItem) × PyState
unfolding import_item build_failed
imports_from P done [] s = (some done, s)
imports_from P done (status ∷ rest) s =
    let (result, s1) = error_object P status.result s in
    let (flags, s2) = enum_value_new P EnumName.import_status (pos status.status) s1 in
    elim (import_item (or_none P.decode_ascii status.fpr) result flags) [
      | none ↦ (none, build_failed s2)
      | some item ↦ imports_from P (done ++ (item ∷ [])) rest s2
    ]

-- The counters, each by `ADD_INT`, and the list.
import_object : ImportRaw → Option (List ImportItem) × PyState → Ref ImportResult × PyState
import_object result (none, s) = (null_ref, s)
import_object result (some imports, s) = (
  object (record {
    considered = result.considered;
    no_user_id = result.no_user_id;
    imported = result.imported;
    imported_rsa = result.imported_rsa;
    unchanged = result.unchanged;
    new_user_ids = result.new_user_ids;
    new_sub_keys = result.new_sub_keys;
    new_signatures = result.new_signatures;
    new_revocations = result.new_revocations;
    secret_read = result.secret_read;
    secret_imported = result.secret_imported;
    secret_unchanged = result.secret_unchanged;
    skipped_new_keys = result.skipped_new_keys;
    not_imported = result.not_imported;
    imports = imports;
  }),
  s,
)

-- The object and its list are allocated one after the other; without a list the object is left.
import_start : Platform → ImportRaw → Bool × PyState → Ref ImportResult × PyState
import_start P result (false, s) = (null_ref, s)
import_start P result (true, s) =
    let (fits, s1) = new_object s in
    if fits
    then import_object result (imports_from P [] result.imports s1)
    else (null_ref, lose 1 s1)

-- `pygpgme_import_result`, of what `gpgme_op_import_result` returned.
unfoldable pub import_result : Platform → Option ImportRaw → PyState → Ref ImportResult × PyState
unfolding import_start import_object imports_from
import_result P none s = (none_ref, s)
import_result P (some result) s = import_start P result (new_object s)

genkey_object : Platform → GenkeyRaw → Bool × PyState → Ref GenkeyResult × PyState
genkey_object P result (false, s) = (null_ref, s)
genkey_object P result (true, s) = (
  object (record {
    primary = bool_from_long result.primary;
    sub = bool_from_long result.sub;
    fpr = or_none P.decode_ascii result.fpr;
  }),
  s,
)

-- `pygpgme_genkey_result`, of what `gpgme_op_genkey_result` returned.
unfoldable pub genkey_result : Platform → Option GenkeyRaw → PyState → Ref GenkeyResult × PyState
unfolding genkey_object
genkey_result P none s = (none_ref, s)
genkey_result P (some result) s = genkey_object P result (new_object s)
