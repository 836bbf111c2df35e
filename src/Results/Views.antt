-- ===== src/Results/Views.antt =====
-- What an import result shows of the C structure.
use pygpgme.Base.{◌≡◌, some, List, [], ◌∷◌, ◌++◌, map, arith}
use mathlib.Core.List.{append-nil, append_assoc}
use pygpgme.Base.Int.{pos}
use pygpgme.Python.Value.{EnumName, object, ImportItem, ImportResult}
use pygpgme.Python.State.{Platform, PyState, or_none}
use pygpgme.Constants.Values.{enum_view, enum_value_new-eq_view}
use pygpgme.Errors.View.{AreEnumerations, IsQuiet, error_view, error_object-eq_view}
use pygpgme.Gpgme.Structs.{ImportStatusRaw, ImportRaw}
use pygpgme.Results.Build.{imports_from, import_result}

-- The tuple for one imported key.
pub import_item_view : Platform → ImportStatusRaw → ImportItem
import_item_view P r = record {
  fpr = or_none P.decode_ascii r.fpr;
  result = error_view P r.result;
  status = some (enum_view P EnumName.import_status (pos r.status));
}

-- The object for the whole result.
pub import_view : Platform → ImportRaw → ImportResult
import_view P r = record {
  considered = r.considered;
  no_user_id = r.no_user_id;
  imported = r.imported;
  imported_rsa = r.imported_rsa;
  unchanged = r.unchanged;
  new_user_ids = r.new_user_ids;
  new_sub_keys = r.new_sub_keys;
  new_signatures = r.new_signatures;
  new_revocations = r.new_revocations;
  secret_read = r.secret_read;
  secret_imported = r.secret_imported;
  secret_unchanged = r.secret_unchanged;
  skipped_new_keys = r.skipped_new_keys;
  not_imported = r.not_imported;
  imports = map (import_item_view P) r.imports;
}

module _ (P : Platform) (h : AreEnumerations P) (s : PyState) (q : IsQuiet s) where
  imports_from-eq_map :
      (done : List ImportItem) (l : List ImportStatusRaw)
      → imports_from P done l s ≡ (some (done ++ map (import_item_view P) l), s)
  unfolding imports_from import_item_view error_view
  imports_from-eq_map done [] = rw append-nil
  imports_from-eq_map done (r ∷ rest) = ground (
    arith,
    error_object-eq_view P r.result s h q,
    enum_value_new-eq_view P EnumName.import_status (pos r.status) s (h.each _) q.no_exc,
    imports_from-eq_map (done ++ (import_item_view P r ∷ [])) rest,
    append_assoc done (import_item_view P r ∷ []) (map (import_item_view P) rest),
  )

  -- With memory, the extension's enumerations and no exception pending, the import result holds the
  -- counters of the C structure and one tuple for each imported key, in order, and the thread's state
  -- is unchanged.
  pub import_result-eq_view :
      (r : ImportRaw) → import_result P (some r) s ≡ (object (import_view P r), s)
  unfolding import_result import_view
  import_result-eq_view r = ground (arith, imports_from-eq_map [] r.imports)
