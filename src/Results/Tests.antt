-- ===== src/Results/Tests.antt =====
-- A concrete import, and concrete engines.
use pygpgme.Base.{refl, none, map, arith, ◌≡◌, some, [], ◌∷◌}
use pygpgme.Base.Int.{pos}
use pygpgme.Python.Value.{object}
use pygpgme.Gpgme.Structs.{ImportRaw}
use pygpgme.Errors.Tests.{demo, idle}
use pygpgme.Signature.Tests.{demo-AreEnumerations, idle-IsQuiet}
use pygpgme.Results.Engines.{
  EngineRaw, AllUtf8, engine_info_list_new, engine_view, engine_info_list_new-eq_map,
}
use pygpgme.Results.Build.{import_result}
use pygpgme.Results.Views.{import_view, import_result-eq_view}

abbrev one_import : ImportRaw
one_import = record {
  considered = pos 2;
  no_user_id = pos 0;
  imported = pos 1;
  imported_rsa = pos 0;
  unchanged = pos 1;
  new_user_ids = pos 0;
  new_sub_keys = pos 0;
  new_signatures = pos 0;
  new_revocations = pos 0;
  secret_read = pos 0;
  secret_imported = pos 0;
  secret_unchanged = pos 0;
  skipped_new_keys = pos 0;
  not_imported = pos 0;
  imports =
      record { fpr = some (65 ∷ []); result = 0; status = 1 }
      ∷ record { fpr = some (66 ∷ []); result = 17; status = 0 }
      ∷ [];
}

import_result-eq_view_example :
    import_result demo (some one_import) idle ≡ (object (import_view demo one_import), idle)
import_result-eq_view_example =
    import_result-eq_view demo demo-AreEnumerations idle idle-IsQuiet one_import

abbrev gpg : EngineRaw
gpg = record {
  protocol = 0;
  file_name = some (47 ∷ 103 ∷ []);
  version = some (50 ∷ []);
  req_version = some (49 ∷ []);
  home_dir = none;
}

gpg-AllUtf8 : AllUtf8 demo (gpg ∷ [])
unfolding AllUtf8
gpg-AllUtf8 = (
  record {
    file_name_ok = ground arith;
    version_ok = ground arith;
    req_version_ok = ground arith;
    home_dir_ok = refl;
  },
  refl,
)

engine_info_list_new-eq_map_example :
    engine_info_list_new demo (gpg ∷ []) idle ≡ (some (map (engine_view demo) (gpg ∷ [])), idle)
engine_info_list_new-eq_map_example =
    engine_info_list_new-eq_map demo demo-AreEnumerations idle idle-IsQuiet (gpg ∷ []) gpg-AllUtf8
