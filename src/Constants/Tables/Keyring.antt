-- ===== src/Constants/Tables/Keyring.antt =====
-- lib/pygpgme-constants.c: the tables of protocols, key listings, imports and exports.
use pygpgme.Base.{[], ◌∷◌}
use pygpgme.Constants.Enums.{plain, gpgme_from, ver, Table, int_enum, int_flag}

abbrev pub protocol_table : Table
protocol_table = record {
  prefix = "GPGME_PROTOCOL_";
  base = int_enum;
  name = "Protocol";
  blocks =
      plain (
        "OpenPGP" ∷ "CMS" ∷ "GPGCONF" ∷ "ASSUAN" ∷ "G13" ∷ "UISERVER" ∷ "SPAWN" ∷ "DEFAULT"
        ∷ "UNKNOWN" ∷ [])
      ∷ [];
}

abbrev pub keylist_mode_table : Table
keylist_mode_table = record {
  prefix = "GPGME_KEYLIST_MODE_";
  base = int_flag;
  name = "KeylistMode";
  blocks =
      plain (
        "LOCAL" ∷ "EXTERN" ∷ "SIGS" ∷ "SIG_NOTATIONS" ∷ "WITH_SECRET" ∷ "WITH_TOFU" ∷ "EPHEMERAL"
        ∷ "VALIDATE" ∷ "LOCATE" ∷ [])
      ∷ gpgme_from (ver 1 14 0) ("WITH_KEYGRIP" ∷ [])
      ∷ gpgme_from (ver 1 18 0) ("FORCE_EXTERN" ∷ "LOCATE_EXTERNAL" ∷ [])
      ∷ [];
}

abbrev pub pinentry_mode_table : Table
pinentry_mode_table = record {
  prefix = "GPGME_PINENTRY_MODE_";
  base = int_enum;
  name = "PinentryMode";
  blocks = plain ("DEFAULT" ∷ "ASK" ∷ "CANCEL" ∷ "ERROR" ∷ "LOOPBACK" ∷ []) ∷ [];
}

abbrev pub export_mode_table : Table
export_mode_table = record {
  prefix = "GPGME_EXPORT_MODE_";
  base = int_flag;
  name = "ExportMode";
  blocks =
      plain ("EXTERN" ∷ "MINIMAL" ∷ "SECRET" ∷ "RAW" ∷ "PKCS12" ∷ [])
      ∷ gpgme_from (ver 1 14 0) ("SSH" ∷ [])
      ∷ gpgme_from (ver 1 17 0) ("SECRET_SUBKEY" ∷ [])
      ∷ [];
}

abbrev pub import_status_table : Table
import_status_table = record {
  prefix = "GPGME_IMPORT_";
  base = int_flag;
  name = "Import";
  blocks = plain ("NEW" ∷ "UID" ∷ "SIG" ∷ "SUBKEY" ∷ "SECRET" ∷ []) ∷ [];
}

abbrev pub delete_flags_table : Table
delete_flags_table = record {
  prefix = "GPGME_DELETE_";
  base = int_flag;
  name = "Delete";
  blocks = plain ("ALLOW_SECRET" ∷ "FORCE" ∷ []) ∷ [];
}
