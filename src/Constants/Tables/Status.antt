-- ===== src/Constants/Tables/Status.antt =====
-- lib/pygpgme-constants.c: the status lines of the engines, and the sources of errors.
use pygpgme.Base.{[], ◌∷◌}
use pygpgme.Constants.Enums.{plain, gpgme_from, gpg_error_from, ver, Table, int_enum}

abbrev pub status_table : Table
status_table = record {
  prefix = "GPGME_STATUS_";
  base = int_enum;
  name = "Status";
  blocks =
      plain (
        "EOF" ∷ "ENTER" ∷ "LEAVE" ∷ "ABORT" ∷ "GOODSIG" ∷ "BADSIG" ∷ "ERRSIG" ∷ "BADARMOR"
        ∷ "RSA_OR_IDEA" ∷ "KEYEXPIRED" ∷ "KEYREVOKED" ∷ "TRUST_UNDEFINED" ∷ "TRUST_NEVER"
        ∷ "TRUST_MARGINAL" ∷ "TRUST_FULLY" ∷ "TRUST_ULTIMATE" ∷ "SHM_INFO" ∷ "SHM_GET"
        ∷ "SHM_GET_BOOL" ∷ "SHM_GET_HIDDEN" ∷ "NEED_PASSPHRASE" ∷ "VALIDSIG" ∷ "SIG_ID" ∷ "ENC_TO"
        ∷ "NODATA" ∷ "BAD_PASSPHRASE" ∷ "NO_PUBKEY" ∷ "NO_SECKEY" ∷ "NEED_PASSPHRASE_SYM"
        ∷ "DECRYPTION_FAILED" ∷ "DECRYPTION_OKAY" ∷ "MISSING_PASSPHRASE" ∷ "GOOD_PASSPHRASE"
        ∷ "GOODMDC" ∷ "BADMDC" ∷ "ERRMDC" ∷ "IMPORTED" ∷ "IMPORT_OK" ∷ "IMPORT_PROBLEM"
        ∷ "IMPORT_RES" ∷ "FILE_START" ∷ "FILE_DONE" ∷ "FILE_ERROR" ∷ "BEGIN_DECRYPTION"
        ∷ "END_DECRYPTION" ∷ "BEGIN_ENCRYPTION" ∷ "END_ENCRYPTION" ∷ "DELETE_PROBLEM" ∷ "GET_BOOL"
        ∷ "GET_LINE" ∷ "GET_HIDDEN" ∷ "GOT_IT" ∷ "PROGRESS" ∷ "SIG_CREATED" ∷ "SESSION_KEY"
        ∷ "NOTATION_NAME" ∷ "NOTATION_DATA" ∷ "POLICY_URL" ∷ "BEGIN_STREAM" ∷ "END_STREAM"
        ∷ "KEY_CREATED" ∷ "USERID_HINT" ∷ "UNEXPECTED" ∷ "INV_RECP" ∷ "NO_RECP" ∷ "ALREADY_SIGNED"
        ∷ "SIGEXPIRED" ∷ "EXPSIG" ∷ "EXPKEYSIG" ∷ "TRUNCATED" ∷ "ERROR" ∷ "NEWSIG" ∷ "REVKEYSIG"
        ∷ "SIG_SUBPACKET" ∷ "NEED_PASSPHRASE_PIN" ∷ "SC_OP_FAILURE" ∷ "SC_OP_SUCCESS" ∷ "CARDCTRL"
        ∷ "BACKUP_KEY_CREATED" ∷ "PKA_TRUST_BAD" ∷ "PKA_TRUST_GOOD" ∷ "PLAINTEXT" ∷ "INV_SGNR"
        ∷ "NO_SGNR" ∷ "SUCCESS" ∷ "DECRYPTION_INFO" ∷ "PLAINTEXT_LENGTH" ∷ "MOUNTPOINT"
        ∷ "PINENTRY_LAUNCHED" ∷ "ATTRIBUTE" ∷ "BEGIN_SIGNING" ∷ "KEY_NOT_CREATED" ∷ "INQUIRE_MAXLEN"
        ∷ "FAILURE" ∷ "KEY_CONSIDERED" ∷ "TOFU_USER" ∷ "TOFU_STATS" ∷ "TOFU_STATS_LONG"
        ∷ "NOTATION_FLAGS" ∷ "DECRYPTION_COMPLIANCE_MODE" ∷ "VERIFICATION_COMPLIANCE_MODE" ∷ [])
      ∷ gpgme_from (ver 1 15 0) ("CANCELED_BY_USER" ∷ [])
      ∷ [];
}

abbrev pub err_source_table : Table
err_source_table = record {
  prefix = "GPG_ERR_SOURCE_";
  base = int_enum;
  name = "ErrSource";
  blocks =
      plain (
        "UNKNOWN" ∷ "GCRYPT" ∷ "GPG" ∷ "GPGSM" ∷ "GPGAGENT" ∷ "PINENTRY" ∷ "SCD" ∷ "GPGME"
        ∷ "KEYBOX" ∷ "KSBA" ∷ "DIRMNGR" ∷ "GSTI" ∷ "GPA" ∷ "KLEO" ∷ "G13" ∷ "ASSUAN" ∷ [])
      ∷ gpg_error_from (ver 1 42 0) ("TPM2D" ∷ [])
      ∷ plain ("TLS" ∷ [])
      ∷ gpg_error_from (ver 1 47 0) ("TKD" ∷ [])
      ∷ plain ("ANY" ∷ "USER_1" ∷ "USER_2" ∷ "USER_3" ∷ "USER_4" ∷ [])
      ∷ [];
}
