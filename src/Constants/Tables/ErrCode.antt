-- ===== src/Constants/Tables/ErrCode.antt =====
-- lib/pygpgme-constants.c: the error codes, in the order of the source.
use pygpgme.Base.{[], ◌∷◌, List, ◌++◌}
use pygpgme.Constants.Enums.{Block, plain, gpg_error_from, ver, Table, int_enum}

abbrev pub err_codes_first : List Block
err_codes_first =
    plain (
      "NO_ERROR" ∷ "GENERAL" ∷ "UNKNOWN_PACKET" ∷ "UNKNOWN_VERSION" ∷ "PUBKEY_ALGO" ∷ "DIGEST_ALGO"
      ∷ "BAD_PUBKEY" ∷ "BAD_SECKEY" ∷ "BAD_SIGNATURE" ∷ "NO_PUBKEY" ∷ "CHECKSUM" ∷ "BAD_PASSPHRASE"
      ∷ "CIPHER_ALGO" ∷ "KEYRING_OPEN" ∷ "INV_PACKET" ∷ "INV_ARMOR" ∷ "NO_USER_ID" ∷ "NO_SECKEY"
      ∷ "WRONG_SECKEY" ∷ "BAD_KEY" ∷ "COMPR_ALGO" ∷ "NO_PRIME" ∷ "NO_ENCODING_METHOD"
      ∷ "NO_ENCRYPTION_SCHEME" ∷ "NO_SIGNATURE_SCHEME" ∷ "INV_ATTR" ∷ "NO_VALUE" ∷ "NOT_FOUND"
      ∷ "VALUE_NOT_FOUND" ∷ "SYNTAX" ∷ "BAD_MPI" ∷ "INV_PASSPHRASE" ∷ "SIG_CLASS" ∷ "RESOURCE_LIMIT"
      ∷ "INV_KEYRING" ∷ "TRUSTDB" ∷ "BAD_CERT" ∷ "INV_USER_ID" ∷ "UNEXPECTED" ∷ "TIME_CONFLICT"
      ∷ "KEYSERVER" ∷ "WRONG_PUBKEY_ALGO" ∷ "TRIBUTE_TO_D_A" ∷ "WEAK_KEY" ∷ "INV_KEYLEN" ∷ "INV_ARG"
      ∷ "BAD_URI" ∷ "INV_URI" ∷ "NETWORK" ∷ "UNKNOWN_HOST" ∷ "SELFTEST_FAILED" ∷ "NOT_ENCRYPTED"
      ∷ "NOT_PROCESSED" ∷ "UNUSABLE_PUBKEY" ∷ "UNUSABLE_SECKEY" ∷ "INV_VALUE" ∷ "BAD_CERT_CHAIN"
      ∷ "MISSING_CERT" ∷ "NO_DATA" ∷ "BUG" ∷ "NOT_SUPPORTED" ∷ "INV_OP" ∷ "TIMEOUT" ∷ "INTERNAL"
      ∷ "EOF_GCRYPT" ∷ "INV_OBJ" ∷ "TOO_SHORT" ∷ "TOO_LARGE" ∷ "NO_OBJ" ∷ "NOT_IMPLEMENTED"
      ∷ "CONFLICT" ∷ "INV_CIPHER_MODE" ∷ "INV_FLAG" ∷ "INV_HANDLE" ∷ "TRUNCATED" ∷ "INCOMPLETE_LINE"
      ∷ "INV_RESPONSE" ∷ "NO_AGENT" ∷ "AGENT" ∷ "INV_DATA" ∷ "ASSUAN_SERVER_FAULT" ∷ "ASSUAN"
      ∷ "INV_SESSION_KEY" ∷ "INV_SEXP" ∷ "UNSUPPORTED_ALGORITHM" ∷ "NO_PIN_ENTRY" ∷ "PIN_ENTRY"
      ∷ "BAD_PIN" ∷ "INV_NAME" ∷ "BAD_DATA" ∷ "INV_PARAMETER" ∷ "WRONG_CARD" ∷ "NO_DIRMNGR"
      ∷ "DIRMNGR" ∷ "CERT_REVOKED" ∷ "NO_CRL_KNOWN" ∷ "CRL_TOO_OLD" ∷ "LINE_TOO_LONG"
      ∷ "NOT_TRUSTED" ∷ "CANCELED" ∷ "BAD_CA_CERT" ∷ "CERT_EXPIRED" ∷ "CERT_TOO_YOUNG"
      ∷ "UNSUPPORTED_CERT" ∷ "UNKNOWN_SEXP" ∷ "UNSUPPORTED_PROTECTION" ∷ "CORRUPTED_PROTECTION"
      ∷ "AMBIGUOUS_NAME" ∷ "CARD" ∷ "CARD_RESET" ∷ "CARD_REMOVED" ∷ "INV_CARD" ∷ "CARD_NOT_PRESENT"
      ∷ "NO_PKCS15_APP" ∷ "NOT_CONFIRMED" ∷ "CONFIGURATION" ∷ "NO_POLICY_MATCH" ∷ "INV_INDEX"
      ∷ "INV_ID" ∷ "NO_SCDAEMON" ∷ "SCDAEMON" ∷ "UNSUPPORTED_PROTOCOL" ∷ "BAD_PIN_METHOD"
      ∷ "CARD_NOT_INITIALIZED" ∷ "UNSUPPORTED_OPERATION" ∷ "WRONG_KEY_USAGE" ∷ "NOTHING_FOUND"
      ∷ "WRONG_BLOB_TYPE" ∷ "MISSING_VALUE" ∷ "HARDWARE" ∷ "PIN_BLOCKED" ∷ "USE_CONDITIONS"
      ∷ "PIN_NOT_SYNCED" ∷ "INV_CRL" ∷ "BAD_BER" ∷ "INV_BER" ∷ "ELEMENT_NOT_FOUND"
      ∷ "IDENTIFIER_NOT_FOUND" ∷ "INV_TAG" ∷ "INV_LENGTH" ∷ [])
    ∷ []

abbrev pub err_codes_second : List Block
err_codes_second =
    plain (
      "INV_KEYINFO" ∷ "UNEXPECTED_TAG" ∷ "NOT_DER_ENCODED" ∷ "NO_CMS_OBJ" ∷ "INV_CMS_OBJ"
      ∷ "UNKNOWN_CMS_OBJ" ∷ "UNSUPPORTED_CMS_OBJ" ∷ "UNSUPPORTED_ENCODING"
      ∷ "UNSUPPORTED_CMS_VERSION" ∷ "UNKNOWN_ALGORITHM" ∷ "INV_ENGINE" ∷ "PUBKEY_NOT_TRUSTED"
      ∷ "DECRYPT_FAILED" ∷ "KEY_EXPIRED" ∷ "SIG_EXPIRED" ∷ "ENCODING_PROBLEM" ∷ "INV_STATE"
      ∷ "DUP_VALUE" ∷ "MISSING_ACTION" ∷ "MODULE_NOT_FOUND" ∷ "INV_OID_STRING" ∷ "INV_TIME"
      ∷ "INV_CRL_OBJ" ∷ "UNSUPPORTED_CRL_VERSION" ∷ "INV_CERT_OBJ" ∷ "UNKNOWN_NAME"
      ∷ "LOCALE_PROBLEM" ∷ "NOT_LOCKED" ∷ "PROTOCOL_VIOLATION" ∷ "INV_MAC" ∷ "INV_REQUEST"
      ∷ "UNKNOWN_EXTN" ∷ "UNKNOWN_CRIT_EXTN" ∷ "LOCKED" ∷ "UNKNOWN_OPTION" ∷ "UNKNOWN_COMMAND"
      ∷ "NOT_OPERATIONAL" ∷ "NO_PASSPHRASE" ∷ "NO_PIN" ∷ "NOT_ENABLED" ∷ "NO_ENGINE" ∷ "MISSING_KEY"
      ∷ "TOO_MANY" ∷ "LIMIT_REACHED" ∷ "NOT_INITIALIZED" ∷ "MISSING_ISSUER_CERT" ∷ "NO_KEYSERVER"
      ∷ "INV_CURVE" ∷ "UNKNOWN_CURVE" ∷ "DUP_KEY" ∷ "AMBIGUOUS" ∷ "NO_CRYPT_CTX" ∷ "WRONG_CRYPT_CTX"
      ∷ "BAD_CRYPT_CTX" ∷ "CRYPT_CTX_CONFLICT" ∷ "BROKEN_PUBKEY" ∷ "BROKEN_SECKEY" ∷ "MAC_ALGO"
      ∷ "FULLY_CANCELED" ∷ "UNFINISHED" ∷ "BUFFER_TOO_SHORT" ∷ "SEXP_INV_LEN_SPEC"
      ∷ "SEXP_STRING_TOO_LONG" ∷ "SEXP_UNMATCHED_PAREN" ∷ "SEXP_NOT_CANONICAL"
      ∷ "SEXP_BAD_CHARACTER" ∷ "SEXP_BAD_QUOTATION" ∷ "SEXP_ZERO_PREFIX" ∷ "SEXP_NESTED_DH"
      ∷ "SEXP_UNMATCHED_DH" ∷ "SEXP_UNEXPECTED_PUNC" ∷ "SEXP_BAD_HEX_CHAR" ∷ "SEXP_ODD_HEX_NUMBERS"
      ∷ "SEXP_BAD_OCT_CHAR" ∷ "SUBKEYS_EXP_OR_REV" ∷ "DB_CORRUPTED" ∷ "SERVER_FAILED" ∷ "NO_NAME"
      ∷ "NO_KEY" ∷ "LEGACY_KEY" ∷ "REQUEST_TOO_SHORT" ∷ "REQUEST_TOO_LONG" ∷ "OBJ_TERM_STATE"
      ∷ "NO_CERT_CHAIN" ∷ "CERT_TOO_LARGE" ∷ "INV_RECORD" ∷ "BAD_MAC" ∷ "UNEXPECTED_MSG"
      ∷ "COMPR_FAILED" ∷ "WOULD_WRAP" ∷ "FATAL_ALERT" ∷ "NO_CIPHER" ∷ "MISSING_CLIENT_CERT"
      ∷ "CLOSE_NOTIFY" ∷ "TICKET_EXPIRED" ∷ "BAD_TICKET" ∷ "UNKNOWN_IDENTITY" ∷ "BAD_HS_CERT"
      ∷ "BAD_HS_CERT_REQ" ∷ "BAD_HS_CERT_VER" ∷ "BAD_HS_CHANGE_CIPHER" ∷ "BAD_HS_CLIENT_HELLO"
      ∷ "BAD_HS_SERVER_HELLO" ∷ "BAD_HS_SERVER_HELLO_DONE" ∷ "BAD_HS_FINISHED" ∷ "BAD_HS_SERVER_KEX"
      ∷ "BAD_HS_CLIENT_KEX" ∷ "BOGUS_STRING" ∷ "FORBIDDEN" ∷ "KEY_DISABLED" ∷ "KEY_ON_CARD"
      ∷ "INV_LOCK_OBJ" ∷ "TRUE" ∷ "FALSE" ∷ "ASS_GENERAL" ∷ "ASS_ACCEPT_FAILED"
      ∷ "ASS_CONNECT_FAILED" ∷ "ASS_INV_RESPONSE" ∷ "ASS_INV_VALUE" ∷ "ASS_INCOMPLETE_LINE"
      ∷ "ASS_LINE_TOO_LONG" ∷ "ASS_NESTED_COMMANDS" ∷ "ASS_NO_DATA_CB" ∷ "ASS_NO_INQUIRE_CB"
      ∷ "ASS_NOT_A_SERVER" ∷ "ASS_NOT_A_CLIENT" ∷ "ASS_SERVER_START" ∷ "ASS_READ_ERROR"
      ∷ "ASS_WRITE_ERROR" ∷ "ASS_TOO_MUCH_DATA" ∷ "ASS_UNEXPECTED_CMD" ∷ "ASS_UNKNOWN_CMD"
      ∷ "ASS_SYNTAX" ∷ "ASS_CANCELED" ∷ "ASS_NO_INPUT" ∷ "ASS_NO_OUTPUT" ∷ "ASS_PARAMETER"
      ∷ "ASS_UNKNOWN_INQUIRE" ∷ "ENGINE_TOO_OLD" ∷ "WINDOW_TOO_SMALL" ∷ [])
    ∷ []

abbrev pub err_codes_third : List Block
err_codes_third =
    plain (
      "WINDOW_TOO_LARGE" ∷ "MISSING_ENVVAR" ∷ "USER_ID_EXISTS" ∷ "NAME_EXISTS" ∷ "DUP_NAME"
      ∷ "TOO_YOUNG" ∷ "TOO_OLD" ∷ "UNKNOWN_FLAG" ∷ "INV_ORDER" ∷ "ALREADY_FETCHED" ∷ "TRY_LATER"
      ∷ [])
    ∷ gpg_error_from (ver 1 27 0) ("WRONG_NAME" ∷ [])
    ∷ gpg_error_from (ver 1 36 0) ("NO_AUTH" ∷ "BAD_AUTH" ∷ [])
    ∷ gpg_error_from (ver 1 37 0) ("NO_KEYBOXD" ∷ "KEYBOXD" ∷ "NO_SERVICE" ∷ "SERVICE" ∷ [])
    ∷ gpg_error_from (ver 1 47 0) ("BAD_PUK" ∷ "NO_RESET_CODE" ∷ "BAD_RESET_CODE" ∷ [])
    ∷ plain (
        "SYSTEM_BUG" ∷ "DNS_UNKNOWN" ∷ "DNS_SECTION" ∷ "DNS_ADDRESS" ∷ "DNS_NO_QUERY"
        ∷ "DNS_NO_ANSWER" ∷ "DNS_CLOSED" ∷ "DNS_VERIFY" ∷ "DNS_TIMEOUT" ∷ "LDAP_GENERAL"
        ∷ "LDAP_ATTR_GENERAL" ∷ "LDAP_NAME_GENERAL" ∷ "LDAP_SECURITY_GENERAL"
        ∷ "LDAP_SERVICE_GENERAL" ∷ "LDAP_UPDATE_GENERAL" ∷ "LDAP_E_GENERAL" ∷ "LDAP_X_GENERAL"
        ∷ "LDAP_OTHER_GENERAL" ∷ "LDAP_X_CONNECTING" ∷ "LDAP_REFERRAL_LIMIT" ∷ "LDAP_CLIENT_LOOP"
        ∷ "LDAP_NO_RESULTS" ∷ "LDAP_CONTROL_NOT_FOUND" ∷ "LDAP_NOT_SUPPORTED" ∷ "LDAP_CONNECT"
        ∷ "LDAP_NO_MEMORY" ∷ "LDAP_PARAM" ∷ "LDAP_USER_CANCELLED" ∷ "LDAP_FILTER"
        ∷ "LDAP_AUTH_UNKNOWN" ∷ "LDAP_TIMEOUT" ∷ "LDAP_DECODING" ∷ "LDAP_ENCODING" ∷ "LDAP_LOCAL"
        ∷ "LDAP_SERVER_DOWN" ∷ "LDAP_SUCCESS" ∷ "LDAP_OPERATIONS" ∷ "LDAP_PROTOCOL"
        ∷ "LDAP_TIMELIMIT" ∷ "LDAP_SIZELIMIT" ∷ "LDAP_COMPARE_FALSE" ∷ "LDAP_COMPARE_TRUE"
        ∷ "LDAP_UNSUPPORTED_AUTH" ∷ "LDAP_STRONG_AUTH_RQRD" ∷ "LDAP_PARTIAL_RESULTS"
        ∷ "LDAP_REFERRAL" ∷ "LDAP_ADMINLIMIT" ∷ "LDAP_UNAVAIL_CRIT_EXTN" ∷ "LDAP_CONFIDENT_RQRD"
        ∷ "LDAP_SASL_BIND_INPROG" ∷ "LDAP_NO_SUCH_ATTRIBUTE" ∷ "LDAP_UNDEFINED_TYPE"
        ∷ "LDAP_BAD_MATCHING" ∷ "LDAP_CONST_VIOLATION" ∷ "LDAP_TYPE_VALUE_EXISTS"
        ∷ "LDAP_INV_SYNTAX" ∷ "LDAP_NO_SUCH_OBJ" ∷ "LDAP_ALIAS_PROBLEM" ∷ "LDAP_INV_DN_SYNTAX"
        ∷ "LDAP_IS_LEAF" ∷ "LDAP_ALIAS_DEREF" ∷ "LDAP_X_PROXY_AUTH_FAIL" ∷ "LDAP_BAD_AUTH"
        ∷ "LDAP_INV_CREDENTIALS" ∷ "LDAP_INSUFFICIENT_ACC" ∷ "LDAP_BUSY" ∷ "LDAP_UNAVAILABLE"
        ∷ "LDAP_UNWILL_TO_PERFORM" ∷ "LDAP_LOOP_DETECT" ∷ "LDAP_NAMING_VIOLATION"
        ∷ "LDAP_OBJ_CLS_VIOLATION" ∷ "LDAP_NOT_ALLOW_NONLEAF" ∷ "LDAP_NOT_ALLOW_ON_RDN"
        ∷ "LDAP_ALREADY_EXISTS" ∷ "LDAP_NO_OBJ_CLASS_MODS" ∷ "LDAP_RESULTS_TOO_LARGE"
        ∷ "LDAP_AFFECTS_MULT_DSAS" ∷ "LDAP_VLV" ∷ "LDAP_OTHER" ∷ "LDAP_CUP_RESOURCE_LIMIT"
        ∷ "LDAP_CUP_SEC_VIOLATION" ∷ "LDAP_CUP_INV_DATA" ∷ "LDAP_CUP_UNSUP_SCHEME"
        ∷ "LDAP_CUP_RELOAD" ∷ "LDAP_CANCELLED" ∷ "LDAP_NO_SUCH_OPERATION" ∷ "LDAP_TOO_LATE"
        ∷ "LDAP_CANNOT_CANCEL" ∷ "LDAP_ASSERTION_FAILED" ∷ "LDAP_PROX_AUTH_DENIED" ∷ "USER_1"
        ∷ "USER_2" ∷ "USER_3" ∷ "USER_4" ∷ "USER_5" ∷ "USER_6" ∷ "USER_7" ∷ "USER_8" ∷ "USER_9"
        ∷ "USER_10" ∷ "USER_11" ∷ "USER_12" ∷ "USER_13" ∷ "USER_14" ∷ "USER_15" ∷ "USER_16" ∷ [])
    ∷ []

abbrev pub err_codes_fourth : List Block
err_codes_fourth =
    gpg_error_from (ver 1 37 0) (
      "SQL_OK" ∷ "SQL_ERROR" ∷ "SQL_INTERNAL" ∷ "SQL_PERM" ∷ "SQL_ABORT" ∷ "SQL_BUSY" ∷ "SQL_LOCKED"
      ∷ "SQL_NOMEM" ∷ "SQL_READONLY" ∷ "SQL_INTERRUPT" ∷ "SQL_IOERR" ∷ "SQL_CORRUPT"
      ∷ "SQL_NOTFOUND" ∷ "SQL_FULL" ∷ "SQL_CANTOPEN" ∷ "SQL_PROTOCOL" ∷ "SQL_EMPTY" ∷ "SQL_SCHEMA"
      ∷ "SQL_TOOBIG" ∷ "SQL_CONSTRAINT" ∷ "SQL_MISMATCH" ∷ "SQL_MISUSE" ∷ "SQL_NOLFS" ∷ "SQL_AUTH"
      ∷ "SQL_FORMAT" ∷ "SQL_RANGE" ∷ "SQL_NOTADB" ∷ "SQL_NOTICE" ∷ "SQL_WARNING" ∷ "SQL_ROW"
      ∷ "SQL_DONE" ∷ [])
    ∷ []

abbrev pub err_codes_fifth : List Block
err_codes_fifth =
    plain (
      "MISSING_ERRNO" ∷ "UNKNOWN_ERRNO" ∷ "EOF" ∷ "E2BIG" ∷ "EACCES" ∷ "EADDRINUSE"
      ∷ "EADDRNOTAVAIL" ∷ "EADV" ∷ "EAFNOSUPPORT" ∷ "EAGAIN" ∷ "EALREADY" ∷ "EAUTH" ∷ "EBACKGROUND"
      ∷ "EBADE" ∷ "EBADF" ∷ "EBADFD" ∷ "EBADMSG" ∷ "EBADR" ∷ "EBADRPC" ∷ "EBADRQC" ∷ "EBADSLT"
      ∷ "EBFONT" ∷ "EBUSY" ∷ "ECANCELED" ∷ "ECHILD" ∷ "ECHRNG" ∷ "ECOMM" ∷ "ECONNABORTED"
      ∷ "ECONNREFUSED" ∷ "ECONNRESET" ∷ "ED" ∷ "EDEADLK" ∷ "EDEADLOCK" ∷ "EDESTADDRREQ" ∷ "EDIED"
      ∷ "EDOM" ∷ "EDOTDOT" ∷ "EDQUOT" ∷ "EEXIST" ∷ "EFAULT" ∷ "EFBIG" ∷ "EFTYPE" ∷ "EGRATUITOUS"
      ∷ "EGREGIOUS" ∷ "EHOSTDOWN" ∷ "EHOSTUNREACH" ∷ "EIDRM" ∷ "EIEIO" ∷ "EILSEQ" ∷ "EINPROGRESS"
      ∷ "EINTR" ∷ "EINVAL" ∷ "EIO" ∷ "EISCONN" ∷ "EISDIR" ∷ "EISNAM" ∷ "EL2HLT" ∷ "EL2NSYNC"
      ∷ "EL3HLT" ∷ "EL3RST" ∷ "ELIBACC" ∷ "ELIBBAD" ∷ "ELIBEXEC" ∷ "ELIBMAX" ∷ "ELIBSCN" ∷ "ELNRNG"
      ∷ "ELOOP" ∷ "EMEDIUMTYPE" ∷ "EMFILE" ∷ "EMLINK" ∷ "EMSGSIZE" ∷ "EMULTIHOP" ∷ "ENAMETOOLONG"
      ∷ "ENAVAIL" ∷ "ENEEDAUTH" ∷ "ENETDOWN" ∷ "ENETRESET" ∷ "ENETUNREACH" ∷ "ENFILE" ∷ "ENOANO"
      ∷ "ENOBUFS" ∷ "ENOCSI" ∷ "ENODATA" ∷ "ENODEV" ∷ "ENOENT" ∷ "ENOEXEC" ∷ "ENOLCK" ∷ "ENOLINK"
      ∷ "ENOMEDIUM" ∷ "ENOMEM" ∷ "ENOMSG" ∷ "ENONET" ∷ "ENOPKG" ∷ "ENOPROTOOPT" ∷ "ENOSPC" ∷ "ENOSR"
      ∷ "ENOSTR" ∷ "ENOSYS" ∷ "ENOTBLK" ∷ "ENOTCONN" ∷ "ENOTDIR" ∷ "ENOTEMPTY" ∷ "ENOTNAM"
      ∷ "ENOTSOCK" ∷ "ENOTSUP" ∷ "ENOTTY" ∷ "ENOTUNIQ" ∷ "ENXIO" ∷ "EOPNOTSUPP" ∷ "EOVERFLOW"
      ∷ "EPERM" ∷ "EPFNOSUPPORT" ∷ "EPIPE" ∷ "EPROCLIM" ∷ "EPROCUNAVAIL" ∷ "EPROGMISMATCH"
      ∷ "EPROGUNAVAIL" ∷ "EPROTO" ∷ "EPROTONOSUPPORT" ∷ "EPROTOTYPE" ∷ "ERANGE" ∷ "EREMCHG"
      ∷ "EREMOTE" ∷ "EREMOTEIO" ∷ "ERESTART" ∷ "EROFS" ∷ "ERPCMISMATCH" ∷ "ESHUTDOWN"
      ∷ "ESOCKTNOSUPPORT" ∷ "ESPIPE" ∷ "ESRCH" ∷ "ESRMNT" ∷ "ESTALE" ∷ "ESTRPIPE" ∷ "ETIME"
      ∷ "ETIMEDOUT" ∷ "ETOOMANYREFS" ∷ "ETXTBSY" ∷ "EUCLEAN" ∷ "EUNATCH" ∷ [])
    ∷ plain ("EUSERS" ∷ "EWOULDBLOCK" ∷ "EXDEV" ∷ "EXFULL" ∷ [])
    ∷ []

abbrev pub err_code_table : Table
err_code_table = record {
  prefix = "GPG_ERR_";
  base = int_enum;
  name = "ErrCode";
  blocks =
      err_codes_first
      ++ (err_codes_second ++ (err_codes_third ++ (err_codes_fourth ++ (err_codes_fifth))));
}
