-- ===== src/Package/Aliases/ErrCodes/Second.antt =====
-- src/gpgme/__init__.py: constants for the error codes, in the order of the source.
use pygpgme.Base.{List, [], ◌∷◌}
use pygpgme.Python.Value.{EnumName}
use pygpgme.Package.Aliases.Names.{Alias, to}

abbrev pub err_code_aliases_second : List Alias
err_code_aliases_second =
    to "ERR_SCDAEMON" EnumName.err_code "SCDAEMON"
    ∷ to "ERR_UNSUPPORTED_PROTOCOL" EnumName.err_code "UNSUPPORTED_PROTOCOL"
    ∷ to "ERR_BAD_PIN_METHOD" EnumName.err_code "BAD_PIN_METHOD"
    ∷ to "ERR_CARD_NOT_INITIALIZED" EnumName.err_code "CARD_NOT_INITIALIZED"
    ∷ to "ERR_UNSUPPORTED_OPERATION" EnumName.err_code "UNSUPPORTED_OPERATION"
    ∷ to "ERR_WRONG_KEY_USAGE" EnumName.err_code "WRONG_KEY_USAGE"
    ∷ to "ERR_NOTHING_FOUND" EnumName.err_code "NOTHING_FOUND"
    ∷ to "ERR_WRONG_BLOB_TYPE" EnumName.err_code "WRONG_BLOB_TYPE"
    ∷ to "ERR_MISSING_VALUE" EnumName.err_code "MISSING_VALUE"
    ∷ to "ERR_HARDWARE" EnumName.err_code "HARDWARE"
    ∷ to "ERR_PIN_BLOCKED" EnumName.err_code "PIN_BLOCKED"
    ∷ to "ERR_USE_CONDITIONS" EnumName.err_code "USE_CONDITIONS"
    ∷ to "ERR_PIN_NOT_SYNCED" EnumName.err_code "PIN_NOT_SYNCED"
    ∷ to "ERR_INV_CRL" EnumName.err_code "INV_CRL"
    ∷ to "ERR_BAD_BER" EnumName.err_code "BAD_BER"
    ∷ to "ERR_INV_BER" EnumName.err_code "INV_BER"
    ∷ to "ERR_ELEMENT_NOT_FOUND" EnumName.err_code "ELEMENT_NOT_FOUND"
    ∷ to "ERR_IDENTIFIER_NOT_FOUND" EnumName.err_code "IDENTIFIER_NOT_FOUND"
    ∷ to "ERR_INV_TAG" EnumName.err_code "INV_TAG"
    ∷ to "ERR_INV_LENGTH" EnumName.err_code "INV_LENGTH"
    ∷ to "ERR_INV_KEYINFO" EnumName.err_code "INV_KEYINFO"
    ∷ to "ERR_UNEXPECTED_TAG" EnumName.err_code "UNEXPECTED_TAG"
    ∷ to "ERR_NOT_DER_ENCODED" EnumName.err_code "NOT_DER_ENCODED"
    ∷ to "ERR_NO_CMS_OBJ" EnumName.err_code "NO_CMS_OBJ"
    ∷ to "ERR_INV_CMS_OBJ" EnumName.err_code "INV_CMS_OBJ"
    ∷ to "ERR_UNKNOWN_CMS_OBJ" EnumName.err_code "UNKNOWN_CMS_OBJ"
    ∷ to "ERR_UNSUPPORTED_CMS_OBJ" EnumName.err_code "UNSUPPORTED_CMS_OBJ"
    ∷ to "ERR_UNSUPPORTED_ENCODING" EnumName.err_code "UNSUPPORTED_ENCODING"
    ∷ to "ERR_UNSUPPORTED_CMS_VERSION" EnumName.err_code "UNSUPPORTED_CMS_VERSION"
    ∷ to "ERR_UNKNOWN_ALGORITHM" EnumName.err_code "UNKNOWN_ALGORITHM"
    ∷ to "ERR_INV_ENGINE" EnumName.err_code "INV_ENGINE"
    ∷ to "ERR_PUBKEY_NOT_TRUSTED" EnumName.err_code "PUBKEY_NOT_TRUSTED"
    ∷ to "ERR_DECRYPT_FAILED" EnumName.err_code "DECRYPT_FAILED"
    ∷ to "ERR_KEY_EXPIRED" EnumName.err_code "KEY_EXPIRED"
    ∷ to "ERR_SIG_EXPIRED" EnumName.err_code "SIG_EXPIRED"
    ∷ to "ERR_ENCODING_PROBLEM" EnumName.err_code "ENCODING_PROBLEM"
    ∷ to "ERR_INV_STATE" EnumName.err_code "INV_STATE"
    ∷ to "ERR_DUP_VALUE" EnumName.err_code "DUP_VALUE"
    ∷ to "ERR_MISSING_ACTION" EnumName.err_code "MISSING_ACTION"
    ∷ to "ERR_MODULE_NOT_FOUND" EnumName.err_code "MODULE_NOT_FOUND"
    ∷ to "ERR_INV_OID_STRING" EnumName.err_code "INV_OID_STRING"
    ∷ to "ERR_INV_TIME" EnumName.err_code "INV_TIME"
    ∷ to "ERR_INV_CRL_OBJ" EnumName.err_code "INV_CRL_OBJ"
    ∷ to "ERR_UNSUPPORTED_CRL_VERSION" EnumName.err_code "UNSUPPORTED_CRL_VERSION"
    ∷ to "ERR_INV_CERT_OBJ" EnumName.err_code "INV_CERT_OBJ"
    ∷ to "ERR_UNKNOWN_NAME" EnumName.err_code "UNKNOWN_NAME"
    ∷ to "ERR_LOCALE_PROBLEM" EnumName.err_code "LOCALE_PROBLEM"
    ∷ to "ERR_NOT_LOCKED" EnumName.err_code "NOT_LOCKED"
    ∷ to "ERR_PROTOCOL_VIOLATION" EnumName.err_code "PROTOCOL_VIOLATION"
    ∷ to "ERR_INV_MAC" EnumName.err_code "INV_MAC"
    ∷ to "ERR_INV_REQUEST" EnumName.err_code "INV_REQUEST"
    ∷ to "ERR_BUFFER_TOO_SHORT" EnumName.err_code "BUFFER_TOO_SHORT"
    ∷ to "ERR_SEXP_INV_LEN_SPEC" EnumName.err_code "SEXP_INV_LEN_SPEC"
    ∷ to "ERR_SEXP_STRING_TOO_LONG" EnumName.err_code "SEXP_STRING_TOO_LONG"
    ∷ to "ERR_SEXP_UNMATCHED_PAREN" EnumName.err_code "SEXP_UNMATCHED_PAREN"
    ∷ to "ERR_SEXP_NOT_CANONICAL" EnumName.err_code "SEXP_NOT_CANONICAL"
    ∷ to "ERR_SEXP_BAD_CHARACTER" EnumName.err_code "SEXP_BAD_CHARACTER"
    ∷ to "ERR_SEXP_BAD_QUOTATION" EnumName.err_code "SEXP_BAD_QUOTATION"
    ∷ to "ERR_SEXP_ZERO_PREFIX" EnumName.err_code "SEXP_ZERO_PREFIX"
    ∷ to "ERR_SEXP_NESTED_DH" EnumName.err_code "SEXP_NESTED_DH"
    ∷ to "ERR_SEXP_UNMATCHED_DH" EnumName.err_code "SEXP_UNMATCHED_DH"
    ∷ to "ERR_SEXP_UNEXPECTED_PUNC" EnumName.err_code "SEXP_UNEXPECTED_PUNC"
    ∷ to "ERR_SEXP_BAD_HEX_CHAR" EnumName.err_code "SEXP_BAD_HEX_CHAR"
    ∷ to "ERR_SEXP_ODD_HEX_NUMBERS" EnumName.err_code "SEXP_ODD_HEX_NUMBERS"
    ∷ to "ERR_SEXP_BAD_OCT_CHAR" EnumName.err_code "SEXP_BAD_OCT_CHAR"
    ∷ to "ERR_USER_1" EnumName.err_code "USER_1"
    ∷ to "ERR_USER_2" EnumName.err_code "USER_2"
    ∷ to "ERR_USER_3" EnumName.err_code "USER_3"
    ∷ to "ERR_USER_4" EnumName.err_code "USER_4"
    ∷ to "ERR_USER_5" EnumName.err_code "USER_5"
    ∷ to "ERR_USER_6" EnumName.err_code "USER_6"
    ∷ to "ERR_USER_7" EnumName.err_code "USER_7"
    ∷ to "ERR_USER_8" EnumName.err_code "USER_8"
    ∷ to "ERR_USER_9" EnumName.err_code "USER_9"
    ∷ to "ERR_USER_10" EnumName.err_code "USER_10"
    ∷ to "ERR_USER_11" EnumName.err_code "USER_11"
    ∷ to "ERR_USER_12" EnumName.err_code "USER_12"
    ∷ to "ERR_USER_13" EnumName.err_code "USER_13"
    ∷ to "ERR_USER_14" EnumName.err_code "USER_14"
    ∷ to "ERR_USER_15" EnumName.err_code "USER_15"
    ∷ to "ERR_USER_16" EnumName.err_code "USER_16"
    ∷ to "ERR_UNKNOWN_ERRNO" EnumName.err_code "UNKNOWN_ERRNO"
    ∷ to "ERR_EOF" EnumName.err_code "EOF"
    ∷ to "ERR_E2BIG" EnumName.err_code "E2BIG"
    ∷ to "ERR_EACCES" EnumName.err_code "EACCES"
    ∷ to "ERR_EADDRINUSE" EnumName.err_code "EADDRINUSE"
    ∷ to "ERR_EADDRNOTAVAIL" EnumName.err_code "EADDRNOTAVAIL"
    ∷ to "ERR_EADV" EnumName.err_code "EADV"
    ∷ to "ERR_EAFNOSUPPORT" EnumName.err_code "EAFNOSUPPORT"
    ∷ to "ERR_EAGAIN" EnumName.err_code "EAGAIN"
    ∷ to "ERR_EALREADY" EnumName.err_code "EALREADY"
    ∷ to "ERR_EAUTH" EnumName.err_code "EAUTH"
    ∷ to "ERR_EBACKGROUND" EnumName.err_code "EBACKGROUND"
    ∷ to "ERR_EBADE" EnumName.err_code "EBADE"
    ∷ to "ERR_EBADF" EnumName.err_code "EBADF"
    ∷ to "ERR_EBADFD" EnumName.err_code "EBADFD"
    ∷ to "ERR_EBADMSG" EnumName.err_code "EBADMSG"
    ∷ to "ERR_EBADR" EnumName.err_code "EBADR"
    ∷ to "ERR_EBADRPC" EnumName.err_code "EBADRPC"
    ∷ to "ERR_EBADRQC" EnumName.err_code "EBADRQC"
    ∷ to "ERR_EBADSLT" EnumName.err_code "EBADSLT"
    ∷ to "ERR_EBFONT" EnumName.err_code "EBFONT"
    ∷ to "ERR_EBUSY" EnumName.err_code "EBUSY"
    ∷ to "ERR_ECANCELED" EnumName.err_code "ECANCELED"
    ∷ to "ERR_ECHILD" EnumName.err_code "ECHILD"
    ∷ to "ERR_ECHRNG" EnumName.err_code "ECHRNG"
    ∷ to "ERR_ECOMM" EnumName.err_code "ECOMM"
    ∷ to "ERR_ECONNABORTED" EnumName.err_code "ECONNABORTED"
    ∷ to "ERR_ECONNREFUSED" EnumName.err_code "ECONNREFUSED"
    ∷ to "ERR_ECONNRESET" EnumName.err_code "ECONNRESET"
    ∷ to "ERR_ED" EnumName.err_code "ED"
    ∷ to "ERR_EDEADLK" EnumName.err_code "EDEADLK"
    ∷ to "ERR_EDEADLOCK" EnumName.err_code "EDEADLOCK"
    ∷ to "ERR_EDESTADDRREQ" EnumName.err_code "EDESTADDRREQ"
    ∷ to "ERR_EDIED" EnumName.err_code "EDIED"
    ∷ to "ERR_EDOM" EnumName.err_code "EDOM"
    ∷ to "ERR_EDOTDOT" EnumName.err_code "EDOTDOT"
    ∷ to "ERR_EDQUOT" EnumName.err_code "EDQUOT"
    ∷ to "ERR_EEXIST" EnumName.err_code "EEXIST"
    ∷ to "ERR_EFAULT" EnumName.err_code "EFAULT"
    ∷ []
