-- ===== src/Package/Aliases/ErrCodes/First.antt =====
-- src/gpgme/__init__.py: constants for the error codes, in the order of the source.
use pygpgme.Base.{List, [], ◌∷◌}
use pygpgme.Python.Value.{EnumName}
use pygpgme.Package.Aliases.Names.{Alias, to}

abbrev pub err_code_aliases_first : List Alias
err_code_aliases_first =
    to "ERR_NO_ERROR" EnumName.err_code "NO_ERROR"
    ∷ to "ERR_GENERAL" EnumName.err_code "GENERAL"
    ∷ to "ERR_UNKNOWN_PACKET" EnumName.err_code "UNKNOWN_PACKET"
    ∷ to "ERR_UNKNOWN_VERSION" EnumName.err_code "UNKNOWN_VERSION"
    ∷ to "ERR_PUBKEY_ALGO" EnumName.err_code "PUBKEY_ALGO"
    ∷ to "ERR_DIGEST_ALGO" EnumName.err_code "DIGEST_ALGO"
    ∷ to "ERR_BAD_PUBKEY" EnumName.err_code "BAD_PUBKEY"
    ∷ to "ERR_BAD_SECKEY" EnumName.err_code "BAD_SECKEY"
    ∷ to "ERR_BAD_SIGNATURE" EnumName.err_code "BAD_SIGNATURE"
    ∷ to "ERR_NO_PUBKEY" EnumName.err_code "NO_PUBKEY"
    ∷ to "ERR_CHECKSUM" EnumName.err_code "CHECKSUM"
    ∷ to "ERR_BAD_PASSPHRASE" EnumName.err_code "BAD_PASSPHRASE"
    ∷ to "ERR_CIPHER_ALGO" EnumName.err_code "CIPHER_ALGO"
    ∷ to "ERR_KEYRING_OPEN" EnumName.err_code "KEYRING_OPEN"
    ∷ to "ERR_INV_PACKET" EnumName.err_code "INV_PACKET"
    ∷ to "ERR_INV_ARMOR" EnumName.err_code "INV_ARMOR"
    ∷ to "ERR_NO_USER_ID" EnumName.err_code "NO_USER_ID"
    ∷ to "ERR_NO_SECKEY" EnumName.err_code "NO_SECKEY"
    ∷ to "ERR_WRONG_SECKEY" EnumName.err_code "WRONG_SECKEY"
    ∷ to "ERR_BAD_KEY" EnumName.err_code "BAD_KEY"
    ∷ to "ERR_COMPR_ALGO" EnumName.err_code "COMPR_ALGO"
    ∷ to "ERR_NO_PRIME" EnumName.err_code "NO_PRIME"
    ∷ to "ERR_NO_ENCODING_METHOD" EnumName.err_code "NO_ENCODING_METHOD"
    ∷ to "ERR_NO_ENCRYPTION_SCHEME" EnumName.err_code "NO_ENCRYPTION_SCHEME"
    ∷ to "ERR_NO_SIGNATURE_SCHEME" EnumName.err_code "NO_SIGNATURE_SCHEME"
    ∷ to "ERR_INV_ATTR" EnumName.err_code "INV_ATTR"
    ∷ to "ERR_NO_VALUE" EnumName.err_code "NO_VALUE"
    ∷ to "ERR_NOT_FOUND" EnumName.err_code "NOT_FOUND"
    ∷ to "ERR_VALUE_NOT_FOUND" EnumName.err_code "VALUE_NOT_FOUND"
    ∷ to "ERR_SYNTAX" EnumName.err_code "SYNTAX"
    ∷ to "ERR_BAD_MPI" EnumName.err_code "BAD_MPI"
    ∷ to "ERR_INV_PASSPHRASE" EnumName.err_code "INV_PASSPHRASE"
    ∷ to "ERR_SIG_CLASS" EnumName.err_code "SIG_CLASS"
    ∷ to "ERR_RESOURCE_LIMIT" EnumName.err_code "RESOURCE_LIMIT"
    ∷ to "ERR_INV_KEYRING" EnumName.err_code "INV_KEYRING"
    ∷ to "ERR_TRUSTDB" EnumName.err_code "TRUSTDB"
    ∷ to "ERR_BAD_CERT" EnumName.err_code "BAD_CERT"
    ∷ to "ERR_INV_USER_ID" EnumName.err_code "INV_USER_ID"
    ∷ to "ERR_UNEXPECTED" EnumName.err_code "UNEXPECTED"
    ∷ to "ERR_TIME_CONFLICT" EnumName.err_code "TIME_CONFLICT"
    ∷ to "ERR_KEYSERVER" EnumName.err_code "KEYSERVER"
    ∷ to "ERR_WRONG_PUBKEY_ALGO" EnumName.err_code "WRONG_PUBKEY_ALGO"
    ∷ to "ERR_TRIBUTE_TO_D_A" EnumName.err_code "TRIBUTE_TO_D_A"
    ∷ to "ERR_WEAK_KEY" EnumName.err_code "WEAK_KEY"
    ∷ to "ERR_INV_KEYLEN" EnumName.err_code "INV_KEYLEN"
    ∷ to "ERR_INV_ARG" EnumName.err_code "INV_ARG"
    ∷ to "ERR_BAD_URI" EnumName.err_code "BAD_URI"
    ∷ to "ERR_INV_URI" EnumName.err_code "INV_URI"
    ∷ to "ERR_NETWORK" EnumName.err_code "NETWORK"
    ∷ to "ERR_UNKNOWN_HOST" EnumName.err_code "UNKNOWN_HOST"
    ∷ to "ERR_SELFTEST_FAILED" EnumName.err_code "SELFTEST_FAILED"
    ∷ to "ERR_NOT_ENCRYPTED" EnumName.err_code "NOT_ENCRYPTED"
    ∷ to "ERR_NOT_PROCESSED" EnumName.err_code "NOT_PROCESSED"
    ∷ to "ERR_UNUSABLE_PUBKEY" EnumName.err_code "UNUSABLE_PUBKEY"
    ∷ to "ERR_UNUSABLE_SECKEY" EnumName.err_code "UNUSABLE_SECKEY"
    ∷ to "ERR_INV_VALUE" EnumName.err_code "INV_VALUE"
    ∷ to "ERR_BAD_CERT_CHAIN" EnumName.err_code "BAD_CERT_CHAIN"
    ∷ to "ERR_MISSING_CERT" EnumName.err_code "MISSING_CERT"
    ∷ to "ERR_NO_DATA" EnumName.err_code "NO_DATA"
    ∷ to "ERR_BUG" EnumName.err_code "BUG"
    ∷ to "ERR_NOT_SUPPORTED" EnumName.err_code "NOT_SUPPORTED"
    ∷ to "ERR_INV_OP" EnumName.err_code "INV_OP"
    ∷ to "ERR_TIMEOUT" EnumName.err_code "TIMEOUT"
    ∷ to "ERR_INTERNAL" EnumName.err_code "INTERNAL"
    ∷ to "ERR_EOF_GCRYPT" EnumName.err_code "EOF_GCRYPT"
    ∷ to "ERR_INV_OBJ" EnumName.err_code "INV_OBJ"
    ∷ to "ERR_TOO_SHORT" EnumName.err_code "TOO_SHORT"
    ∷ to "ERR_TOO_LARGE" EnumName.err_code "TOO_LARGE"
    ∷ to "ERR_NO_OBJ" EnumName.err_code "NO_OBJ"
    ∷ to "ERR_NOT_IMPLEMENTED" EnumName.err_code "NOT_IMPLEMENTED"
    ∷ to "ERR_CONFLICT" EnumName.err_code "CONFLICT"
    ∷ to "ERR_INV_CIPHER_MODE" EnumName.err_code "INV_CIPHER_MODE"
    ∷ to "ERR_INV_FLAG" EnumName.err_code "INV_FLAG"
    ∷ to "ERR_INV_HANDLE" EnumName.err_code "INV_HANDLE"
    ∷ to "ERR_TRUNCATED" EnumName.err_code "TRUNCATED"
    ∷ to "ERR_INCOMPLETE_LINE" EnumName.err_code "INCOMPLETE_LINE"
    ∷ to "ERR_INV_RESPONSE" EnumName.err_code "INV_RESPONSE"
    ∷ to "ERR_NO_AGENT" EnumName.err_code "NO_AGENT"
    ∷ to "ERR_AGENT" EnumName.err_code "AGENT"
    ∷ to "ERR_INV_DATA" EnumName.err_code "INV_DATA"
    ∷ to "ERR_ASSUAN_SERVER_FAULT" EnumName.err_code "ASSUAN_SERVER_FAULT"
    ∷ to "ERR_ASSUAN" EnumName.err_code "ASSUAN"
    ∷ to "ERR_INV_SESSION_KEY" EnumName.err_code "INV_SESSION_KEY"
    ∷ to "ERR_INV_SEXP" EnumName.err_code "INV_SEXP"
    ∷ to "ERR_UNSUPPORTED_ALGORITHM" EnumName.err_code "UNSUPPORTED_ALGORITHM"
    ∷ to "ERR_NO_PIN_ENTRY" EnumName.err_code "NO_PIN_ENTRY"
    ∷ to "ERR_PIN_ENTRY" EnumName.err_code "PIN_ENTRY"
    ∷ to "ERR_BAD_PIN" EnumName.err_code "BAD_PIN"
    ∷ to "ERR_INV_NAME" EnumName.err_code "INV_NAME"
    ∷ to "ERR_BAD_DATA" EnumName.err_code "BAD_DATA"
    ∷ to "ERR_INV_PARAMETER" EnumName.err_code "INV_PARAMETER"
    ∷ to "ERR_WRONG_CARD" EnumName.err_code "WRONG_CARD"
    ∷ to "ERR_NO_DIRMNGR" EnumName.err_code "NO_DIRMNGR"
    ∷ to "ERR_DIRMNGR" EnumName.err_code "DIRMNGR"
    ∷ to "ERR_CERT_REVOKED" EnumName.err_code "CERT_REVOKED"
    ∷ to "ERR_NO_CRL_KNOWN" EnumName.err_code "NO_CRL_KNOWN"
    ∷ to "ERR_CRL_TOO_OLD" EnumName.err_code "CRL_TOO_OLD"
    ∷ to "ERR_LINE_TOO_LONG" EnumName.err_code "LINE_TOO_LONG"
    ∷ to "ERR_NOT_TRUSTED" EnumName.err_code "NOT_TRUSTED"
    ∷ to "ERR_CANCELED" EnumName.err_code "CANCELED"
    ∷ to "ERR_BAD_CA_CERT" EnumName.err_code "BAD_CA_CERT"
    ∷ to "ERR_CERT_EXPIRED" EnumName.err_code "CERT_EXPIRED"
    ∷ to "ERR_CERT_TOO_YOUNG" EnumName.err_code "CERT_TOO_YOUNG"
    ∷ to "ERR_UNSUPPORTED_CERT" EnumName.err_code "UNSUPPORTED_CERT"
    ∷ to "ERR_UNKNOWN_SEXP" EnumName.err_code "UNKNOWN_SEXP"
    ∷ to "ERR_UNSUPPORTED_PROTECTION" EnumName.err_code "UNSUPPORTED_PROTECTION"
    ∷ to "ERR_CORRUPTED_PROTECTION" EnumName.err_code "CORRUPTED_PROTECTION"
    ∷ to "ERR_AMBIGUOUS_NAME" EnumName.err_code "AMBIGUOUS_NAME"
    ∷ to "ERR_CARD" EnumName.err_code "CARD"
    ∷ to "ERR_CARD_RESET" EnumName.err_code "CARD_RESET"
    ∷ to "ERR_CARD_REMOVED" EnumName.err_code "CARD_REMOVED"
    ∷ to "ERR_INV_CARD" EnumName.err_code "INV_CARD"
    ∷ to "ERR_CARD_NOT_PRESENT" EnumName.err_code "CARD_NOT_PRESENT"
    ∷ to "ERR_NO_PKCS15_APP" EnumName.err_code "NO_PKCS15_APP"
    ∷ to "ERR_NOT_CONFIRMED" EnumName.err_code "NOT_CONFIRMED"
    ∷ to "ERR_CONFIGURATION" EnumName.err_code "CONFIGURATION"
    ∷ to "ERR_NO_POLICY_MATCH" EnumName.err_code "NO_POLICY_MATCH"
    ∷ to "ERR_INV_INDEX" EnumName.err_code "INV_INDEX"
    ∷ to "ERR_INV_ID" EnumName.err_code "INV_ID"
    ∷ to "ERR_NO_SCDAEMON" EnumName.err_code "NO_SCDAEMON"
    ∷ []
