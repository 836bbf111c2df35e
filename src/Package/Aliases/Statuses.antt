-- ===== src/Package/Aliases/Statuses.antt =====
-- src/gpgme/__init__.py: the constants for the statuses.
use pygpgme.Base.{List, [], ◌∷◌}
use pygpgme.Python.Value.{EnumName}
use pygpgme.Package.Aliases.Names.{Alias, to}

abbrev pub status_aliases : List Alias
status_aliases =
    to "STATUS_EOF" EnumName.status "EOF"
    ∷ to "STATUS_ENTER" EnumName.status "ENTER"
    ∷ to "STATUS_LEAVE" EnumName.status "LEAVE"
    ∷ to "STATUS_ABORT" EnumName.status "ABORT"
    ∷ to "STATUS_GOODSIG" EnumName.status "GOODSIG"
    ∷ to "STATUS_BADSIG" EnumName.status "BADSIG"
    ∷ to "STATUS_ERRSIG" EnumName.status "ERRSIG"
    ∷ to "STATUS_BADARMOR" EnumName.status "BADARMOR"
    ∷ to "STATUS_RSA_OR_IDEA" EnumName.status "RSA_OR_IDEA"
    ∷ to "STATUS_KEYEXPIRED" EnumName.status "KEYEXPIRED"
    ∷ to "STATUS_KEYREVOKED" EnumName.status "KEYREVOKED"
    ∷ to "STATUS_TRUST_UNDEFINED" EnumName.status "TRUST_UNDEFINED"
    ∷ to "STATUS_TRUST_NEVER" EnumName.status "TRUST_NEVER"
    ∷ to "STATUS_TRUST_MARGINAL" EnumName.status "TRUST_MARGINAL"
    ∷ to "STATUS_TRUST_FULLY" EnumName.status "TRUST_FULLY"
    ∷ to "STATUS_TRUST_ULTIMATE" EnumName.status "TRUST_ULTIMATE"
    ∷ to "STATUS_SHM_INFO" EnumName.status "SHM_INFO"
    ∷ to "STATUS_SHM_GET" EnumName.status "SHM_GET"
    ∷ to "STATUS_SHM_GET_BOOL" EnumName.status "SHM_GET_BOOL"
    ∷ to "STATUS_SHM_GET_HIDDEN" EnumName.status "SHM_GET_HIDDEN"
    ∷ to "STATUS_NEED_PASSPHRASE" EnumName.status "NEED_PASSPHRASE"
    ∷ to "STATUS_VALIDSIG" EnumName.status "VALIDSIG"
    ∷ to "STATUS_SIG_ID" EnumName.status "SIG_ID"
    ∷ to "STATUS_ENC_TO" EnumName.status "ENC_TO"
    ∷ to "STATUS_NODATA" EnumName.status "NODATA"
    ∷ to "STATUS_BAD_PASSPHRASE" EnumName.status "BAD_PASSPHRASE"
    ∷ to "STATUS_NO_PUBKEY" EnumName.status "NO_PUBKEY"
    ∷ to "STATUS_NO_SECKEY" EnumName.status "NO_SECKEY"
    ∷ to "STATUS_NEED_PASSPHRASE_SYM" EnumName.status "NEED_PASSPHRASE_SYM"
    ∷ to "STATUS_DECRYPTION_FAILED" EnumName.status "DECRYPTION_FAILED"
    ∷ to "STATUS_DECRYPTION_OKAY" EnumName.status "DECRYPTION_OKAY"
    ∷ to "STATUS_MISSING_PASSPHRASE" EnumName.status "MISSING_PASSPHRASE"
    ∷ to "STATUS_GOOD_PASSPHRASE" EnumName.status "GOOD_PASSPHRASE"
    ∷ to "STATUS_GOODMDC" EnumName.status "GOODMDC"
    ∷ to "STATUS_BADMDC" EnumName.status "BADMDC"
    ∷ to "STATUS_ERRMDC" EnumName.status "ERRMDC"
    ∷ to "STATUS_IMPORTED" EnumName.status "IMPORTED"
    ∷ to "STATUS_IMPORT_OK" EnumName.status "IMPORT_OK"
    ∷ to "STATUS_IMPORT_PROBLEM" EnumName.status "IMPORT_PROBLEM"
    ∷ to "STATUS_IMPORT_RES" EnumName.status "IMPORT_RES"
    ∷ to "STATUS_FILE_START" EnumName.status "FILE_START"
    ∷ to "STATUS_FILE_DONE" EnumName.status "FILE_DONE"
    ∷ to "STATUS_FILE_ERROR" EnumName.status "FILE_ERROR"
    ∷ to "STATUS_BEGIN_DECRYPTION" EnumName.status "BEGIN_DECRYPTION"
    ∷ to "STATUS_END_DECRYPTION" EnumName.status "END_DECRYPTION"
    ∷ to "STATUS_BEGIN_ENCRYPTION" EnumName.status "BEGIN_ENCRYPTION"
    ∷ to "STATUS_END_ENCRYPTION" EnumName.status "END_ENCRYPTION"
    ∷ to "STATUS_DELETE_PROBLEM" EnumName.status "DELETE_PROBLEM"
    ∷ to "STATUS_GET_BOOL" EnumName.status "GET_BOOL"
    ∷ to "STATUS_GET_LINE" EnumName.status "GET_LINE"
    ∷ to "STATUS_GET_HIDDEN" EnumName.status "GET_HIDDEN"
    ∷ to "STATUS_GOT_IT" EnumName.status "GOT_IT"
    ∷ to "STATUS_PROGRESS" EnumName.status "PROGRESS"
    ∷ to "STATUS_SIG_CREATED" EnumName.status "SIG_CREATED"
    ∷ to "STATUS_SESSION_KEY" EnumName.status "SESSION_KEY"
    ∷ to "STATUS_NOTATION_NAME" EnumName.status "NOTATION_NAME"
    ∷ to "STATUS_NOTATION_DATA" EnumName.status "NOTATION_DATA"
    ∷ to "STATUS_POLICY_URL" EnumName.status "POLICY_URL"
    ∷ to "STATUS_BEGIN_STREAM" EnumName.status "BEGIN_STREAM"
    ∷ to "STATUS_END_STREAM" EnumName.status "END_STREAM"
    ∷ to "STATUS_KEY_CREATED" EnumName.status "KEY_CREATED"
    ∷ to "STATUS_USERID_HINT" EnumName.status "USERID_HINT"
    ∷ to "STATUS_UNEXPECTED" EnumName.status "UNEXPECTED"
    ∷ to "STATUS_INV_RECP" EnumName.status "INV_RECP"
    ∷ to "STATUS_NO_RECP" EnumName.status "NO_RECP"
    ∷ to "STATUS_ALREADY_SIGNED" EnumName.status "ALREADY_SIGNED"
    ∷ to "STATUS_SIGEXPIRED" EnumName.status "SIGEXPIRED"
    ∷ to "STATUS_EXPSIG" EnumName.status "EXPSIG"
    ∷ to "STATUS_EXPKEYSIG" EnumName.status "EXPKEYSIG"
    ∷ to "STATUS_TRUNCATED" EnumName.status "TRUNCATED"
    ∷ to "STATUS_ERROR" EnumName.status "ERROR"
    ∷ to "STATUS_NEWSIG" EnumName.status "NEWSIG"
    ∷ to "STATUS_REVKEYSIG" EnumName.status "REVKEYSIG"
    ∷ []
