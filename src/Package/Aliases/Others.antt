-- ===== src/Package/Aliases/Others.antt =====
-- src/gpgme/__init__.py: the constants for algorithms, modes, results and error sources.
use pygpgme.Base.{List, [], ◌∷◌}
use pygpgme.Python.Value.{EnumName}
use pygpgme.Package.Aliases.Names.{Alias, to}

abbrev pub data_encoding_aliases : List Alias
data_encoding_aliases =
    to "DATA_ENCODING_NONE" EnumName.data_encoding "NONE"
    ∷ to "DATA_ENCODING_BINARY" EnumName.data_encoding "BINARY"
    ∷ to "DATA_ENCODING_BASE64" EnumName.data_encoding "BASE64"
    ∷ to "DATA_ENCODING_ARMOR" EnumName.data_encoding "ARMOR"
    ∷ []

abbrev pub pubkey_algo_aliases : List Alias
pubkey_algo_aliases =
    to "PK_RSA" EnumName.pubkey_algo "RSA"
    ∷ to "PK_RSA_E" EnumName.pubkey_algo "RSA_E"
    ∷ to "PK_RSA_S" EnumName.pubkey_algo "RSA_S"
    ∷ to "PK_ELG_E" EnumName.pubkey_algo "ELG_E"
    ∷ to "PK_DSA" EnumName.pubkey_algo "DSA"
    ∷ to "PK_ELG" EnumName.pubkey_algo "ELG"
    ∷ []

abbrev pub hash_algo_aliases : List Alias
hash_algo_aliases =
    to "MD_NONE" EnumName.hash_algo "NONE"
    ∷ to "MD_MD5" EnumName.hash_algo "MD5"
    ∷ to "MD_SHA1" EnumName.hash_algo "SHA1"
    ∷ to "MD_RMD160" EnumName.hash_algo "RMD160"
    ∷ to "MD_MD2" EnumName.hash_algo "MD2"
    ∷ to "MD_TIGER" EnumName.hash_algo "TIGER"
    ∷ to "MD_HAVAL" EnumName.hash_algo "HAVAL"
    ∷ to "MD_SHA256" EnumName.hash_algo "SHA256"
    ∷ to "MD_SHA384" EnumName.hash_algo "SHA384"
    ∷ to "MD_SHA512" EnumName.hash_algo "SHA512"
    ∷ to "MD_MD4" EnumName.hash_algo "MD4"
    ∷ to "MD_CRC32" EnumName.hash_algo "CRC32"
    ∷ to "MD_CRC32_RFC1510" EnumName.hash_algo "CRC32_RFC1510"
    ∷ to "MD_CRC24_RFC2440" EnumName.hash_algo "CRC24_RFC2440"
    ∷ []

abbrev pub sig_mode_aliases : List Alias
sig_mode_aliases =
    to "SIG_MODE_NORMAL" EnumName.sig_mode "NORMAL"
    ∷ to "SIG_MODE_DETACH" EnumName.sig_mode "DETACH"
    ∷ to "SIG_MODE_CLEAR" EnumName.sig_mode "CLEAR"
    ∷ []

abbrev pub validity_aliases : List Alias
validity_aliases =
    to "VALIDITY_UNKNOWN" EnumName.validity "UNKNOWN"
    ∷ to "VALIDITY_UNDEFINED" EnumName.validity "UNDEFINED"
    ∷ to "VALIDITY_NEVER" EnumName.validity "NEVER"
    ∷ to "VALIDITY_MARGINAL" EnumName.validity "MARGINAL"
    ∷ to "VALIDITY_FULL" EnumName.validity "FULL"
    ∷ to "VALIDITY_ULTIMATE" EnumName.validity "ULTIMATE"
    ∷ []

abbrev pub protocol_aliases : List Alias
protocol_aliases =
    to "PROTOCOL_OpenPGP" EnumName.protocol "OpenPGP"
    ∷ to "PROTOCOL_CMS" EnumName.protocol "CMS"
    ∷ []

abbrev pub keylist_mode_aliases : List Alias
keylist_mode_aliases =
    to "KEYLIST_MODE_LOCAL" EnumName.keylist_mode "LOCAL"
    ∷ to "KEYLIST_MODE_EXTERN" EnumName.keylist_mode "EXTERN"
    ∷ to "KEYLIST_MODE_SIGS" EnumName.keylist_mode "SIGS"
    ∷ to "KEYLIST_MODE_VALIDATE" EnumName.keylist_mode "VALIDATE"
    ∷ []

abbrev pub encrypt_flags_aliases : List Alias
encrypt_flags_aliases = to "ENCRYPT_ALWAYS_TRUST" EnumName.encrypt_flags "ALWAYS_TRUST" ∷ []

abbrev pub sigsum_aliases : List Alias
sigsum_aliases =
    to "SIGSUM_VALID" EnumName.sigsum "VALID"
    ∷ to "SIGSUM_GREEN" EnumName.sigsum "GREEN"
    ∷ to "SIGSUM_RED" EnumName.sigsum "RED"
    ∷ to "SIGSUM_KEY_REVOKED" EnumName.sigsum "KEY_REVOKED"
    ∷ to "SIGSUM_KEY_EXPIRED" EnumName.sigsum "KEY_EXPIRED"
    ∷ to "SIGSUM_SIG_EXPIRED" EnumName.sigsum "SIG_EXPIRED"
    ∷ to "SIGSUM_KEY_MISSING" EnumName.sigsum "KEY_MISSING"
    ∷ to "SIGSUM_CRL_MISSING" EnumName.sigsum "CRL_MISSING"
    ∷ to "SIGSUM_CRL_TOO_OLD" EnumName.sigsum "CRL_TOO_OLD"
    ∷ to "SIGSUM_BAD_POLICY" EnumName.sigsum "BAD_POLICY"
    ∷ to "SIGSUM_SYS_ERROR" EnumName.sigsum "SYS_ERROR"
    ∷ []

abbrev pub import_status_aliases : List Alias
import_status_aliases =
    to "IMPORT_NEW" EnumName.import_status "NEW"
    ∷ to "IMPORT_UID" EnumName.import_status "UID"
    ∷ to "IMPORT_SIG" EnumName.import_status "SIG"
    ∷ to "IMPORT_SUBKEY" EnumName.import_status "SUBKEY"
    ∷ to "IMPORT_SECRET" EnumName.import_status "SECRET"
    ∷ []

abbrev pub err_source_aliases : List Alias
err_source_aliases =
    to "ERR_SOURCE_UNKNOWN" EnumName.err_source "UNKNOWN"
    ∷ to "ERR_SOURCE_GCRYPT" EnumName.err_source "GCRYPT"
    ∷ to "ERR_SOURCE_GPG" EnumName.err_source "GPG"
    ∷ to "ERR_SOURCE_GPGSM" EnumName.err_source "GPGSM"
    ∷ to "ERR_SOURCE_GPGAGENT" EnumName.err_source "GPGAGENT"
    ∷ to "ERR_SOURCE_PINENTRY" EnumName.err_source "PINENTRY"
    ∷ to "ERR_SOURCE_SCD" EnumName.err_source "SCD"
    ∷ to "ERR_SOURCE_GPGME" EnumName.err_source "GPGME"
    ∷ to "ERR_SOURCE_KEYBOX" EnumName.err_source "KEYBOX"
    ∷ to "ERR_SOURCE_KSBA" EnumName.err_source "KSBA"
    ∷ to "ERR_SOURCE_DIRMNGR" EnumName.err_source "DIRMNGR"
    ∷ to "ERR_SOURCE_GSTI" EnumName.err_source "GSTI"
    ∷ to "ERR_SOURCE_USER_1" EnumName.err_source "USER_1"
    ∷ to "ERR_SOURCE_USER_2" EnumName.err_source "USER_2"
    ∷ to "ERR_SOURCE_USER_3" EnumName.err_source "USER_3"
    ∷ to "ERR_SOURCE_USER_4" EnumName.err_source "USER_4"
    ∷ []
