-- ===== src/Constants/Tables/Crypt.antt =====
-- lib/pygpgme-constants.c: the tables of algorithms, modes and results of signing and encrypting.
use pygpgme.Base.{[], ◌∷◌}
use pygpgme.Constants.Enums.{plain, Table, int_enum, int_flag}

abbrev pub data_encoding_table : Table
data_encoding_table = record {
  prefix = "GPGME_DATA_ENCODING_";
  base = int_enum;
  name = "DataEncoding";
  blocks = plain ("NONE" ∷ "BINARY" ∷ "BASE64" ∷ "ARMOR" ∷ []) ∷ [];
}

abbrev pub pubkey_algo_table : Table
pubkey_algo_table = record {
  prefix = "GPGME_PK_";
  base = int_enum;
  name = "PubkeyAlgo";
  blocks =
      plain ("RSA" ∷ "RSA_E" ∷ "RSA_S" ∷ "ELG_E" ∷ "DSA" ∷ "ELG" ∷ "ECDSA" ∷ "ECDH" ∷ "EDDSA" ∷ [])
      ∷ [];
}

abbrev pub hash_algo_table : Table
hash_algo_table = record {
  prefix = "GPGME_MD_";
  base = int_enum;
  name = "HashAlgo";
  blocks =
      plain (
        "NONE" ∷ "MD5" ∷ "SHA1" ∷ "RMD160" ∷ "MD2" ∷ "TIGER" ∷ "HAVAL" ∷ "SHA256" ∷ "SHA384"
        ∷ "SHA512" ∷ "MD4" ∷ "CRC32" ∷ "CRC32_RFC1510" ∷ "CRC24_RFC2440" ∷ [])
      ∷ [];
}

abbrev pub sig_mode_table : Table
sig_mode_table = record {
  prefix = "GPGME_SIG_MODE_";
  base = int_enum;
  name = "SigMode";
  blocks = plain ("NORMAL" ∷ "DETACH" ∷ "CLEAR" ∷ []) ∷ [];
}

abbrev pub validity_table : Table
validity_table = record {
  prefix = "GPGME_VALIDITY_";
  base = int_enum;
  name = "Validity";
  blocks = plain ("UNKNOWN" ∷ "UNDEFINED" ∷ "NEVER" ∷ "MARGINAL" ∷ "FULL" ∷ "ULTIMATE" ∷ []) ∷ [];
}

abbrev pub sig_notation_flags_table : Table
sig_notation_flags_table = record {
  prefix = "GPGME_SIG_NOTATION_";
  base = int_flag;
  name = "SigNotationFlags";
  blocks = plain ("HUMAN_READABLE" ∷ "CRITICAL" ∷ []) ∷ [];
}

abbrev pub encrypt_flags_table : Table
encrypt_flags_table = record {
  prefix = "GPGME_ENCRYPT_";
  base = int_flag;
  name = "EncryptFlags";
  blocks =
      plain (
        "ALWAYS_TRUST" ∷ "NO_ENCRYPT_TO" ∷ "PREPARE" ∷ "EXPECT_SIGN" ∷ "NO_COMPRESS" ∷ "SYMMETRIC"
        ∷ "THROW_KEYIDS" ∷ "WRAP" ∷ "WANT_ADDRESS" ∷ [])
      ∷ [];
}

abbrev pub sigsum_table : Table
sigsum_table = record {
  prefix = "GPGME_SIGSUM_";
  base = int_flag;
  name = "Sigsum";
  blocks =
      plain (
        "VALID" ∷ "GREEN" ∷ "RED" ∷ "KEY_REVOKED" ∷ "KEY_EXPIRED" ∷ "SIG_EXPIRED" ∷ "KEY_MISSING"
        ∷ "CRL_MISSING" ∷ "CRL_TOO_OLD" ∷ "BAD_POLICY" ∷ "SYS_ERROR" ∷ "TOFU_CONFLICT" ∷ [])
      ∷ [];
}
