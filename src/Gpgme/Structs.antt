-- ===== src/Gpgme/Structs.antt =====
-- The structures of gpgme.h whose fields the extension reads. A linked list is a list, a pointer to
-- a string that may be `NULL` an option, a bit field or an enumeration a number.
use pygpgme.Base.{ℕ, Option, List}
use pygpgme.Base.Int.{ℤ}
use pygpgme.Python.Value.{Text}

-- struct _gpgme_invalid_key
pub record InvalidKeyRaw : Type 0 where
  pub fpr : Option Text
  pub reason : ℕ

-- struct _gpgme_new_signature
pub record NewSigRaw : Type 0 where
  pub sig_type : ℕ
  pub pubkey_algo : ℕ
  pub hash_algo : ℕ
  pub timestamp : ℤ
  pub fpr : Option Text
  pub sig_class : ℕ

-- struct _gpgme_sig_notation; `name` and `value` have the lengths that go with them
pub record NotationRaw : Type 0 where
  pub name : Option Text
  pub value : Text
  pub flags : ℕ

-- struct _gpgme_signature
pub record SigRaw : Type 0 where
  pub summary : ℕ
  pub fpr : Option Text
  pub status : ℕ
  pub notations : List NotationRaw
  pub timestamp : ℕ
  pub exp_timestamp : ℕ
  pub wrong_key_usage : ℕ
  pub validity : ℕ
  pub validity_reason : ℕ
  pub pubkey_algo : ℕ
  pub hash_algo : ℕ

-- struct _gpgme_op_sign_result
pub record SignResult : Type 0 where
  pub invalid_signers : List InvalidKeyRaw
  pub signatures : List NewSigRaw

-- struct _gpgme_op_decrypt_result
pub record DecryptResult : Type 0 where
  pub unsupported_algorithm : Option Text
  pub wrong_key_usage : ℕ

-- struct _gpgme_import_status
pub record ImportStatusRaw : Type 0 where
  pub fpr : Option Text
  pub result : ℕ
  pub status : ℕ

-- struct _gpgme_op_import_result
pub record ImportRaw : Type 0 where
  pub considered : ℤ
  pub no_user_id : ℤ
  pub imported : ℤ
  pub imported_rsa : ℤ
  pub unchanged : ℤ
  pub new_user_ids : ℤ
  pub new_sub_keys : ℤ
  pub new_signatures : ℤ
  pub new_revocations : ℤ
  pub secret_read : ℤ
  pub secret_imported : ℤ
  pub secret_unchanged : ℤ
  pub skipped_new_keys : ℤ
  pub not_imported : ℤ
  pub imports : List ImportStatusRaw

-- struct _gpgme_op_genkey_result
pub record GenkeyRaw : Type 0 where
  pub primary : ℕ
  pub sub : ℕ
  pub fpr : Option Text
