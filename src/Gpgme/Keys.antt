-- ===== src/Gpgme/Keys.antt =====
-- The key structures of gpgme.h, as in Structs.
use pygpgme.Base.{ℕ, Option, List}
use pygpgme.Base.Int.{ℤ}
use pygpgme.Python.Value.{Text}

-- struct _gpgme_subkey
pub record SubkeyRaw : Type 0 where
  pub revoked : ℕ
  pub expired : ℕ
  pub disabled : ℕ
  pub invalid : ℕ
  pub can_encrypt : ℕ
  pub can_sign : ℕ
  pub can_certify : ℕ
  pub secret : ℕ
  pub can_authenticate : ℕ
  pub pubkey_algo : ℕ
  pub length : ℕ
  pub keyid : Option Text
  pub fpr : Option Text
  pub timestamp : ℤ
  pub expires : ℤ

-- struct _gpgme_key_sig
pub record KeySigRaw : Type 0 where
  pub revoked : ℕ
  pub expired : ℕ
  pub invalid : ℕ
  pub exportable : ℕ
  pub pubkey_algo : ℕ
  pub keyid : Option Text
  pub timestamp : ℤ
  pub expires : ℤ
  pub status : ℕ
  pub uid : Option Text
  pub name : Option Text
  pub email : Option Text
  pub comment : Option Text
  pub sig_class : ℕ

-- struct _gpgme_user_id
pub record UserIdRaw : Type 0 where
  pub revoked : ℕ
  pub invalid : ℕ
  pub validity : ℕ
  pub uid : Option Text
  pub name : Option Text
  pub email : Option Text
  pub comment : Option Text
  pub signatures : List KeySigRaw

-- struct _gpgme_key
pub record KeyRaw : Type 0 where
  pub revoked : ℕ
  pub expired : ℕ
  pub disabled : ℕ
  pub invalid : ℕ
  pub can_encrypt : ℕ
  pub can_sign : ℕ
  pub can_certify : ℕ
  pub secret : ℕ
  pub can_authenticate : ℕ
  pub protocol : ℕ
  pub issuer_serial : Option Text
  pub issuer_name : Option Text
  pub chain_id : Option Text
  pub owner_trust : ℕ
  pub keylist_mode : ℕ
  pub subkeys : List SubkeyRaw
  pub uids : List UserIdRaw
