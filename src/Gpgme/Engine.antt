-- ===== src/Gpgme/Engine.antt =====
-- What gpgme does with a context, as a parameter over the type `C` of its states.
use pygpgme.Base.{ℕ, Option, List}
use pygpgme.Base.Int.{ℤ}
use pygpgme.Python.Value.{Text}
use pygpgme.Gpgme.Structs.{InvalidKeyRaw, SignResult, DecryptResult, SigRaw, ImportRaw, GenkeyRaw}

-- A `gpgme_data_t`: `none` is `NULL`, else the Python object that it reads or writes.
abbrev pub Handle : Type 0
Handle = Option ℕ

-- The operations that run with the interpreter released, with their arguments. A key is the number
-- of its `gpgme_key_t`; an array of keys or patterns ends at its `NULL`.
pub data Op : Type 0 where
  get_key : Text → ℤ → Op
  encrypt : Option (List ℕ) → ℤ → Handle → Handle → Op
  encrypt_sign : Option (List ℕ) → ℤ → Handle → Handle → Op
  decrypt : Handle → Handle → Op
  decrypt_verify : Handle → Handle → Op
  sign : Handle → Handle → ℤ → Op
  verify : Handle → Handle → Handle → Op
  import_data : Handle → Op
  import_keys : List ℕ → Op
  export : Option (List Text) → ℤ → Handle → Op
  export_keys : List ℕ → ℤ → Handle → Op
  genkey : Option Text → Handle → Handle → Op
  delete : ℕ → ℕ → Op
  edit : ℕ → ℕ → Handle → Op
  card_edit : ℕ → ℕ → Handle → Op
  keylist_start : Option (List Text) → ℤ → Op

pub record Engine (C : Type 0) : Type 0 where
  -- an operation's error and the state that it leaves, its callbacks' work included
  pub perform : C → Op → ℕ × C
  -- `gpgme_data_new_from_cbs`
  pub new_data : C → ℕ × C
  -- the key that `gpgme_get_key` found
  pub found_key : C → ℕ
  -- `gpgme_op_keylist_next`: its error, and the key it gives, `none` for `NULL`
  pub next_key : C → ℕ × Option ℕ × C
  -- `gpgme_op_keylist_end`
  pub end_list : C → ℕ × C
  -- `gpgme_op_*_result`; `none` is `NULL`
  pub encrypt_result : C → Option (List InvalidKeyRaw)
  pub sign_result : C → Option SignResult
  pub decrypt_result : C → Option DecryptResult
  pub verify_result : C → Option (List SigRaw)
  pub import_result : C → Option ImportRaw
  pub genkey_result : C → Option GenkeyRaw
