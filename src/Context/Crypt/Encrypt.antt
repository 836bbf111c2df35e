-- ===== src/Context/Crypt/Encrypt.antt =====
-- lib/pygpgme-context.c: `encrypt` and `encrypt_sign`.
use pygpgme.Base.{ℕ, false, Option, none, some, List, [], if◌then◌else◌}
use pygpgme.Base.Int.{ℤ}
use pygpgme.Python.Value.{type_error, NewSignature}
use pygpgme.Python.State.{Platform}
use pygpgme.Errors.Convert.{check_error}
use pygpgme.Gpgme.Engine.{Handle, Op, Engine}
use pygpgme.Context.World.{World, with_error, run_op}
use pygpgme.Context.Resources.{
  data_new, data_release, SeqArg, not_sequence, KeyArray, key_array, release_array,
}
use pygpgme.Context.Annotate.{decode_encrypt_result, annotate_sign}
use pygpgme.Context.Crypt.Returned.{new_signatures}

-- The arguments of `encrypt` and `encrypt_sign`; the recipients `none` are `None`.
pub record EncryptArgs : Type 0 where
  pub recipients : Option SeqArg
  pub flags : ℤ
  pub plain : Option ℕ
  pub cipher : Option ℕ

-- `recp` and `recp_seq` before a sequence is read.
abbrev pub no_array : KeyArray
no_array = record { seq = none; array = false; keys = some [] }

module _ {C : Type 0} (P : Platform) (E : Engine C) (self : ℕ) where
  -- The code at the label `end` of `encrypt` and `encrypt_sign`.
  unfoldable pub finish : KeyArray → Handle → Handle → World C → World C
  finish arr plain cipher w =
      data_release self cipher (data_release self plain (release_array arr w))

  unfoldable pub encrypt_run :
      EncryptArgs
      → KeyArray
      → Option (List ℕ)
      → Handle
      → Handle
      → World C
      → Option (Unit {0}) × World C
  encrypt_run a arr recp plain cipher w =
      let (err, w1) = run_op E (Op.encrypt recp a.flags plain cipher) w in
      let (bad, s) = check_error P err w1.py in
      if bad
      then (
        none,
        finish arr plain cipher
            (record w1 { py = decode_encrypt_result P (E.encrypt_result w1.lib) s }),
      )
      else (some tt, finish arr plain cipher (record w1 { py = s }))

  unfoldable pub encrypt_sign_run :
      EncryptArgs
      → KeyArray
      → Option (List ℕ)
      → Handle
      → Handle
      → World C
      → Option (List NewSignature) × World C
  encrypt_sign_run a arr recp plain cipher w =
      let (err, w1) = run_op E (Op.encrypt_sign recp a.flags plain cipher) w in
      let (bad, s) = check_error P err w1.py in
      let result = E.sign_result w1.lib in
      if bad
      then (
        none,
        finish arr plain cipher (record w1 {
          py = annotate_sign P result (decode_encrypt_result P (E.encrypt_result w1.lib) s);
        }),
      )
      else (let (list, s') = new_signatures P result s in
          (list, finish arr plain cipher (record w1 { py = s' })))

  module _ {R : Type 0}
      (run : EncryptArgs
        → KeyArray
        → Option (List ℕ)
        → Handle
        → Handle
        → World C
        → Option R × World C) where
    -- The two data objects, in the order of the source.
    unfoldable pub with_data :
        EncryptArgs → KeyArray → Option (List ℕ) → World C → Option R × World C
    with_data a arr recp w =
        let (bad, plain, w1) = data_new P E self a.plain w in
        if bad
        then (none, finish arr none none w1)
        else (let (bad', cipher, w2) = data_new P E self a.cipher w1 in
            if bad' then (none, finish arr plain none w2) else run a arr recp plain cipher w2)

    -- The array of recipients, from a sequence.
    unfoldable pub with_keys : EncryptArgs → SeqArg → World C → Option R × World C
    with_keys a q w =
        let (arr, w1) = key_array q w in
        elim arr.keys [
          | none ↦ (none, finish arr none none w1)
          | some ks ↦ with_data a arr (some ks) w1
        ]

  -- The recipients of `encrypt`; `None` passes `NULL`, for symmetric encryption.
  unfoldable pub encrypt_to : EncryptArgs → Option SeqArg → World C → Option (Unit {0}) × World C
  unfolding with_keys with_data encrypt_run finish
  encrypt_to a none w = with_data encrypt_run a no_array none w
  encrypt_to a (some q) w = with_keys encrypt_run a q w

  -- `pygpgme_context_encrypt`
  unfoldable pub encrypt : Option EncryptArgs → World C → Option (Unit {0}) × World C
  encrypt none w = (none, with_error type_error w)
  encrypt (some a) w = encrypt_to a a.recipients w

  -- The recipients of `encrypt_sign`; `None` is no sequence.
  unfoldable pub encrypt_sign_to :
      EncryptArgs → Option SeqArg → World C → Option (List NewSignature) × World C
  unfolding with_keys with_data encrypt_sign_run finish
  encrypt_sign_to a none w = with_keys encrypt_sign_run a not_sequence w
  encrypt_sign_to a (some q) w = with_keys encrypt_sign_run a q w

  -- `pygpgme_context_encrypt_sign`
  unfoldable pub encrypt_sign : Option EncryptArgs → World C → Option (List NewSignature) × World C
  encrypt_sign none w = (none, with_error type_error w)
  encrypt_sign (some a) w = encrypt_sign_to a a.recipients w
