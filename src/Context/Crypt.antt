-- ===== src/Context/Crypt.antt =====
-- lib/pygpgme-context.c: `decrypt`, `decrypt_verify`, `sign` and `verify`; `encrypt` and
-- `encrypt_sign` are in Encrypt.
-- The arguments are those that `PyArg_ParseTuple` gives; `none` is its failure, with its TypeError. A
-- result `none` is `NULL`. A file `none` is `None`.
mod Returned
mod Encrypt
unfoldable pub use Returned.*
unfoldable pub use Encrypt.*
use pygpgme.Base.{ℕ, false, Option, none, some, List, [], if◌then◌else◌}
use pygpgme.Base.Int.{ℤ}
use pygpgme.Python.Value.{type_error, NewSignature, Signature}
use pygpgme.Python.State.{Platform, PyState}
use pygpgme.Errors.Convert.{check_error}
use pygpgme.Gpgme.Structs.{SignResult, SigRaw}
use pygpgme.Gpgme.Engine.{Handle, Op, Engine}
use pygpgme.Signature.Lists.{newsiglist_new, siglist_new}
use pygpgme.Context.World.{World, with_error, run_op}
use pygpgme.Context.Resources.{
  data_new, data_release, SeqArg, not_sequence, KeyArray, key_array, release_array,
}
use pygpgme.Context.Annotate.{
  decode_encrypt_result, annotate_sign, decode_decrypt_result, annotate_verify,
}

pub record DecryptArgs : Type 0 where
  pub cipher : Option ℕ
  pub plain : Option ℕ

pub record SignArgs : Type 0 where
  pub plain : Option ℕ
  pub sig : Option ℕ
  pub sig_mode : ℤ

pub record VerifyArgs : Type 0 where
  pub sig : Option ℕ
  pub signed_text : Option ℕ
  pub plaintext : Option ℕ

module _ {C : Type 0} (P : Platform) (E : Engine C) (self : ℕ) where
  unfoldable pub decrypt_run : Handle → Handle → World C → Option (Unit {0}) × World C
  decrypt_run cipher plain w =
      let (err, w1) = run_op E (Op.decrypt cipher plain) w in
      let w2 = data_release self plain (data_release self cipher w1) in
      let (failed, s) = check_error P err w2.py in
      if failed
      then (none, record w2 { py = decode_decrypt_result P (E.decrypt_result w2.lib) s })
      else (some tt, record w2 { py = s })

  -- The second test of the error, under "annotate exception", is made as it stands.
  unfoldable pub decrypt_verify_run : Handle → Handle → World C → Option (List Signature) × World C
  decrypt_verify_run cipher plain w =
      let (err, w1) = run_op E (Op.decrypt_verify cipher plain) w in
      let w2 = data_release self plain (data_release self cipher w1) in
      let (failed, s) = check_error P err w2.py in
      let result = E.verify_result w2.lib in
      let (failed', s1) = check_error P err s in
      let (list, s2) = signatures P result s1 in
      if failed
      then (none, record w2 { py = decode_decrypt_result P (E.decrypt_result w2.lib) s })
      else (if failed'
          then (none, record w2 { py = annotate_verify P result s1 })
          else (list, record w2 { py = s2 }))

  unfoldable pub sign_run : ℤ → Handle → Handle → World C → Option (List NewSignature) × World C
  sign_run mode plain sig w =
      let (err, w1) = run_op E (Op.sign plain sig mode) w in
      let w2 = data_release self sig (data_release self plain w1) in
      let result = E.sign_result w2.lib in
      let (failed, s) = check_error P err w2.py in
      let (list, s1) = new_signatures P result s in
      if failed
      then (none, record w2 { py = annotate_sign P result s })
      else (list, record w2 { py = s1 })

  -- `pygpgme_data_new` for two files; if the second fails, the first is released.
  unfoldable pub two_files :
      {R : Type 0}
      → (Handle → Handle → World C → Option R × World C)
      → Option ℕ
      → Option ℕ
      → World C
      → Option R × World C
  two_files run f g w =
      let (bad, first, w1) = data_new P E self f w in
      let (bad', second, w2) = data_new P E self g w1 in
      if bad
      then (none, w1)
      else (if bad' then (none, data_release self first w2) else run first second w2)

  -- `pygpgme_context_decrypt`
  unfoldable pub decrypt : Option DecryptArgs → World C → Option (Unit {0}) × World C
  unfolding decrypt_run two_files
  decrypt none w = (none, with_error type_error w)
  decrypt (some a) w = two_files decrypt_run a.cipher a.plain w

  -- `pygpgme_context_decrypt_verify`
  unfoldable pub decrypt_verify : Option DecryptArgs → World C → Option (List Signature) × World C
  unfolding decrypt_verify_run two_files
  decrypt_verify none w = (none, with_error type_error w)
  decrypt_verify (some a) w = two_files decrypt_verify_run a.cipher a.plain w

  -- `pygpgme_context_sign`
  unfoldable pub sign : Option SignArgs → World C → Option (List NewSignature) × World C
  unfolding sign_run two_files
  sign none w = (none, with_error type_error w)
  sign (some a) w = two_files (sign_run a.sig_mode) a.plain a.sig w

  unfoldable pub verify_run : Handle → Handle → Handle → World C → Option (List Signature) × World C
  verify_run sig signed_text plaintext w =
      let (err, w1) = run_op E (Op.verify sig signed_text plaintext) w in
      let w2 =
        data_release self plaintext (data_release self signed_text (data_release self sig w1)) in
      let result = E.verify_result w2.lib in
      let (failed, s) = check_error P err w2.py in
      let (list, s1) = signatures P result s in
      if failed
      then (none, record w2 { py = annotate_verify P result s })
      else (list, record w2 { py = s1 })

  unfoldable pub verify_files : VerifyArgs → World C → Option (List Signature) × World C
  verify_files a w =
      let (bad, sig, w1) = data_new P E self a.sig w in
      let (bad', signed_text, w2) = data_new P E self a.signed_text w1 in
      let (bad'', plaintext, w3) = data_new P E self a.plaintext w2 in
      if bad
      then (none, w1)
      else (if bad'
          then (none, data_release self sig w2)
          else (if bad''
              then (none, data_release self signed_text (data_release self sig w3))
              else verify_run sig signed_text plaintext w3))

  -- `pygpgme_context_verify`
  unfoldable pub verify : Option VerifyArgs → World C → Option (List Signature) × World C
  unfolding verify_files verify_run
  verify none w = (none, with_error type_error w)
  verify (some a) w = verify_files a w
