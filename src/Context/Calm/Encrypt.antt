-- ===== src/Context/Calm/Encrypt.antt =====
-- The methods that encrypt.
use pygpgme.Base.{◌∙◌, ℕ, ◌≡◌, false, Option, none, some, List, arith}
use pygpgme.Python.State.{Platform, PyState, occurred}
use pygpgme.Errors.View.{AreEnumerations}
use pygpgme.Errors.Convert.{check_error}
use pygpgme.Gpgme.Engine.{Engine, Handle, Op}
use pygpgme.Context.World.{World, run_op}
use pygpgme.Context.Resources.{data_new, SeqArg, key_array, KeyArray}
use pygpgme.Context.Crypt.{
  EncryptArgs, finish, encrypt_run, encrypt_sign_run, with_data, with_keys, encrypt_to, encrypt,
  encrypt_sign_to, encrypt_sign,
}
use pygpgme.Context.Outcome.{check_error-Signals, data_new-Signals, key_array-Signals, Signals-some}
use pygpgme.Context.Calm.{check_error-Calm, recipients-Calm, signers-Calm}
use pygpgme.Context.Calm.Steps.{
  Kept, After, if_After, Option_After, new_signatures-Calm, data_new-Kept, data_release-Kept,
  release_array-Kept, key_array-Kept,
}

module _ {C : Type 0} (P : Platform) (E : Engine C) (self : ℕ) (h : AreEnumerations P)
    (s0 : PyState) where
  finish-Kept :
      (arr : KeyArray) (f g : Handle) (w : World C)
      → Kept s0 w
      → Kept s0 (finish P E self arr f g w)
  unfolding finish
  finish-Kept arr f g w c =
      data_release-Kept P E self s0 g _
        (data_release-Kept P E self s0 f _ (release_array-Kept P E self s0 arr w c))

  encrypt_run-Kept :
      (a : EncryptArgs) (arr : KeyArray) (recp : Option (List ℕ)) (f g : Handle) (w : World C)
      → occurred w.py ≡ false
      → Kept s0 w
      → After s0 (encrypt_run P E self a arr recp f g w)
  unfolding encrypt_run run_op
  encrypt_run-Kept a arr recp f g w o c =
      let err : ℕ = (run_op E (Op.encrypt recp a.flags f g) w).0 in
      let checked = check_error-Calm P s0 err w.py c in
      if_After s0 (check_error P err w.py).0 _ _
        (λ e. record { calm = finish-Kept arr f g _ (recipients-Calm P h s0 _ _ checked) })
        (λ e. record { calm = finish-Kept arr f g _ checked })

  encrypt_sign_run-Kept :
      (a : EncryptArgs) (arr : KeyArray) (recp : Option (List ℕ)) (f g : Handle) (w : World C)
      → occurred w.py ≡ false
      → Kept s0 w
      → After s0 (encrypt_sign_run P E self a arr recp f g w)
  unfolding encrypt_sign_run run_op
  encrypt_sign_run-Kept a arr recp f g w o c =
      let err : ℕ = (run_op E (Op.encrypt_sign recp a.flags f g) w).0 in
      let checked = check_error-Calm P s0 err w.py c in
      let sig = check_error-Signals P err w.py o in
      if_After s0 (check_error P err w.py).0 _ _
        (λ e. record {
          calm =
              finish-Kept arr f g _ (signers-Calm P h s0 _ _ (recipients-Calm P h s0 _ _ checked));
        })
        (λ e. record {
          calm = finish-Kept arr f g _ (new_signatures-Calm P h s0 _ _ checked (sig ∙ e));
        })

  module _ {R : Type 0}
      (run : EncryptArgs
        → KeyArray
        → Option (List ℕ)
        → Handle
        → Handle
        → World C
        → Option R × World C)
      (good : (a : EncryptArgs) (arr : KeyArray) (recp : Option (List ℕ)) (f g : Handle)
          (w : World C)
        → occurred w.py ≡ false
        → Kept s0 w
        → After s0 (run a arr recp f g w)) where
    with_data-Kept :
        (a : EncryptArgs) (arr : KeyArray) (recp : Option (List ℕ)) (w : World C)
        → occurred w.py ≡ false
        → Kept s0 w
        → After s0 (with_data P E self run a arr recp w)
    unfolding with_data
    with_data-Kept a arr recp w o c =
        let w1 : World C = (data_new P E self a.plain w).2 in
        let first = data_new-Signals P E self a.plain w o in
        let c1 = data_new-Kept P E self s0 a.plain w c in
        if_After s0 (data_new P E self a.plain w).0 _ _
          (λ e. record { calm = finish-Kept arr none none w1 c1 })
          (λ e.
            let c2 = data_new-Kept P E self s0 a.cipher w1 c1 in
            if_After s0 (data_new P E self a.cipher w1).0 _ _
              (λ e'. record { calm = finish-Kept arr _ none _ c2 })
              (λ e'. good _ _ _ _ _ _ (data_new-Signals P E self a.cipher w1 (first ∙ e) ∙ e') c2))

    with_keys-Kept :
        (a : EncryptArgs) (q : SeqArg) (w : World C)
        → occurred w.py ≡ false
        → Kept s0 w
        → After s0 (with_keys P E self run a q w)
    unfolding with_keys
    with_keys-Kept a q w o c =
        let (arr, w1) = key_array q w in
        let c1 = key_array-Kept P E self s0 q w c in
        let read = key_array-Signals q w o in
        Option_After s0 arr.keys _ _ (record { calm = finish-Kept arr none none w1 c1 })
          (λ ks e. with_data-Kept a arr (some ks) w1 (Signals-some arr.keys ks w1 read e) c1)

  encrypt_to-Kept :
      (a : EncryptArgs) (q : Option SeqArg) (w : World C)
      → occurred w.py ≡ false
      → Kept s0 w
      → After s0 (encrypt_to P E self a q w)
  unfolding encrypt_to
  encrypt_to-Kept a none w o c = with_data-Kept _ encrypt_run-Kept a _ none w o c
  encrypt_to-Kept a (some q) w o c = with_keys-Kept _ encrypt_run-Kept a q w o c

  encrypt_sign_to-Kept :
      (a : EncryptArgs) (q : Option SeqArg) (w : World C)
      → occurred w.py ≡ false
      → Kept s0 w
      → After s0 (encrypt_sign_to P E self a q w)
  unfolding encrypt_sign_to
  encrypt_sign_to-Kept a none w o c = with_keys-Kept _ encrypt_sign_run-Kept a _ w o c
  encrypt_sign_to-Kept a (some q) w o c = with_keys-Kept _ encrypt_sign_run-Kept a q w o c

  pub encrypt-Kept :
      (a : Option EncryptArgs) (w : World C)
      → occurred w.py ≡ false
      → Kept s0 w
      → After s0 (encrypt P E self a w)
  unfolding encrypt
  encrypt-Kept none w o c = record { calm = ground (arith, c) }
  encrypt-Kept (some a) w o c = encrypt_to-Kept a a.recipients w o c

  pub encrypt_sign-Kept :
      (a : Option EncryptArgs) (w : World C)
      → occurred w.py ≡ false
      → Kept s0 w
      → After s0 (encrypt_sign P E self a w)
  unfolding encrypt_sign
  encrypt_sign-Kept none w o c = record { calm = ground (arith, c) }
  encrypt_sign-Kept (some a) w o c = encrypt_sign_to-Kept a a.recipients w o c
