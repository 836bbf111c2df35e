-- ===== src/Context/Outcome/Encrypt.antt =====
-- `encrypt` and `encrypt_sign` return `NULL` exactly with an exception pending.
use pygpgme.Context.Outcome.Crypt.{SignalsList, new_signatures-Signals}
use pygpgme.Base.{ap, ◌∙◌, ℕ, ◌≡◌, refl, false, Option, none, some, List}
use pygpgme.Python.State.{Platform, PyState, occurred}
use pygpgme.Gpgme.Engine.{Engine, Handle, Op}
use pygpgme.Context.World.{World, run_op}
use pygpgme.Context.Resources.{data_new, SeqArg, key_array, KeyArray}
use pygpgme.Context.Crypt.{
  EncryptArgs, finish, encrypt_run, encrypt_sign_run, with_data, with_keys, encrypt_to, encrypt,
  encrypt_sign_to, encrypt_sign,
}
use pygpgme.Context.Outcome.{
  decode_encrypt_result-occurred, annotate_sign-occurred, Signals, check_error-Signals,
  data_new-Signals, data_release-py, if_Signals, Option_Signals, Signals-none, Signals-some,
  release_array-py, key_array-Signals,
}

module _ {C : Type 0} (P : Platform) (E : Engine C) (self : ℕ) where
  finish-py : (arr : KeyArray) (f g : Handle) (w : World C) → (finish P E self arr f g w).py ≡ w.py
  unfolding finish
  finish-py arr f g w =
      data_release-py P E self g _ ∙ (data_release-py P E self f _ ∙ release_array-py arr w)

  finished :
      {R : Type 0} (r : Option (List R) × PyState) (arr : KeyArray) (f g : Handle) (w : World C)
      → SignalsList r
      → Signals (r.0, finish P E self arr f g (record w { py = r.1 }))
  finished (none, s) arr f g w h = ap occurred (finish-py arr f g _) ∙ h
  finished (some l, s) arr f g w h = ap occurred (finish-py arr f g _) ∙ h

  encrypt_run-Signals :
      (a : EncryptArgs) (arr : KeyArray) (recp : Option (List ℕ)) (f g : Handle) (w : World C)
      → occurred w.py ≡ false
      → Signals (encrypt_run P E self a arr recp f g w)
  unfolding encrypt_run run_op
  encrypt_run-Signals a arr recp f g w h =
      let sig = check_error-Signals P (run_op E (Op.encrypt recp a.flags f g) w).0 w.py h in
      if_Signals _ _ _
        (λ e. ap occurred (finish-py arr f g _) ∙ decode_encrypt_result-occurred P _ _ (sig ∙ e))
        (λ e. ap occurred (finish-py arr f g _) ∙ (sig ∙ e))

  with_data-Signals :
      {R : Type 0}
      (run : EncryptArgs
        → KeyArray
        → Option (List ℕ)
        → Handle
        → Handle
        → World C
        → Option R × World C)
      → ((a : EncryptArgs) (arr : KeyArray) (recp : Option (List ℕ)) (f g : Handle) (w : World C)
          → occurred w.py ≡ false
          → Signals (run a arr recp f g w))
      → (a : EncryptArgs) (arr : KeyArray) (recp : Option (List ℕ)) (w : World C)
      → occurred w.py ≡ false
      → Signals (with_data P E self run a arr recp w)
  unfolding with_data
  with_data-Signals run good a arr recp w h =
      let first = data_new-Signals P E self a.plain w h in
      if_Signals (data_new P E self a.plain w).0 _ _
        (λ e. ap occurred (finish-py arr none none _) ∙ (first ∙ e))
        (λ e.
          let w1 : World C = (data_new P E self a.plain w).2 in
          let second = data_new-Signals P E self a.cipher w1 (first ∙ e) in
          if_Signals (data_new P E self a.cipher w1).0 _ _
            (λ e'. ap occurred (finish-py arr _ none _) ∙ (second ∙ e'))
            (λ e'. good _ _ _ _ _ _ (second ∙ e')))

  with_keys-Signals :
      {R : Type 0}
      (run : EncryptArgs
        → KeyArray
        → Option (List ℕ)
        → Handle
        → Handle
        → World C
        → Option R × World C)
      → ((a : EncryptArgs) (arr : KeyArray) (recp : Option (List ℕ)) (f g : Handle) (w : World C)
          → occurred w.py ≡ false
          → Signals (run a arr recp f g w))
      → (a : EncryptArgs) (q : SeqArg) (w : World C) → occurred w.py ≡ false
      → Signals (with_keys P E self run a q w)
  unfolding with_keys
  with_keys-Signals run good a q w h =
      let (arr, w1) = key_array q w in
      let read = key_array-Signals q w h in
      Option_Signals arr.keys _ _
        (λ e. ap occurred (finish-py arr none none w1) ∙ Signals-none arr.keys w1 read e)
        (λ ks e. with_data-Signals run good a arr (some ks) w1 (Signals-some arr.keys ks w1 read e))

  encrypt_sign_run-Signals :
      (a : EncryptArgs) (arr : KeyArray) (recp : Option (List ℕ)) (f g : Handle) (w : World C)
      → occurred w.py ≡ false
      → Signals (encrypt_sign_run P E self a arr recp f g w)
  unfolding encrypt_sign_run run_op
  encrypt_sign_run-Signals a arr recp f g w h =
      let w1 : World C = (run_op E (Op.encrypt_sign recp a.flags f g) w).1 in
      let sig = check_error-Signals P (run_op E (Op.encrypt_sign recp a.flags f g) w).0 w1.py h in
      if_Signals _ _ _
        (λ e.
          ap occurred (finish-py arr f g _)
          ∙ annotate_sign-occurred P _ _ (decode_encrypt_result-occurred P _ _ (sig ∙ e)))
        (λ e. finished _ arr f g w1 (new_signatures-Signals P _ _ (sig ∙ e)))

  encrypt_to-Signals :
      (a : EncryptArgs) (q : Option SeqArg) (w : World C)
      → occurred w.py ≡ false
      → Signals (encrypt_to P E self a q w)
  unfolding encrypt_to
  encrypt_to-Signals a none w h = with_data-Signals _ encrypt_run-Signals a _ none w h
  encrypt_to-Signals a (some q) w h = with_keys-Signals _ encrypt_run-Signals a q w h

  encrypt_sign_to-Signals :
      (a : EncryptArgs) (q : Option SeqArg) (w : World C)
      → occurred w.py ≡ false
      → Signals (encrypt_sign_to P E self a q w)
  unfolding encrypt_sign_to
  encrypt_sign_to-Signals a none w h = with_keys-Signals _ encrypt_sign_run-Signals a _ w h
  encrypt_sign_to-Signals a (some q) w h = with_keys-Signals _ encrypt_sign_run-Signals a q w h

  pub encrypt-Signals :
      (a : Option EncryptArgs) (w : World C)
      → occurred w.py ≡ false
      → Signals (encrypt P E self a w)
  unfolding encrypt
  encrypt-Signals none w h = refl
  encrypt-Signals (some a) w h = encrypt_to-Signals a a.recipients w h

  pub encrypt_sign-Signals :
      (a : Option EncryptArgs) (w : World C)
      → occurred w.py ≡ false
      → Signals (encrypt_sign P E self a w)
  unfolding encrypt_sign
  encrypt_sign-Signals none w h = refl
  encrypt_sign-Signals (some a) w h = encrypt_sign_to-Signals a a.recipients w h
