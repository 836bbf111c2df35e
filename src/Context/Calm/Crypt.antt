-- ===== src/Context/Calm/Crypt.antt =====
-- The methods that decrypt, sign and verify.
use pygpgme.Base.{ap, ◌∙◌, ℕ, ◌≡◌, false, Option, none, some, arith}
use pygpgme.Base.Int.{ℤ}
use pygpgme.Python.State.{Platform, PyState, occurred}
use pygpgme.Errors.View.{AreEnumerations}
use pygpgme.Errors.Convert.{check_error}
use pygpgme.Gpgme.Engine.{Engine, Handle, Op}
use pygpgme.Context.World.{World, run_op}
use pygpgme.Context.Resources.{data_new, data_release}
use pygpgme.Context.Crypt.{
  DecryptArgs, SignArgs, VerifyArgs, decrypt_run, decrypt_verify_run, sign_run, two_files, decrypt,
  decrypt_verify, sign, verify_run, verify_files, verify,
}
use pygpgme.Context.Outcome.{check_error-Signals, data_new-Signals, data_release-py}
use pygpgme.Context.Calm.{check_error-Calm, signers-Calm, decrypt-Calm, verify-Calm}
use pygpgme.Context.Calm.Steps.{
  Kept, After, if_After, signatures-Calm, new_signatures-Calm, data_new-Kept, data_release-Kept,
}

module _ {C : Type 0} (P : Platform) (E : Engine C) (self : ℕ) (h : AreEnumerations P)
    (s0 : PyState) where
  two_files-Kept :
      {R : Type 0} (run : Handle → Handle → World C → Option R × World C)
      → ((f g : Handle) (w : World C) → occurred w.py ≡ false → Kept s0 w → After s0 (run f g w))
      → (f g : Option ℕ) (w : World C) → occurred w.py ≡ false
      → Kept s0 w
      → After s0 (two_files P E self run f g w)
  unfolding two_files
  two_files-Kept run good f g w o c =
      let w1 : World C = (data_new P E self f w).2 in
      let first = data_new-Signals P E self f w o in
      let c1 = data_new-Kept P E self s0 f w c in
      let c2 = data_new-Kept P E self s0 g w1 c1 in
      if_After s0 (data_new P E self f w).0 _ _ (λ e. record { calm = c1 })
        (λ e.
          if_After s0 (data_new P E self g w1).0 _ _
            (λ e'. record { calm = data_release-Kept P E self s0 _ _ c2 })
            (λ e'. good _ _ _ (data_new-Signals P E self g w1 (first ∙ e) ∙ e') c2))

  -- The state after an operation and the release of its two data objects.
  released : Op → Handle → Handle → World C → World C
  released op f g w = data_release self g (data_release self f (run_op E op w).1)

  released-Kept : (op : Op) (f g : Handle) (w : World C) → Kept s0 w → Kept s0 (released op f g w)
  unfolding released run_op
  released-Kept op f g w c = data_release-Kept P E self s0 g _ (data_release-Kept P E self s0 f _ c)

  released-py : (op : Op) (f g : Handle) (w : World C) → (released op f g w).py ≡ w.py
  unfolding released run_op
  released-py op f g w = data_release-py P E self g _ ∙ data_release-py P E self f _

  decrypt_run-Kept :
      (f g : Handle) (w : World C)
      → occurred w.py ≡ false
      → Kept s0 w
      → After s0 (decrypt_run P E self f g w)
  unfolding decrypt_run released
  decrypt_run-Kept f g w o c =
      let w2 : World C = released (Op.decrypt f g) f g w in
      let err : ℕ = (run_op E (Op.decrypt f g) w).0 in
      let checked = check_error-Calm P s0 err w2.py (released-Kept (Op.decrypt f g) f g w c) in
      if_After s0 (check_error P err w2.py).0 _ _
        (λ e. record { calm = decrypt-Calm P h s0 _ _ checked }) (λ e. record { calm = checked })

  sign_run-Kept :
      (mode : ℤ) (f g : Handle) (w : World C)
      → occurred w.py ≡ false
      → Kept s0 w
      → After s0 (sign_run P E self mode f g w)
  unfolding sign_run released
  sign_run-Kept mode f g w o c =
      let op = Op.sign f g mode in
      let w2 : World C = released op f g w in
      let err : ℕ = (run_op E op w).0 in
      let checked = check_error-Calm P s0 err w2.py (released-Kept op f g w c) in
      let sig = check_error-Signals P err w2.py (ap occurred (released-py op f g w) ∙ o) in
      if_After s0 (check_error P err w2.py).0 _ _
        (λ e. record { calm = signers-Calm P h s0 _ _ checked })
        (λ e. record { calm = new_signatures-Calm P h s0 _ _ checked (sig ∙ e) })

  decrypt_verify_run-Kept :
      (f g : Handle) (w : World C)
      → occurred w.py ≡ false
      → Kept s0 w
      → After s0 (decrypt_verify_run P E self f g w)
  unfolding decrypt_verify_run released
  decrypt_verify_run-Kept f g w o c =
      let op = Op.decrypt_verify f g in
      let w2 : World C = released op f g w in
      let err : ℕ = (run_op E op w).0 in
      let s : PyState = (check_error P err w2.py).1 in
      let checked = check_error-Calm P s0 err w2.py (released-Kept op f g w c) in
      let sig = check_error-Signals P err w2.py (ap occurred (released-py op f g w) ∙ o) in
      let again = check_error-Calm P s0 err s checked in
      if_After s0 (check_error P err w2.py).0 _ _
        (λ e. record { calm = decrypt-Calm P h s0 _ _ checked })
        (λ e.
          if_After s0 (check_error P err s).0 _ _
            (λ e'. record { calm = verify-Calm P h s0 _ _ again })
            (λ e'. record {
              calm = signatures-Calm P h s0 _ _ again (check_error-Signals P err s (sig ∙ e) ∙ e');
            }))

  verify_run-Kept :
      (f g d : Handle) (w : World C)
      → occurred w.py ≡ false
      → Kept s0 w
      → After s0 (verify_run P E self f g d w)
  unfolding verify_run released
  verify_run-Kept f g d w o c =
      let op = Op.verify f g d in
      let w1 : World C = released op f g w in
      let w2 : World C = data_release self d w1 in
      let err : ℕ = (run_op E op w).0 in
      let checked =
        check_error-Calm P s0 err w2.py
          (data_release-Kept P E self s0 d w1 (released-Kept op f g w c)) in
      let same = data_release-py P E self d w1 ∙ released-py op f g w in
      let sig = check_error-Signals P err w2.py (ap occurred same ∙ o) in
      if_After s0 (check_error P err w2.py).0 _ _
        (λ e. record { calm = verify-Calm P h s0 _ _ checked })
        (λ e. record { calm = signatures-Calm P h s0 _ _ checked (sig ∙ e) })

  verify_files-Kept :
      (a : VerifyArgs) (w : World C)
      → occurred w.py ≡ false
      → Kept s0 w
      → After s0 (verify_files P E self a w)
  unfolding verify_files
  verify_files-Kept a w o c =
      let w1 : World C = (data_new P E self a.sig w).2 in
      let w2 : World C = (data_new P E self a.signed_text w1).2 in
      let first = data_new-Signals P E self a.sig w o in
      let c1 = data_new-Kept P E self s0 a.sig w c in
      let c2 = data_new-Kept P E self s0 a.signed_text w1 c1 in
      let c3 = data_new-Kept P E self s0 a.plaintext w2 c2 in
      if_After s0 (data_new P E self a.sig w).0 _ _ (λ e. record { calm = c1 })
        (λ e.
          let second = data_new-Signals P E self a.signed_text w1 (first ∙ e) in
          if_After s0 (data_new P E self a.signed_text w1).0 _ _
            (λ e'. record { calm = data_release-Kept P E self s0 _ _ c2 })
            (λ e'.
              let third = data_new-Signals P E self a.plaintext w2 (second ∙ e') in
              if_After s0 (data_new P E self a.plaintext w2).0 _ _
                (λ e''. record {
                  calm = data_release-Kept P E self s0 _ _ (data_release-Kept P E self s0 _ _ c3);
                })
                (λ e''. verify_run-Kept _ _ _ _ (third ∙ e'') c3)))

  pub decrypt-Kept :
      (a : Option DecryptArgs) (w : World C)
      → occurred w.py ≡ false
      → Kept s0 w
      → After s0 (decrypt P E self a w)
  unfolding decrypt
  decrypt-Kept none w o c = record { calm = ground (arith, c) }
  decrypt-Kept (some a) w o c = two_files-Kept _ decrypt_run-Kept a.cipher a.plain w o c

  pub decrypt_verify-Kept :
      (a : Option DecryptArgs) (w : World C)
      → occurred w.py ≡ false
      → Kept s0 w
      → After s0 (decrypt_verify P E self a w)
  unfolding decrypt_verify
  decrypt_verify-Kept none w o c = record { calm = ground (arith, c) }
  decrypt_verify-Kept (some a) w o c =
      two_files-Kept _ decrypt_verify_run-Kept a.cipher a.plain w o c

  pub sign-Kept :
      (a : Option SignArgs) (w : World C)
      → occurred w.py ≡ false
      → Kept s0 w
      → After s0 (sign P E self a w)
  unfolding sign
  sign-Kept none w o c = record { calm = ground (arith, c) }
  sign-Kept (some a) w o c = two_files-Kept _ (sign_run-Kept a.sig_mode) a.plain a.sig w o c

  pub verify-Kept :
      (a : Option VerifyArgs) (w : World C)
      → occurred w.py ≡ false
      → Kept s0 w
      → After s0 (verify P E self a w)
  unfolding verify
  verify-Kept none w o c = record { calm = ground (arith, c) }
  verify-Kept (some a) w o c = verify_files-Kept a w o c
