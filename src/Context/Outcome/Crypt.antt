-- ===== src/Context/Outcome/Crypt.antt =====
-- `decrypt`, `decrypt_verify`, `sign` and `verify` return `NULL` exactly with an exception pending.
use pygpgme.Base.{ap, ◌∙◌, ℕ, ◌≡◌, refl, true, false, Option, none, some, List, [], arith}
use pygpgme.Base.Int.{ℤ}
use pygpgme.Python.State.{Platform, PyState, occurred}
use pygpgme.Gpgme.Structs.{SignResult, SigRaw}
use pygpgme.Gpgme.Engine.{Engine, Handle, Op}
use pygpgme.Signature.Failures.{siglists-Ends}
use pygpgme.Context.World.{World, run_op}
use pygpgme.Context.Resources.{data_new, data_release}
use pygpgme.Context.Crypt.{
  DecryptArgs, SignArgs, VerifyArgs, new_signatures, signatures, decrypt_run, decrypt_verify_run,
  sign_run, two_files, decrypt, decrypt_verify, sign, verify_run, verify_files, verify,
}
use pygpgme.Context.Outcome.{
  annotate_sign-occurred, decode_decrypt_result-occurred, annotate_verify-occurred, Signals,
  check_error-Signals, data_new-Signals, data_release-py, if_Signals,
}

-- A list of signatures for the caller, after a successful operation.
abbrev pub SignalsList : {R : Type 0} → Option (List R) × PyState → Type 0
SignalsList (none, s) = occurred s ≡ true
SignalsList (some _, s) = occurred s ≡ false

pub new_signatures-Signals :
    (P : Platform) (r : Option SignResult) (s : PyState)
    → occurred s ≡ false
    → SignalsList (new_signatures P r s)
unfolding new_signatures
new_signatures-Signals P none s h = h
new_signatures-Signals P (some r) s h = ground (arith, (siglists-Ends P r.signatures [] s h).0)

signatures-Signals :
    (P : Platform) (r : Option (List SigRaw)) (s : PyState)
    → occurred s ≡ false
    → SignalsList (signatures P r s)
unfolding signatures
signatures-Signals P none s h = h
signatures-Signals P (some r) s h = ground (arith, (siglists-Ends P [] r s h).1)

in_world :
    {C R : Type 0} (r : Option (List R) × PyState) (w : World C)
    → SignalsList r
    → Signals (r.0, record w { py = r.1 })
in_world (none, s) w h = h
in_world (some l, s) w h = h

module _ {C : Type 0} (P : Platform) (E : Engine C) (self : ℕ) where
  two_files-Signals :
      {R : Type 0} (run : Handle → Handle → World C → Option R × World C)
      → ((f g : Handle) (w : World C) → occurred w.py ≡ false → Signals (run f g w))
      → (f g : Option ℕ) (w : World C) → occurred w.py ≡ false
      → Signals (two_files P E self run f g w)
  unfolding two_files
  two_files-Signals run good f g w h =
      let first = data_new-Signals P E self f w h in
      if_Signals (data_new P E self f w).0 _ _ (λ e. first ∙ e)
        (λ e.
          let w1 : World C = (data_new P E self f w).2 in
          let second = data_new-Signals P E self g w1 (first ∙ e) in
          if_Signals (data_new P E self g w1).0 _ _
            (λ e'.
              ap occurred (data_release-py P E self (data_new P E self f w).1 _) ∙ (second ∙ e'))
            (λ e'. good _ _ _ (second ∙ e')))

  decrypt_run-Signals :
      (f g : Handle) (w : World C) → occurred w.py ≡ false → Signals (decrypt_run P E self f g w)
  unfolding decrypt_run run_op
  decrypt_run-Signals f g w h =
      let sig =
        check_error-Signals P _ _
          (ap occurred (data_release-py P E self g _ ∙ data_release-py P E self f _) ∙ h) in
      if_Signals _ _ _ (λ e. decode_decrypt_result-occurred P _ _ (sig ∙ e)) (λ e. sig ∙ e)

  released :
      (f g : Handle) (w : World C)
      → occurred w.py ≡ false
      → occurred (data_release self g (data_release self f w)).py ≡ false
  released f g w h = ap occurred (data_release-py P E self g _ ∙ data_release-py P E self f w) ∙ h

  after : Op → Handle → Handle → World C → World C
  after op f g w = data_release self g (data_release self f (run_op E op w).1)

  sign_run-Signals :
      (mode : ℤ) (f g : Handle) (w : World C)
      → occurred w.py ≡ false
      → Signals (sign_run P E self mode f g w)
  unfolding sign_run run_op after
  sign_run-Signals mode f g w h =
      let sig = check_error-Signals P _ _ (released f g _ h) in
      if_Signals _ _ _ (λ e. annotate_sign-occurred P _ _ (sig ∙ e))
        (λ e. in_world _ (after (Op.sign f g mode) f g w) (new_signatures-Signals P _ _ (sig ∙ e)))

  decrypt_verify_run-Signals :
      (f g : Handle) (w : World C)
      → occurred w.py ≡ false
      → Signals (decrypt_verify_run P E self f g w)
  unfolding decrypt_verify_run run_op after
  decrypt_verify_run-Signals f g w h =
      let sig = check_error-Signals P _ _ (released f g _ h) in
      if_Signals _ _ _ (λ e. decode_decrypt_result-occurred P _ _ (sig ∙ e))
        (λ e.
          let sig' = check_error-Signals P _ _ (sig ∙ e) in
          if_Signals _ _ _ (λ e'. annotate_verify-occurred P _ _ (sig' ∙ e'))
            (λ e'.
              in_world _ (after (Op.decrypt_verify f g) f g w)
                (signatures-Signals P _ _ (sig' ∙ e'))))

  verify_run-Signals :
      (a b c : Handle) (w : World C) → occurred w.py ≡ false → Signals (verify_run P E self a b c w)
  unfolding verify_run run_op after
  verify_run-Signals a b c w h =
      let sig =
        check_error-Signals P _ _ (ap occurred (data_release-py P E self c _) ∙ released a b _ h) in
      if_Signals _ _ _ (λ e. annotate_verify-occurred P _ _ (sig ∙ e))
        (λ e.
          in_world _ (data_release self c (after (Op.verify a b c) a b w))
            (signatures-Signals P _ _ (sig ∙ e)))

  verify_files-Signals :
      (a : VerifyArgs) (w : World C) → occurred w.py ≡ false → Signals (verify_files P E self a w)
  unfolding verify_files
  verify_files-Signals a w h =
      let first = data_new-Signals P E self a.sig w h in
      if_Signals (data_new P E self a.sig w).0 _ _ (λ e. first ∙ e)
        (λ e.
          let w1 : World C = (data_new P E self a.sig w).2 in
          let second = data_new-Signals P E self a.signed_text w1 (first ∙ e) in
          if_Signals (data_new P E self a.signed_text w1).0 _ _
            (λ e'.
              ap occurred (data_release-py P E self (data_new P E self a.sig w).1 _)
              ∙ (second ∙ e'))
            (λ e'.
              let w2 : World C = (data_new P E self a.signed_text w1).2 in
              let third = data_new-Signals P E self a.plaintext w2 (second ∙ e') in
              if_Signals (data_new P E self a.plaintext w2).0 _ _
                (λ e''.
                  ap occurred (data_release-py P E self _ _ ∙ data_release-py P E self _ _)
                  ∙ (third ∙ e''))
                (λ e''. verify_run-Signals _ _ _ _ (third ∙ e''))))

  pub decrypt-Signals :
      (a : Option DecryptArgs) (w : World C)
      → occurred w.py ≡ false
      → Signals (decrypt P E self a w)
  unfolding decrypt
  decrypt-Signals none w h = refl
  decrypt-Signals (some a) w h = two_files-Signals _ decrypt_run-Signals a.cipher a.plain w h

  pub decrypt_verify-Signals :
      (a : Option DecryptArgs) (w : World C)
      → occurred w.py ≡ false
      → Signals (decrypt_verify P E self a w)
  unfolding decrypt_verify
  decrypt_verify-Signals none w h = refl
  decrypt_verify-Signals (some a) w h =
      two_files-Signals _ decrypt_verify_run-Signals a.cipher a.plain w h

  pub sign-Signals :
      (a : Option SignArgs) (w : World C) → occurred w.py ≡ false → Signals (sign P E self a w)
  unfolding sign
  sign-Signals none w h = refl
  sign-Signals (some a) w h = two_files-Signals _ (sign_run-Signals a.sig_mode) a.plain a.sig w h

  pub verify-Signals :
      (a : Option VerifyArgs) (w : World C) → occurred w.py ≡ false → Signals (verify P E self a w)
  unfolding verify
  verify-Signals none w h = refl
  verify-Signals (some a) w h = verify_files-Signals a w h
