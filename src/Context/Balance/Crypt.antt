-- ===== src/Context/Balance/Crypt.antt =====
-- `decrypt`, `decrypt_verify`, `sign` and `verify` keep nothing: on every
-- branch they give back all references and memory, and they follow the rules about the locks.
use pygpgme.Base.{ℕ, ◌+◌, ◌≡◌, refl, Option, none, some, inl, inr, arith, Bool-cases}
use pygpgme.Base.Int.{ℤ}
use pygpgme.Python.State.{Platform, PyState}
use pygpgme.Gpgme.Engine.{Handle, Op, Engine}
use pygpgme.Context.World.{World, run_op}
use pygpgme.Context.Resources.{data_new, data_release}
use pygpgme.Context.Crypt.{
  DecryptArgs, SignArgs, VerifyArgs, decrypt_run, decrypt_verify_run, sign_run, two_files, decrypt,
  decrypt_verify, sign, verify_run, verify_files, verify,
}
use pygpgme.Context.Balance.{
  handle_refs, handle_blocks, IsIdle, Restores, Owes, Owes-start, Owes-Restores, Owes-eq,
  Owes-run_op, Owes-data_new, Owes-data_new_failed, Owes-data_release,
}

module _ {C : Type 0} (P : Platform) (E : Engine C) (self : ℕ) (x k : ℕ) where
  -- Two data objects are given back by two releases, in either order.
  pub two_released :
      {w0 : World C} (w : World C) {e n : ℕ} (f g : Handle)
      → e ≡ handle_refs self x f + handle_refs self x g
      → n ≡ handle_blocks f + handle_blocks g
      → Owes x k w0 w e n
      → Restores x k w0 (data_release self g (data_release self f w))
  two_released w f g p q o = Owes-Restores x k (
      Owes-data_release x k P E self _ 0 0 g (omega arith) (omega arith) (
        Owes-data_release x k P E self w (handle_refs self x g) (handle_blocks g) f (omega arith)
          (omega arith) o))

  Restores-py :
      {w0 : World C} (w : World C) (s : PyState)
      → Restores x k w0 w
      → Restores x k w0 (record w { py = s })
  Restores-py w s r = ground arith

  -- What a function that runs an operation on two data objects must do with them.
  abbrev GivesBack : {R : Type 0} → (Handle → Handle → World C → Option R × World C) → Type 0
  GivesBack run =
      (w0 w : World C) (f g : Handle)
      → Owes x k w0 w (handle_refs self x f + handle_refs self x g)
          (handle_blocks f + handle_blocks g)
      → Restores x k w0 (run f g w).1

  two_files-Restores :
      {R : Type 0} (run : Handle → Handle → World C → Option R × World C)
      → GivesBack run
      → (f g : Option ℕ) (w : World C) → IsIdle w
      → Restores x k w (two_files P E self run f g w).1
  unfolding two_files
  two_files-Restores run back f g w h =
      let (bad, first, w1) = data_new P E self f w in
      let o = Owes-start x k w h in
      let o1 = Owes-data_new x k P E self w f o in
      elim (Bool-cases bad) [
        | inl e ↦ rw e (Owes-Restores x k (Owes-data_new_failed x k P E self w f e o))
        | inr e ↦ rw e (elim (Bool-cases (data_new P E self g w1).0) [
          | inl e' ↦ rw e' (
              Owes-Restores x k (
                Owes-data_release x k P E self _ 0 0 first (omega arith) (omega arith)
                  (Owes-data_new_failed x k P E self w1 g e' o1)))
          | inr e' ↦ rw e' (
              back w _ first _
                (Owes-eq x k (omega arith) (omega arith) (Owes-data_new x k P E self w1 g o1)))
        ])
      ]

  decrypt_run-back : GivesBack (decrypt_run P E self)
  unfolding decrypt_run
  decrypt_run-back w0 w f g o =
      let r =
        two_released (run_op E (Op.decrypt f g) w).1 f g refl refl
          (Owes-run_op x k P E self w (Op.decrypt f g) o) in
      ground (arith, r)

  decrypt_verify_run-back : GivesBack (decrypt_verify_run P E self)
  unfolding decrypt_verify_run
  decrypt_verify_run-back w0 w f g o =
      let r =
        two_released (run_op E (Op.decrypt_verify f g) w).1 f g refl refl
          (Owes-run_op x k P E self w (Op.decrypt_verify f g) o) in
      ground (arith, r)

  sign_run-back : (mode : ℤ) → GivesBack (sign_run P E self mode)
  unfolding sign_run
  sign_run-back mode w0 w f g o =
      let r =
        two_released (run_op E (Op.sign f g mode) w).1 f g refl refl
          (Owes-run_op x k P E self w (Op.sign f g mode) o) in
      ground (arith, r)

  pub decrypt-Restores :
      (a : Option DecryptArgs) (w : World C) → IsIdle w → Restores x k w (decrypt P E self a w).1
  unfolding decrypt
  decrypt-Restores none w h = ground arith
  decrypt-Restores (some a) w h =
      two_files-Restores (decrypt_run P E self) decrypt_run-back a.cipher a.plain w h

  pub decrypt_verify-Restores :
      (a : Option DecryptArgs) (w : World C)
      → IsIdle w
      → Restores x k w (decrypt_verify P E self a w).1
  unfolding decrypt_verify
  decrypt_verify-Restores none w h = ground arith
  decrypt_verify-Restores (some a) w h =
      two_files-Restores (decrypt_verify_run P E self) decrypt_verify_run-back a.cipher a.plain w h

  pub sign-Restores :
      (a : Option SignArgs) (w : World C) → IsIdle w → Restores x k w (sign P E self a w).1
  unfolding sign
  sign-Restores none w h = ground arith
  sign-Restores (some a) w h =
      two_files-Restores (sign_run P E self a.sig_mode) (sign_run-back a.sig_mode) a.plain a.sig w h

  verify_run-Restores :
      {w0 : World C} (w : World C) (f g h : Handle)
      → Owes x k w0 w
          (handle_refs self x f + handle_refs self x g + handle_refs self x h)
          (handle_blocks f + handle_blocks g + handle_blocks h)
      → Restores x k w0 (verify_run P E self f g h w).1
  unfolding verify_run
  verify_run-Restores w f g h o =
      let op = Op.verify f g h in
      let (err, w1) = run_op E op w in
      let r = two_released (data_release self f w1) g h refl refl (
        Owes-data_release x k P E self w1 _ _ f (omega arith) (omega arith)
          (Owes-run_op x k P E self w op o)) in
      ground (arith, r)

  pub verify-Restores :
      (a : Option VerifyArgs) (w : World C) → IsIdle w → Restores x k w (verify P E self a w).1
  unfolding verify verify_files
  verify-Restores none w h = ground arith
  verify-Restores (some a) w h =
      let (bad, sig, w1) = data_new P E self a.sig w in
      let (bad', text, w2) = data_new P E self a.signed_text w1 in
      let o = Owes-start x k w h in
      let o1 = Owes-data_new x k P E self w a.sig o in
      let o2 = Owes-data_new x k P E self w1 a.signed_text o1 in
      elim (Bool-cases bad) [
        | inl e ↦ rw e (Owes-Restores x k (Owes-data_new_failed x k P E self w a.sig e o))
        | inr e ↦ rw e (elim (Bool-cases bad') [
          | inl e' ↦ rw e' (
              Owes-Restores x k (
                Owes-data_release x k P E self _ 0 0 sig (omega arith) (omega arith)
                  (Owes-data_new_failed x k P E self w1 a.signed_text e' o1)))
          | inr e' ↦ rw e' (elim (Bool-cases (data_new P E self a.plaintext w2).0) [
            | inl e'' ↦ rw e'' (
                two_released _ sig text (omega arith) (omega arith)
                  (Owes-data_new_failed x k P E self w2 a.plaintext e'' o2))
            | inr e'' ↦ rw e'' (
                verify_run-Restores _ sig text _ (
                  Owes-eq x k (omega arith) (omega arith)
                    (Owes-data_new x k P E self w2 a.plaintext o2)))
          ])
        ])
      ]
