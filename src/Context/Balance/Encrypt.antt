-- ===== src/Context/Balance/Encrypt.antt =====
-- `encrypt` and `encrypt_sign` keep nothing: on every branch they give back all references and
-- memory, and they follow the rules about the locks.
use pygpgme.Context.Balance.Crypt.{two_released}
use pygpgme.Base.{
  ℕ, ◌+◌, ◌≡◌, refl, Option, none, some, List, inl, inr, arith, Bool-cases, Option-cases,
}
use pygpgme.Python.State.{Platform}
use pygpgme.Errors.Convert.{check_error}
use pygpgme.Gpgme.Engine.{Handle, Op, Engine}
use pygpgme.Context.World.{World, run_op}
use pygpgme.Context.Resources.{data_new, KeyArray, SeqArg, not_sequence, key_array, release_array}
use pygpgme.Context.Crypt.{
  EncryptArgs, no_array, finish, encrypt_run, encrypt_sign_run, with_data, with_keys, encrypt_to,
  encrypt, encrypt_sign_to, encrypt_sign,
}
use pygpgme.Context.Balance.{
  handle_refs, handle_blocks, array_refs, array_blocks, IsIdle, Restores, Owes, Owes-start, Owes-eq,
  Owes-py, Owes-run_op, Owes-data_new, Owes-data_new_failed, Owes-key_array, Owes-release_array,
}

module _ {C : Type 0} (P : Platform) (E : Engine C) (self : ℕ) (x k : ℕ) where
  -- The label `end` gives back the array and both data objects.
  finish-Restores :
      {w0 : World C} (w : World C) {e n : ℕ} (a : KeyArray) (f g : Handle)
      → e ≡ array_refs x a + handle_refs self x f + handle_refs self x g
      → n ≡ array_blocks a + handle_blocks f + handle_blocks g
      → Owes x k w0 w e n
      → Restores x k w0 (finish P E self a f g w)
  unfolding finish
  finish-Restores w a f g p q o = two_released P E self x k (release_array a w) f g refl refl (
      Owes-release_array x k w (handle_refs self x f + handle_refs self x g)
        (handle_blocks f + handle_blocks g) a (omega arith) (omega arith) o)

  -- What a function that runs an encryption must do with its array and data objects.
  abbrev Finishes :
      {R : Type 0}
      → (EncryptArgs → KeyArray → Option (List ℕ) → Handle → Handle → World C → Option R × World C)
      → Type 0
  Finishes run =
      (a : EncryptArgs) (arr : KeyArray) (recp : Option (List ℕ)) (f g : Handle) (w0 w : World C)
      → Owes x k w0 w (array_refs x arr + handle_refs self x f + handle_refs self x g)
          (array_blocks arr + handle_blocks f + handle_blocks g)
      → Restores x k w0 (run a arr recp f g w).1

  encrypt_run-Finishes : Finishes (encrypt_run P E self)
  unfolding encrypt_run
  encrypt_run-Finishes a arr recp f g w0 w o =
      let op = Op.encrypt recp a.flags f g in
      let (err, w1) = run_op E op w in
      let o1 = Owes-run_op x k P E self w op o in
      elim (Bool-cases (check_error P err w1.py).0) [
        | inl e ↦ rw e (finish-Restores _ arr f g refl refl (Owes-py x k w1 _ o1))
        | inr e ↦ rw e (finish-Restores _ arr f g refl refl (Owes-py x k w1 _ o1))
      ]

  encrypt_sign_run-Finishes : Finishes (encrypt_sign_run P E self)
  unfolding encrypt_sign_run
  encrypt_sign_run-Finishes a arr recp f g w0 w o =
      let op = Op.encrypt_sign recp a.flags f g in
      let (err, w1) = run_op E op w in
      let o1 = Owes-run_op x k P E self w op o in
      elim (Bool-cases (check_error P err w1.py).0) [
        | inl e ↦ rw e (finish-Restores _ arr f g refl refl (Owes-py x k w1 _ o1))
        | inr e ↦ rw e (finish-Restores _ arr f g refl refl (Owes-py x k w1 _ o1))
      ]

  module _ {R : Type 0}
      (run : EncryptArgs
        → KeyArray
        → Option (List ℕ)
        → Handle
        → Handle
        → World C
        → Option R × World C)
      (back : Finishes run) (a : EncryptArgs) where
    with_data-Restores :
        (arr : KeyArray) (recp : Option (List ℕ)) {w0 : World C} (w : World C)
        → Owes x k w0 w (array_refs x arr) (array_blocks arr)
        → Restores x k w0 (with_data P E self run a arr recp w).1
    unfolding with_data
    with_data-Restores arr recp w o =
        let (bad, plain, w1) = data_new P E self a.plain w in
        let o1 = Owes-data_new x k P E self w a.plain o in
        elim (Bool-cases bad) [
          | inl e ↦ rw e (
              finish-Restores w1 arr none none (omega arith) (omega arith)
                (Owes-data_new_failed x k P E self w a.plain e o))
          | inr e ↦ rw e (elim (Bool-cases (data_new P E self a.cipher w1).0) [
            | inl e' ↦ rw e' (
                finish-Restores _ arr plain none (omega arith) (omega arith)
                  (Owes-data_new_failed x k P E self w1 a.cipher e' o1))
            | inr e' ↦
                rw e' (back a arr recp plain _ _ _ (Owes-data_new x k P E self w1 a.cipher o1))
          ])
        ]

    with_keys-Restores :
        (q : SeqArg) (w : World C) → IsIdle w → Restores x k w (with_keys P E self run a q w).1
    unfolding with_keys
    with_keys-Restores q w h =
        let (arr, w1) = key_array q w in
        let o = Owes-key_array x k w q (Owes-start x k w h) in
        elim (Option-cases arr.keys) [
          | inl e ↦
              rw (e, with_keys) (finish-Restores w1 arr none none (omega arith) (omega arith) o)
          | inr (ks, e) ↦
              rw (e, with_keys)
                (with_data-Restores arr (some ks) w1 (Owes-eq x k (omega arith) (omega arith) o))
        ]

  pub encrypt-Restores :
      (a : Option EncryptArgs) (w : World C) → IsIdle w → Restores x k w (encrypt P E self a w).1
  unfolding encrypt encrypt_to with_data
  encrypt-Restores none w h = ground arith
  encrypt-Restores (some a) w h = to a.recipients
    where
      to : (q : Option SeqArg) → Restores x k w (encrypt_to P E self a q w).1
      to none =
          with_data-Restores (encrypt_run P E self) encrypt_run-Finishes a no_array none w
            (Owes-start x k w h)
      to (some q) = with_keys-Restores (encrypt_run P E self) encrypt_run-Finishes a q w h

  pub encrypt_sign-Restores :
      (a : Option EncryptArgs) (w : World C)
      → IsIdle w
      → Restores x k w (encrypt_sign P E self a w).1
  unfolding encrypt_sign encrypt_sign_to with_keys
  encrypt_sign-Restores none w h = ground arith
  encrypt_sign-Restores (some a) w h = to a.recipients
    where
      to : (q : Option SeqArg) → Restores x k w (encrypt_sign_to P E self a q w).1
      to none =
          with_keys-Restores (encrypt_sign_run P E self) encrypt_sign_run-Finishes a not_sequence w
            h
      to (some q) = with_keys-Restores (encrypt_sign_run P E self) encrypt_sign_run-Finishes a q w h
