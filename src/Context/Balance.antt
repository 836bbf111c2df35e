-- ===== src/Context/Balance.antt =====
-- What every call leaves as it found it: the locks, the references on what it was given, its memory.
pub mod Crypt
pub mod Encrypt
pub mod Keyring
pub mod Patterns
use pygpgme.Base.{
  ℕ, ◌+◌, ◌-◌, ◌≡◌, refl, Bool, true, false, Option, none, some, List, [], ◌∷◌, ◌⊎◌, inl, inr,
  if◌then◌else◌, arith, Bool-cases, Option-cases,
}
use pygpgme.Python.State.{Platform, PyState}
use pygpgme.Errors.Convert.{check_error}
use pygpgme.Gpgme.Engine.{Handle, Op, Engine}
use pygpgme.Context.World.{World, same, incref, decref, run_op}
use pygpgme.Context.Resources.{
  SeqArg, not_sequence, sequence, KeyArray, data_new, data_release, key_array, release_array,
}
use pygpgme.Context.Crypt.{
  decrypt, DecryptArgs, decrypt_verify, sign, SignArgs, verify, VerifyArgs, encrypt, EncryptArgs,
  encrypt_sign, encrypt_to, encrypt_sign_to,
}

-- The references on the object `x` and the blocks that a data object stands for.
abbrev pub handle_refs : ℕ → ℕ → Handle → ℕ
handle_refs self x none = 0
handle_refs self x (some fp) = same fp x + same self x

abbrev pub handle_blocks : Handle → ℕ
handle_blocks none = 0
handle_blocks (some fp) = 1

-- Those of an array of keys and its sequence.
abbrev pub array_refs : ℕ → KeyArray → ℕ
array_refs x a = elim a.seq [ none ↦ 0 | some o ↦ same o x ]

abbrev pub array_blocks : KeyArray → ℕ
array_blocks a = if a.array then 1 else 0

-- The thread holds the interpreter and nothing of the context, as between two calls.
pub record IsIdle {C : Type 0} (w : World C) : Type 0 where
  pub held : w.gil ≡ true
  pub unlocked : w.mutex ≡ false
  pub no_tstate : w.tstate ≡ false

-- From `w` to `w'` the references on the object `x` and on the key `k`, the blocks and the locks are
-- as before, and no rule about the locks was broken.
pub record Restores {C : Type 0} (x k : ℕ) (w w' : World C) : Type 0 where
  pub held : w'.gil ≡ true
  pub unlocked : w'.mutex ≡ false
  pub no_tstate : w'.tstate ≡ false
  pub unbroken : w'.broken ≡ w.broken
  pub freed : w'.blocks ≡ w.blocks
  pub disowned : w'.owned ≡ w.owned
  pub released : w'.refs x ≡ w.refs x
  pub key_released : w'.keys k ≡ w.keys k

-- On the way from `w0` to `w` the call has taken `e` references on `x` and `n` blocks of memory.
pub record Owes {C : Type 0} (x k : ℕ) (w0 w : World C) (e n : ℕ) : Type 0 where
  pub held : w.gil ≡ true
  pub unlocked : w.mutex ≡ false
  pub no_tstate : w.tstate ≡ false
  pub unbroken : w.broken ≡ w0.broken
  pub blocks_owed : w.blocks ≡ w0.blocks + n
  pub disowned : w.owned ≡ w0.owned
  pub refs_owed : w.refs x ≡ w0.refs x + e
  pub key_released : w.keys k ≡ w0.keys k

module _ {C : Type 0} (x k : ℕ) where
  pub Owes-start : (w : World C) → IsIdle w → Owes x k w w 0 0
  Owes-start w h = ground arith

  pub Owes-Restores : {w0 w : World C} → Owes x k w0 w 0 0 → Restores x k w0 w
  Owes-Restores o = ground arith

  pub Owes-eq :
      {w0 w : World C} {e n e' n' : ℕ} → e ≡ e' → n ≡ n' → Owes x k w0 w e n → Owes x k w0 w e' n'
  Owes-eq p q o = ground arith

  pub Owes-py :
      {w0 : World C} (w : World C) {e n : ℕ} (s : PyState)
      → Owes x k w0 w e n
      → Owes x k w0 (record w { py = s }) e n
  Owes-py w s o = ground arith

  module _ (P : Platform) (E : Engine C) (self : ℕ) where
    pub Owes-run_op :
        {w0 : World C} (w : World C) {e n : ℕ} (op : Op)
        → Owes x k w0 w e n
        → Owes x k w0 (run_op E op w).1 e n
    unfolding run_op
    Owes-run_op w op o = ground arith

    pub Owes-data_new :
        {w0 : World C} (w : World C) {e n : ℕ} (f : Option ℕ)
        → Owes x k w0 w e n
        → let (bad, h, w') = data_new P E self f w in
          Owes x k w0 w' (e + handle_refs self x h) (n + handle_blocks h)
    unfolding data_new
    Owes-data_new w none o = ground arith
    Owes-data_new w (some fp) o = ground arith

    pub Owes-data_new_failed :
        {w0 : World C} (w : World C) {e n : ℕ} (f : Option ℕ)
        → (data_new P E self f w).0 ≡ true
        → Owes x k w0 w e n
        → Owes x k w0 (data_new P E self f w).2 e n
    unfolding data_new
    Owes-data_new_failed w none bad o = ground arith
    Owes-data_new_failed w (some fp) bad o = ground arith

    pub Owes-data_release :
        {w0 : World C} (w : World C) {e n : ℕ} (e' n' : ℕ) (h : Handle)
        → e ≡ e' + handle_refs self x h
        → n ≡ n' + handle_blocks h
        → Owes x k w0 w e n
        → Owes x k w0 (data_release self h w) e' n'
    unfolding data_release
    Owes-data_release w e' n' none p q o = ground arith
    Owes-data_release w e' n' (some fp) p q o = ground arith

  pub Owes-key_array :
      {w0 : World C} (w : World C) {e n : ℕ} (q : SeqArg)
      → Owes x k w0 w e n
      → let (a, w') = key_array q w in Owes x k w0 w' (e + array_refs x a) (n + array_blocks a)
  unfolding key_array
  Owes-key_array w not_sequence o = ground arith
  Owes-key_array w (sequence s items) o = ground arith

  pub Owes-release_array :
      {w0 : World C} (w : World C) {e n : ℕ} (e' n' : ℕ) (a : KeyArray)
      → e ≡ e' + array_refs x a
      → n ≡ n' + array_blocks a
      → Owes x k w0 w e n
      → Owes x k w0 (release_array a w) e' n'
  unfolding release_array
  Owes-release_array w e' n' a p q o = ground arith
