-- ===== src/Context/Calm/Calls.antt =====
-- Any call.
use pygpgme.Base.{ℕ, ◌≡◌, refl, true, false, Option, none, some, [], arith}
use pygpgme.Python.State.{Platform, PyState, occurred}
use pygpgme.Errors.View.{AreEnumerations}
use pygpgme.Gpgme.Engine.{Engine, Op}
use pygpgme.Context.World.{World}
use pygpgme.Context.Keyring.{EditArgs, warn, edit, card_edit}
use pygpgme.Context.Calls.{
  Call, call, encrypt_call, encrypt_sign_call, decrypt_call, decrypt_verify_call, sign_call,
  verify_call, import_call, import_keys_call, export_keys_call, genkey_call, delete_call, edit_call,
  card_edit_call,
}
use pygpgme.Context.Calm.{Calm}
use pygpgme.Context.Calm.Steps.{Kept}
use pygpgme.Context.Calm.Encrypt.{encrypt-Kept, encrypt_sign-Kept}
use pygpgme.Context.Calm.Crypt.{decrypt-Kept, decrypt_verify-Kept, sign-Kept, verify-Kept}
use pygpgme.Context.Calm.Keyring.{
  import_-Kept, import_keys-Kept, export_keys-Kept, genkey-Kept, delete-Kept, edit_run-Kept,
}

module _ {C : Type 0} (P : Platform) (E : Engine C) (self : ℕ) where
  warn-Kept : (s0 : PyState) (b : _) (w : World C) → Kept s0 w → Kept s0 (warn P E self b w)
  unfolding warn
  warn-Kept s0 true w c = ground (arith, c)
  warn-Kept s0 false w c = c

  edit-Kept :
      (h : AreEnumerations P) (s0 : PyState) (a : Option EditArgs) (w : World C)
      → Kept s0 w
      → Kept s0 (edit P E self a w).1
  unfolding edit
  edit-Kept h s0 none w c = ground (arith, c)
  edit-Kept h s0 (some a) w c =
      (edit_run-Kept P E self h s0 Op.edit a _ (warn-Kept s0 a.strict w c)).calm

  card_edit-Kept :
      (h : AreEnumerations P) (s0 : PyState) (a : Option EditArgs) (w : World C)
      → Kept s0 w
      → Kept s0 (card_edit P E self a w).1
  unfolding card_edit
  card_edit-Kept h s0 none w c = ground (arith, c)
  card_edit-Kept h s0 (some a) w c =
      (edit_run-Kept P E self h s0 Op.card_edit a _ (warn-Kept s0 a.strict w c)).calm

  kept :
      (h : AreEnumerations P) (s0 : PyState) (c : Call) (w : World C)
      → occurred w.py ≡ false
      → Kept s0 w
      → Kept s0 (call P E self c w)
  unfolding call
  kept h s0 (encrypt_call a) w o k = (encrypt-Kept P E self h s0 a w o k).calm
  kept h s0 (encrypt_sign_call a) w o k = (encrypt_sign-Kept P E self h s0 a w o k).calm
  kept h s0 (decrypt_call a) w o k = (decrypt-Kept P E self h s0 a w o k).calm
  kept h s0 (decrypt_verify_call a) w o k = (decrypt_verify-Kept P E self h s0 a w o k).calm
  kept h s0 (sign_call a) w o k = (sign-Kept P E self h s0 a w o k).calm
  kept h s0 (verify_call a) w o k = (verify-Kept P E self h s0 a w o k).calm
  kept h s0 (import_call a) w o k = (import_-Kept P E self h s0 a w o k).calm
  kept h s0 (import_keys_call a) w o k = (import_keys-Kept P E self h s0 a w o k).calm
  kept h s0 (export_keys_call a) w o k = (export_keys-Kept P E self h s0 a w k).calm
  kept h s0 (genkey_call a) w o k = (genkey-Kept P E self h s0 a w o k).calm
  kept h s0 (delete_call a) w o k = (delete-Kept P E self h s0 a w k).calm
  kept h s0 (edit_call a) w o k = edit-Kept h s0 a w k
  kept h s0 (card_edit_call a) w o k = card_edit-Kept h s0 a w k

  pub call-Calm :
      (c : Call) (w : World C)
      → AreEnumerations P
      → occurred w.py ≡ false
      → w.py.mem ≡ []
      → Calm w.py (call P E self c w).py
  call-Calm c w h o m = kept h w.py c w o (record { faultless = refl; lossless = refl; roomy = m })
