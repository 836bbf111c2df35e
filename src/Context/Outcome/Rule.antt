-- ===== src/Context/Outcome/Rule.antt =====
-- The rule for any call, and the two methods that can break it.
use pygpgme.Base.{ℕ, ◌≡◌, ◌≢◌, refl, true, false, none, some, [], arith, ◌⊎◌, inl, inr, Bool-cases}
use pygpgme.Python.State.{Platform, occurred}
use pygpgme.Errors.Convert.{check_error}
use pygpgme.Gpgme.Engine.{Engine, Op}
use pygpgme.Context.World.{World, run_op}
use pygpgme.Context.Resources.{data_new, data_release}
use pygpgme.Context.Crypt.{encrypt, encrypt_sign, decrypt, decrypt_verify, sign, verify}
use pygpgme.Context.Keyring.{
  EditArgs, import_, import_keys, export_keys, genkey, delete, warn, none_unless, edit_run, edit,
  card_edit,
}
use pygpgme.Context.Calls.{
  Call, call, encrypt_call, encrypt_sign_call, decrypt_call, decrypt_verify_call, sign_call,
  verify_call, import_call, import_keys_call, export_keys_call, genkey_call, delete_call, edit_call,
  card_edit_call,
}
use pygpgme.Errors.View.{AreEnumerations}
use pygpgme.Context.Calm.Calls.{call-Calm}
use pygpgme.Context.Outcome.{Signals, SignalsRef}
use pygpgme.Context.Outcome.Crypt.{
  decrypt-Signals, decrypt_verify-Signals, sign-Signals, verify-Signals,
}
use pygpgme.Context.Outcome.Encrypt.{encrypt-Signals, encrypt_sign-Signals}
use pygpgme.Context.Outcome.Keyring.{
  import_-Signals, import_keys-Signals, export_keys-Signals, genkey-Signals, delete-Signals,
  edit_run-Signals,
}

-- Warnings are not errors, as `edit` and `card_edit` take for granted.
abbrev pub IsLenient : Call → Type 0
IsLenient (edit_call (some a)) = a.strict ≡ false
IsLenient (card_edit_call (some a)) = a.strict ≡ false
IsLenient _ = true ≡ true

module _ {C : Type 0} (P : Platform) (E : Engine C) (self : ℕ) where
  -- The call returns `NULL` exactly with an exception pending.
  abbrev pub Obeys : Call → World C → Type 0
  Obeys (encrypt_call a) w = Signals (encrypt P E self a w)
  Obeys (encrypt_sign_call a) w = Signals (encrypt_sign P E self a w)
  Obeys (decrypt_call a) w = Signals (decrypt P E self a w)
  Obeys (decrypt_verify_call a) w = Signals (decrypt_verify P E self a w)
  Obeys (sign_call a) w = Signals (sign P E self a w)
  Obeys (verify_call a) w = Signals (verify P E self a w)
  Obeys (import_call a) w = SignalsRef (import_ P E self a w)
  Obeys (import_keys_call a) w = SignalsRef (import_keys P E self a w)
  Obeys (export_keys_call a) w = Signals (export_keys P E self a w)
  Obeys (genkey_call a) w = SignalsRef (genkey P E self a w)
  Obeys (delete_call a) w = Signals (delete P E self a w)
  Obeys (edit_call a) w = Signals (edit P E self a w)
  Obeys (card_edit_call a) w = Signals (card_edit P E self a w)

  obeys : (c : Call) (w : World C) → occurred w.py ≡ false → IsLenient c → Obeys c w
  unfolding edit card_edit warn
  obeys (encrypt_call a) w h l = encrypt-Signals P E self a w h
  obeys (encrypt_sign_call a) w h l = encrypt_sign-Signals P E self a w h
  obeys (decrypt_call a) w h l = decrypt-Signals P E self a w h
  obeys (decrypt_verify_call a) w h l = decrypt_verify-Signals P E self a w h
  obeys (sign_call a) w h l = sign-Signals P E self a w h
  obeys (verify_call a) w h l = verify-Signals P E self a w h
  obeys (import_call a) w h l = import_-Signals P E self a w h
  obeys (import_keys_call a) w h l = import_keys-Signals P E self a w h
  obeys (export_keys_call a) w h l = export_keys-Signals P E self a w h
  obeys (genkey_call a) w h l = genkey-Signals P E self a w h
  obeys (delete_call a) w h l = delete-Signals P E self a w h
  obeys (edit_call none) w h l = refl
  obeys (edit_call (some a)) w h l =
      edit_run-Signals P E self Op.edit a (warn P E self a.strict w) (rw l h)
  obeys (card_edit_call none) w h l = refl
  obeys (card_edit_call (some a)) w h l =
      edit_run-Signals P E self Op.card_edit a (warn P E self a.strict w) (rw l h)

  -- With the extension's enumerations, from a thread with no exception pending and nothing undefined so
  -- far, a call of any of these methods (for `edit` and `card_edit`, unless warnings are errors),
  -- whatever its arguments, gpgme and the memory do, ends in one of two ways. C drops a `NULL`
  -- reference, after which nothing is promised, and this is only possible where some allocation
  -- fails; or nothing undefined happens, and the call returns `NULL` with an exception pending or an
  -- object with none.
  pub call-Obeys :
      (c : Call) (w : World C)
      → AreEnumerations P
      → occurred w.py ≡ false
      → w.py.fault ≡ false
      → IsLenient c
      → (((call P E self c w).py.fault ≡ true) × (w.py.mem ≢ []))
        ⊎ (((call P E self c w).py.fault ≡ false) × Obeys c w)
  call-Obeys c w enums h f l = elim (Bool-cases (call P E self c w).py.fault) [
    | inl bad ↦ inl (
      bad,
      λ m. let kept = (call-Calm P E self c w enums h m).faultless in ground (arith, bad, f, kept),
    )
    | inr good ↦ inr (good, obeys c w h l)
  ]

  -- With warnings as errors, `edit` goes on with the exception of `PyErr_WarnEx` pending: where gpgme
  -- reports no error and no data object is needed, it returns `None` with that exception.
  edit_breaks :
      (a : EditArgs) (w : World C)
      → a.strict ≡ true
      → a.out ≡ none
      → (E.perform w.lib (Op.edit a.key a.callback none)).0 ≡ 0
      → ((edit P E self (some a) w).0 ≡ some tt) × (occurred (edit P E self (some a) w).1.py ≡ true)
  unfolding edit edit_run warn data_new none_unless run_op check_error data_release
  edit_breaks a w s o e = ground (arith, s, o, e)
