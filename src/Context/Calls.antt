-- ===== src/Context/Calls.antt =====
-- lib/pygpgme-context.c: one call of any of the methods that keep nothing, and a run of such calls.
-- `get_key`, `export` and `keylist` are treated by themselves: they return references or lose some.
use pygpgme.Base.{ℕ, Option, List, [], ◌∷◌, arith}
use pygpgme.Python.State.{Platform}
use pygpgme.Gpgme.Engine.{Engine}
use pygpgme.Context.World.{World}
use pygpgme.Context.Resources.{SeqArg}
use pygpgme.Context.Crypt.{
  EncryptArgs, DecryptArgs, SignArgs, VerifyArgs, encrypt, encrypt_sign, decrypt, decrypt_verify,
  sign, verify,
}
use pygpgme.Context.Keyring.{
  ExportKeysArgs, GenkeyArgs, DeleteArgs, EditArgs, import_, import_keys, export_keys, genkey,
  delete, edit, card_edit,
}
use pygpgme.Context.Balance.{IsIdle, Restores}
use pygpgme.Context.Balance.Encrypt.{encrypt-Restores, encrypt_sign-Restores}
use pygpgme.Context.Balance.Crypt.{
  decrypt-Restores, decrypt_verify-Restores, sign-Restores, verify-Restores,
}
use pygpgme.Context.Balance.Keyring.{
  import_-Restores, import_keys-Restores, export_keys-Restores, genkey-Restores, delete-Restores,
  edit-Restores, card_edit-Restores,
}

-- A method with its arguments; `none` where `PyArg_ParseTuple` fails.
pub data Call : Type 0 where
  encrypt_call encrypt_sign_call : Option EncryptArgs → Call
  decrypt_call decrypt_verify_call : Option DecryptArgs → Call
  sign_call : Option SignArgs → Call
  verify_call : Option VerifyArgs → Call
  import_call : Option (Option ℕ) → Call
  import_keys_call : Option SeqArg → Call
  export_keys_call : Option ExportKeysArgs → Call
  genkey_call : Option GenkeyArgs → Call
  delete_call : Option DeleteArgs → Call
  edit_call card_edit_call : Option EditArgs → Call

module _ {C : Type 0} (P : Platform) (E : Engine C) (self : ℕ) where
  -- The state that a call leaves.
  unfoldable pub call : Call → World C → World C
  call (encrypt_call a) w = (encrypt P E self a w).1
  call (encrypt_sign_call a) w = (encrypt_sign P E self a w).1
  call (decrypt_call a) w = (decrypt P E self a w).1
  call (decrypt_verify_call a) w = (decrypt_verify P E self a w).1
  call (sign_call a) w = (sign P E self a w).1
  call (verify_call a) w = (verify P E self a w).1
  call (import_call a) w = (import_ P E self a w).1
  call (import_keys_call a) w = (import_keys P E self a w).1
  call (export_keys_call a) w = (export_keys P E self a w).1
  call (genkey_call a) w = (genkey P E self a w).1
  call (delete_call a) w = (delete P E self a w).1
  call (edit_call a) w = (edit P E self a w).1
  call (card_edit_call a) w = (card_edit P E self a w).1

  -- The calls of a program, one after the other.
  unfoldable pub calls : List Call → World C → World C
  calls [] w = w
  calls (c ∷ cs) w = calls cs (call c w)

  call-Restores : (c : Call) (w : World C) → IsIdle w → (x k : ℕ) → Restores x k w (call c w)
  unfolding call
  call-Restores (encrypt_call a) w h x k = encrypt-Restores P E self x k a w h
  call-Restores (encrypt_sign_call a) w h x k = encrypt_sign-Restores P E self x k a w h
  call-Restores (decrypt_call a) w h x k = decrypt-Restores P E self x k a w h
  call-Restores (decrypt_verify_call a) w h x k = decrypt_verify-Restores P E self x k a w h
  call-Restores (sign_call a) w h x k = sign-Restores P E self x k a w h
  call-Restores (verify_call a) w h x k = verify-Restores P E self x k a w h
  call-Restores (import_call a) w h x k = import_-Restores P E self x k a w h
  call-Restores (import_keys_call a) w h x k = import_keys-Restores P E self x k a w h
  call-Restores (export_keys_call a) w h x k = export_keys-Restores P E self x k a w h
  call-Restores (genkey_call a) w h x k = genkey-Restores P E self x k a w h
  call-Restores (delete_call a) w h x k = delete-Restores P E self x k a w h
  call-Restores (edit_call a) w h x k = edit-Restores P E self x k a w h
  call-Restores (card_edit_call a) w h x k = card_edit-Restores P E self x k a w h

  -- Any sequence of calls that starts from an idle thread, whatever the arguments, the files, gpgme and
  -- the memory do, as long as C does nothing undefined, ends with the interpreter held, the mutex free
  -- and no thread state kept, and breaks no rule about the locks: no assertion fails, no mutex is
  -- taken twice, and gpgme works without the interpreter. As many references as before are then on
  -- every object that the calls are given (the context, the files, the sequences) and on every gpgme
  -- key, and as many blocks that the calls take from `malloc` are in use. The objects that the calls
  -- make themselves and the references on their classes are not counted here: where an allocation
  -- fails, some of these objects are lost, which `lost` counts.
  pub calls-Restores :
      (cs : List Call) (w : World C) → IsIdle w → (x k : ℕ) → Restores x k w (calls cs w)
  unfolding calls
  calls-Restores [] w h x k = ground arith
  calls-Restores (c ∷ cs) w h x k =
      let r = call-Restores c w h x k in
      let rest = calls-Restores cs (call c w) (ground (arith, r)) x k in ground (arith, r, rest)
