-- ===== src/Context/Balance/Keyring.antt =====
-- The methods on the key ring give back all references and memory on every branch, but for the
-- bytes objects of patterns (Context/Balance/Patterns).
use pygpgme.Base.{
  ℕ, ◌+◌, ◌≡◌, refl, Bool, Option, none, some, List, inl, inr, arith, Bool-cases, Option-cases,
}
use pygpgme.Python.Value.{Ref, ImportResult}
use pygpgme.Python.State.{Platform}
use pygpgme.Gpgme.Engine.{Handle, Op, Engine}
use pygpgme.Context.World.{World, run_op, same}
use pygpgme.Context.Resources.{data_new, data_release, KeyArray, SeqArg, key_array}
use pygpgme.Context.Keyring.{
  GetKeyArgs, get_key, import_end, import_run, import_, import_keys_run, import_keys, none_unless,
  ExportKeysArgs, export_keys_out, export_keys_data, export_keys, genkey_run, GenkeyArgs, genkey,
  DeleteArgs, delete, EditArgs, warn, edit_run, edit, card_edit,
}
use pygpgme.Context.Balance.{
  handle_refs, handle_blocks, array_refs, array_blocks, IsIdle, Restores, Owes, Owes-start,
  Owes-Restores, Owes-eq, Owes-py, Owes-run_op, Owes-data_new, Owes-data_new_failed,
  Owes-data_release, Owes-key_array, Owes-release_array,
}
use pygpgme.Context.Balance.Crypt.{two_released}

module _ {C : Type 0} (P : Platform) (E : Engine C) (self : ℕ) (x k : ℕ) where
  -- One data object is given back by one release.
  one_released :
      {w0 : World C} (w : World C) {e n : ℕ} (f : Handle)
      → e ≡ handle_refs self x f
      → n ≡ handle_blocks f
      → Owes x k w0 w e n
      → Owes x k w0 (data_release self f w) 0 0
  one_released w f p q o = Owes-data_release x k P E self w 0 0 f (omega arith) (omega arith) o

  import_end-Owes :
      {w0 : World C} (w : World C) {e n : ℕ} (err : ℕ) (r : Ref ImportResult)
      → Owes x k w0 w e n
      → Owes x k w0 (import_end P E self err r w).1 e n
  unfolding import_end
  import_end-Owes w err r o = ground arith

  none_unless-Owes :
      {w0 : World C} (w : World C) {e n : ℕ} (err : ℕ)
      → Owes x k w0 w e n
      → Owes x k w0 (none_unless P E self err w).1 e n
  unfolding none_unless
  none_unless-Owes w err o = ground arith

  pub import_-Restores :
      (a : Option (Option ℕ)) (w : World C) → IsIdle w → Restores x k w (import_ P E self a w).1
  unfolding import_ import_run
  import_-Restores none w h = ground arith
  import_-Restores (some f) w h =
      let (bad, d, w1) = data_new P E self f w in
      let o = Owes-start x k w h in
      let o1 = Owes-run_op x k P E self w1 (Op.import_data d) (Owes-data_new x k P E self w f o) in
      elim (Bool-cases bad) [
        | inl e ↦ rw e (Owes-Restores x k (Owes-data_new_failed x k P E self w f e o))
        | inr e ↦ rw e (
            Owes-Restores x k (
              import_end-Owes _ _ _
                (Owes-py x k _ _ (one_released _ d (omega arith) (omega arith) o1))))
      ]

  pub import_keys-Restores :
      (a : Option SeqArg) (w : World C) → IsIdle w → Restores x k w (import_keys P E self a w).1
  unfolding import_keys import_keys_run
  import_keys-Restores none w h = ground arith
  import_keys-Restores (some q) w h =
      let (arr, w1) = key_array q w in
      let o = Owes-key_array x k w q (Owes-start x k w h) in
      elim (Option-cases arr.keys) [
        | inl e ↦
            rw (e, import_keys)
              (Owes-Restores x k (Owes-release_array x k w1 0 0 arr (omega arith) (omega arith) o))
        | inr (ks, e) ↦
            rw (e, import_keys)
              (Owes-Restores x k (
                Owes-release_array x k _ 0 0 arr (omega arith) (omega arith) (
                  import_end-Owes _ _ _
                    (Owes-py x k _ _ (Owes-run_op x k P E self w1 (Op.import_keys ks) o)))))
      ]

  pub delete-Restores :
      (a : Option DeleteArgs) (w : World C) → IsIdle w → Restores x k w (delete P E self a w).1
  unfolding delete
  delete-Restores none w h = ground arith
  delete-Restores (some a) w h = Owes-Restores x k (
      none_unless-Owes _ _
        (Owes-run_op x k P E self w (Op.delete a.key a.flags) (Owes-start x k w h)))

  pub genkey-Restores :
      (a : Option GenkeyArgs) (w : World C) → IsIdle w → Restores x k w (genkey P E self a w).1
  unfolding genkey genkey_run
  genkey-Restores none w h = ground arith
  genkey-Restores (some a) w h =
      let (bad, f, w1) = data_new P E self a.pubkey w in
      let (bad', g, w2) = data_new P E self a.seckey w1 in
      let o = Owes-start x k w h in
      let o1 = Owes-data_new x k P E self w a.pubkey o in
      let o2 = Owes-data_new x k P E self w1 a.seckey o1 in
      elim (Bool-cases bad) [
        | inl e ↦ rw e (Owes-Restores x k (Owes-data_new_failed x k P E self w a.pubkey e o))
        | inr e ↦ rw e (elim (Bool-cases bad') [
          | inl e' ↦ rw e' (
              Owes-Restores x k (
                one_released w2 f (omega arith) (omega arith)
                  (Owes-data_new_failed x k P E self w1 a.seckey e' o1)))
          | inr e' ↦ rw e' (
              let r =
                two_released P E self x k _ g f (omega arith) (omega arith)
                  (Owes-run_op x k P E self w2 (Op.genkey a.parms f g) o2) in
              ground (arith, r))
        ])
      ]

  edit_run-Owes :
      (op : ℕ → ℕ → Handle → Op) (a : EditArgs) {w0 : World C} (w : World C)
      → Owes x k w0 w 0 0
      → Owes x k w0 (edit_run P E self op a w).1 0 0
  unfolding edit_run
  edit_run-Owes op a w o =
      let (bad, d, w1) = data_new P E self a.out w in
      let o1 = Owes-data_new x k P E self w a.out o in
      elim (Bool-cases bad) [
        | inl e ↦ rw e (Owes-data_new_failed x k P E self w a.out e o)
        | inr e ↦ rw e (
            none_unless-Owes _ _ (
              one_released _ d (omega arith) (omega arith)
                (Owes-run_op x k P E self w1 (op a.key a.callback d) o1)))
      ]

  warn-Owes : (strict : Bool) (w : World C) → IsIdle w → Owes x k w (warn P E self strict w) 0 0
  unfolding warn
  warn-Owes strict w h = ground arith

  pub edit-Restores :
      (a : Option EditArgs) (w : World C) → IsIdle w → Restores x k w (edit P E self a w).1
  unfolding edit
  edit-Restores none w h = ground arith
  edit-Restores (some a) w h =
      Owes-Restores x k (edit_run-Owes Op.edit a _ (warn-Owes a.strict w h))

  pub card_edit-Restores :
      (a : Option EditArgs) (w : World C) → IsIdle w → Restores x k w (card_edit P E self a w).1
  unfolding card_edit
  card_edit-Restores none w h = ground arith
  card_edit-Restores (some a) w h =
      Owes-Restores x k (edit_run-Owes Op.card_edit a _ (warn-Owes a.strict w h))

  export_keys_out-Restores :
      {w0 : World C} (arr : KeyArray) (d : Handle) (r : Option (Unit {0}) × World C)
      → Owes x k w0 r.1
          (array_refs x arr + handle_refs self x d)
          (array_blocks arr + handle_blocks d)
      → Restores x k w0 (export_keys_out P E self arr d r).1
  unfolding export_keys_out
  export_keys_out-Restores arr d r o = Owes-Restores x k (
      Owes-release_array x k _ 0 0 arr refl refl
        (Owes-data_release x k P E self r.1 _ _ d (omega arith) (omega arith) o))

  export_keys_data-Restores :
      {w0 : World C} (a : ExportKeysArgs) (arr : KeyArray) (ks : List ℕ) (w : World C)
      → Owes x k w0 w (array_refs x arr) (array_blocks arr)
      → Restores x k w0 (export_keys_data P E self a arr ks w).1
  unfolding export_keys_data
  export_keys_data-Restores a arr ks w o =
      let (bad, d, w1) = data_new P E self a.keydata w in
      let o1 = Owes-data_new x k P E self w a.keydata o in
      elim (Bool-cases bad) [
        | inl e ↦ rw e (export_keys_out-Restores arr d (none, w1) o1)
        | inr e ↦ rw e (
            export_keys_out-Restores arr d _ (
              none_unless-Owes _ _
                (Owes-run_op x k P E self w1 (Op.export_keys ks a.export_mode d) o1)))
      ]

  pub export_keys-Restores :
      (a : Option ExportKeysArgs) (w : World C)
      → IsIdle w
      → Restores x k w (export_keys P E self a w).1
  unfolding export_keys
  export_keys-Restores none w h = ground arith
  export_keys-Restores (some a) w h =
      let (arr, w1) = key_array a.keys w in
      let o = Owes-key_array x k w a.keys (Owes-start x k w h) in
      elim (Option-cases arr.keys) [
        | inl e ↦
            rw (e, export_keys)
              (export_keys_out-Restores arr none (none, w1)
                (Owes-eq x k (omega arith) (omega arith) o))
        | inr (ks, e) ↦
            rw (e, export_keys)
              (export_keys_data-Restores a arr ks w1 (Owes-eq x k (omega arith) (omega arith) o))
      ]

  -- The references that a call of `get_key` takes on the key `k`: one, for the wrapper returned.
  abbrev pub wrapped : Option ℕ → ℕ
  wrapped none = 0
  wrapped (some key) = same key k

  -- `get_key` gives everything back but one reference on the key whose wrapper it returns.
  get_key-keeps :
      (a : Option GetKeyArgs) (w : World C)
      → IsIdle w
      → let (ret, w') = get_key P E self a w in
        (w'.keys k ≡ w.keys k + wrapped ret)
        × (w'.refs x ≡ w.refs x)
        × (w'.blocks ≡ w.blocks)
        × (w'.broken ≡ w.broken)
        × IsIdle w'
  unfolding get_key run_op
  get_key-keeps a w h = ground arith
