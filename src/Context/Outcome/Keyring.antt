-- ===== src/Context/Outcome/Keyring.antt =====
-- The methods of Keyring return `NULL` exactly with an exception pending.
use pygpgme.Context.Outcome.Built.{SignalsObject, import_result-Signals, genkey_result-Signals}
use pygpgme.Base.{if◌then◌else◌, ap, ◌∙◌, ℕ, ◌≡◌, refl, false, Option, none, some, List, arith}
use pygpgme.Python.Value.{Text, Ref, null_ref, none_ref, object, ImportResult, GenkeyResult}
use pygpgme.Python.State.{Platform, PyState, occurred}
use pygpgme.Errors.Convert.{check_error}
use pygpgme.Gpgme.Engine.{Engine, Handle, Op}
use pygpgme.Context.World.{World, run_op}
use pygpgme.Context.Annotate.{annotate_import, annotate_genkey}
use pygpgme.Context.Resources.{data_new, data_release, SeqArg, key_array, KeyArray, release_array}
use pygpgme.Context.Keyring.{
  import_end, import_run, import_, import_keys_run, import_keys, none_unless, ExportKeysArgs,
  export_keys_out, export_keys_data, export_keys, GenkeyArgs, genkey_run, genkey_loses, genkey,
  DeleteArgs, delete, EditArgs, edit_run,
}
use pygpgme.Context.Outcome.{
  Signals, SignalsRef, if_Signals, if_SignalsRef, Option_SignalsRef, Option_Signals, Signals-none,
  Signals-some, data_new-Signals, data_release-py, release_array-py, key_array-Signals,
}

module _ {C : Type 0} (P : Platform) (E : Engine C) (self : ℕ) where
  -- An error is raised over the failure to build the result, if that failed too.
  import_end-Signals :
      (err : ℕ) (r : Ref ImportResult) (w : World C)
      → SignalsObject (r, w.py)
      → SignalsRef (import_end P E self err r w)
  unfolding import_end annotate_import check_error
  import_end-Signals err null_ref w h = ground arith
  import_end-Signals err none_ref w h = ground arith
  import_end-Signals err (object x) w h = ground arith

  import_run-Signals :
      (f : Handle) (w : World C) → occurred w.py ≡ false → SignalsRef (import_run P E self f w)
  unfolding import_run run_op
  import_run-Signals f w h =
      import_end-Signals _ _ _
        (import_result-Signals P _ _ (ap occurred (data_release-py P E self f _) ∙ h))

  pub import_-Signals :
      (a : Option (Option ℕ)) (w : World C)
      → occurred w.py ≡ false
      → SignalsRef (import_ P E self a w)
  unfolding import_
  import_-Signals none w h = refl
  import_-Signals (some f) w h =
      let made = data_new-Signals P E self f w h in
      if_SignalsRef (data_new P E self f w).0 _ _ (λ e. made ∙ e)
        (λ e. import_run-Signals _ _ (made ∙ e))

  import_keys_run-Signals :
      (ks : List ℕ) (w : World C)
      → occurred w.py ≡ false
      → SignalsRef (import_keys_run P E self ks w)
  unfolding import_keys_run run_op
  import_keys_run-Signals ks w h = import_end-Signals _ _ _ (import_result-Signals P _ _ h)

  array_released :
      {R : Type 0} (r : Ref R) (arr : KeyArray) (w : World C)
      → SignalsRef (r, w)
      → SignalsRef (r, release_array arr w)
  unfolding release_array
  array_released null_ref arr w h = h
  array_released none_ref arr w h = h
  array_released (object x) arr w h = h

  pub import_keys-Signals :
      (a : Option SeqArg) (w : World C)
      → occurred w.py ≡ false
      → SignalsRef (import_keys P E self a w)
  unfolding import_keys
  import_keys-Signals none w h = refl
  import_keys-Signals (some q) w h =
      let (arr, w1) = key_array q w in
      let read = key_array-Signals q w h in
      Option_SignalsRef arr.keys _ _
        (λ e. ap occurred (release_array-py arr w1) ∙ Signals-none arr.keys w1 read e)
        (λ ks e.
          array_released _ arr _
            (import_keys_run-Signals ks w1 (Signals-some arr.keys ks w1 read e)))

  pub none_unless-Signals :
      (err : ℕ) (w : World C) → occurred w.py ≡ false → Signals (none_unless P E self err w)
  unfolding none_unless check_error
  none_unless-Signals err w h = ground arith

  export_keys_out-Signals :
      (arr : KeyArray) (f : Handle) (r : Option (Unit {0})) (w : World C)
      → Signals (r, w)
      → Signals (export_keys_out P E self arr f (r, w))
  unfolding export_keys_out release_array
  export_keys_out-Signals arr f none w h = ap occurred (data_release-py P E self f w) ∙ h
  export_keys_out-Signals arr f (some u) w h = ap occurred (data_release-py P E self f w) ∙ h

  export_keys_data-Signals :
      (a : ExportKeysArgs) (arr : KeyArray) (ks : List ℕ) (w : World C)
      → occurred w.py ≡ false
      → Signals (export_keys_data P E self a arr ks w)
  unfolding export_keys_data run_op
  export_keys_data-Signals a arr ks w h =
      let made = data_new-Signals P E self a.keydata w h in
      export_keys_out-Signals arr _ _ _ (
        if_Signals (data_new P E self a.keydata w).0 _ _ (λ e. made ∙ e)
          (λ e. none_unless-Signals _ _ (made ∙ e)))

  pub export_keys-Signals :
      (a : Option ExportKeysArgs) (w : World C)
      → occurred w.py ≡ false
      → Signals (export_keys P E self a w)
  unfolding export_keys
  export_keys-Signals none w h = refl
  export_keys-Signals (some a) w h =
      let (arr, w1) = key_array a.keys w in
      let read = key_array-Signals a.keys w h in
      Option_Signals arr.keys _ _
        (λ e. export_keys_out-Signals arr none none w1 (Signals-none arr.keys w1 read e))
        (λ ks e. export_keys_data-Signals a arr ks w1 (Signals-some arr.keys ks w1 read e))

  genkey_end :
      (err : ℕ) (r : Ref GenkeyResult) (w : World C) (s : PyState)
      → SignalsObject (r, s)
      → let (failed, s1) = check_error P err s in
        SignalsRef (
          if failed
          then (null_ref, record w { py = genkey_loses r (annotate_genkey r s1) })
          else (r, record w { py = s1 }))
  unfolding annotate_genkey check_error genkey_loses
  genkey_end err null_ref w s h = ground arith
  genkey_end err none_ref w s h = ground arith
  genkey_end err (object x) w s h = ground arith

  genkey_run-Signals :
      (parms : Option Text) (f g : Handle) (w : World C)
      → occurred w.py ≡ false
      → SignalsRef (genkey_run P E self parms f g w)
  unfolding genkey_run run_op
  genkey_run-Signals parms f g w h =
      genkey_end _ _
        (data_release self f (data_release self g (run_op E (Op.genkey parms f g) w).1)) _
        (genkey_result-Signals P _ _
          (ap occurred (data_release-py P E self f _ ∙ data_release-py P E self g _) ∙ h))

  pub genkey-Signals :
      (a : Option GenkeyArgs) (w : World C)
      → occurred w.py ≡ false
      → SignalsRef (genkey P E self a w)
  unfolding genkey
  genkey-Signals none w h = refl
  genkey-Signals (some a) w h =
      let first = data_new-Signals P E self a.pubkey w h in
      if_SignalsRef (data_new P E self a.pubkey w).0 _ _ (λ e. first ∙ e)
        (λ e.
          let w1 : World C = (data_new P E self a.pubkey w).2 in
          let second = data_new-Signals P E self a.seckey w1 (first ∙ e) in
          if_SignalsRef (data_new P E self a.seckey w1).0 _ _
            (λ e'. ap occurred (data_release-py P E self _ _) ∙ (second ∙ e'))
            (λ e'. genkey_run-Signals _ _ _ _ (second ∙ e')))

  pub delete-Signals :
      (a : Option DeleteArgs) (w : World C) → occurred w.py ≡ false → Signals (delete P E self a w)
  unfolding delete run_op
  delete-Signals none w h = refl
  delete-Signals (some a) w h = none_unless-Signals _ _ h

  pub edit_run-Signals :
      (op : ℕ → ℕ → Handle → Op) (a : EditArgs) (w : World C)
      → occurred w.py ≡ false
      → Signals (edit_run P E self op a w)
  unfolding edit_run run_op
  edit_run-Signals op a w h =
      let made = data_new-Signals P E self a.out w h in
      if_Signals (data_new P E self a.out w).0 _ _ (λ e. made ∙ e)
        (λ e. none_unless-Signals _ _ (ap occurred (data_release-py P E self _ _) ∙ (made ∙ e)))
