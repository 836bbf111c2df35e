-- ===== src/Context/Calm/Keyring.antt =====
-- The methods on the key ring.
use pygpgme.Base.{ap, ◌∙◌, ℕ, ◌≡◌, true, false, Option, none, some, List, arith}
use pygpgme.Python.Value.{Text, Ref, null_ref, none_ref, object, ImportResult, GenkeyResult}
use pygpgme.Python.State.{Platform, PyState, occurred, is_gpgme_error}
use pygpgme.Errors.View.{AreEnumerations}
use pygpgme.Errors.Convert.{check_error}
use pygpgme.Results.Build.{genkey_result}
use pygpgme.Gpgme.Engine.{Engine, Handle, Op}
use pygpgme.Context.World.{World, run_op}
use pygpgme.Context.Resources.{data_new, data_release, SeqArg, key_array, KeyArray}
use pygpgme.Context.Annotate.{annotating, annotate_genkey}
use pygpgme.Context.Keyring.{
  import_end, import_run, import_, import_keys_run, import_keys, ExportKeysArgs, export_keys_out,
  export_keys_data, export_keys, genkey_loses, genkey_run, GenkeyArgs, genkey, DeleteArgs, delete,
  EditArgs, none_unless, edit_run,
}
use pygpgme.Context.Outcome.{data_new-Signals, data_release-py, key_array-Signals, Signals-some}
use pygpgme.Context.Calm.{Calm, check_error-Calm, import-Calm, genkey-Calm}
use pygpgme.Context.Calm.Steps.{
  Kept, After, if_After, Option_After, quiet, import_result-Calm, genkey_result-Calm,
  genkey_result-same, check_error-is_gpgme_error, data_new-Kept, data_release-Kept,
  release_array-Kept, key_array-Kept,
}

-- A `GpgmeError` is pending still once the result is its attribute, and then nothing is lost.
genkey_loses-Calm :
    (s0 : PyState) (r : Ref GenkeyResult) (s : PyState)
    → is_gpgme_error s ≡ true
    → Calm s0 (annotate_genkey r s)
    → Calm s0 (genkey_loses r (annotate_genkey r s))
unfolding genkey_loses annotate_genkey annotating
genkey_loses-Calm s0 null_ref s g c = c
genkey_loses-Calm s0 none_ref s g c = c
genkey_loses-Calm s0 (object r) s g c = ground (arith, c)

module _ {C : Type 0} (P : Platform) (E : Engine C) (self : ℕ) (h : AreEnumerations P)
    (s0 : PyState) where
  import_end-Kept :
      (err : ℕ) (r : Ref ImportResult) (w : World C)
      → Kept s0 w
      → After s0 (import_end P E self err r w)
  unfolding import_end
  import_end-Kept err r w c =
      let checked = check_error-Calm P s0 err w.py c in
      if_After s0 (check_error P err w.py).0 _ _
        (λ e. record { calm = import-Calm P h s0 r _ checked }) (λ e. record { calm = checked })

  import_run-Kept :
      (g : Handle) (w : World C)
      → occurred w.py ≡ false
      → Kept s0 w
      → After s0 (import_run P E self g w)
  unfolding import_run run_op
  import_run-Kept g w o c = import_end-Kept _ _ _ (
      import_result-Calm P h s0 _ _ (data_release-Kept P E self s0 g _ c)
        (ap occurred (data_release-py P E self g _) ∙ o))

  pub import_-Kept :
      (a : Option (Option ℕ)) (w : World C)
      → occurred w.py ≡ false
      → Kept s0 w
      → After s0 (import_ P E self a w)
  unfolding import_
  import_-Kept none w o c = record { calm = ground (arith, c) }
  import_-Kept (some f) w o c =
      let first = data_new-Signals P E self f w o in
      let c1 = data_new-Kept P E self s0 f w c in
      if_After s0 (data_new P E self f w).0 _ _ (λ e. record { calm = c1 })
        (λ e. import_run-Kept _ _ (first ∙ e) c1)

  import_keys_run-Kept :
      (ks : List ℕ) (w : World C)
      → occurred w.py ≡ false
      → Kept s0 w
      → After s0 (import_keys_run P E self ks w)
  unfolding import_keys_run run_op
  import_keys_run-Kept ks w o c = import_end-Kept _ _ _ (import_result-Calm P h s0 _ _ c o)

  pub import_keys-Kept :
      (a : Option SeqArg) (w : World C)
      → occurred w.py ≡ false
      → Kept s0 w
      → After s0 (import_keys P E self a w)
  unfolding import_keys
  import_keys-Kept none w o c = record { calm = ground (arith, c) }
  import_keys-Kept (some q) w o c =
      let (arr, w1) = key_array q w in
      let c1 = key_array-Kept P E self s0 q w c in
      let read = key_array-Signals q w o in
      Option_After s0 arr.keys _ _ (record { calm = release_array-Kept P E self s0 arr w1 c1 })
        (λ ks e. record {
          calm =
              release_array-Kept P E self s0 arr _
                (import_keys_run-Kept ks w1 (Signals-some arr.keys ks w1 read e) c1).calm;
        })

  none_unless-Kept : (err : ℕ) (w : World C) → Kept s0 w → After s0 (none_unless P E self err w)
  unfolding none_unless
  none_unless-Kept err w c = record { calm = check_error-Calm P s0 err w.py c }

  export_keys_out-Kept :
      (arr : KeyArray) (g : Handle) (r : Option (Unit {0}) × World C)
      → After s0 r
      → After s0 (export_keys_out P E self arr g r)
  unfolding export_keys_out
  export_keys_out-Kept arr g r c = record {
    calm = release_array-Kept P E self s0 arr _ (data_release-Kept P E self s0 g r.1 c.calm);
  }

  export_keys_data-Kept :
      (a : ExportKeysArgs) (arr : KeyArray) (ks : List ℕ) (w : World C)
      → Kept s0 w
      → After s0 (export_keys_data P E self a arr ks w)
  unfolding export_keys_data run_op
  export_keys_data-Kept a arr ks w c =
      let c1 = data_new-Kept P E self s0 a.keydata w c in
      export_keys_out-Kept arr _ _ (
        if_After s0 (data_new P E self a.keydata w).0 _ _ (λ e. record { calm = c1 })
          (λ e. none_unless-Kept _ _ c1))

  pub export_keys-Kept :
      (a : Option ExportKeysArgs) (w : World C) → Kept s0 w → After s0 (export_keys P E self a w)
  unfolding export_keys
  export_keys-Kept none w c = record { calm = ground (arith, c) }
  export_keys-Kept (some a) w c =
      let (arr, w1) = key_array a.keys w in
      let c1 = key_array-Kept P E self s0 a.keys w c in
      Option_After s0 arr.keys _ _ (export_keys_out-Kept arr none _ (record { calm = c1 }))
        (λ ks e. export_keys_data-Kept a arr ks w1 c1)

  genkey_run-Kept :
      (parms : Option Text) (f g : Handle) (w : World C)
      → occurred w.py ≡ false
      → Kept s0 w
      → After s0 (genkey_run P E self parms f g w)
  unfolding genkey_run run_op
  genkey_run-Kept parms f g w o c =
      let w1 : World C = (run_op E (Op.genkey parms f g) w).1 in
      let w2 : World C = data_release self f (data_release self g w1) in
      let err : ℕ = (run_op E (Op.genkey parms f g) w).0 in
      let same = data_release-py P E self f _ ∙ data_release-py P E self g _ in
      let c2 = data_release-Kept P E self s0 f _ (data_release-Kept P E self s0 g _ c) in
      let o2 : occurred w2.py ≡ false = ap occurred same ∙ o in
      let (result, s) = genkey_result P (E.genkey_result w2.lib) w2.py in
      let made = genkey_result-Calm P h s0 (E.genkey_result w2.lib) w2.py c2 in
      let no_exc = genkey_result-same P h s0 (E.genkey_result w2.lib) w2.py c2 o2 in
      let checked = check_error-Calm P s0 err s made in
      if_After s0 (check_error P err s).0 _ _
        (λ e. record {
          calm =
              genkey_loses-Calm s0 result _
                (check_error-is_gpgme_error P h s0 err s (quiet s0 s made no_exc) e)
                (genkey-Calm P h s0 result _ checked);
        })
        (λ e. record { calm = checked })

  pub genkey-Kept :
      (a : Option GenkeyArgs) (w : World C)
      → occurred w.py ≡ false
      → Kept s0 w
      → After s0 (genkey P E self a w)
  unfolding genkey
  genkey-Kept none w o c = record { calm = ground (arith, c) }
  genkey-Kept (some a) w o c =
      let w1 : World C = (data_new P E self a.pubkey w).2 in
      let first = data_new-Signals P E self a.pubkey w o in
      let c1 = data_new-Kept P E self s0 a.pubkey w c in
      let c2 = data_new-Kept P E self s0 a.seckey w1 c1 in
      if_After s0 (data_new P E self a.pubkey w).0 _ _ (λ e. record { calm = c1 })
        (λ e.
          if_After s0 (data_new P E self a.seckey w1).0 _ _
            (λ e'. record { calm = data_release-Kept P E self s0 _ _ c2 })
            (λ e'.
              genkey_run-Kept _ _ _ _ (data_new-Signals P E self a.seckey w1 (first ∙ e) ∙ e') c2))

  pub delete-Kept :
      (a : Option DeleteArgs) (w : World C) → Kept s0 w → After s0 (delete P E self a w)
  unfolding delete run_op
  delete-Kept none w c = record { calm = ground (arith, c) }
  delete-Kept (some a) w c = none_unless-Kept _ _ c

  pub edit_run-Kept :
      (op : ℕ → ℕ → Handle → Op) (a : EditArgs) (w : World C)
      → Kept s0 w
      → After s0 (edit_run P E self op a w)
  unfolding edit_run run_op
  edit_run-Kept op a w c =
      let c1 = data_new-Kept P E self s0 a.out w c in
      if_After s0 (data_new P E self a.out w).0 _ _ (λ e. record { calm = c1 })
        (λ e. none_unless-Kept _ _ (data_release-Kept P E self s0 _ _ c1))
