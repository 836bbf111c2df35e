-- ===== src/Context/Keyring/Import.antt =====
-- lib/pygpgme-context.c: `import` and `import_keys`.
use pygpgme.Base.{ℕ, Option, none, some, List, if◌then◌else◌}
use pygpgme.Python.Value.{type_error, Ref, null_ref, ImportResult}
use pygpgme.Python.State.{Platform}
use pygpgme.Errors.Convert.{check_error}
use pygpgme.Results.Build.{import_result}
use pygpgme.Gpgme.Engine.{Handle, Op, Engine}
use pygpgme.Context.World.{World, with_error, run_op}
use pygpgme.Context.Resources.{data_new, data_release, SeqArg, key_array, release_array}
use pygpgme.Context.Annotate.{annotate_import}

module _ {C : Type 0} (P : Platform) (E : Engine C) (self : ℕ) where
  -- The result of an import, or `NULL` with the result as an attribute of the exception.
  unfoldable pub import_end : ℕ → Ref ImportResult → World C → Ref ImportResult × World C
  import_end err result w =
      let (failed, s) = check_error P err w.py in
      if failed
      then (null_ref, record w { py = annotate_import result s })
      else (result, record w { py = s })

  unfoldable pub import_run : Handle → World C → Ref ImportResult × World C
  import_run keydata w =
      let (err, w1) = run_op E (Op.import_data keydata) w in
      let w2 = data_release self keydata w1 in
      let (result, s) = import_result P (E.import_result w2.lib) w2.py in
      import_end err result (record w2 { py = s })

  -- `pygpgme_context_import`
  unfoldable pub import_ : Option (Option ℕ) → World C → Ref ImportResult × World C
  unfolding import_run import_end
  import_ none w = (null_ref, with_error type_error w)
  import_ (some f) w =
      let (bad, keydata, w1) = data_new P E self f w in
      if bad then (null_ref, w1) else import_run keydata w1

  unfoldable pub import_keys_run : List ℕ → World C → Ref ImportResult × World C
  import_keys_run keys w =
      let (err, w1) = run_op E (Op.import_keys keys) w in
      let (result, s) = import_result P (E.import_result w1.lib) w1.py in
      import_end err result (record w1 { py = s })

  -- `pygpgme_context_import_keys`
  unfoldable pub import_keys : Option SeqArg → World C → Ref ImportResult × World C
  unfolding import_keys_run import_end
  import_keys none w = (null_ref, with_error type_error w)
  import_keys (some q) w =
      let (arr, w1) = key_array q w in
      elim arr.keys [
        | none ↦ (null_ref, release_array arr w1)
        | some ks ↦ let (result, w2) = import_keys_run ks w1 in (result, release_array arr w2)
      ]
