-- ===== src/Context/Keyring.antt =====
-- lib/pygpgme-context.c: the methods that read and change the key ring. As in Crypt, an argument
-- `none` is a failure of `PyArg_ParseTuple`, and a result `none` is `NULL`. `import` and
-- `import_keys` are in Import.
mod Import
unfoldable pub use Import.*
use pygpgme.Base.{ℕ, Bool, Option, none, some, List, if◌then◌else◌}
use pygpgme.Base.Int.{ℤ}
use pygpgme.Python.Value.{
  Text, type_error, another, Ref, null_ref, object, ImportResult, GenkeyResult,
}
use pygpgme.Python.State.{Platform, PyState, new_object, is_gpgme_error, lose}
use pygpgme.Errors.Convert.{check_error}
use pygpgme.Results.Build.{import_result, genkey_result}
use pygpgme.Gpgme.Engine.{Handle, Op, Engine}
use pygpgme.Context.World.{World, incref, decref, with_error, run_op}
use pygpgme.Context.Resources.{data_new, data_release, SeqArg, KeyArray, key_array, release_array}
use pygpgme.Context.Annotate.{annotate_import, annotate_genkey}
use pygpgme.Context.Patterns.{PatternArg, parse_key_patterns, free_key_patterns}

pub record GetKeyArgs : Type 0 where
  pub fpr : Text
  pub secret : ℤ

pub record ExportArgs : Type 0 where
  pub pattern : PatternArg
  pub keydata : Option ℕ
  pub export_mode : ℤ

pub record ExportKeysArgs : Type 0 where
  pub keys : SeqArg
  pub keydata : Option ℕ
  pub export_mode : ℤ

pub record GenkeyArgs : Type 0 where
  pub parms : Option Text
  pub pubkey : Option ℕ
  pub seckey : Option ℕ

pub record DeleteArgs : Type 0 where
  pub key : ℕ
  pub flags : ℕ

-- `strict` says that warnings are errors, so that `PyErr_WarnEx` sets an exception.
pub record EditArgs : Type 0 where
  pub key : ℕ
  pub callback : ℕ
  pub out : Option ℕ
  pub strict : Bool

pub record KeylistArgs : Type 0 where
  pub pattern : PatternArg
  pub secret_only : ℤ

-- The class of `DeprecationWarning`.
abbrev pub deprecation : ℕ
deprecation = 0

-- The way to the label `end` that an exception other than `GpgmeError` takes keeps the reference on
-- the result.
unfoldable pub genkey_loses : Ref GenkeyResult → PyState → PyState
genkey_loses (object r) s = if is_gpgme_error s then s else lose 1 s
genkey_loses _ s = s

module _ {C : Type 0} (P : Platform) (E : Engine C) (self : ℕ) where
  -- `pygpgme_key_new`: the wrapper of a key takes a reference on it.
  unfoldable pub key_new : ℕ → World C → Option ℕ × World C
  key_new key w =
      let (fits, s) = new_object w.py in
      if fits
      then (some key, record w { py = s; keys = incref key w.keys })
      else (none, record w { py = s })

  -- `pygpgme_key_new` of a key that gpgme has given, then `gpgme_key_unref`.
  unfoldable pub wrap_key : ℕ → World C → Option ℕ × World C
  unfolding key_new
  wrap_key key w =
      let (ret, w1) = key_new key (record w { keys = incref key w.keys }) in
      (ret, record w1 { keys = decref key w1.keys })

  -- `pygpgme_context_get_key`
  unfoldable pub get_key : Option GetKeyArgs → World C → Option ℕ × World C
  unfolding wrap_key
  get_key none w = (none, with_error type_error w)
  get_key (some a) w =
      let (err, w1) = run_op E (Op.get_key a.fpr a.secret) w in
      let (failed, s) = check_error P err w1.py in
      if failed
      then (none, record w1 { py = s })
      else wrap_key (E.found_key w1.lib) (record w1 { py = s })

  -- `Py_RETURN_NONE`, if gpgme reports no error.
  unfoldable pub none_unless : ℕ → World C → Option (Unit {0}) × World C
  none_unless err w =
      let (failed, s) = check_error P err w.py in
      (if failed then none else some tt, record w { py = s })

  unfoldable pub export_data :
      ExportArgs → Option (List Text) → World C → Option (Unit {0}) × World C
  export_data a ps w =
      let (bad, keydata, w1) = data_new P E self a.keydata w in
      let (err, w2) = run_op E (Op.export ps a.export_mode keydata) w1 in
      if bad
      then (none, free_key_patterns ps w1)
      else none_unless err (data_release self keydata (free_key_patterns ps w2))

  -- `pygpgme_context_export`
  unfoldable pub export : Option ExportArgs → World C → Option (Unit {0}) × World C
  unfolding export_data
  export none w = (none, with_error type_error w)
  export (some a) w =
      let (good, ps, w1) = parse_key_patterns P a.pattern w in
      if good then export_data a ps w1 else (none, w1)

  -- The label `out` of `export_keys`.
  unfoldable pub export_keys_out :
      KeyArray → Handle → Option (Unit {0}) × World C → Option (Unit {0}) × World C
  export_keys_out arr keydata (ret, w) = (ret, release_array arr (data_release self keydata w))

  unfoldable pub export_keys_data :
      ExportKeysArgs → KeyArray → List ℕ → World C → Option (Unit {0}) × World C
  export_keys_data a arr keys w =
      let (bad, keydata, w1) = data_new P E self a.keydata w in
      let (err, w2) = run_op E (Op.export_keys keys a.export_mode keydata) w1 in
      export_keys_out arr keydata (if bad then (none, w1) else none_unless err w2)

  -- `pygpgme_context_export_keys`
  unfoldable pub export_keys : Option ExportKeysArgs → World C → Option (Unit {0}) × World C
  unfolding export_keys_out export_keys_data
  export_keys none w = (none, with_error type_error w)
  export_keys (some a) w =
      let (arr, w1) = key_array a.keys w in
      elim arr.keys [
        | none ↦ export_keys_out arr none (none, w1)
        | some ks ↦ export_keys_data a arr ks w1
      ]

  unfoldable pub genkey_run : Option Text → Handle → Handle → World C → Ref GenkeyResult × World C
  genkey_run parms pubkey seckey w =
      let (err, w1) = run_op E (Op.genkey parms pubkey seckey) w in
      let w2 = data_release self pubkey (data_release self seckey w1) in
      let (result, s) = genkey_result P (E.genkey_result w2.lib) w2.py in
      let (failed, s1) = check_error P err s in
      if failed
      then (null_ref, record w2 { py = genkey_loses result (annotate_genkey result s1) })
      else (result, record w2 { py = s1 })

  -- `pygpgme_context_genkey`
  unfoldable pub genkey : Option GenkeyArgs → World C → Ref GenkeyResult × World C
  unfolding genkey_run genkey_loses
  genkey none w = (null_ref, with_error type_error w)
  genkey (some a) w =
      let (bad, pubkey, w1) = data_new P E self a.pubkey w in
      let (bad', seckey, w2) = data_new P E self a.seckey w1 in
      if bad
      then (null_ref, w1)
      else (if bad'
          then (null_ref, data_release self pubkey w2)
          else genkey_run a.parms pubkey seckey w2)

  -- `pygpgme_context_delete`
  unfoldable pub delete : Option DeleteArgs → World C → Option (Unit {0}) × World C
  unfolding none_unless
  delete none w = (none, with_error type_error w)
  delete (some a) w = let (err, w1) = run_op E (Op.delete a.key a.flags) w in none_unless err w1

  -- `PyErr_WarnEx`, whose result the source does not look at.
  unfoldable pub warn : Bool → World C → World C
  warn strict w = if strict then with_error (another deprecation) w else w

  unfoldable pub edit_run : (ℕ → ℕ → Handle → Op) → EditArgs → World C → Option (Unit {0}) × World C
  edit_run op a w =
      let (bad, out, w1) = data_new P E self a.out w in
      let (err, w2) = run_op E (op a.key a.callback out) w1 in
      if bad then (none, w1) else none_unless err (data_release self out w2)

  -- `pygpgme_context_edit`
  unfoldable pub edit : Option EditArgs → World C → Option (Unit {0}) × World C
  unfolding warn edit_run none_unless
  edit none w = (none, with_error type_error w)
  edit (some a) w = edit_run Op.edit a (warn a.strict w)

  -- `pygpgme_context_card_edit`
  unfoldable pub card_edit : Option EditArgs → World C → Option (Unit {0}) × World C
  unfolding warn edit_run none_unless
  card_edit none w = (none, with_error type_error w)
  card_edit (some a) w = edit_run Op.card_edit a (warn a.strict w)

  -- The new iterator holds a reference on the context.
  unfoldable pub keyiter_new : World C → Option ℕ × World C
  keyiter_new w =
      let (fits, s) = new_object w.py in
      if fits
      then (some self, record w { py = s; refs = incref self w.refs })
      else (none, record w { py = s })

  unfoldable pub keylist_run : ℤ → Option (List Text) → World C → Option ℕ × World C
  keylist_run secret_only ps w =
      let (err, w1) = run_op E (Op.keylist_start ps secret_only) w in
      let w2 = free_key_patterns ps w1 in
      let (failed, s) = check_error P err w2.py in
      if failed then (none, record w2 { py = s }) else keyiter_new (record w2 { py = s })

  -- `pygpgme_context_keylist`; a `KeyIter` is the number of its context.
  unfoldable pub keylist : Option KeylistArgs → World C → Option ℕ × World C
  unfolding keyiter_new keylist_run
  keylist none w = (none, with_error type_error w)
  keylist (some a) w =
      let (good, ps, w1) = parse_key_patterns P a.pattern w in
      if good then keylist_run a.secret_only ps w1 else (none, w1)
