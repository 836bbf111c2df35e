-- ===== src/Context/Calm.antt =====
-- lib/pygpgme-context.c: where memory lasts, no call loses an object or runs into undefined behaviour.
pub mod Steps
pub mod Encrypt
pub mod Crypt
pub mod Keyring
pub mod Calls
use mathlib.Core.Path.{subst}
use pygpgme.Base.{
  ap, ◌∙◌, sym, ℕ, ◌≡◌, refl, Bool, true, false, Option, none, some, List, [], ◌∷◌, ◌++◌, arith,
}
use pygpgme.Python.Value.{Attr, Ref, null_ref, none_ref, object, ImportResult, GenkeyResult}
use pygpgme.Python.State.{Platform, PyState, occurred, clear_error, new_object, or_none}
use pygpgme.Constants.Lookup.{enum_value_new}
use pygpgme.Errors.View.{AreEnumerations, IsQuiet, error_view, error_object-eq_view}
use pygpgme.Errors.Convert.{error_object, check_error}
use pygpgme.Gpgme.Structs.{InvalidKeyRaw, SignResult, DecryptResult, SigRaw, NewSigRaw, ImportRaw}
use pygpgme.Signature.Lists.{newsiglist_new, siglist_new}
use pygpgme.Signature.Views.{newsiglist_new-eq_map, siglist_new-eq_map}
use pygpgme.Gpgme.Engine.{Engine, Handle}
use pygpgme.Context.World.{World}
use pygpgme.Context.Resources.{data_new, data_release}
use pygpgme.Context.Annotate.{
  annotating, invalid_list, decode_encrypt_result, annotate_sign, decode_decrypt_result,
  annotate_verify, annotate_import, annotate_genkey,
}

-- Nothing undefined has happened and no object was lost since `s`, and allocations still succeed.
pub record Calm (s s' : PyState) : Type 0 where
  pub faultless : s'.fault ≡ s.fault
  pub lossless : s'.lost ≡ s.lost
  pub roomy : s'.mem ≡ []

pub check_error-Calm :
    (P : Platform) (s0 : PyState) (err : ℕ) (s : PyState)
    → Calm s0 s
    → Calm s0 (check_error P err s).1
unfolding check_error error_object enum_value_new
check_error-Calm P s0 err s c = ground arith

cleared-IsQuiet : (s0 s : PyState) → Calm s0 s → IsQuiet (clear_error s)
cleared-IsQuiet s0 s c = record { no_exc = refl; no_failure = c.roomy }

module _ (P : Platform) (h : AreEnumerations P) (s0 : PyState) where
  invalid_list-same :
      (done : List _) (l : List InvalidKeyRaw) (s : PyState)
      → IsQuiet s
      → (invalid_list P done l s).1 ≡ s
  unfolding invalid_list error_view
  invalid_list-same done [] s q = refl
  invalid_list-same done (key ∷ rest) s q = ground (
    arith,
    error_object-eq_view P key.reason s h q,
    invalid_list-same
        (done
          ++ (record { fpr = or_none P.decode_ascii key.fpr; reason = error_view P key.reason }
              ∷ []))
        rest s q,
  )

  recipients-Calm :
      (r : Option (List InvalidKeyRaw)) (s : PyState)
      → Calm s0 s
      → Calm s0 (decode_encrypt_result P r s)
  unfolding decode_encrypt_result annotating
  recipients-Calm none s c = ground (arith, c)
  recipients-Calm (some l) s c =
      (ground (arith, c, invalid_list-same [] l (clear_error s) (cleared-IsQuiet s0 s c)))

  signers-Calm : (r : Option SignResult) (s : PyState) → Calm s0 s → Calm s0 (annotate_sign P r s)
  unfolding annotate_sign annotating
  signers-Calm none s c = ground (arith, c)
  signers-Calm (some r) s c =
      let q = cleared-IsQuiet s0 s c in
      (ground (
        arith,
        c,
        invalid_list-same [] r.invalid_signers (clear_error s) q,
        newsiglist_new-eq_map P h (clear_error s) q r.signatures,
      ))

  decrypt-Calm :
      (r : Option DecryptResult) (s : PyState) → Calm s0 s → Calm s0 (decode_decrypt_result P r s)
  unfolding decode_decrypt_result annotating
  decrypt-Calm none s c = ground (arith, c)
  decrypt-Calm (some r) s c = ground (arith, c)

  verify-Calm :
      (r : Option (List SigRaw)) (s : PyState) → Calm s0 s → Calm s0 (annotate_verify P r s)
  unfolding annotate_verify annotating
  verify-Calm none s c = ground (arith, c)
  verify-Calm (some l) s c =
      (ground (arith, c, siglist_new-eq_map P h (clear_error s) (cleared-IsQuiet s0 s c) l))

  import-Calm : (r : Ref ImportResult) (s : PyState) → Calm s0 s → Calm s0 (annotate_import r s)
  unfolding annotate_import annotating
  import-Calm null_ref s c = ground (arith, c)
  import-Calm none_ref s c = ground (arith, c)
  import-Calm (object r) s c = ground (arith, c)

  genkey-Calm : (r : Ref GenkeyResult) (s : PyState) → Calm s0 s → Calm s0 (annotate_genkey r s)
  unfolding annotate_genkey annotating
  genkey-Calm null_ref s c = ground (arith, c)
  genkey-Calm none_ref s c = ground (arith, c)
  genkey-Calm (object r) s c = ground (arith, c)
