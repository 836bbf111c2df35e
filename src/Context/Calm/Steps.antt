-- ===== src/Context/Calm/Steps.antt =====
-- The parts that the methods share.
use pygpgme.Base.{ℕ, ◌≡◌, refl, Bool, true, false, Option, none, some, List, if◌then◌else◌, arith}
use pygpgme.Python.State.{Platform, PyState, occurred, is_gpgme_error}
use pygpgme.Errors.View.{AreEnumerations, IsQuiet, error_view, error_object-eq_view}
use pygpgme.Errors.Convert.{check_error}
use pygpgme.Gpgme.Structs.{SignResult, SigRaw, ImportRaw, GenkeyRaw}
use pygpgme.Signature.Views.{newsiglist_new-eq_map, siglist_new-eq_map}
use pygpgme.Results.Build.{import_result, genkey_result}
use pygpgme.Results.Views.{import_result-eq_view}
use pygpgme.Gpgme.Engine.{Engine, Handle}
use pygpgme.Context.World.{World}
use pygpgme.Context.Resources.{
  data_new, data_release, SeqArg, not_sequence, sequence, key_array, KeyArray, release_array,
}
use pygpgme.Context.Crypt.{signatures, new_signatures}
use pygpgme.Context.Calm.{Calm, check_error-Calm}

abbrev pub Kept : {C : Type 0} → PyState → World C → Type 0
Kept s0 w = Calm s0 w.py

-- The same of a call's result.
pub record After {C R : Type 0} (s0 : PyState) (r : R × World C) : Type 0 where
  pub calm : Kept s0 r.1

pub if_After :
    {C R : Type 0} (s0 : PyState) (b : Bool) (x y : R × World C)
    → (b ≡ true → After s0 x)
    → (b ≡ false → After s0 y)
    → After s0 (if b then x else y)
if_After s0 true x y p q = p refl
if_After s0 false x y p q = q refl

pub Option_After :
    {A C R : Type 0} (s0 : PyState) (o : Option A) (x : R × World C) (y : A → R × World C)
    → After s0 x
    → ((a : A) → o ≡ some a → After s0 (y a))
    → After {C = C} {R = R} s0 (elim o [ none ↦ x | some a ↦ y a ])
Option_After s0 none x y p q = p
Option_After s0 (some a) x y p q = q a refl

pub quiet : (s0 s : PyState) → Calm s0 s → occurred s ≡ false → IsQuiet s
quiet s0 s c o = record { no_exc = ground arith; no_failure = c.roomy }

module _ (P : Platform) (h : AreEnumerations P) (s0 : PyState) where
  pub signatures-Calm :
      (r : Option (List SigRaw)) (s : PyState)
      → Calm s0 s
      → occurred s ≡ false
      → Calm s0 (signatures P r s).1
  unfolding signatures
  signatures-Calm none s c o = c
  signatures-Calm (some l) s c o = rw (siglist_new-eq_map P h s (quiet s0 s c o) l) c

  pub new_signatures-Calm :
      (r : Option SignResult) (s : PyState)
      → Calm s0 s
      → occurred s ≡ false
      → Calm s0 (new_signatures P r s).1
  unfolding new_signatures
  new_signatures-Calm none s c o = c
  new_signatures-Calm (some r) s c o =
      rw (newsiglist_new-eq_map P h s (quiet s0 s c o) r.signatures) c

  pub import_result-Calm :
      (r : Option ImportRaw) (s : PyState)
      → Calm s0 s
      → occurred s ≡ false
      → Calm s0 (import_result P r s).1
  unfolding import_result
  import_result-Calm none s c o = c
  import_result-Calm (some r) s c o = rw (import_result-eq_view P h s (quiet s0 s c o) r) c

  pub genkey_result-Calm :
      (r : Option GenkeyRaw) (s : PyState) → Calm s0 s → Calm s0 (genkey_result P r s).1
  unfolding genkey_result
  genkey_result-Calm none s c = c
  genkey_result-Calm (some r) s c = ground (arith, c)

  pub genkey_result-same :
      (r : Option GenkeyRaw) (s : PyState)
      → Calm s0 s
      → occurred s ≡ false
      → occurred (genkey_result P r s).1 ≡ false
  unfolding genkey_result
  genkey_result-same none s c o = o
  genkey_result-same (some r) s c o = ground (arith, c)

  -- The exception for gpgme's error is a `GpgmeError`.
  pub check_error-is_gpgme_error :
      (err : ℕ) (s : PyState)
      → IsQuiet s
      → (check_error P err s).0 ≡ true
      → is_gpgme_error (check_error P err s).1 ≡ true
  unfolding check_error error_view
  check_error-is_gpgme_error err s q e = ground (arith, error_object-eq_view P err s h q)

module _ {C : Type 0} (P : Platform) (E : Engine C) (self : ℕ) (s0 : PyState) where
  pub data_new-Kept : (f : Option ℕ) (w : World C) → Kept s0 w → Kept s0 (data_new P E self f w).2
  unfolding data_new
  data_new-Kept none w c = c
  data_new-Kept (some fp) w c = ground (arith, check_error-Calm P s0 (E.new_data w.lib).0 w.py c)

  pub data_release-Kept : (g : Handle) (w : World C) → Kept s0 w → Kept s0 (data_release self g w)
  unfolding data_release
  data_release-Kept none w c = c
  data_release-Kept (some fp) w c = c

  pub release_array-Kept : (a : KeyArray) (w : World C) → Kept s0 w → Kept s0 (release_array a w)
  unfolding release_array
  release_array-Kept a w c = c

  pub key_array-Kept : (q : SeqArg) (w : World C) → Kept s0 w → Kept s0 (key_array q w).1
  unfolding key_array
  key_array-Kept not_sequence w c = ground (arith, c)
  key_array-Kept (sequence o items) w c = ground (arith, c)
