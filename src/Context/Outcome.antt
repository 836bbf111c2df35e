-- ===== src/Context/Outcome.antt =====
-- CPython's rule for a method: `NULL` with an exception pending, or an object with none.
pub mod Crypt
pub mod Encrypt
pub mod Built
pub mod Keyring
pub mod Rule
pub mod Hidden
pub mod Listing
use pygpgme.Base.{
  ℕ, ◌≡◌, refl, Bool, true, false, Option, none, some, List, arith, Bool-cases, inl, inr,
  if◌then◌else◌,
}
use pygpgme.Python.Value.{ImportResult, GenkeyResult, Attr, Ref, null_ref, none_ref, object}
use pygpgme.Python.State.{Platform, PyState, occurred, new_object}
use pygpgme.Errors.Convert.{check_error}
use pygpgme.Gpgme.Engine.{Engine, Handle}
use pygpgme.Context.World.{World}
use pygpgme.Context.Resources.{
  data_new, data_release, SeqArg, not_sequence, sequence, key_array, KeyArray, release_array,
}
use pygpgme.Context.Annotate.{
  annotating, decode_encrypt_result, annotate_sign, decode_decrypt_result, annotate_verify,
  annotate_import, annotate_genkey,
}
use pygpgme.Gpgme.Structs.{InvalidKeyRaw, SignResult, DecryptResult, SigRaw}

-- `NULL` exactly with an exception pending.
abbrev pub Signals : {C R : Type 0} → Option R × World C → Type 0
Signals (none, w) = occurred w.py ≡ true
Signals (some _, w) = occurred w.py ≡ false

abbrev pub SignalsRef : {C R : Type 0} → Ref R × World C → Type 0
SignalsRef (null_ref, w) = occurred w.py ≡ true
SignalsRef (none_ref, w) = occurred w.py ≡ false
SignalsRef (object _, w) = occurred w.py ≡ false

-- A test whose two branches keep the rule.
pub if_Signals :
    {C R : Type 0} (b : Bool) (x y : Option R × World C)
    → (b ≡ true → Signals x)
    → (b ≡ false → Signals y)
    → Signals (if b then x else y)
if_Signals true x y p q = p refl
if_Signals false x y p q = q refl

pub Option_Signals :
    {A C R : Type 0} (o : Option A) (x : Option R × World C) (y : A → Option R × World C)
    → (o ≡ none → Signals x)
    → ((a : A) → o ≡ some a → Signals (y a))
    → Signals {C = C} {R = R} (elim o [ none ↦ x | some a ↦ y a ])
Option_Signals none x y p q = p refl
Option_Signals (some a) x y p q = q a refl

pub Option_SignalsRef :
    {A C R : Type 0} (o : Option A) (x : Ref R × World C) (y : A → Ref R × World C)
    → (o ≡ none → SignalsRef x)
    → ((a : A) → o ≡ some a → SignalsRef (y a))
    → SignalsRef {C = C} {R = R} (elim o [ none ↦ x | some a ↦ y a ])
Option_SignalsRef none x y p q = p refl
Option_SignalsRef (some a) x y p q = q a refl

-- What the rule says of each result.
pub Signals-none :
    {C R : Type 0} (o : Option R) (w : World C) → Signals (o, w) → o ≡ none → occurred w.py ≡ true
Signals-none none w h e = h
Signals-none (some a) w h e = ground arith

pub Signals-some :
    {C R : Type 0} (o : Option R) (a : R) (w : World C)
    → Signals (o, w)
    → o ≡ some a
    → occurred w.py ≡ false
Signals-some none a w h e = ground arith
Signals-some (some b) a w h e = h

pub if_SignalsRef :
    {C R : Type 0} (b : Bool) (x y : Ref R × World C)
    → (b ≡ true → SignalsRef x)
    → (b ≡ false → SignalsRef y)
    → SignalsRef (if b then x else y)
if_SignalsRef true x y p q = p refl
if_SignalsRef false x y p q = q refl

pub check_error-Signals :
    (P : Platform) (err : ℕ) (s : PyState)
    → occurred s ≡ false
    → occurred (check_error P err s).1 ≡ (check_error P err s).0
unfolding check_error
check_error-Signals P err s h = ground arith

annotating-occurred :
    (build : PyState → List Attr × PyState) (s : PyState)
    → occurred s ≡ true
    → occurred (annotating build s) ≡ true
unfolding annotating
annotating-occurred build s h = ground arith

pub decode_encrypt_result-occurred :
    (P : Platform) (r : Option (List InvalidKeyRaw)) (s : PyState)
    → occurred s ≡ true
    → occurred (decode_encrypt_result P r s) ≡ true
unfolding decode_encrypt_result annotating
decode_encrypt_result-occurred P r s h = ground arith

pub annotate_sign-occurred :
    (P : Platform) (r : Option SignResult) (s : PyState)
    → occurred s ≡ true
    → occurred (annotate_sign P r s) ≡ true
unfolding annotate_sign annotating
annotate_sign-occurred P r s h = ground arith

pub decode_decrypt_result-occurred :
    (P : Platform) (r : Option DecryptResult) (s : PyState)
    → occurred s ≡ true
    → occurred (decode_decrypt_result P r s) ≡ true
unfolding decode_decrypt_result annotating
decode_decrypt_result-occurred P r s h = ground arith

pub annotate_verify-occurred :
    (P : Platform) (r : Option (List SigRaw)) (s : PyState)
    → occurred s ≡ true
    → occurred (annotate_verify P r s) ≡ true
unfolding annotate_verify annotating
annotate_verify-occurred P r s h = ground arith

pub annotate_import-occurred :
    (r : Ref ImportResult) (s : PyState) → occurred s ≡ true → occurred (annotate_import r s) ≡ true
unfolding annotate_import annotating
annotate_import-occurred r s h = ground arith

pub annotate_genkey-occurred :
    (r : Ref GenkeyResult) (s : PyState) → occurred s ≡ true → occurred (annotate_genkey r s) ≡ true
unfolding annotate_genkey annotating
annotate_genkey-occurred r s h = ground arith

module _ {C : Type 0} (P : Platform) (E : Engine C) (self : ℕ) where
  pub data_new-Signals :
      (f : Option ℕ) (w : World C)
      → occurred w.py ≡ false
      → let (bad, h, w') = data_new P E self f w in occurred w'.py ≡ bad
  unfolding data_new
  data_new-Signals none w h = h
  data_new-Signals (some fp) w h = elim (Bool-cases (new_object w.py).0) [
    | inl e ↦
        let made = check_error-Signals P (E.new_data w.lib).0 (new_object w.py).1 (ground arith) in
        elim (Bool-cases (check_error P (E.new_data w.lib).0 (new_object w.py).1).0) [
          | inl b ↦ rw (e, b) (rw b at made)
          | inr b ↦ rw (e, b) (rw b at made)
        ]
    | inr e ↦ rw e (ground arith)
  ]

  pub data_release-py : (h : Handle) (w : World C) → (data_release self h w).py ≡ w.py
  unfolding data_release
  data_release-py none w = refl
  data_release-py (some fp) w = refl

pub release_array-py : {C : Type 0} (a : KeyArray) (w : World C) → (release_array a w).py ≡ w.py
unfolding release_array
release_array-py a w = refl

pub key_array-Signals :
    {C : Type 0} (q : SeqArg) (w : World C)
    → occurred w.py ≡ false
    → let (a, w') = key_array q w in Signals (a.keys, w')
unfolding key_array
key_array-Signals not_sequence w h = ground arith
key_array-Signals (sequence o items) w h = ground arith
