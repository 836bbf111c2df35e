-- ===== src/Context/Outcome/Built.antt =====
-- The results of an import and of a key generation are built, or an exception is pending.
use pygpgme.Base.{ℕ, ◌≡◌, ◌≢◌, refl, true, false, Option, none, some, List, [], ◌∷◌, ◌++◌, arith}
use pygpgme.Base.Int.{ℤ, pos}
use pygpgme.Python.Value.{
  Value, ErrRef, null, py_none, instance_of, EnumName, Ref, null_ref, none_ref, object, ImportItem,
}
use pygpgme.Python.State.{Platform, PyState, or_none, occurred, new_object}
use pygpgme.Constants.Lookup.{enum_value_new}
use pygpgme.Errors.Convert.{error_object}
use pygpgme.Gpgme.Structs.{ImportRaw, ImportStatusRaw, GenkeyRaw}
use pygpgme.Results.Build.{import_item, build_failed, import_result, imports_from, genkey_result}

-- An object made of a result structure.
abbrev pub SignalsObject : {R : Type 0} → Ref R × PyState → Type 0
SignalsObject (null_ref, s) = occurred s ≡ true
SignalsObject (none_ref, s) = occurred s ≡ false
SignalsObject (object _, s) = occurred s ≡ false

abbrev SignalsItems : {R : Type 0} → Option R × PyState → Type 0
SignalsItems (none, s) = occurred s ≡ true
SignalsItems (some _, s) = occurred s ≡ false

Items_signals :
    {A R : Type 0} (o : Option A) (x : Option R × PyState) (y : A → Option R × PyState)
    → (o ≡ none → SignalsItems x)
    → ((a : A) → o ≡ some a → SignalsItems (y a))
    → SignalsItems {R = R} (elim o [ none ↦ x | some a ↦ y a ])
Items_signals none x y p q = p refl
Items_signals (some a) x y p q = q a refl

error_object-Signals :
    (P : Platform) (err : ℕ) (s : PyState)
    → occurred s ≡ false
    → (error_object P err s).0 ≢ null
    → occurred (error_object P err s).1 ≡ false
unfolding error_object enum_value_new
error_object-Signals P err s h ne = ground arith

enum_value_new-Signals :
    (P : Platform) (t : EnumName) (v : ℤ) (s : PyState) (x : Value)
    → occurred s ≡ false
    → (enum_value_new P t v s).0 ≡ some x
    → occurred (enum_value_new P t v s).1 ≡ false
unfolding enum_value_new
enum_value_new-Signals P t v s x h e = ground arith

-- What a tuple is made of.
import_item-parts :
    (fpr : Value) (r : ErrRef) (o : Option Value) (x : ImportItem)
    → import_item fpr r o ≡ some x
    → (r ≢ null) × ((v : Value) × (o ≡ some v))
unfolding import_item
import_item-parts fpr null o x e = absurd (ground arith)
import_item-parts fpr py_none none x e = absurd (ground arith)
import_item-parts fpr py_none (some v) x e = (ground arith, (v, refl))
import_item-parts fpr (instance_of a) none x e = absurd (ground arith)
import_item-parts fpr (instance_of a) (some v) x e = (ground arith, (v, refl))

build_failed-Signals : (s : PyState) → occurred (build_failed s) ≡ true
unfolding build_failed
build_failed-Signals s = ground arith

imports_from-Signals :
    (P : Platform) (done : List ImportItem) (l : List ImportStatusRaw) (s : PyState)
    → occurred s ≡ false
    → SignalsItems (imports_from P done l s)
unfolding imports_from
imports_from-Signals P done [] s h = h
imports_from-Signals P done (r ∷ rest) s h =
    let (result, s1) = error_object P r.result s in
    let (flags, s2) = enum_value_new P EnumName.import_status (pos r.status) s1 in
    Items_signals (import_item (or_none P.decode_ascii r.fpr) result flags) (none, build_failed s2)
      (λ item. imports_from P (done ++ (item ∷ [])) rest s2) (λ e. build_failed-Signals s2)
      (λ x e.
        let (ok, (v, made)) = import_item-parts _ result flags x e in
        imports_from-Signals P (done ++ (x ∷ [])) rest s2
          (enum_value_new-Signals P _ _ s1 v (error_object-Signals P r.result s h ok) made))

pub import_result-Signals :
    (P : Platform) (r : Option ImportRaw) (s : PyState)
    → occurred s ≡ false
    → SignalsObject (import_result P r s)
unfolding import_result
import_result-Signals P none s h = h
import_result-Signals P (some r) s h =
    ground (arith, imports_from-Signals P [] r.imports (new_object (new_object s).1).1)

pub genkey_result-Signals :
    (P : Platform) (r : Option GenkeyRaw) (s : PyState)
    → occurred s ≡ false
    → SignalsObject (genkey_result P r s)
unfolding genkey_result
genkey_result-Signals P none s h = h
genkey_result-Signals P (some r) s h = ground arith
