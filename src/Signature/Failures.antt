-- ===== src/Signature/Failures.antt =====
-- A list that is not built leaves an exception, and a list that is built leaves none and misses no
-- signature, whatever the memory and the platform do.
use pygpgme.Base.{
  ℕ, ◌+◌, ◌≡◌, ◌≢◌, true, false, Option, none, some, List, [], ◌∷◌, ◌++◌, arith, inl, inr, length,
  length-append, Bool-cases,
}
use native.Mathlib.Nat.{zero-add}
use pygpgme.Base.Int.{pos}
use pygpgme.Python.Value.{NewSignature, Signature, EnumName, null, value_error}
use pygpgme.Python.State.{Platform, PyState, new_object, occurred, found, raises}
use pygpgme.Gpgme.Structs.{NewSigRaw, SigRaw}
use pygpgme.Signature.Lists.{
  newsiglist_from, newsiglist_new, new_signature, signature, siglist_from, siglist_new,
}

-- How a call ends that builds `n` items: with an exception and no list, or with a list of `n`
-- items and no exception.
abbrev pub Ends : {A : Type 0} → ℕ → Option (List A) × PyState → Type 0
Ends n (none, s) = occurred s ≡ true
Ends n (some items, s) = (length items ≡ n) × (occurred s ≡ false)

newsiglist_from-Ends :
    (P : Platform) (done : List NewSignature) (l : List NewSigRaw) (s : PyState)
    → occurred s ≡ false
    → Ends (length done + length l) (newsiglist_from P done l s)
unfolding newsiglist_from
newsiglist_from-Ends P done [] s h = ground arith
newsiglist_from-Ends P done (sig ∷ rest) s h =
    let s1 = (new_object s).1 in
    let (item, s2) = new_signature P sig s1 in
    elim (Bool-cases (occurred s2)) [
      | inl bad ↦ ground arith
      | inr good ↦ ground (
        arith,
        newsiglist_from-Ends P (done ++ (item ∷ [])) rest s2 good,
        length-append done (item ∷ []),
      )
    ]

siglist_from-Ends :
    (P : Platform) (done : List Signature) (l : List SigRaw) (s : PyState)
    → occurred s ≡ false
    → Ends (length done + length l) (siglist_from P done l s)
unfolding siglist_from
siglist_from-Ends P done [] s h = ground arith
siglist_from-Ends P done (sig ∷ rest) s h =
    let s1 = (new_object s).1 in
    let (item, s2) = signature P sig s1 in
    elim (Bool-cases (occurred s2)) [
      | inl bad ↦ ground arith
      | inr good ↦ ground (
        arith,
        siglist_from-Ends P (done ++ (item ∷ [])) rest s2 good,
        length-append done (item ∷ []),
      )
    ]

-- From a state with no exception pending, the lists of new and of verified signatures end with NULL
-- and an exception pending, or with one object for each C structure and no exception pending.
pub siglists-Ends :
    (P : Platform) (new : List NewSigRaw) (old : List SigRaw) (s : PyState)
    → occurred s ≡ false
    → Ends (length new) (newsiglist_new P new s) × Ends (length old) (siglist_new P old s)
unfolding newsiglist_new siglist_new
siglists-Ends P new old s h = (
  rw (zero-add (length new)) at (newsiglist_from-Ends P [] new s h),
  rw (zero-add (length old)) at (siglist_from-Ends P [] old s h),
)

-- The one check at the end of each round can miss a failure: where the exception of a bad signature
-- cannot be allocated and the hash algorithm is unknown to Python, clearing the `ValueError` clears
-- the `MemoryError` too. The signature is then listed with a `NULL` status, which Python reads as
-- `None`, as for a good one.
pub siglist_new_masks :
    (P : Platform) (sig : SigRaw) (s : PyState)
    → s.exc ≡ none
    → s.mem ≡ true ∷ false ∷ []
    → sig.status ≢ 0
    → sig.validity_reason ≡ 0
    → sig.notations ≡ []
    → P.enum_call EnumName.err_source (pos (P.err_source sig.status)) ≡ found
    → P.enum_call EnumName.err_code (pos (P.err_code sig.status)) ≡ found
    → P.enum_call EnumName.sigsum (pos sig.summary) ≡ found
    → P.enum_call EnumName.validity (pos sig.validity) ≡ found
    → P.enum_call EnumName.pubkey_algo (pos sig.pubkey_algo) ≡ found
    → P.enum_call EnumName.hash_algo (pos sig.hash_algo) ≡ raises value_error
    → (item : Signature) × ((siglist_new P (sig ∷ []) s).0 ≡ some (item ∷ []))
      × (item.status ≡ null)
      × (occurred (siglist_new P (sig ∷ []) s).1 ≡ false)
unfolding siglist_new
siglist_new_masks P sig s e m ne v n a b c d f g =
    ((signature P sig (new_object s).1).0, ground arith, ground arith, ground arith)
