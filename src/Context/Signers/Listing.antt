-- ===== src/Context/Signers/Listing.antt =====
-- The loop over gpgme's signers ends, and shows the keys that were set.
use mathlib.Core.Path.{subst}
use mathlib.Core.List.{append-nil, append_assoc}
use pygpgme.Base.{
  ℕ, zero, suc, ◌+◌, ◌<◌, ◌≡◌, refl, ap, sym, ◌∙◌, true, false, Option, none, some, List, [], ◌∷◌,
  ◌++◌, length, arith, inl, inr, Bool-cases, length-append,
}
use pygpgme.Python.State.{Platform, occurred, new_object}
use pygpgme.Gpgme.Engine.{Engine}
use pygpgme.Context.World.{World, same, decref}
use pygpgme.Context.Keyring.{wrap_key}
use pygpgme.Context.Signers.{SignerStore, keys_dealloc, signer_item, signer_next, signers_from}

-- The key at an index of a list.
abbrev pub get_elem? : List ℕ → ℕ → Option ℕ
get_elem? [] i = none
get_elem? (k ∷ ks) zero = some k
get_elem? (k ∷ ks) (suc i) = get_elem? ks i

-- How often a list has the key `x`.
unfoldable pub count : ℕ → List ℕ → ℕ
count x [] = 0
count x (k ∷ ks) = same k x + count x ks

-- gpgme enumerates the keys that were added since it was cleared, in order.
pub record IsSignerStore {C : Type 0} (G : SignerStore C) (signers : C → List ℕ) : Type 0 where
  pub cleared : (c : C) → signers (G.clear c) ≡ []
  pub added : (c : C) (k : ℕ) → signers (G.add c k) ≡ signers c ++ (k ∷ [])
  pub listed : (c : C) (i : ℕ) → G.enum c i ≡ get_elem? (signers c) i

-- How `get_signers` ends: with the tuple of the keys, whose wrappers each hold a reference on their
-- key; or with an exception and the references as they were.
abbrev pub GivesSigners :
    {C : Type 0} → ℕ → List ℕ → World C → Option (Option (List ℕ) × World C) → Type 0
GivesSigners x keys w none = ⊥
GivesSigners x keys w (some (none, w')) = (occurred w'.py ≡ true) × (w'.keys x ≡ w.keys x)
GivesSigners x keys w (some (some l, w')) =
    (l ≡ keys) × (w'.py.exc ≡ w.py.exc) × (w'.keys x ≡ w.keys x + count x keys)

get_elem?-append :
    (done rest : List ℕ) (k : ℕ) → get_elem? (done ++ (k ∷ rest)) (length done) ≡ some k
get_elem?-append [] rest k = refl
get_elem?-append (d ∷ done) rest k = get_elem?-append done rest k

get_elem?-length : (done : List ℕ) → get_elem? done (length done) ≡ none
get_elem?-length [] = refl
get_elem?-length (d ∷ done) = get_elem?-length done

count-append : (x : ℕ) (a b : List ℕ) → count x (a ++ b) ≡ count x a + count x b
unfolding count
count-append x [] b = omega arith
count-append x (k ∷ a) b = omega (arith, count-append x a b)

module _ {C : Type 0} (P : Platform) (E : Engine C) (self : ℕ) (G : SignerStore C) (x : ℕ) where
  keys_dealloc_keys :
      (l : List ℕ) (w : World C) (n : ℕ)
      → w.keys x ≡ n + count x l
      → ((keys_dealloc P E self G l w).keys x ≡ n) × ((keys_dealloc P E self G l w).py ≡ w.py)
  unfolding keys_dealloc count
  keys_dealloc_keys [] w n h = (omega arith, refl)
  keys_dealloc_keys (k ∷ l) w n h =
      keys_dealloc_keys l (record w { keys = decref k w.keys }) n (omega arith)

  -- What a wrapper takes.
  wrap_key_fits :
      (key : ℕ) (w : World C)
      → (new_object w.py).0 ≡ true
      → ((wrap_key P E self key w).0 ≡ some key)
        × ((wrap_key P E self key w).1.py.exc ≡ w.py.exc)
        × ((wrap_key P E self key w).1.lib ≡ w.lib)
        × ((wrap_key P E self key w).1.keys x ≡ w.keys x + same key x)
  unfolding wrap_key
  wrap_key_fits key w f = ground arith

  wrap_key_full :
      (key : ℕ) (w : World C)
      → (new_object w.py).0 ≡ false
      → ((wrap_key P E self key w).0 ≡ none)
        × (occurred (wrap_key P E self key w).1.py ≡ true)
        × ((wrap_key P E self key w).1.keys x ≡ w.keys x)
  unfolding wrap_key
  wrap_key_full key w f = ground arith

  taken :
      (done : List ℕ) (k : ℕ) (w0 w w1 : World C)
      → w.keys x ≡ w0.keys x + count x done
      → w1.keys x ≡ w.keys x + same k x
      → w1.keys x ≡ w0.keys x + count x (done ++ (k ∷ []))
  unfolding count
  taken done k w0 w w1 h f = omega (arith, count-append x done (k ∷ []))

  signers_end :
      (fuel i : ℕ) (done : List ℕ) (w : World C)
      → G.enum w.lib i ≡ none
      → signers_from P E self G (suc fuel) i done w ≡ some (some done, w)
  unfolding signers_from
  signers_end fuel i done w at =
      ap (λ o. signer_next P E self G (signers_from P E self G fuel (suc i)) done o w) at

  signers_full :
      (fuel i : ℕ) (done : List ℕ) (w : World C) (k : ℕ)
      → G.enum w.lib i ≡ some k
      → (wrap_key P E self k w).0 ≡ none
      → signers_from P E self G (suc fuel) i done w
        ≡ some (none, keys_dealloc P E self G done (wrap_key P E self k w).1)
  unfolding signers_from
  signers_full fuel i done w k at n =
      ap (λ o. signer_next P E self G (signers_from P E self G fuel (suc i)) done o w) at
      ∙ ap
          (λ o.
            signer_item P E self G (signers_from P E self G fuel (suc i)) done
              (o, (wrap_key P E self k w).1))
          n

  signers_more :
      (fuel i : ℕ) (done : List ℕ) (w : World C) (k : ℕ)
      → G.enum w.lib i ≡ some k
      → (wrap_key P E self k w).0 ≡ some k
      → signers_from P E self G (suc fuel) i done w
        ≡ signers_from P E self G fuel (suc i) (done ++ (k ∷ [])) (wrap_key P E self k w).1
  unfolding signers_from
  signers_more fuel i done w k at n =
      ap (λ o. signer_next P E self G (signers_from P E self G fuel (suc i)) done o w) at
      ∙ ap
          (λ o.
            signer_item P E self G (signers_from P E self G fuel (suc i)) done
              (o, (wrap_key P E self k w).1))
          n

  module _ (signers : C → List ℕ) (g : IsSignerStore G signers) where
    pub signers_from-GivesSigners :
        (done rest : List ℕ) (w0 w : World C) (fuel : ℕ)
        → signers w.lib ≡ done ++ rest
        → length rest < fuel
        → w.py.exc ≡ w0.py.exc
        → w.keys x ≡ w0.keys x + count x done
        → GivesSigners x (done ++ rest) w0 (signers_from P E self G fuel (length done) done w)
    signers_from-GivesSigners done rest w0 w zero e l q h = elim l [ ]
    signers_from-GivesSigners done [] w0 w (suc fuel) e l q h =
        let all = append-nil done in
        let at : G.enum w.lib (length done) ≡ none =
          g.listed w.lib (length done)
          ∙ (ap (λ ks. get_elem? ks (length done)) (e ∙ all) ∙ get_elem?-length done) in
        subst (GivesSigners x (done ++ []) w0) (sym (signers_end fuel (length done) done w at))
          (sym all, q, h ∙ ap (λ l. w0.keys x + count x l) (sym all))
    signers_from-GivesSigners done (k ∷ rest) w0 w (suc fuel) e l q h =
        let at : G.enum w.lib (length done) ≡ some k =
          g.listed w.lib (length done)
          ∙ (ap (λ ks. get_elem? ks (length done)) e ∙ get_elem?-append done rest k) in
        let w1 = (wrap_key P E self k w).1 in
        let index : length (done ++ (k ∷ [])) ≡ suc (length done) =
          omega (arith, length-append done (k ∷ [])) in
        elim (Bool-cases (new_object w.py).0) [
          | inl fits ↦
              let f = wrap_key_fits k w fits in
              let more =
                signers_from-GivesSigners (done ++ (k ∷ [])) rest w0 w1 fuel
                  (ap signers f.2 ∙ (e ∙ sym (append_assoc done (k ∷ []) rest))) (omega arith)
                  (f.1 ∙ q) (taken done k w0 w w1 h f.3) in
              subst (GivesSigners x (done ++ (k ∷ rest)) w0)
                (sym (signers_more fuel (length done) done w k at f.0))
                (subst
                  (λ l.
                    GivesSigners x l w0
                      (signers_from P E self G fuel (suc (length done)) (done ++ (k ∷ [])) w1))
                  (append_assoc done (k ∷ []) rest)
                  (subst
                    (λ i.
                      GivesSigners x ((done ++ (k ∷ [])) ++ rest) w0
                        (signers_from P E self G fuel i (done ++ (k ∷ [])) w1))
                    index more))
          | inr full ↦
              let f = wrap_key_full k w full in
              let d = keys_dealloc_keys done w1 (w0.keys x) (f.2 ∙ h) in
              subst (GivesSigners x (done ++ (k ∷ rest)) w0)
                (sym (signers_full fuel (length done) done w k at f.0)) (ap occurred d.1 ∙ f.1, d.0)
        ]
