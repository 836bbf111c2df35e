-- ===== src/Keys/References.antt =====
-- lib/pygpgme-key.c: what the lists of a key's parts hold, and what they give back.
use pygpgme.Base.{
  ℕ, ◌+◌, ◌==◌, ◌≡◌, refl, ap, ◌∙◌, true, false, Option, none, some, List, [], ◌∷◌, ◌++◌, map,
  length, length-append, arith, Bool-cases, inl, inr, if◌then◌else◌,
}
use mathlib.Core.Path.{subst}
use mathlib.Core.List.{append-nil, append_assoc}
use pygpgme.Python.State.{PyState, new_object, occurred}
use pygpgme.Gpgme.Keys.{UserIdRaw, KeyRaw}
use pygpgme.Context.World.{World, same, incref}
use pygpgme.Keys.Parts.{
  Part, part_dealloc, list_dealloc, parts_from, parts_new, key_get_subkeys, key_get_uids,
  user_id_get_signatures,
}

-- One item for each C structure, in order.
abbrev pub items_of : {A : Type 0} → ℕ → List A → List (Part A)
items_of self raws = map (λ raw. record { raw = raw; parent = self }) raws

module _ {A : Type 0} (self : ℕ) where
  items_of-append :
      (done : List A) (raw : A)
      → items_of self done ++ (record { raw = raw; parent = self } ∷ [])
        ≡ items_of self (done ++ (raw ∷ []))
  items_of-append [] raw = refl
  items_of-append (d ∷ done) raw = rw (items_of-append done raw)

new_object_fits : (s : PyState) → (new_object s).0 ≡ true → (new_object s).1.exc ≡ s.exc
new_object_fits s h = ground arith

new_object_full : (s : PyState) → (new_object s).0 ≡ false → occurred (new_object s).1 ≡ true
new_object_full s h = ground arith

module _ {C : Type 0} {A : Type 0} (self x : ℕ) where
  -- A getter over the structures `raws` either gives one item for each of them in order, with one
  -- more reference on its object for each item, which releasing the list takes back, and the
  -- exception as it was; or it fails with an exception and the references as they were.
  abbrev pub GivesParts : List A → World C → Option (List (Part A)) × World C → Type 0
  GivesParts raws w (none, w') = (occurred w'.py ≡ true) × (w'.refs x ≡ w.refs x)
  GivesParts raws w (some items, w') =
      (items ≡ items_of self raws)
      × (w'.py.exc ≡ w.py.exc)
      × (w'.refs x ≡ w.refs x + (if x == self then length raws else 0))
      × ((list_dealloc items w').refs x ≡ w.refs x)

  list_dealloc_refs :
      (raws : List A) (w : World C) (n : ℕ)
      → w.refs x ≡ n + (if x == self then length raws else 0)
      → (list_dealloc (items_of self raws) w).refs x ≡ n
  unfolding list_dealloc same
  list_dealloc_refs [] w n h = ground arith
  list_dealloc_refs (raw ∷ rest) w n h =
      list_dealloc_refs rest (part_dealloc (record { raw = raw; parent = self }) w) n (ground arith)

  list_dealloc_py : (items : List (Part A)) (w : World C) → (list_dealloc items w).py ≡ w.py
  unfolding list_dealloc
  list_dealloc_py [] w = refl
  list_dealloc_py (p ∷ rest) w = list_dealloc_py rest (part_dealloc p w)

  parts_from-GivesParts :
      (done raws : List A) (w0 w : World C)
      → w.py.exc ≡ w0.py.exc
      → w.refs x ≡ w0.refs x + (if x == self then length done else 0)
      → GivesParts (done ++ raws) w0 (parts_from self (items_of self done) raws w)
  unfolding parts_from same
  parts_from-GivesParts done [] w0 w e h =
      let all : done ++ [] ≡ done = append-nil done in
      rw all (refl, e, h, list_dealloc_refs done w (w0.refs x) h)
  parts_from-GivesParts done (raw ∷ rest) w0 w e h =
      let w1 : World C = record w { py = (new_object w.py).1 } in
      let w2 : World C = record w1 { refs = incref self w1.refs } in
      elim (Bool-cases (new_object w.py).0) [
        | inl fits ↦
            let more =
              parts_from-GivesParts (done ++ (raw ∷ [])) rest w0 w2 (new_object_fits w.py fits ∙ e)
                (ground (arith, length-append done (raw ∷ []))) in
            rw fits (
              rw (items_of-append self done raw) (
                subst
                  (λ l.
                    GivesParts l w0 (parts_from self (items_of self (done ++ (raw ∷ []))) rest w2))
                  (append_assoc done (raw ∷ []) rest) more))
        | inr full ↦ rw full (
          ap occurred (list_dealloc_py (items_of self done) w1) ∙ new_object_full w.py full,
          list_dealloc_refs done w1 (w0.refs x) h,
        )
      ]

  parts_new-GivesParts : (raws : List A) (w : World C) → GivesParts raws w (parts_new self raws w)
  unfolding parts_new
  parts_new-GivesParts raws w =
      let w1 : World C = record w { py = (new_object w.py).1 } in
      elim (Bool-cases (new_object w.py).0) [
        | inl fits ↦
            rw fits (parts_from-GivesParts [] raws w w1 (new_object_fits w.py fits) (ground arith))
        | inr full ↦ rw full (new_object_full w.py full, refl)
      ]

-- Each of the getters of subkeys, user IDs and signatures, however its allocations end, gives one
-- item for each C structure in order, with one more reference on its object for each, which the
-- release of the list takes back, and with the pending exception as it was; or it fails with an
-- exception and leaves the references as they were.
pub getters-GivesParts :
    {C : Type 0} (self x : ℕ) (key : KeyRaw) (uid : UserIdRaw) (w : World C)
    → GivesParts self x key.subkeys w (key_get_subkeys self key w)
      × GivesParts self x key.uids w (key_get_uids self key w)
      × GivesParts self x uid.signatures w (user_id_get_signatures self uid w)
unfolding key_get_subkeys key_get_uids user_id_get_signatures
getters-GivesParts self x key uid w = (
  parts_new-GivesParts self x key.subkeys w,
  parts_new-GivesParts self x key.uids w,
  parts_new-GivesParts self x uid.signatures w,
)
