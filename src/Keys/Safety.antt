-- ===== src/Keys/Safety.antt =====
-- lib/pygpgme-key.c: a gpgme key is there while a program holds any object of it, and is given back
-- once it holds none.
use pygpgme.Base.{
  ℕ, zero, suc, ◌≤◌, ◌<◌, ◌≡◌, ◌≢◌, refl, ap, sym, ◌∙◌, Option, none, some, arith, Option-cases,
  inl, inr,
}
use native.Mathlib.Decide.{dec_lt}
use pygpgme.Keys.Heap.{Body, wraps, part_of, Heap, Reach}
use pygpgme.Keys.Counting.{points, wrapping, total, le-total}
use pygpgme.Keys.Lifetime.{IsSound, same_self, some-ne-none}
use pygpgme.Keys.Steps.{points_at, below, held_there, Reach-IsSound}

-- The gpgme key that an object stands for: its own, or that of its parent.
pub data KeyOf (h : Heap) : ℕ → ℕ → Type 0 where
  own_key : {o k : ℕ} → h.body o ≡ some (wraps k) → KeyOf h o k
  parent_key : {o p k : ℕ} → h.body o ≡ some (part_of p) → KeyOf h p k → KeyOf h o k

-- An object that is there leads to a gpgme key that has a reference besides those of others.
chain_to_key :
    (outside : ℕ → ℕ) (h : Heap) (held : ℕ → ℕ)
    → IsSound outside h held
    → (fuel o : ℕ) → o < fuel
    → h.body o ≢ none
    → (k : ℕ) × KeyOf h o k × (outside k < h.keys k)
unfolding points wrapping
chain_to_key outside h held v zero o l b = elim l [ ]
chain_to_key outside h held v (suc fuel) o l b = elim (Option-cases (h.body o)) [
  | inl e ↦ absurd (b e)
  | inr (wraps k, e) ↦
      let one = le-total (wrapping k) h.body o h.next (below outside o h held v b) in
      (k, own_key e, omega (arith, one, ap (wrapping k) e, same_self k, v.kept k))
  | inr (part_of p, e) ↦
      let one = le-total (points p) h.body o h.next (below outside o h held v b) in
      let parent = v.there p (omega (arith, one, ap (points p) e, same_self p, v.counted p)) in
      let (k, c, r) = chain_to_key outside h held v fuel p (omega (arith, v.older o p e)) parent in
      (k, parent_key e c, r)
]

-- Whatever a program does with keys and their parts, each object that it holds a reference on is not
-- freed and leads, from part to parent, to a gpgme key that the objects still hold.
pub held_has_key :
    (outside : ℕ → ℕ) {h : Heap} {held : ℕ → ℕ}
    → Reach outside h held
    → (o : ℕ) → 0 < held o
    → (h.body o ≢ none) × (k : ℕ) × KeyOf h o k × (outside k < h.keys k)
held_has_key outside {h} {held} r o l =
    let v = Reach-IsSound outside r in
    let b = held_there outside o h held v l in
    let (k, c, r) = chain_to_key outside h held v (suc o) o (omega arith) b in (b, k, c, r)

total_zero :
    (f : Option Body → ℕ) (body : ℕ → Option Body) (n : ℕ)
    → ((x : ℕ) → x < n → f (body x) ≡ 0)
    → total f body n ≡ 0
unfolding total
total_zero f body zero z = refl
total_zero f body (suc n) z =
    omega (arith, z n (omega arith), total_zero f body n (λ x l. z x (omega arith)))

-- No object that is there points to `o` if all are gone that are newer.
no_parts :
    (h : Heap) (o : ℕ)
    → ((x p : ℕ) → h.body x ≡ some (part_of p) → p < x)
    → ((x : ℕ) → o < x → h.body x ≡ none)
    → (x : ℕ) → points o (h.body x) ≡ 0
unfolding points
no_parts h o older g x = elim (Option-cases (h.body x)) [
  | inl e ↦ ap (points o) e
  | inr (b, e) ↦ elim (dec_lt 0 (points o (some b))) [
    | yes r ↦
        let newer = older x o (e ∙ ap some (points_at b o r)) in
        absurd (some-ne-none b (sym e ∙ g x newer))
    | no r ↦ ap (points o) e ∙ omega arith
  ]
]

newest_gone :
    (outside : ℕ → ℕ) (h : Heap) (held : ℕ → ℕ)
    → IsSound outside h held
    → ((o : ℕ) → held o ≡ 0)
    → (n : ℕ) → ((x : ℕ) → n < x → h.body x ≡ none)
    → h.body n ≡ none
newest_gone outside h held v z n g = elim (Option-cases (h.body n)) [
  | inl e ↦ e
  | inr (b, e) ↦
      let none_left = total_zero (points n) h.body h.next (λ x l. no_parts h n v.older g x) in
      let there = v.alive n (λ m. some-ne-none b (sym e ∙ m)) in
      absurd (omega (arith, none_left, there, v.counted n, z n))
]

all_gone :
    (outside : ℕ → ℕ) (h : Heap) (held : ℕ → ℕ)
    → IsSound outside h held
    → ((o : ℕ) → held o ≡ 0)
    → (n : ℕ) → ((x : ℕ) → n ≤ x → h.body x ≡ none)
    → (x : ℕ) → h.body x ≡ none
all_gone outside h held v z zero g = λ x. g x (omega arith)
all_gone outside h held v z (suc n) g = all_gone outside h held v z n (λ x l. elim (dec_lt n x) [
  | yes above ↦ g x above
  | no level ↦
      let top : n ≡ x = omega arith in ap h.body (sym top) ∙ newest_gone outside h held v z n g
])

-- Once the program holds no object, all are freed and each gpgme key has its references of before.
pub none_held_released :
    (outside : ℕ → ℕ) {h : Heap} {held : ℕ → ℕ}
    → Reach outside h held
    → ((o : ℕ) → held o ≡ 0)
    → ((o : ℕ) → h.body o ≡ none) × ((k : ℕ) → h.keys k ≡ outside k)
unfolding wrapping
none_held_released outside {h} {held} r z =
    let v = Reach-IsSound outside r in
    let gone = all_gone outside h held v z h.next v.fresh in
    (
      gone,
      λ k. omega (
        arith,
        v.kept k,
        total_zero (wrapping k) h.body h.next (λ x l. ap (wrapping k) (gone x)),
      ),
    )
