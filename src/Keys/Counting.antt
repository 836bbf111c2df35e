-- ===== src/Keys/Counting.antt =====
-- How many objects of a heap point to a parent, or to a gpgme key.
use pygpgme.Base.{
  ℕ, zero, suc, ◌+◌, ◌≤◌, ◌<◌, ◌≡◌, refl, Option, none, some, ◌==◌, arith, ap, Bool-cases, ==_iff,
  inl, inr,
}
use pygpgme.Context.World.{same}
use pygpgme.Keys.Heap.{Body, wraps, part_of, set_body}

-- 1 if the object is a part of `o`.
unfoldable pub points : ℕ → Option Body → ℕ
points o none = 0
points o (some (wraps k)) = 0
points o (some (part_of p)) = same p o

-- 1 if the object wraps the key `k`.
unfoldable pub wrapping : ℕ → Option Body → ℕ
wrapping k none = 0
wrapping k (some (wraps j)) = same j k
wrapping k (some (part_of p)) = 0

-- The sum over the objects below `n`.
unfoldable pub total : (Option Body → ℕ) → (ℕ → Option Body) → ℕ → ℕ
total f body zero = 0
total f body (suc n) = f (body n) + total f body n

module _ (f : Option Body → ℕ) (o : ℕ) (b : Option Body) (body : ℕ → Option Body) where
  pub total-set_body_above : (n : ℕ) → n ≤ o → total f (set_body o b body) n ≡ total f body n
  unfolding total
  total-set_body_above zero h = refl
  total-set_body_above (suc n) h = ground (arith, total-set_body_above n)

  pub total-set_body :
      (n : ℕ) → o < n → total f (set_body o b body) n + f (body o) ≡ f b + total f body n
  unfolding total
  total-set_body zero h = elim h [ ]
  total-set_body (suc n) h = elim (Bool-cases (n == o)) [
    | inl e ↦
        let alike : f (body n) ≡ f (body o) = ap (λ k. f (body k)) ((==_iff n o).0 e) in
        ground (arith, total-set_body_above n)
    | inr e ↦ ground (arith, total-set_body n)
  ]

pub le-total :
    (f : Option Body → ℕ) (body : ℕ → Option Body) (o n : ℕ) → o < n → f (body o) ≤ total f body n
unfolding total
le-total f body o zero h = elim h [ ]
le-total f body o (suc n) h = elim (Bool-cases (n == o)) [
  | inl e ↦
      let alike : f (body n) ≡ f (body o) = ap (λ k. f (body k)) ((==_iff n o).0 e) in omega arith
  | inr e ↦ ground (arith, le-total f body o n)
]
