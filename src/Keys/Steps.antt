-- ===== src/Keys/Steps.antt =====
-- lib/pygpgme-key.c: every step of a program keeps the reference counts of the objects right.
use pygpgme.Base.{
  ℕ, suc, ◌+◌, ◌≤◌, ◌<◌, ◌≡◌, ◌≢◌, refl, ap, sym, ◌∙◌, false, none, some, ◌==◌, arith, Bool-cases,
  ==_iff, inl, inr,
}
use mathlib.Core.Path.{subst}
use native.Mathlib.Decide.{dec_lt}
use pygpgme.Context.World.{same, incref, decref}
use pygpgme.Keys.Heap.{
  Body, wraps, part_of, Heap, set_body, new_key, new_part, Step, make_key, make_part, copy, release,
  Reach, here, step,
}
use pygpgme.Keys.Counting.{points, wrapping, total, total-set_body_above}
use pygpgme.Keys.Lifetime.{IsSound, drop_from-IsSound, same_self}

same_at : (o x : ℕ) → 0 < same o x → o ≡ x
unfolding same
same_at o x h = ground (arith, ==_iff x o)

same_apart : (o x : ℕ) → (x == o) ≡ false → same o x ≡ 0
unfolding same
same_apart o x h = ground arith

pub points_at : (b : Body) (x : ℕ) → 0 < points x (some b) → b ≡ part_of x
unfolding points
points_at (wraps k) x h = absurd (omega arith)
points_at (part_of p) x h = ap part_of (same_at p x h)

same_le : (o : ℕ) (held : ℕ → ℕ) → 0 < held o → (x : ℕ) → same o x ≤ held x
unfolding same
same_le o held l x = elim (Bool-cases (x == o)) [
  | inl q ↦ let alike : held x ≡ held o = ap held ((==_iff x o).0 q) in ground arith
  | inr q ↦ ground arith
]

module _ (outside : ℕ → ℕ) where
  -- An object that is there is not the next one.
  pub below :
      (o : ℕ) (h : Heap) (held : ℕ → ℕ) → IsSound outside h held → h.body o ≢ none → o < h.next
  below o h held v b = elim (dec_lt o h.next) [
    | yes l ↦ l
    | no l ↦ absurd (b (v.fresh o (omega arith)))
  ]

  module _ (h : Heap) (held : ℕ → ℕ) (b : Body) (v : IsSound outside h held)
      (hp : (p : ℕ) → b ≡ part_of p → h.body p ≢ none) where
    made_there :
        (x : ℕ)
        → 0 < h.refs x + same h.next x + points x (some b)
        → set_body h.next (some b) h.body x ≢ none
    made_there x l n = elim (Bool-cases (x == h.next)) [
      | inl q ↦ ground (arith, q)
      | inr q ↦
          let apart = same_apart h.next x q in
          let gone : h.body x ≡ none = ground (arith, q, n) in
          elim (dec_lt 0 (h.refs x)) [
            | yes r ↦ v.there x r gone
            | no r ↦ hp x (points_at b x (omega arith)) gone
          ]
    ]

    made_older : (x p : ℕ) → set_body h.next (some b) h.body x ≡ some (part_of p) → p < x
    made_older x p e = elim (Bool-cases (x == h.next)) [
      | inl q ↦
          let place = (==_iff x h.next).0 q in
          let new : b ≡ part_of p = ground (arith, q, e) in
          omega (arith, below p h held v (hp p new))
      | inr q ↦ v.older x p (ground (arith, q, e))
    ]

  made_alive :
      (h : Heap) (held : ℕ → ℕ) (b : Body)
      → IsSound outside h held
      → (x : ℕ) → set_body h.next (some b) h.body x ≢ none
      → 0 < h.refs x + same h.next x + points x (some b)
  made_alive h held b v x l = elim (Bool-cases (x == h.next)) [
    | inl q ↦
        let one : same h.next x ≡ 1 = ap (same h.next) ((==_iff x h.next).0 q) ∙ same_self h.next in
        omega arith
    | inr q ↦ omega (arith, v.alive x (λ n. l (ground (arith, q, n))))
  ]

  -- A new object takes a reference on what it points to, which must be there.
  made-IsSound :
      (h : Heap) (held refs' keys' : ℕ → ℕ) (b : Body)
      → IsSound outside h held
      → ((p : ℕ) → b ≡ part_of p → h.body p ≢ none)
      → ((x : ℕ) → refs' x ≡ h.refs x + same h.next x + points x (some b))
      → ((k : ℕ) → keys' k ≡ h.keys k + wrapping k (some b))
      → IsSound outside
          (record {
            body = set_body h.next (some b) h.body;
            refs = refs';
            keys = keys';
            next = suc h.next;
          })
          (incref h.next held)
  unfolding total
  made-IsSound h held refs' keys' b v hp hr hk = record {
    counted = λ x.
        let top = total-set_body_above (points x) h.next (some b) h.body h.next (omega arith) in
        ground (arith, top, v.counted x, hr x, ==_iff h.next h.next);
    there = λ x l. made_there h held b v hp x (rw (hr x) at l);
    alive = λ x l. rw (hr x) (made_alive h held b v x l);
    fresh = λ x l. ground (arith, v.fresh x);
    older = λ x p q. made_older h held b v hp x p q;
    kept = λ k.
        let top = total-set_body_above (wrapping k) h.next (some b) h.body h.next (omega arith) in
        ground (arith, top, v.kept k, hk k, ==_iff h.next h.next);
  }

  -- A program that holds an object finds it.
  pub held_there :
      (o : ℕ) (h : Heap) (held : ℕ → ℕ) → IsSound outside h held → 0 < held o → h.body o ≢ none
  held_there o h held v l = v.there o (omega (arith, v.counted o))

  copied_there :
      (h : Heap) (held : ℕ → ℕ) (o : ℕ)
      → IsSound outside h held
      → 0 < held o
      → (x : ℕ) → 0 < h.refs x + same o x
      → h.body x ≢ none
  copied_there h held o v l x r = elim (Bool-cases (x == o)) [
    | inl q ↦ subst (λ y. h.body y ≢ none) (sym ((==_iff x o).0 q)) (held_there o h held v l)
    | inr q ↦ v.there x (omega (arith, same_apart o x q))
  ]

  IsSound-same :
      (h : Heap) (held held' : ℕ → ℕ)
      → ((x : ℕ) → held' x ≡ held x)
      → IsSound outside h held
      → IsSound outside h held'
  IsSound-same h held held' e v = record {
    counted = λ x. omega (arith, v.counted x, e x);
    there = v.there;
    alive = v.alive;
    fresh = v.fresh;
    older = v.older;
    kept = v.kept;
  }

  Step-IsSound :
      {h h' : Heap} {held held' : ℕ → ℕ}
      → Step h held h' held'
      → IsSound outside h held
      → IsSound outside h' held'
  unfolding new_key new_part points wrapping
  Step-IsSound (make_key h held k) v =
      made-IsSound h held (incref h.next h.refs) (incref k h.keys) (wraps k) v (λ p e. cc)
        (λ x. omega arith) (λ j. refl)
  Step-IsSound (make_part h held o l) v =
      made-IsSound h held (incref o (incref h.next h.refs)) h.keys (part_of o) v
        (λ p e. subst (λ q. h.body q ≢ none) (cc) (held_there o h held v l)) (λ x. refl)
        (λ k. omega arith)
  Step-IsSound (copy h held o l) v = record {
    counted = λ x. omega (arith, v.counted x);
    there = λ x r n. copied_there h held o v l x r n;
    alive = λ x b. omega (arith, v.alive x b);
    fresh = v.fresh;
    older = v.older;
    kept = v.kept;
  }
  Step-IsSound (release h held o l) v =
      drop_from-IsSound outside (suc o) o h (decref o held) (omega arith)
        (IsSound-same h held (incref o (decref o held)) (λ x. omega (arith, same_le o held l x)) v)

  pub Reach-IsSound : {h : Heap} {held : ℕ → ℕ} → Reach outside h held → IsSound outside h held
  unfolding total
  Reach-IsSound here = record {
    counted = λ o. refl;
    there = λ o l. elim l [ ];
    alive = λ o b. absurd (b refl);
    fresh = λ o l. refl;
    older = λ o p e. cc;
    kept = λ k. omega arith;
  }
  Reach-IsSound (step r st) = Step-IsSound st (Reach-IsSound r)
