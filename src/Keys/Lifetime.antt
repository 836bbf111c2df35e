-- ===== src/Keys/Lifetime.antt =====
-- lib/pygpgme-key.c: as long as a program holds any part of a key, the gpgme key is there.
use pygpgme.Base.{
  ℕ, zero, suc, ◌+◌, ◌≤◌, ◌<◌, ◌≡◌, ◌≢◌, refl, ap, sym, ◌∙◌, true, false, none, some, ◌==◌, arith,
  Bool-cases, Option-cases, ==_iff, inl, inr,
}
use mathlib.Core.Path.{subst}
use native.Mathlib.Decide.{dec_lt}
use pygpgme.Context.World.{same, incref, decref}
use pygpgme.Keys.Heap.{Body, wraps, part_of, Heap, set_body, freed, dealloc, drop_from}
use pygpgme.Keys.Counting.{points, wrapping, total, total-set_body, le-total}

-- Each object has one reference for each that the program holds and one for each of its parts, and is
-- there as long as it has any; each gpgme key has one for each object that wraps it.
pub record IsSound (outside : ℕ → ℕ) (h : Heap) (held : ℕ → ℕ) : Type 0 where
  pub counted : (o : ℕ) → h.refs o ≡ held o + total (points o) h.body h.next
  pub there : (o : ℕ) → 0 < h.refs o → h.body o ≢ none
  pub alive : (o : ℕ) → h.body o ≢ none → 0 < h.refs o
  pub fresh : (o : ℕ) → h.next ≤ o → h.body o ≡ none
  pub older : (o p : ℕ) → h.body o ≡ some (part_of p) → p < o
  pub kept : (k : ℕ) → h.keys k ≡ outside k + total (wrapping k) h.body h.next

pub same_self : (o : ℕ) → same o o ≡ 1
unfolding same
same_self o = ground arith

pub some-ne-none : (b : Body) → some b ≢ none
some-ne-none b e = cc

shared_left : (o x : ℕ) (h : Heap) → (h.refs o == 1) ≡ false → 0 < h.refs x → 0 < decref o h.refs x
unfolding same
shared_left o x h many l = elim (Bool-cases (x == o)) [
  | inl q ↦ let alike : h.refs x ≡ h.refs o = ap h.refs ((==_iff x o).0 q) in ground arith
  | inr q ↦ ground arith
]

last_gone : (o x : ℕ) (h : Heap) → h.refs o ≡ 1 → x ≡ o → 0 < decref o h.refs x → ⊥
unfolding same
last_gone o x h one e l = let refs_same : h.refs x ≡ h.refs o = ap h.refs e in ground arith

drop_from_last :
    (fuel o : ℕ) (h : Heap) (b : Body)
    → (h.refs o == 1) ≡ true
    → h.body o ≡ some b
    → drop_from (suc fuel) o h ≡ dealloc (drop_from fuel) (some b) (freed o h)
unfolding drop_from
drop_from_last fuel o h b last e = rw last (ap (λ x. dealloc (drop_from fuel) x (freed o h)) e)

drop_from_shared :
    (fuel o : ℕ) (h : Heap)
    → (h.refs o == 1) ≡ false
    → drop_from (suc fuel) o h ≡ record h { refs = decref o h.refs }
unfolding drop_from
drop_from_shared fuel o h many = rw many

others_left : (o x : ℕ) (h : Heap) → (x == o) ≡ false → 0 < h.refs x → 0 < decref o h.refs x
unfolding same
others_left o x h q l = ground arith

module _ (outside : ℕ → ℕ) where
  shared-IsSound :
      (o : ℕ) (h : Heap) (held : ℕ → ℕ)
      → (h.refs o == 1) ≡ false
      → IsSound outside h (incref o held)
      → IsSound outside (record h { refs = decref o h.refs }) held
  shared-IsSound o h held many v = record {
    counted = λ x. omega (arith, v.counted x);
    there = λ x l. v.there x (omega arith);
    alive = λ x b. shared_left o x h many (v.alive x b);
    fresh = v.fresh;
    older = v.older;
    kept = v.kept;
  }

  live :
      (o : ℕ) (h : Heap) (held : ℕ → ℕ) (b : Body)
      → h.body o ≡ some b
      → IsSound outside h held
      → o < h.next
  live o h held b e v = elim (dec_lt o h.next) [
    | yes l ↦ l
    | no l ↦ absurd (some-ne-none b (sym e ∙ v.fresh o (omega arith)))
  ]

  -- The last reference of an object is dropped, and so is the reference on what it points to.
  freed-IsSound :
      (o : ℕ) (h : Heap) (held held' keys' : ℕ → ℕ) (b : Body)
      → h.body o ≡ some b
      → h.refs o ≡ 1
      → IsSound outside h (incref o held)
      → ((x : ℕ) → held' x ≡ held x + points x (some b))
      → ((k : ℕ) → keys' k + wrapping k (some b) ≡ h.keys k)
      → IsSound outside
          (record {
            body = set_body o none h.body;
            refs = decref o h.refs;
            keys = keys';
            next = h.next;
          })
          held'
  unfolding points wrapping
  freed-IsSound o h held held' keys' b e one v hh hk =
      let place = live o h (incref o held) b e v in
      let self = same_self o in
      record {
        counted = λ x.
            let sum = total-set_body (points x) o none h.body h.next place in
            let at = ap (points x) e in omega (arith, sum, at, v.counted x, hh x);
        there = λ x l. elim (Bool-cases (x == o)) [
          | inl q ↦ let alike : x ≡ o = (==_iff x o).0 q in absurd (last_gone o x h one alike l)
          | inr q ↦ rw q (v.there x (omega arith))
        ];
        alive = λ x b. elim (Bool-cases (x == o)) [
          | inl q ↦ absurd (b (ground (arith, q)))
          | inr q ↦ others_left o x h q (v.alive x (λ n. b (ground (arith, q, n))))
        ];
        fresh = λ x l. ground (arith, v.fresh x l);
        older = λ x p q. ground (arith, v.older x p);
        kept = λ k.
            let sum = total-set_body (wrapping k) o none h.body h.next place in
            let at = ap (wrapping k) e in omega (arith, sum, at, v.kept k, hk k);
      }

  dealloc-IsSound :
      (fuel o : ℕ) (h : Heap) (held : ℕ → ℕ) (b : Body)
      → o < suc fuel
      → h.body o ≡ some b
      → h.refs o ≡ 1
      → IsSound outside h (incref o held)
      → ((p : ℕ) (g : Heap) (kept : ℕ → ℕ)
          → p < fuel
          → IsSound outside g (incref p kept)
          → IsSound outside (drop_from fuel p g) kept)
      → IsSound outside (dealloc (drop_from fuel) (some b) (freed o h)) held
  unfolding dealloc points wrapping
  dealloc-IsSound fuel o h held (wraps k) l e one v rec =
      freed-IsSound o h held held (decref k h.keys) (wraps k) e one v (λ x. omega arith)
        (λ j. omega (
          arith,
          le-total (wrapping j) h.body o h.next (live o h (incref o held) (wraps k) e v),
          ap (wrapping j) e,
          v.kept j,
        ))
  dealloc-IsSound fuel o h held (part_of p) l e one v rec =
      rec p (freed o h) held (omega (arith, v.older o p e)) (
        freed-IsSound o h held (incref p held) h.keys (part_of p) e one v (λ x. refl)
          (λ k. omega arith))

  pub drop_from-IsSound :
      (fuel o : ℕ) (h : Heap) (held : ℕ → ℕ)
      → o < fuel
      → IsSound outside h (incref o held)
      → IsSound outside (drop_from fuel o h) held
  drop_from-IsSound zero o h held l v = elim l [ ]
  drop_from-IsSound (suc fuel) o h held l v = elim (Bool-cases (h.refs o == 1)) [
    | inr many ↦
        subst (λ g. IsSound outside g held) (sym (drop_from_shared fuel o h many))
          (shared-IsSound o h held many v)
    | inl last ↦
        let one : h.refs o ≡ 1 = (==_iff _ _).0 last in
        elim (Option-cases (h.body o)) [
          | inl e ↦ absurd (v.there o (omega arith) e)
          | inr (b, e) ↦
              subst (λ g. IsSound outside g held) (sym (drop_from_last fuel o h b last e))
                (dealloc-IsSound fuel o h held b l e one v (drop_from-IsSound fuel))
        ]
  ]
