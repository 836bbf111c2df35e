-- ===== src/Context/Balance/Patterns.antt =====
-- `parse_key_patterns` gives back the sequence and the copies, but not the bytes objects that the
-- copies were made from.
use pygpgme.Base.{
  ℕ, suc, ◌+◌, ◌≡◌, true, some, List, [], ◌∷◌, ◌++◌, inl, inr, arith, Option-cases, length,
  length-append,
}
use pygpgme.Python.Value.{Text}
use pygpgme.Python.State.{Platform, new_object}
use pygpgme.Context.World.{World, same, incref}
use pygpgme.Context.Patterns.{
  PatternItem, bytes_item, str_item, other_item, PatternArg, no_pattern, one_pattern, patterns,
  not_patterns, take_pattern, take_patterns, free_key_patterns, parse_key_patterns,
}

-- The references on `x` that the bytes objects among the items take, and the new objects that the
-- strs among them are encoded to.
abbrev pub bytes_refs : ℕ → List PatternItem → ℕ
bytes_refs x [] = 0
bytes_refs x (bytes_item o t ∷ rest) = same o x + bytes_refs x rest
bytes_refs x (str_item t ∷ rest) = bytes_refs x rest
bytes_refs x (other_item ∷ rest) = bytes_refs x rest

abbrev pub str_count : List PatternItem → ℕ
str_count [] = 0
str_count (bytes_item o t ∷ rest) = str_count rest
str_count (str_item t ∷ rest) = suc (str_count rest)
str_count (other_item ∷ rest) = str_count rest

-- A pattern and the rest of the items, counted together.
items_cons :
    (x : ℕ) (item : PatternItem) (rest : List PatternItem)
    → (bytes_refs x (item ∷ rest) ≡ bytes_refs x (item ∷ []) + bytes_refs x rest)
      × (str_count (item ∷ rest) ≡ str_count (item ∷ []) + str_count rest)
items_cons x (bytes_item o b) rest = omega arith
items_cons x (str_item b) rest = omega arith
items_cons x other_item rest = omega arith

-- The patterns of an argument.
abbrev pub items_of : PatternArg → List PatternItem
items_of no_pattern = []
items_of (one_pattern item) = item ∷ []
items_of (patterns o items) = items
items_of not_patterns = []

-- From `w` to `w'`, `n` blocks, `m` new objects and `e` references on `x` have been taken, and
-- nothing else has changed but the pending exception.
pub record Keeps {C : Type 0} (x : ℕ) (w w' : World C) (e m n : ℕ) : Type 0 where
  pub refs_kept : w'.refs x ≡ w.refs x + e
  pub owned_kept : w'.owned ≡ w.owned + m
  pub blocks_kept : w'.blocks ≡ w.blocks + n
  pub keys_kept : w'.keys ≡ w.keys
  pub lib_kept : w'.lib ≡ w.lib
  pub unbroken : w'.broken ≡ w.broken

module _ {C : Type 0} (P : Platform) (x : ℕ) where
  take_pattern-Keeps :
      (item : PatternItem) (w : World C) (t : Text)
      → (take_pattern P item w).0 ≡ some t
      → Keeps x w (take_pattern P item w).1 (bytes_refs x (item ∷ [])) (str_count (item ∷ [])) 1
  unfolding take_pattern
  take_pattern-Keeps (bytes_item o b) w t h = ground arith
  take_pattern-Keeps (str_item b) w t h = ground arith
  take_pattern-Keeps other_item w t h = ground arith

  take_patterns-Keeps :
      (done : List Text) (items : List PatternItem) (w : World C)
      → (take_patterns P done items w).0 ≡ true
      → let (good, ps, w') = take_patterns P done items w in
        (length ps ≡ length done + length items)
        × Keeps x w w' (bytes_refs x items) (str_count items) (length items)
  unfolding take_patterns
  take_patterns-Keeps done [] w h = ground arith
  take_patterns-Keeps done (item ∷ rest) w h = elim (Option-cases (take_pattern P item w).0) [
    | inl e ↦ ground arith
    | inr (t, e) ↦
        let w1 = (take_pattern P item w).1 in
        let k1 = take_pattern-Keeps item w t e in
        ground (
          arith,
          k1,
          take_patterns-Keeps (done ++ (t ∷ [])) rest w1,
          length-append done (t ∷ []),
          items_cons x item rest,
        )
  ]

  -- After a successful `parse_key_patterns` and the matching `free_key_patterns`, all C memory and the
  -- sequence are given back, but every bytes object among the patterns keeps one more reference, and
  -- every str leaves one new bytes object that nothing refers to.
  pub parse_key_patterns_loses :
      (a : PatternArg) (w : World C)
      → (parse_key_patterns P a w).0 ≡ true
      → let (good, ps, w1) = parse_key_patterns P a w in
        Keeps x w (free_key_patterns ps w1) (bytes_refs x (items_of a)) (str_count (items_of a)) 0
  unfolding parse_key_patterns
  parse_key_patterns_loses no_pattern w h = ground arith
  parse_key_patterns_loses (one_pattern (bytes_item o b)) w h = ground arith
  parse_key_patterns_loses (one_pattern (str_item b)) w h = ground arith
  parse_key_patterns_loses (one_pattern other_item) w h = ground arith
  parse_key_patterns_loses (patterns o items) w h =
      let w1 : World C = record w { refs = incref o w.refs } in
      let w2 : World C = record w1 { py = (new_object w1.py).1; blocks = w1.blocks + 1 } in
      ground (arith, take_patterns-Keeps [] items w2)
  parse_key_patterns_loses not_patterns w h = cc
