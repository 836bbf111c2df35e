-- ===== src/Context/Patterns.antt =====
-- lib/pygpgme-context.c: `parse_key_patterns` and `free_key_patterns`.
use pygpgme.Base.{
  ℕ, ◌+◌, ◌-◌, Bool, true, false, Option, none, some, List, [], ◌∷◌, ◌++◌, ◌==◌, if◌then◌else◌,
  length,
}
use pygpgme.Python.Value.{Text, type_error, value_error}
use pygpgme.Python.State.{Platform, new_object}
use pygpgme.Context.World.{World, incref, decref, with_error}

-- An item that may be a pattern: a bytes object with its number, a str, or an object of another class.
pub data PatternItem : Type 0 where
  bytes_item : ℕ → Text → PatternItem
  str_item : Text → PatternItem
  other_item : PatternItem

-- The argument: `None`, one str or bytes, a sequence with its number, or no sequence.
pub data PatternArg : Type 0 where
  no_pattern : PatternArg
  one_pattern : PatternItem → PatternArg
  patterns : ℕ → List PatternItem → PatternArg
  not_patterns : PatternArg

-- `strdup` copies up to the first NUL.
unfoldable pub c_string : Text → Text
c_string [] = []
c_string (c ∷ cs) = if c == 0 then [] else c ∷ c_string cs

-- The bytes of a pattern, as an object of its own (a str is encoded to a new one) or with a new
-- reference; `none` where an exception is set.
module _ {C : Type 0} where
  unfoldable pub pattern_bytes : Platform → PatternItem → World C → Option Text × World C
  pattern_bytes P (bytes_item o t) w = (some t, record w { refs = incref o w.refs })
  pattern_bytes P (str_item t) w = elim (P.encode_utf8 t) [
    | none ↦ (none, with_error value_error w)
    | some b ↦ (some b, record w { owned = w.owned + 1 })
  ]
  pattern_bytes P other_item w = (none, with_error type_error w)

  -- The `Py_DECREF(bytes)` of the failing `strdup`.
  unfoldable pub drop_bytes : PatternItem → World C → World C
  drop_bytes (bytes_item o t) w = record w { refs = decref o w.refs }
  drop_bytes (str_item t) w = record w { owned = w.owned - 1 }
  drop_bytes other_item w = w

  -- `strdup`, with the `PyErr_NoMemory` and `Py_DECREF` of its failure. A copy that is made leaves
  -- the bytes as they are.
  unfoldable pub copy_pattern : PatternItem → Text → World C → Option Text × World C
  copy_pattern item t w =
      let (fits, s) = new_object w.py in
      if fits
      then (some (c_string t), record w { py = s; blocks = w.blocks + 1 })
      else (none, drop_bytes item (record w { py = s }))

  unfoldable pub take_pattern : Platform → PatternItem → World C → Option Text × World C
  unfolding pattern_bytes drop_bytes copy_pattern
  take_pattern P item w =
      let (b, w1) = pattern_bytes P item w in
      elim b [ none ↦ (none, w1) | some t ↦ copy_pattern item t w1 ]

  -- The loop: whether it came to the end, and the patterns copied.
  unfoldable pub take_patterns :
      Platform → List Text → List PatternItem → World C → Bool × List Text × World C
  take_patterns P done [] w = (true, done, w)
  take_patterns P done (item ∷ rest) w =
      let (t, w1) = take_pattern P item w in
      elim t [ none ↦ (false, done, w1) | some p ↦ take_patterns P (done ++ (p ∷ [])) rest w1 ]

  -- `free_key_patterns`, and the `if (patterns)` in front of it.
  unfoldable pub free_key_patterns : Option (List Text) → World C → World C
  free_key_patterns none w = w
  free_key_patterns (some ps) w = record w { blocks = w.blocks - length ps - 1 }

  -- The label `end`: a failure frees the patterns copied so far.
  unfoldable pub patterns_end : Bool × List Text × World C → Bool × Option (List Text) × World C
  patterns_end (true, ps, w) = (true, some ps, w)
  patterns_end (false, ps, w) = (false, none, free_key_patterns (some ps) w)

  -- The array of pointers, by `calloc`.
  unfoldable pub pattern_array :
      (World C → Bool × List Text × World C) → World C → Bool × Option (List Text) × World C
  pattern_array fill w =
      let (fits, s) = new_object w.py in
      if fits
      then patterns_end (fill (record w { py = s; blocks = w.blocks + 1 }))
      else (false, none, record w { py = s })

  -- One str or bytes: the bytes are made before the array.
  unfoldable pub one_array :
      PatternItem → Option Text × World C → Bool × Option (List Text) × World C
  one_array item (none, w) = (false, none, w)
  one_array item (some t, w) =
      let (fits, s) = new_object w.py in
      let (p, w2) = copy_pattern item t (record w { py = s; blocks = w.blocks + 1 }) in
      if fits
      then (elim p [
        | none ↦ patterns_end (false, [], w2)
        | some c ↦ patterns_end (true, c ∷ [], w2)
      ])
      else (false, none, drop_bytes item (record w { py = s }))

  -- The reference on the sequence, from `PySequence_Fast` to the label `end`.
  unfoldable pub drop_list :
      ℕ → Bool × Option (List Text) × World C → Bool × Option (List Text) × World C
  drop_list o (good, ps, w) = (good, ps, record w { refs = decref o w.refs })

  -- `parse_key_patterns`; `false` is the result -1.
  unfoldable pub parse_key_patterns :
      Platform → PatternArg → World C → Bool × Option (List Text) × World C
  unfolding pattern_bytes one_array pattern_array patterns_end drop_list take_patterns copy_pattern
      drop_bytes free_key_patterns
  parse_key_patterns P no_pattern w = (true, none, w)
  parse_key_patterns P (one_pattern item) w = one_array item (pattern_bytes P item w)
  parse_key_patterns P (patterns o items) w =
      drop_list o (pattern_array (take_patterns P [] items) (record w { refs = incref o w.refs }))
  parse_key_patterns P not_patterns w = (false, none, with_error type_error w)
