-- ===== src/Context/Outcome/Listing.antt =====
-- get_key, export and keylist return `NULL` exactly with an exception pending.
use pygpgme.Base.{
  ℕ, ◌≡◌, refl, ap, ◌∙◌, Bool, true, false, not, Option, none, some, List, [], ◌∷◌, ◌++◌, ◌+◌,
  arith, Option-cases, Bool-cases, inl, inr,
}
use pygpgme.Base.Int.{ℤ}
use pygpgme.Python.Value.{Text}
use pygpgme.Python.State.{Platform, occurred, new_object}
use pygpgme.Errors.Convert.{check_error}
use pygpgme.Gpgme.Engine.{Engine}
use pygpgme.Context.World.{World, incref, run_op}
use pygpgme.Context.Resources.{data_new}
use pygpgme.Context.Patterns.{
  PatternItem, bytes_item, str_item, other_item, PatternArg, no_pattern, one_pattern, patterns,
  not_patterns, pattern_bytes, copy_pattern, drop_bytes, take_pattern, take_patterns, patterns_end,
  pattern_array, one_array, drop_list, free_key_patterns, parse_key_patterns,
}
use pygpgme.Context.Keyring.{
  GetKeyArgs, get_key, key_new, wrap_key, ExportArgs, export_data, export, KeylistArgs, keyiter_new,
  keylist_run, keylist,
}
use pygpgme.Context.Outcome.Keyring.{none_unless-Signals}
use pygpgme.Context.Outcome.{
  Signals, if_Signals, Signals-none, Signals-some, data_new-Signals, data_release-py,
}

abbrev pub SignalsFlag : {C A : Type 0} → Bool × A × World C → Type 0
SignalsFlag (good, a, w) = occurred w.py ≡ not good

module _ {C : Type 0} (P : Platform) where
  take_pattern-Signals :
      (item : PatternItem) (w : World C) → occurred w.py ≡ false → Signals (take_pattern P item w)
  unfolding take_pattern pattern_bytes copy_pattern drop_bytes
  take_pattern-Signals (bytes_item o t) w h = ground arith
  take_pattern-Signals (str_item t) w h = ground arith
  take_pattern-Signals other_item w h = ground arith

  take_patterns-Signals :
      (done : List Text) (items : List PatternItem) (w : World C)
      → occurred w.py ≡ false
      → SignalsFlag (take_patterns P done items w)
  unfolding take_patterns
  take_patterns-Signals done [] w h = h
  take_patterns-Signals done (item ∷ rest) w h =
      let w1 : World C = (take_pattern P item w).1 in
      let took = take_pattern-Signals item w h in
      elim (Option-cases (take_pattern P item w).0) [
        | inl e ↦ rw (take_patterns, e) (Signals-none _ w1 took e)
        | inr (t, e) ↦
            rw (take_patterns, e)
              (take_patterns-Signals (done ++ (t ∷ [])) rest w1 (Signals-some _ t w1 took e))
      ]

  patterns_end-Signals :
      (r : Bool × List Text × World C) → SignalsFlag r → SignalsFlag (patterns_end r)
  unfolding patterns_end free_key_patterns
  patterns_end-Signals (true, ps, w) h = h
  patterns_end-Signals (false, ps, w) h = h

  drop_list-Signals :
      (o : ℕ) (r : Bool × Option (List Text) × World C)
      → SignalsFlag r
      → SignalsFlag (drop_list o r)
  unfolding drop_list
  drop_list-Signals o (good, ps, w) h = h

  pattern_array-Signals :
      (fill : World C → Bool × List Text × World C) (w : World C)
      → occurred w.py ≡ false
      → ((w1 : World C) → occurred w1.py ≡ false → SignalsFlag (fill w1))
      → SignalsFlag (pattern_array fill w)
  unfolding pattern_array
  pattern_array-Signals fill w h f = elim (Bool-cases (new_object w.py).0) [
    | inl e ↦ rw e (
        patterns_end-Signals _
          (f (record w { py = (new_object w.py).1; blocks = w.blocks + 1 }) (ground arith)))
    | inr e ↦ rw e (ground arith)
  ]

  parse_key_patterns-Signals :
      (a : PatternArg) (w : World C)
      → occurred w.py ≡ false
      → SignalsFlag (parse_key_patterns P a w)
  unfolding parse_key_patterns one_array pattern_array patterns_end drop_list free_key_patterns
      pattern_bytes copy_pattern drop_bytes
  parse_key_patterns-Signals no_pattern w h = h
  parse_key_patterns-Signals (one_pattern (bytes_item o t)) w h = ground arith
  parse_key_patterns-Signals (one_pattern (str_item t)) w h = ground arith
  parse_key_patterns-Signals (one_pattern other_item) w h = ground arith
  parse_key_patterns-Signals (patterns o items) w h =
      drop_list-Signals o
        (pattern_array (take_patterns P [] items) (record w { refs = incref o w.refs }))
        (pattern_array-Signals (take_patterns P [] items) _ h (take_patterns-Signals [] items))
  parse_key_patterns-Signals not_patterns w h = ground arith

module _ {C : Type 0} (P : Platform) (E : Engine C) (self : ℕ) where
  free_key_patterns-py :
      (ps : Option (List Text)) (w : World C) → (free_key_patterns ps w).py ≡ w.py
  unfolding free_key_patterns
  free_key_patterns-py none w = refl
  free_key_patterns-py (some ps) w = refl

  get_key-Signals :
      (a : Option GetKeyArgs) (w : World C) → occurred w.py ≡ false → Signals (get_key P E self a w)
  unfolding get_key wrap_key key_new run_op check_error
  get_key-Signals none w h = refl
  get_key-Signals (some a) w h = ground arith

  keylist_run-Signals :
      (secret : ℤ) (ps : Option (List Text)) (w : World C)
      → occurred w.py ≡ false
      → Signals (keylist_run P E self secret ps w)
  unfolding keylist_run keyiter_new run_op check_error free_key_patterns
  keylist_run-Signals secret none w h = ground arith
  keylist_run-Signals secret (some ps) w h = ground arith

  keylist-Signals :
      (a : Option KeylistArgs) (w : World C)
      → occurred w.py ≡ false
      → Signals (keylist P E self a w)
  unfolding keylist
  keylist-Signals none w h = refl
  keylist-Signals (some a) w h =
      let read = parse_key_patterns-Signals P a.pattern w h in
      if_Signals (parse_key_patterns P a.pattern w).0 _ _
        (λ e. keylist_run-Signals _ _ _ (read ∙ ap not e)) (λ e. read ∙ ap not e)

  export_data-Signals :
      (a : ExportArgs) (ps : Option (List Text)) (w : World C)
      → occurred w.py ≡ false
      → Signals (export_data P E self a ps w)
  unfolding export_data run_op
  export_data-Signals a ps w h =
      let made = data_new-Signals P E self a.keydata w h in
      if_Signals (data_new P E self a.keydata w).0 _ _
        (λ e. ap occurred (free_key_patterns-py ps _) ∙ (made ∙ e))
        (λ e.
          none_unless-Signals P E self _ _
            (ap occurred (data_release-py P E self _ _ ∙ free_key_patterns-py ps _) ∙ (made ∙ e)))

  export-Signals :
      (a : Option ExportArgs) (w : World C) → occurred w.py ≡ false → Signals (export P E self a w)
  unfolding export
  export-Signals none w h = refl
  export-Signals (some a) w h =
      let read = parse_key_patterns-Signals P a.pattern w h in
      if_Signals (parse_key_patterns P a.pattern w).0 _ _
        (λ e. export_data-Signals a _ _ (read ∙ ap not e)) (λ e. read ∙ ap not e)

  -- From a thread with no exception pending, a call of get_key, export or keylist, whatever its
  -- arguments, gpgme and the memory do, returns `NULL` with an exception pending, or an object with none.
  pub listing-Signals :
      (a : Option GetKeyArgs) (b : Option ExportArgs) (c : Option KeylistArgs) (w : World C)
      → occurred w.py ≡ false
      → Signals (get_key P E self a w)
        × Signals (export P E self b w)
        × Signals (keylist P E self c w)
  listing-Signals a b c w h = (get_key-Signals a w h, export-Signals b w h, keylist-Signals c w h)
