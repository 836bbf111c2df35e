-- ===== src/Context/Keyiter/Listing.antt =====
-- A loop over the iterator sees every key that gpgme lists.
use pygpgme.Base.{
  ap, ◌∙◌, ℕ, suc, ◌+◌, ◌≡◌, ◌≢◌, refl, Bool, true, some, List, [], ◌∷◌, map, length, arith,
}
use pygpgme.Python.Value.{Ref, null_ref, object, stop_iteration}
use pygpgme.Python.State.{Platform, set_error}
use pygpgme.Errors.Convert.{check_error}
use pygpgme.Gpgme.Engine.{Engine}
use pygpgme.Context.World.{World, same}
use pygpgme.Context.Keyring.{key_new}
use pygpgme.Context.Keyiter.{keyiter_next, keys_from, Lists, ends, gives, times}

module _ {C : Type 0} (P : Platform) (E : Engine C) (self : ℕ) where
  -- A step that gives a key takes one reference on it, and leaves Python's state as it was.
  record Given (w : World C) (k : ℕ) (d : C) (r : Ref ℕ × World C) : Type 0 where
    given : r.0 ≡ object k
    lib_after : r.1.lib ≡ d
    py_after : r.1.py ≡ w.py
    keys_after : (j : ℕ) → r.1.keys j ≡ w.keys j + same k j

  keyiter_next-Given :
      (w : World C) (k : ℕ) (d : C)
      → P.err_code 0 ≢ P.code_eof
      → w.py.mem ≡ []
      → E.next_key w.lib ≡ (0, some k, d)
      → Given w k d (keyiter_next P E self w)
  unfolding keyiter_next check_error key_new
  keyiter_next-Given w k d ne m e = record {
    given = ground (arith, e, m, ne);
    lib_after = ground (arith, e, m, ne);
    py_after = ground (arith, e, m, ne);
    keys_after = λ j. ground (arith, e, m, ne);
  }

  -- The step at the end.
  record Ended (w : World C) (r : Ref ℕ × World C) : Type 0 where
    no_key : r.0 ≡ null_ref
    py_ended : r.1.py ≡ set_error stop_iteration w.py
    keys_kept : (j : ℕ) → r.1.keys j ≡ w.keys j

  keyiter_next-Ended :
      (w : World C)
      → P.err_source (E.next_key w.lib).0 ≡ P.source_gpgme
      → P.err_code (E.next_key w.lib).0 ≡ P.code_eof
      → Ended w (keyiter_next P E self w)
  unfolding keyiter_next
  keyiter_next-Ended w a b = record {
    no_key = ground (arith, a, b);
    py_ended = ground (arith, a, b);
    keys_kept = λ j. ground (arith, a, b);
  }

  -- What the whole loop leaves.
  pub record Listed (w : World C) (ks : List ℕ) (r : List (Ref ℕ) × Bool × World C) : Type 0 where
    pub all : r.0 ≡ map object ks
    pub over : r.1 ≡ true
    pub stopped : r.2.py ≡ set_error stop_iteration w.py
    pub counted : (j : ℕ) → r.2.keys j ≡ w.keys j + times P E self j ks

  loop :
      {c : C} (ks : List ℕ) (w : World C)
      → P.err_code 0 ≢ P.code_eof
      → w.py.mem ≡ []
      → Lists P E self c ks
      → w.lib ≡ c
      → Listed w ks (keys_from P E self (suc (length ks)) w)
  unfolding keys_from
  loop [] w ne m (ends a b) q =
      let end =
        keyiter_next-Ended w (ap (λ d. P.err_source (E.next_key d).0) q ∙ a)
          (ap (λ d. P.err_code (E.next_key d).0) q ∙ b) in
      record {
        all = ground (arith, end.no_key);
        over = ground (arith, end.no_key);
        stopped = ground (arith, end.no_key, end.py_ended);
        counted = λ x. ground (arith, end.no_key, end.keys_kept x);
      }
  loop {c} (k ∷ ks) w ne m (gives {d} e l) q =
      let (ret, w1) = keyiter_next P E self w in
      let step = keyiter_next-Given w k d ne m (ap E.next_key q ∙ e) in
      let rest = loop {c = d} ks w1 ne (ap (λ s. s.mem) step.py_after ∙ m) l step.lib_after in
      record {
        all = ground (arith, step.given, rest.all);
        over = ground (arith, step.given, rest.over);
        stopped = ground (arith, step.given, rest.stopped, step.py_after);
        counted = λ x. ground (arith, step.given, rest.counted x, step.keys_after x);
      }

  -- Where gpgme lists some keys and then reports the end, a loop over the iterator that may take one
  -- step more than there are keys gets exactly these keys, in order, and ends by `StopIteration`; it
  -- has then taken one reference on each key for each time it is listed. This is with memory for
  -- each key's object.
  pub keys_from-Listed :
      (ks : List ℕ) (w : World C)
      → P.err_code 0 ≢ P.code_eof
      → w.py.mem ≡ []
      → Lists P E self w.lib ks
      → Listed w ks (keys_from P E self (suc (length ks)) w)
  keys_from-Listed ks w ne m l = loop ks w ne m l refl
