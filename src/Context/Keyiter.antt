-- ===== src/Context/Keyiter.antt =====
-- lib/pygpgme-keyiter.c: the iterator that `keylist` returns. It releases the interpreter for each
-- key, but does not take the context's mutex.
pub mod Listing
pub mod Tests
use pygpgme.Base.{
  ℕ, suc, ◌+◌, ◌≡◌, refl, zero, Bool, true, false, ◌&&◌, ◌==◌, Option, none, some, List, [], ◌∷◌,
  if◌then◌else◌, length, arith,
}
use pygpgme.Python.Value.{
  ErrRef, null, py_none, instance_of, Ref, null_ref, none_ref, object, stop_iteration,
}
use pygpgme.Python.State.{Platform, PyState, clear_error, set_error}
use pygpgme.Errors.Convert.{error_object, check_error}
use pygpgme.Gpgme.Engine.{Engine}
use pygpgme.Context.World.{World, decref, same, with_error}
use pygpgme.Context.Keyring.{wrap_key, key_new}

-- `PyErr_WriteUnraisable`, where there is an exception object; it prints and clears what is pending.
report : ErrRef × PyState → PyState
report (null, s) = s
report (py_none, s) = s
report (instance_of e, s) = clear_error s

key_ref : Option ℕ → Ref ℕ
key_ref none = null_ref
key_ref (some k) = object k

module _ {C : Type 0} (P : Platform) (E : Engine C) (self : ℕ) where
  -- The key that gpgme gave: no key is `None`.
  give_key : Option ℕ → World C → Ref ℕ × World C
  give_key none w = (none_ref, w)
  give_key (some key) w = let (ret, w1) = wrap_key P E self key w in (key_ref ret, w1)

  -- `pygpgme_keyiter_next`
  unfoldable pub keyiter_next : World C → Ref ℕ × World C
  unfolding give_key key_ref wrap_key
  keyiter_next w =
      let (err, key, c) = E.next_key w.lib in
      let w1 : World C = record w { lib = c } in
      let (failed, s) = check_error P err w1.py in
      if (P.err_source err == P.source_gpgme) && (P.err_code err == P.code_eof)
      then (null_ref, with_error stop_iteration w1)
      else (if failed
          then (null_ref, record w1 { py = s })
          else give_key key (record w1 { py = s }))

  -- `pygpgme_keyiter_dealloc`; every iterator has a context.
  unfoldable pub keyiter_dealloc : World C → World C
  unfolding report
  keyiter_dealloc w =
      let (err, c) = E.end_list w.lib in
      record w { py = report (error_object P err w.py); lib = c; refs = decref self w.refs }

  -- A `for` loop of Python over the iterator, for at most `fuel` keys: the keys, whether the iterator
  -- has come to its end, and the state.
  unfoldable pub keys_from : ℕ → World C → List (Ref ℕ) × Bool × World C
  keys_from zero w = ([], false, w)
  keys_from (suc fuel) w =
      let (ret, w1) = keyiter_next w in
      let (rest, over, w2) = keys_from fuel w1 in
      elim ret [
        | null_ref ↦ ([], true, w1)
        | none_ref ↦ (none_ref ∷ rest, over, w2)
        | object k ↦ (object k ∷ rest, over, w2)
      ]

  -- gpgme lists these keys from its state `c` on, and then reports the end.
  pub data Lists : C → List ℕ → Type 0 where
    ends :
        {c : C}
        → P.err_source (E.next_key c).0 ≡ P.source_gpgme
        → P.err_code (E.next_key c).0 ≡ P.code_eof
        → Lists c []
    gives :
        {c d : C} {k : ℕ} {ks : List ℕ}
        → E.next_key c ≡ (0, some k, d)
        → Lists d ks
        → Lists c (k ∷ ks)

  -- How often a key is among those listed.
  abbrev pub times : ℕ → List ℕ → ℕ
  times k [] = 0
  times k (x ∷ xs) = same x k + times k xs
