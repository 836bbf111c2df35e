-- ===== src/Context/Attributes/RoundTrip.antt =====
-- What an attribute reads after it was set.
use mathlib.Core.Path.{subst}
use pygpgme.Base.{
  ℕ, ◌≤◌, ◌≡◌, ap, ◌∙◌, Bool, true, false, none, some, arith, if◌then◌else◌, ◌⊎◌, inl, inr,
}
use pygpgme.Base.Int.{ℤ, pos, negsuc, is_zero, fits_long, fits_int, to_uint, to_int, to_int-fits}
use pygpgme.Python.Value.{Value, as_int, int, boolean}
use pygpgme.Python.State.{Platform, occurred, bool_from_long}
use pygpgme.Constants.Values.{IsEnumeration, Reads, enum_value_new-Reads}
use pygpgme.Errors.Convert.{check_error}
use pygpgme.Context.World.{World}
use pygpgme.Context.Attributes.{
  Flag, Mode, Settings, class_of, get_flag, set_flag, get_mode, set_mode, get_include_certs,
  set_include_certs,
}

-- gpgme keeps what it is given: each flag, a mode that it accepts, and a number of certificates from
-- -2 on.
pub record IsStore {C : Type 0} (G : Settings C) : Type 0 where
  pub flag_kept : (f : Flag) (c : C) (n : ℕ) → n ≤ 1 → G.get_flag f (G.set_flag f c n) ≡ n
  pub mode_kept :
      (m : Mode) (c : C) (n : ℕ) → (G.set_mode m c n).0 ≡ 0 → G.get_mode m (G.set_mode m c n).1 ≡ n
  pub certs_kept : (c : C) (n : ℕ) → G.get_certs (G.set_certs c (pos n)) ≡ pos n
  pub certs_kept_below : (c : C) (n : ℕ) → n ≤ 1 → G.get_certs (G.set_certs c (negsuc n)) ≡ negsuc n

module _ {C : Type 0} (P : Platform) (G : Settings C) (h : IsStore G) where
  one_at_most : (z : ℤ) → (if is_zero z then 0 else 1) ≤ 1
  one_at_most z = ground arith

  as_bool :
      (z : ℤ)
      → bool_from_long (if is_zero z then 0 else 1) ≡ boolean (if is_zero z then false else true)
  as_bool z = ground arith

  certs :
      (z : ℤ) (c : C)
      → (z ≡ negsuc 0) ⊎ ((z ≡ negsuc 1) ⊎ ((n : ℕ) × (z ≡ pos n)))
      → G.get_certs (G.set_certs c z) ≡ z
  certs z c (inl e) = rw e (h.certs_kept_below c 0 (omega arith))
  certs z c (inr (inl e)) = rw e (h.certs_kept_below c 1 (omega arith))
  certs z c (inr (inr (n, e))) = rw e (h.certs_kept c n)

  fits_int-long : (z : ℤ) → fits_int z ≡ true → fits_long z ≡ true
  fits_int-long (pos n) b = ground arith
  fits_int-long (negsuc n) b = ground arith

  set_certs_lib :
      (v : Value) (z : ℤ) (w : World C)
      → occurred w.py ≡ false
      → as_int v ≡ some z
      → fits_long z ≡ true
      → (set_include_certs P G (some v) w).1.lib ≡ G.set_certs w.lib (to_int z)
  unfolding set_include_certs
  set_certs_lib v z w q a b = ground (arith, q, a, b)

  -- A flag that is set to an int in the range of `long`, with no exception pending, is set without an
  -- error and then reads `True` unless the int was 0, and `False` if it was.
  set_flag-get_flag :
      (f : Flag) (v : Value) (z : ℤ) (w : World C)
      → occurred w.py ≡ false
      → as_int v ≡ some z
      → fits_long z ≡ true
      → let (bad, w1) = set_flag P G f (some v) w in
        (bad ≡ false) × ((get_flag P G f w1).0 ≡ boolean (if is_zero z then false else true))
  unfolding set_flag get_flag
  set_flag-get_flag f v z w q a b =
      let n : ℕ = if is_zero z then 0 else 1 in
      let lib_after : (set_flag P G f (some v) w).1.lib ≡ G.set_flag f w.lib n =
        ground (arith, q, a, b) in
      (
        ground (arith, q, a, b),
        ap (λ c. bool_from_long (G.get_flag f c)) lib_after
            ∙ (ap bool_from_long (h.flag_kept f w.lib n (one_at_most z)) ∙ as_bool z),
      )

  -- A mode that is set to an int in the range of `long`, with no exception pending, and that gpgme
  -- accepts, reads as that int modulo 2 ^ 32: it is cut to 32 bits before gpgme sees it.
  pub set_mode-get_mode :
      (m : Mode) (v : Value) (z : ℤ) (w : World C)
      → IsEnumeration P (class_of m)
      → occurred w.py ≡ false
      → as_int v ≡ some z
      → fits_long z ≡ true
      → (G.set_mode m w.lib (to_uint z)).0 ≡ 0
      → let (bad, w1) = set_mode P G m (some v) w in
        (bad ≡ false) × Reads (pos (to_uint z)) (get_mode P G m w1).0
  unfolding set_mode get_mode check_error
  set_mode-get_mode m v z w e q a b ok =
      let w1 : World C = (set_mode P G m (some v) w).1 in
      let lib_after : w1.lib ≡ (G.set_mode m w.lib (to_uint z)).1 = ground (arith, q, a, b, ok) in
      let read = enum_value_new-Reads P (class_of m) (pos (G.get_mode m w1.lib)) w1.py e in
      (
        ground (arith, q, a, b, ok),
        subst (λ n. Reads (pos n) (get_mode P G m w1).0)
            (ap (G.get_mode m) lib_after ∙ h.mode_kept m w.lib (to_uint z) ok) read.0,
      )

  -- A number of certificates from -2 on that is set as an int in the range of `int`, with no exception
  -- pending, is set without an error and then reads as it was.
  pub set_include_certs-get_include_certs :
      (v : Value) (z : ℤ) (w : World C)
      → occurred w.py ≡ false
      → as_int v ≡ some z
      → fits_int z ≡ true
      → (z ≡ negsuc 0) ⊎ ((z ≡ negsuc 1) ⊎ ((n : ℕ) × (z ≡ pos n)))
      → let (bad, w1) = set_include_certs P G (some v) w in
        (bad ≡ false) × ((get_include_certs P G w1).0 ≡ int z)
  unfolding set_include_certs get_include_certs
  set_include_certs-get_include_certs v z w q a b range =
      let long = fits_int-long z b in
      let lib_after : (set_include_certs P G (some v) w).1.lib ≡ G.set_certs w.lib z =
        set_certs_lib v z w q a long ∙ ap (G.set_certs w.lib) (to_int-fits z b) in
      (
        ground (arith, q, a, long),
        ap (λ c. int (G.get_certs c)) lib_after ∙ ap int (certs z w.lib range),
      )

-- A value that `PyLong_AsLong` refuses: no int, or one out of the range of `long`.
abbrev pub Unfit : Value → Type 0
Unfit v = (as_int v ≡ none) ⊎ ((z : ℤ) × (as_int v ≡ some z) × (fits_long z ≡ false))

-- The setter returned -1 with an exception pending, and gpgme was not called.
pub record Rejects {C : Type 0} (w : World C) (r : Bool × World C) : Type 0 where
  pub bad : r.0 ≡ true
  pub lib_same : r.1.lib ≡ w.lib
  pub pending : occurred r.1.py ≡ true

module _ {C : Type 0} (P : Platform) (G : Settings C) where
  -- A deletion, a value that is no int, and an int out of the range of `long` are rejected by every one
  -- of these setters, with an exception and without a change to gpgme's context.
  setters-Rejects :
      (f : Flag) (m : Mode) (v : Value) (w : World C)
      → Unfit v
      → Rejects w (set_flag P G f (some v) w)
        × Rejects w (set_flag P G f none w)
        × Rejects w (set_mode P G m (some v) w)
        × Rejects w (set_mode P G m none w)
        × Rejects w (set_include_certs P G (some v) w)
        × Rejects w (set_include_certs P G none w)
  unfolding set_flag set_mode set_include_certs
  setters-Rejects f m v w (inl a) = ground (arith, a)
  setters-Rejects f m v w (inr (z, a, b)) = ground (arith, a, b)
