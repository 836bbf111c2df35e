-- ===== src/Package/Editor/Decimal.antt =====
-- `'%d' % n` reads back as the number.
use pygpgme.Base.{
  ℕ, zero, suc, ◌+◌, ◌-◌, ◌*◌, ◌/◌, ◌%◌, ◌<◌, ◌≡◌, refl, ◌∙◌, [], ◌∷◌, ◌++◌, arith, ltb, Bool-cases,
  inl, inr, Bool, true, leb, ◌&&◌,
}
use pygpgme.Base.Int.{pos}
use pygpgme.Python.Value.{Text}
use pygpgme.Package.Editor.{digits, decimal}

-- The number that a text of digits stands for, after the number of the digits before it.
abbrev pub read_on : ℕ → Text → ℕ
read_on n [] = n
read_on n (d ∷ ds) = read_on (n * 10 + (d - b'0')) ds

abbrev pub are_digits : Text → Bool
are_digits [] = true
are_digits (d ∷ ds) = (leb b'0' d && leb d b'9') && are_digits ds

read_on-append : (n : ℕ) (a b : Text) → read_on n (a ++ b) ≡ read_on (read_on n a) b
read_on-append n [] b = refl
read_on-append n (d ∷ a) b = read_on-append (n * 10 + (d - b'0')) a b

are_digits-append :
    (a b : Text) → are_digits a ≡ true → are_digits b ≡ true → are_digits (a ++ b) ≡ true
are_digits-append [] b p q = q
are_digits-append (d ∷ a) b p q = ground (arith, are_digits-append a b)

digits_lem :
    (rounds n : ℕ)
    → n < rounds
    → (read_on 0 (digits rounds n) ≡ n) × (are_digits (digits rounds n) ≡ true)
unfolding digits
digits_lem zero n h = absurd (omega arith)
digits_lem (suc rounds) n h = elim (Bool-cases (ltb n 10)) [
  | inl small ↦ ground arith
  | inr large ↦
      let (a, b) = digits_lem rounds (n / 10) (ground arith) in
      let last : Text = (b'0' + n % 10) ∷ [] in
      let e = read_on-append 0 (digits rounds (n / 10)) last in
      let f = are_digits-append (digits rounds (n / 10)) last b (ground arith) in
      rw large (e ∙ (rw a (omega arith)), f)
]

-- The text of a number has digits only, and reads back as the number.
pub decimal-read_on :
    (n : ℕ) → (read_on 0 (decimal (pos n)) ≡ n) × (are_digits (decimal (pos n)) ≡ true)
unfolding decimal
decimal-read_on n = digits_lem (suc n) n (omega arith)
