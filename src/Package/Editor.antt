-- ===== src/Package/Editor.antt =====
-- src/gpgme/editutil.py: the generators `edit_trust` and `edit_sign`, which answer gpg's questions.
pub mod Trust
pub mod Sign
pub mod Wrapper
pub mod Dialogue
pub mod Talks
pub mod TrustExact
pub mod SignExact
pub mod Session
pub mod Replies
pub mod Statuses
pub mod Conduct
pub mod Decimal
pub mod Tests
use Prim.Native.String.{String}
use Prim.Native.Char.{code}
use text.Mathlib.Text as str
use pygpgme.Base.{
  ℕ, zero, suc, ◌+◌, ◌/◌, ◌%◌, Bool, true, false, not, ◌||◌, Option, none, some, List, [], ◌∷◌,
  ◌++◌, map, ltb, if◌then◌else◌,
}
use pygpgme.Base.Int.{ℤ, pos, negsuc, int_eq}
use pygpgme.Python.Value.{Text, ExcType, another, value_error}

-- The code points of a str.
abbrev pub codes : String → Text
codes String.[] = []
codes (String.◌∷◌ c s) = code c ∷ codes s

-- A number in decimal digits; as many rounds as the number are enough after the first.
unfoldable pub digits : ℕ → ℕ → Text
digits zero n = []
digits (suc rounds) n =
    let more = digits rounds (n / 10) in
    if ltb n 10 then (b'0' + n) ∷ [] else more ++ ((b'0' + n % 10) ∷ [])

-- `'%d' % z`
unfoldable pub decimal : ℤ → Text
unfolding digits
decimal (pos n) = digits (suc n) n
decimal (negsuc n) = b'-' ∷ digits (suc (suc n)) (suc n)

-- How a generator's `send` ends: it yields a str, returns, or raises.
pub data Outcome (S : Type 0) : Type 0 where
  yields : Text → S → Outcome S
  returns : Outcome S
  fails : ExcType → Outcome S

-- A generator that waits at a point of the type `S` to be sent the arguments of a status.
pub record Generator (S : Type 0) : Type 0 where
  pub resume : S → Option String → Outcome S

-- The class of `AssertionError`.
abbrev pub assertion : ExcType
assertion = another 1

-- `args == '...'`
abbrev pub is : String → Option String → Bool
is s none = false
is s (some t) = str.◌==◌ t s
