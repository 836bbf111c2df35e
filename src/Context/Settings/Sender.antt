-- ===== src/Context/Settings/Sender.antt =====
-- What the sender of a Context reads after it was set.
pub mod Tests
use pygpgme.Base.{ℕ, ◌≡◌, refl, Bool, true, false, Option, none, some, arith}
use pygpgme.Python.Value.{Text, Value, none_value, str}
use pygpgme.Python.State.{Platform}
use pygpgme.Errors.Convert.{check_error}
use pygpgme.Results.Engines.{text_or_none}
use pygpgme.Context.World.{World, lock_context, unlock_context}
use pygpgme.Context.Notations.{as_utf8}
use pygpgme.Context.Notations.RoundTrip.{Encodes, as_utf8-Encodes}
use pygpgme.Context.Settings.{Configuration, get_sender, sender_address, set_sender}

-- gpgme keeps an address that is no more than an address; of a mailbox with a name it keeps less.
pub record IsSenderStore {C : Type 0} (G : Configuration C) (bare : Text → Bool) : Type 0 where
  pub unset : (c : C) → (G.set_sender c none).0 ≡ 0 → G.get_sender (G.set_sender c none).1 ≡ none
  pub kept :
      (c : C) (b : Text)
      → bare b ≡ true
      → (G.set_sender c (some b)).0 ≡ 0
      → G.get_sender (G.set_sender c (some b)).1 ≡ some b

-- The address that stands for a sender.
abbrev pub SenderIs : Platform → (Text → Bool) → Value → Option Text → Type 0
SenderIs P bare v none = v ≡ none_value
SenderIs P bare v (some b) =
    (t : Text) × (v ≡ str t) × Encodes P t b × (P.strict_utf8 b ≡ some t) × (bare b ≡ true)

module _ {C : Type 0} (P : Platform) (G : Configuration C) (bare : Text → Bool)
    (h : IsSenderStore G bare) where
  -- A sender that is `None`, or a str whose bytes hold no NUL, decode to it and are no more than an
  -- address, is set without an error where gpgme accepts it, with the mutex free afterwards; and
  -- the sender then reads as it was set, which changes nothing in gpgme.
  pub set_sender-get_sender :
      (v : Value) (address : Option Text) (w : World C)
      → SenderIs P bare v address
      → (G.set_sender w.lib address).0 ≡ 0
      → let (failed, w1) = set_sender P G (some v) w in
        let (sender, w2) = get_sender P G w1 in
        (failed ≡ false)
        × (w1.mutex ≡ false)
        × (w1.py ≡ w.py)
        × (sender ≡ some v)
        × (w2.lib ≡ w1.lib)
        × (w2.mutex ≡ false)
  unfolding set_sender get_sender sender_address check_error text_or_none lock_context
      unlock_context
  set_sender-get_sender v none w e ok =
      rw (e, ok, h.unset w.lib ok) (refl, refl, refl, refl, refl, refl)
  set_sender-get_sender v (some b) w (t, e, enc, dec, is_bare) ok =
      rw
        (
          e,
          as_utf8-Encodes P (str t) t b w.py refl enc,
          ok,
          h.kept w.lib b is_bare ok,
          text_or_none,
          dec,
        )
        (refl, refl, refl, refl, refl, refl)
