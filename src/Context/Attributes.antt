-- ===== src/Context/Attributes.antt =====
-- lib/pygpgme-context.c: the attributes of a Context that are ints, flags and modes. `set_…` returns
-- `true` for -1; a value `none` is a deletion.
pub mod RoundTrip
pub mod Tests
use pygpgme.Base.{ℕ, Bool, true, false, Option, none, some, if◌then◌else◌}
use pygpgme.Base.Int.{ℤ, pos, is_zero, to_uint, to_int}
use pygpgme.Python.Value.{EnumName, Value, int, attribute_error}
use pygpgme.Python.State.{Platform, PyState, as_long, bool_from_long, occurred}
use pygpgme.Constants.Lookup.{enum_value_new}
use pygpgme.Errors.Convert.{check_error}
use pygpgme.Context.World.{World, with_error, lock_context, unlock_context}

pub data Flag : Type 0 where
  armor textmode offline : Flag

pub data Mode : Type 0 where
  protocol keylist_mode pinentry_mode : Mode

-- gpgme's getters and setters: an `int` that is 0 or not, an enumeration, and the number of
-- certificates. Only the setters of modes can fail.
pub record Settings (C : Type 0) : Type 0 where
  pub get_flag : Flag → C → ℕ
  pub set_flag : Flag → C → ℕ → C
  pub get_mode : Mode → C → ℕ
  pub set_mode : Mode → C → ℕ → ℕ × C
  pub get_certs : C → ℤ
  pub set_certs : C → ℤ → C

abbrev pub class_of : Mode → EnumName
class_of protocol = EnumName.protocol
class_of keylist_mode = EnumName.keylist_mode
class_of pinentry_mode = EnumName.pinentry_mode

module _ {C : Type 0} (P : Platform) (G : Settings C) where
  -- gpgme is used between `lock_context` and `unlock_context`.
  abbrev pub under_lock : (C → C) → World C → World C
  under_lock change w =
      let w1 = lock_context w in unlock_context (record w1 { lib = change w1.lib })

  unfoldable pub get_flag : Flag → World C → Value × World C
  unfolding lock_context unlock_context
  get_flag f w = (bool_from_long (G.get_flag f w.lib), under_lock (λ c. c) w)

  unfoldable pub set_flag : Flag → Option Value → World C → Bool × World C
  unfolding lock_context unlock_context
  set_flag f none w = (true, with_error attribute_error w)
  set_flag f (some v) w =
      let (z, s) = as_long v w.py in
      let n = if is_zero z then 0 else 1 in
      let w1 : World C = record w { py = s } in
      if occurred s then (true, w1) else (false, under_lock (λ c. G.set_flag f c n) w1)

  unfoldable pub get_mode : Mode → World C → Option Value × World C
  unfolding lock_context unlock_context
  get_mode m w =
      let w1 = under_lock (λ c. c) w in
      let (v, s) = enum_value_new P (class_of m) (pos (G.get_mode m w.lib)) w1.py in
      (v, record w1 { py = s })

  unfoldable pub set_mode : Mode → Option Value → World C → Bool × World C
  unfolding lock_context unlock_context
  set_mode m none w = (true, with_error attribute_error w)
  set_mode m (some v) w =
      let (z, s) = as_long v w.py in
      let w1 : World C = record w { py = s } in
      let (err, c) = G.set_mode m w.lib (to_uint z) in
      let w2 = under_lock (λ _. c) w1 in
      let (failed, s1) = check_error P err w2.py in
      if occurred s then (true, w1) else (failed, record w2 { py = s1 })

  -- `pygpgme_context_get_include_certs`
  unfoldable pub get_include_certs : World C → Value × World C
  unfolding lock_context unlock_context
  get_include_certs w = (int (G.get_certs w.lib), under_lock (λ c. c) w)

  -- `pygpgme_context_set_include_certs`
  unfoldable pub set_include_certs : Option Value → World C → Bool × World C
  unfolding lock_context unlock_context
  set_include_certs none w = (true, with_error attribute_error w)
  set_include_certs (some v) w =
      let (z, s) = as_long v w.py in
      let w1 : World C = record w { py = s } in
      if occurred s then (true, w1) else (false, under_lock (λ c. G.set_certs c (to_int z)) w1)

  -- `pygpgme_context_get_armor` and its setter, and so on
  abbrev pub get_armor : World C → Value × World C
  get_armor = get_flag Flag.armor

  abbrev pub set_armor : Option Value → World C → Bool × World C
  set_armor = set_flag Flag.armor

  abbrev pub get_textmode : World C → Value × World C
  get_textmode = get_flag Flag.textmode

  abbrev pub set_textmode : Option Value → World C → Bool × World C
  set_textmode = set_flag Flag.textmode

  abbrev pub get_offline : World C → Value × World C
  get_offline = get_flag Flag.offline

  abbrev pub set_offline : Option Value → World C → Bool × World C
  set_offline = set_flag Flag.offline

  abbrev pub get_protocol : World C → Option Value × World C
  get_protocol = get_mode Mode.protocol

  abbrev pub set_protocol : Option Value → World C → Bool × World C
  set_protocol = set_mode Mode.protocol

  abbrev pub get_keylist_mode : World C → Option Value × World C
  get_keylist_mode = get_mode Mode.keylist_mode

  abbrev pub set_keylist_mode : Option Value → World C → Bool × World C
  set_keylist_mode = set_mode Mode.keylist_mode

  abbrev pub get_pinentry_mode : World C → Option Value × World C
  get_pinentry_mode = get_mode Mode.pinentry_mode

  abbrev pub set_pinentry_mode : Option Value → World C → Bool × World C
  set_pinentry_mode = set_mode Mode.pinentry_mode
