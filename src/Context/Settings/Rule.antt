-- ===== src/Context/Settings/Rule.antt =====
-- What holds of every getter and setter of the settings, and of set_engine_info, get_engine_info and
-- set_locale.
use pygpgme.Base.{◌≡◌, Bool, true, false, not, Option, none, some, arith, ◌⊎◌, inl, inr, Bool-cases}
use pygpgme.Python.Value.{Value, str, none_value, boolean, int, bytes, other, member}
use pygpgme.Python.State.{Platform, occurred}
use pygpgme.Constants.Lookup.{enum_value_new}
use pygpgme.Errors.Convert.{check_error}
use pygpgme.Results.Engines.{text_or_none}
use pygpgme.Context.World.{World, lock_context, unlock_context}
use pygpgme.Context.Notations.{as_utf8}
use pygpgme.Context.Attributes.{
  Flag, Mode, Settings, get_flag, set_flag, get_mode, set_mode, get_include_certs,
  set_include_certs,
}
use pygpgme.Context.Settings.{
  Configuration, EngineArgs, LocaleArgs, get_sender, sender_address, set_sender, set_engine_info,
  get_engine_info, set_locale,
}

-- A call of one of them; a value `none` is a deletion, and arguments `none` do not fit.
pub data Setting : Type 0 where
  flag_read : Flag → Setting
  flag_write : Flag → Option Value → Setting
  mode_read : Mode → Setting
  mode_write : Mode → Option Value → Setting
  certs_read : Setting
  certs_write : Option Value → Setting
  sender_read : Setting
  sender_write : Option Value → Setting
  engine_write : Option EngineArgs → Setting
  engine_read : Setting
  locale_write : Option LocaleArgs → Setting

abbrev pub is_null : {A : Type 0} → Option A → Bool
is_null none = true
is_null (some a) = false

-- The thread keeps the interpreter, has given up the mutex, and has broken no rule about the locks.
pub record Settles {C : Type 0} (w w' : World C) : Type 0 where
  pub held : w'.gil ≡ true
  pub unlocked : w'.mutex ≡ false
  pub no_tstate : w'.tstate ≡ w.tstate
  pub unbroken : w'.broken ≡ w.broken

module _ {C : Type 0} (P : Platform) (S : Settings C) (G : Configuration C) where
  -- The call: whether its result is -1 or `NULL`, and the world after it.
  unfoldable pub run_setting : Setting → World C → Bool × World C
  run_setting (flag_read f) w = (false, (get_flag P S f w).1)
  run_setting (flag_write f v) w = set_flag P S f v w
  run_setting (mode_read m) w = let (v, w1) = get_mode P S m w in (is_null v, w1)
  run_setting (mode_write m v) w = set_mode P S m v w
  run_setting certs_read w = (false, (get_include_certs P S w).1)
  run_setting (certs_write v) w = set_include_certs P S v w
  run_setting sender_read w = let (v, w1) = get_sender P G w in (is_null v, w1)
  run_setting (sender_write v) w = set_sender P G v w
  run_setting (engine_write a) w = set_engine_info P G a w
  run_setting engine_read w = let (l, w1) = get_engine_info P G w in (is_null l, w1)
  run_setting (locale_write a) w = set_locale P G a w

  run_setting-Settles :
      (o : Setting) (w : World C) → w.gil ≡ true → w.mutex ≡ false → Settles w (run_setting o w).1
  unfolding run_setting get_flag set_flag get_mode set_mode get_include_certs set_include_certs
      get_sender set_sender set_engine_info get_engine_info set_locale lock_context unlock_context
  run_setting-Settles (flag_read f) w g m = ground arith
  run_setting-Settles (flag_write f none) w g m = ground arith
  run_setting-Settles (flag_write f (some v)) w g m = ground arith
  run_setting-Settles (mode_read mode) w g m = ground arith
  run_setting-Settles (mode_write mode none) w g m = ground arith
  run_setting-Settles (mode_write mode (some v)) w g m = ground arith
  run_setting-Settles certs_read w g m = ground arith
  run_setting-Settles (certs_write none) w g m = ground arith
  run_setting-Settles (certs_write (some v)) w g m = ground arith
  run_setting-Settles sender_read w g m = ground arith
  run_setting-Settles (sender_write none) w g m = ground arith
  run_setting-Settles (sender_write (some v)) w g m = ground arith
  run_setting-Settles (engine_write none) w g m = ground arith
  run_setting-Settles (engine_write (some a)) w g m = ground arith
  run_setting-Settles engine_read w g m = ground arith
  run_setting-Settles (locale_write none) w g m = ground arith
  run_setting-Settles (locale_write (some a)) w g m = ground arith

  -- Not get_engine_info, and no sender that has no bytes, whose failures are not looked at.
  abbrev pub is_checked : Setting → Bool
  is_checked (sender_write (some (str t))) = not (is_null (P.encode_utf8 t))
  is_checked engine_read = false
  is_checked _ = true

  setting_signals :
      (o : Setting) (w : World C)
      → occurred w.py ≡ false
      → is_checked o ≡ true
      → (run_setting o w).0 ≡ occurred (run_setting o w).1.py
  unfolding run_setting get_flag set_flag get_mode set_mode get_include_certs set_include_certs
      get_sender set_sender sender_address as_utf8 set_engine_info set_locale text_or_none
      check_error enum_value_new lock_context unlock_context
  setting_signals (flag_read f) w q c = ground arith
  setting_signals (flag_write f none) w q c = ground arith
  setting_signals (flag_write f (some v)) w q c = ground arith
  setting_signals (mode_read mode) w q c = ground arith
  setting_signals (mode_write mode none) w q c = ground arith
  setting_signals (mode_write mode (some v)) w q c = ground arith
  setting_signals certs_read w q c = ground arith
  setting_signals (certs_write none) w q c = ground arith
  setting_signals (certs_write (some v)) w q c = ground arith
  setting_signals sender_read w q c = ground arith
  setting_signals (sender_write none) w q c = ground arith
  setting_signals (sender_write (some none_value)) w q c = ground arith
  setting_signals (sender_write (some (boolean b))) w q c = ground arith
  setting_signals (sender_write (some (int z))) w q c = ground arith
  setting_signals (sender_write (some (member t z))) w q c = ground arith
  setting_signals (sender_write (some (str t))) w q c = ground (arith, c)
  setting_signals (sender_write (some (bytes t))) w q c = ground arith
  setting_signals (sender_write (some (other n))) w q c = ground arith
  setting_signals (engine_write none) w q c = ground arith
  setting_signals (engine_write (some a)) w q c = ground arith
  setting_signals engine_read w q c = ground arith
  setting_signals (locale_write none) w q c = ground arith
  setting_signals (locale_write (some a)) w q c = ground arith

  -- Any call of a getter or setter of armor, textmode, offline, protocol, keylist_mode, pinentry_mode,
  -- include_certs or sender, of set_engine_info, get_engine_info or set_locale, by a thread that holds
  -- the interpreter, with no exception pending and the mutex free, leaves the interpreter held, the
  -- mutex free and the saved thread state as it was, and breaks no rule about the locks, on every
  -- branch; and its result is -1 or `NULL` exactly if an exception is pending then, except for
  -- get_engine_info and for a sender that has no bytes in UTF-8. What a failing get_engine_info does
  -- not free is not a part of this.
  pub setting-Settles :
      (o : Setting) (w : World C)
      → w.gil ≡ true
      → w.mutex ≡ false
      → occurred w.py ≡ false
      → Settles w (run_setting o w).1
        × ((is_checked o ≡ false) ⊎ ((run_setting o w).0 ≡ occurred (run_setting o w).1.py))
  setting-Settles o w g m q = (
    run_setting-Settles o w g m,
    elim (Bool-cases (is_checked o)) [ inl c ↦ inr (setting_signals o w q c) | inr c ↦ inl c ],
  )
