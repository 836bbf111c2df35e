-- ===== src/Context/Settings.antt =====
-- lib/pygpgme-context.c: the sender, the engines and the locale of a Context.
pub mod Sender
pub mod Rule
pub mod Tests
use pygpgme.Base.{ℕ, Bool, true, Option, none, some, List}
use pygpgme.Base.Int.{ℤ}
use pygpgme.Python.Value.{Text, Value, none_value, str, type_error, attribute_error}
use pygpgme.Python.State.{Platform, PyState, set_error}
use pygpgme.Errors.Convert.{check_error}
use pygpgme.Results.Engines.{EngineRaw, EngineInfo, engine_info_list_new, text_or_none}
use pygpgme.Context.World.{World, with_error, lock_context, unlock_context}
use pygpgme.Context.Notations.{as_utf8}

-- gpgme's functions of these names, without `gpgme_` and `ctx_`; a text `none` is `NULL`.
pub record Configuration (C : Type 0) : Type 0 where
  pub get_sender : C → Option Text
  pub set_sender : C → Option Text → ℕ × C
  pub get_engine_info : C → List EngineRaw
  pub set_engine_info : C → ℤ → Option Text → Option Text → ℕ × C
  pub set_locale : C → ℤ → Option Text → ℕ × C

pub record EngineArgs : Type 0 where
  pub protocol : ℤ
  pub file_name : Option Text
  pub home_dir : Option Text

pub record LocaleArgs : Type 0 where
  pub category : ℤ
  pub value : Option Text

module _ {C : Type 0} (P : Platform) (G : Configuration C) where
  -- A function of gpgme between `lock_context` and `unlock_context`, then `pygpgme_check_error`.
  abbrev pub locked_call : (C → ℕ × C) → World C → Bool × World C
  locked_call call w =
      let w1 = lock_context w in
      let (err, c) = call w1.lib in
      let w2 = unlock_context (record w1 { lib = c }) in
      let (failed, s) = check_error P err w2.py in (failed, record w2 { py = s })

  -- `pygpgme_context_get_sender`
  unfoldable pub get_sender : World C → Option Value × World C
  unfolding lock_context unlock_context text_or_none
  get_sender w =
      let w1 = lock_context w in
      let (v, s) = text_or_none P (G.get_sender w1.lib) w1.py in
      (v, unlock_context (record w1 { py = s }))

  -- The test of the value: the address, or -1 as `none`. A failure of `PyUnicode_AsUTF8AndSize` is not
  -- looked at, and the address is then `NULL`.
  unfoldable pub sender_address : Value → PyState → Option (Option Text) × PyState
  unfolding as_utf8
  sender_address none_value s = (some none, s)
  sender_address (str t) s = let (address, s1) = as_utf8 P (str t) s in (some address, s1)
  sender_address v s = (none, set_error type_error s)

  -- `pygpgme_context_set_sender`; a value `none` is a deletion, and `true` is the result -1.
  unfoldable pub set_sender : Option Value → World C → Bool × World C
  unfolding lock_context unlock_context sender_address check_error
  set_sender none w = (true, with_error attribute_error w)
  set_sender (some v) w =
      let (found, s) = sender_address v w.py in
      let w1 : World C = record w { py = s } in
      elim found [ none ↦ (true, w1) | some address ↦ locked_call (λ c. G.set_sender c address) w1 ]

  -- `pygpgme_context_set_engine_info`; the result `true` is `NULL`.
  unfoldable pub set_engine_info : Option EngineArgs → World C → Bool × World C
  unfolding lock_context unlock_context check_error
  set_engine_info none w = (true, with_error type_error w)
  set_engine_info (some a) w =
      locked_call (λ c. G.set_engine_info c a.protocol a.file_name a.home_dir) w

  -- `pygpgme_context_get_engine_info`, which asks gpgme before it locks.
  unfoldable pub get_engine_info : World C → Option (List EngineInfo) × World C
  unfolding lock_context unlock_context engine_info_list_new
  get_engine_info w =
      let infos = G.get_engine_info w.lib in
      let w1 = lock_context w in
      let (list, s) = engine_info_list_new P infos w1.py in
      (list, unlock_context (record w1 { py = s }))

  -- `pygpgme_context_set_locale`; the result `true` is `NULL`.
  unfoldable pub set_locale : Option LocaleArgs → World C → Bool × World C
  unfolding lock_context unlock_context check_error
  set_locale none w = (true, with_error type_error w)
  set_locale (some a) w = locked_call (λ c. G.set_locale c a.category a.value) w
