-- ===== src/Context/Settings/Tests.antt =====
-- A gpgme that refuses every engine.
use pygpgme.Base.{◌≡◌, ◌⊎◌, refl, false, Option, none, some}
use pygpgme.Base.Int.{pos}
use pygpgme.Python.Value.{Text}
use pygpgme.Python.State.{occurred}
use pygpgme.Errors.Tests.{demo}
use pygpgme.Context.Attributes.{Settings}
use pygpgme.Context.Settings.{Configuration}
use pygpgme.Context.Settings.Sender.Tests.{keeping, unset}
use pygpgme.Context.Settings.Rule.{
  Setting, engine_write, Settles, run_setting, is_checked, setting-Settles,
}

abbrev fixed : Settings (Option Text)
fixed = record {
  get_flag = λ f c. 0;
  set_flag = λ f c n. c;
  get_mode = λ m c. 0;
  set_mode = λ m c n. (0, c);
  get_certs = λ c. pos 0;
  set_certs = λ c z. c;
}

abbrev refusing : Configuration (Option Text)
refusing = record keeping { set_engine_info = λ c protocol file home. (3, c) }

abbrev choice : Setting
choice = engine_write (some (record { protocol = pos 0; file_name = none; home_dir = none }))

setting-Settles_example :
    Settles unset (run_setting demo fixed refusing choice unset).1
    × ((is_checked demo fixed refusing choice ≡ false)
        ⊎ ((run_setting demo fixed refusing choice unset).0
            ≡ occurred (run_setting demo fixed refusing choice unset).1.py))
setting-Settles_example = setting-Settles demo fixed refusing choice unset refl refl refl
