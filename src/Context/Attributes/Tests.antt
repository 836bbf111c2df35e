-- ===== src/Context/Attributes/Tests.antt =====
-- A gpgme that keeps five numbers.
use pygpgme.Base.{ℕ, ◌≡◌, refl, true, false, some}
use pygpgme.Base.Int.{ℤ, pos}
use pygpgme.Python.Value.{int}
use pygpgme.Errors.Tests.{demo, idle, demo-IsEnumeration}
use pygpgme.Constants.Values.{Reads}
use pygpgme.Context.World.{World}
use pygpgme.Context.Attributes.{Flag, Mode, Settings, class_of, get_mode, set_mode}
use pygpgme.Context.Attributes.RoundTrip.{IsStore, set_mode-get_mode}

record Kept : Type 0 where
  flag : Flag → ℕ
  mode : Mode → ℕ
  certs : ℤ

-- It keeps one flag and one mode for all.
abbrev store : Settings Kept
store = record {
  get_flag = λ f c. c.flag f;
  set_flag = λ f c n. record c { flag = λ g. n };
  get_mode = λ m c. c.mode m;
  set_mode = λ m c n. (0, record c { mode = λ x. n });
  get_certs = λ c. c.certs;
  set_certs = λ c z. record c { certs = z };
}

store-IsStore : IsStore store
store-IsStore = record {
  flag_kept = λ f c n l. refl;
  mode_kept = λ m c n l. refl;
  certs_kept = λ c n. refl;
  certs_kept_below = λ c n l. refl;
}

abbrev new_context : World Kept
new_context = record {
  py = idle;
  lib = record { flag = λ f. 0; mode = λ m. 0; certs = pos 0 };
  gil = true;
  mutex = false;
  tstate = false;
  refs = λ x. 1;
  keys = λ k. 1;
  owned = 0;
  blocks = 0;
  broken = false;
}

-- 2 ^ 32 + 1 is cut to 1.
set_mode-get_mode_example :
    let (bad, w1) = set_mode demo store Mode.protocol (some (int (pos 4294967297))) new_context in
    (bad ≡ false) × Reads (pos 1) (get_mode demo store Mode.protocol w1).0
set_mode-get_mode_example =
    set_mode-get_mode demo store store-IsStore Mode.protocol (int (pos 4294967297)) (pos 4294967297)
      new_context (demo-IsEnumeration (class_of Mode.protocol)) refl refl refl refl
