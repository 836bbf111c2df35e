-- ===== src/Context/Settings/Sender/Tests.antt =====
-- A gpgme that keeps a sender.
use pygpgme.Base.{◌≡◌, refl, true, false, Option, none, some, [], ◌∷◌}
use pygpgme.Python.Value.{Text, str}
use pygpgme.Errors.Tests.{demo, idle}
use pygpgme.Context.World.{World}
use pygpgme.Context.Settings.{Configuration, get_sender, set_sender}
use pygpgme.Context.Settings.Sender.{IsSenderStore, SenderIs, set_sender-get_sender}

abbrev pub keeping : Configuration (Option Text)
keeping = record {
  get_sender = λ c. c;
  set_sender = λ c a. (0, a);
  get_engine_info = λ c. [];
  set_engine_info = λ c protocol file home. (0, c);
  set_locale = λ c category value. (0, c);
}

keeping-IsSenderStore : IsSenderStore keeping (λ b. true)
keeping-IsSenderStore = record { unset = λ c ok. refl; kept = λ c b bare ok. refl }

abbrev pub unset : World (Option Text)
unset = record {
  py = idle;
  lib = none;
  gil = true;
  mutex = false;
  tstate = false;
  refs = λ x. 1;
  keys = λ k. 1;
  owned = 0;
  blocks = 0;
  broken = false;
}

ab-SenderIs : SenderIs demo (λ b. true) (str (97 ∷ 98 ∷ [])) (some (97 ∷ 98 ∷ []))
ab-SenderIs = (
  97 ∷ 98 ∷ [],
  refl,
  record { encoded = refl; decoded = refl; no_nul = (refl, (refl, tt)) },
  refl,
  refl,
)

set_sender-get_sender_example :
    let (failed, w1) = set_sender demo keeping (some (str (97 ∷ 98 ∷ []))) unset in
    let (sender, w2) = get_sender demo keeping w1 in
    (failed ≡ false)
    × (w1.mutex ≡ false)
    × (w1.py ≡ unset.py)
    × (sender ≡ some (str (97 ∷ 98 ∷ [])))
    × (w2.lib ≡ w1.lib)
    × (w2.mutex ≡ false)
set_sender-get_sender_example =
    set_sender-get_sender demo keeping (λ b. true) keeping-IsSenderStore (str (97 ∷ 98 ∷ []))
      (some (97 ∷ 98 ∷ [])) unset ab-SenderIs refl
