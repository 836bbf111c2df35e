-- ===== src/Package/Editor/Tests.antt =====
-- Setting the ultimate trust, signing with one question, and a session that breaks off.
use Prim.Native.String.{String}
use text.Mathlib.Text as str
use pygpgme.Base.{
  ℕ, ◌≡◌, ◌↔◌, refl, true, false, Option, none, some, List, [], ◌∷◌, arith, if◌then◌else◌,
}
use pygpgme.Base.Int.{ℤ, pos}
use pygpgme.Python.Value.{EnumName, Text, Exc}
use pygpgme.Errors.Tests.{demo, demo-IsEnumeration}
use pygpgme.Context.World.{World}
use pygpgme.Context.Tests.{fresh}
use pygpgme.Context.Callbacks.Leaves.{Leaves}
use pygpgme.Package.Editor.{codes, decimal}
use pygpgme.Package.Editor.Trust as Trust
use pygpgme.Package.Editor.Sign as Sign
use pygpgme.Package.Editor.Wrapper.{waiting}
use pygpgme.Package.Editor.Dialogue.{talk, Turn, asked, said, TrustDialogue, SignDialogue}
use pygpgme.Package.Editor.TrustExact.{edit_trust-TrustDialogue}
use pygpgme.Package.Editor.SignExact.{edit_sign-SignDialogue}
use pygpgme.Package.Editor.Session.{Event, session}
use pygpgme.Package.Editor.Replies.{HasErrors}
use pygpgme.Package.Editor.Conduct.{Conducts, session-Conducts}

abbrev ultimate_questions : List (Option String)
ultimate_questions =
    some "keyedit.prompt"
    ∷ some "edit_ownertrust.value"
    ∷ some "edit_ownertrust.set_ultimate.okay"
    ∷ some "keyedit.prompt"
    ∷ some "keyedit.save.okay"
    ∷ []

abbrev ultimate_answers : List Text
ultimate_answers = codes "trust\n" ∷ codes "5\n" ∷ codes "Y\n" ∷ codes "quit\n" ∷ codes "Y\n" ∷ []

edit_trust-TrustDialogue_example :
    (talk (Trust.trust_generator (pos 5)) ultimate_questions Trust.TrustPoint.at_menu
      ≡ some (ultimate_answers, Trust.TrustPoint.at_close))
    ↔ ((ts : List Turn) × (asked ts ≡ ultimate_questions)
        × (said ts ≡ ultimate_answers)
        × TrustDialogue (pos 5) ts)
edit_trust-TrustDialogue_example =
    edit_trust-TrustDialogue (pos 5) ultimate_questions ultimate_answers

ultimate_talk :
    talk (Trust.trust_generator (pos 5)) ultimate_questions Trust.TrustPoint.at_menu
    ≡ some (ultimate_answers, Trust.TrustPoint.at_close)
unfolding talk Trust.trust_resume decimal
ultimate_talk = refl

abbrev local_options : Sign.SignOptions
local_options = record {
  index = pos 0;
  local = true;
  norevoke = true;
  expire = false;
  check = pos 3;
}

abbrev sign_questions : List (Option String)
sign_questions =
    some "keyedit.prompt"
    ∷ some "keyedit.prompt"
    ∷ some "sign_uid.class"
    ∷ some "keyedit.prompt"
    ∷ some "keyedit.save.okay"
    ∷ []

abbrev sign_answers : List Text
sign_answers = codes "uid 0\n" ∷ codes "nrlsign\n" ∷ codes "3\n" ∷ codes "quit\n" ∷ codes "Y\n" ∷ []

edit_sign-SignDialogue_example :
    (talk (Sign.sign_generator local_options) sign_questions Sign.SignPoint.at_menu
      ≡ some (sign_answers, Sign.SignPoint.at_close))
    ↔ ((ts : List Turn) × (asked ts ≡ sign_questions)
        × (said ts ≡ sign_answers)
        × SignDialogue local_options ts)
edit_sign-SignDialogue_example = edit_sign-SignDialogue local_options sign_questions sign_answers

sign_talk :
    talk (Sign.sign_generator local_options) sign_questions Sign.SignPoint.at_menu
    ≡ some (sign_answers, Sign.SignPoint.at_close)
unfolding talk Sign.sign_resume Sign.command decimal
sign_talk = refl

-- GOT_IT is 47, and the general error 1.
abbrev macros : String → String → ℤ
macros prefix name =
    if str.◌==◌ name "GOT_IT" then pos 47 else (if str.◌==◌ name "GENERAL" then pos 1 else pos 0)

macros-HasErrors : HasErrors demo macros
macros-HasErrors = record {
  general = λ e. ground (arith, e);
  unknown_general = λ e. ground (arith, e);
}

abbrev inside : World ℕ
inside = record fresh { gil = false; mutex = true; tstate = true }

abbrev events : List Event
events =
    (45, some "keyedit.prompt")
    ∷ (47, none)
    ∷ (45, some "edit_ownertrust.value")
    ∷ (45, some "keyedit.passwd")
    ∷ []

abbrev accept_all : Text → Option Exc
accept_all d = none

session-Conducts_example :
    let r =
      session demo macros
        (Trust.trust_generator (pos 3))
        accept_all
        events
        (waiting Trust.TrustPoint.at_menu)
        inside in
    Leaves inside r.3
    × Conducts
        (macros "GPGME_STATUS_")
        (Trust.trust_generator (pos 3))
        Trust.TrustPoint.at_menu
        events
        r
session-Conducts_example =
    session-Conducts demo macros (Trust.trust_generator (pos 3)) accept_all
      (demo-IsEnumeration EnumName.status) macros-HasErrors (λ d. refl) events
      Trust.TrustPoint.at_menu inside (record { released = refl; kept = refl }) refl
