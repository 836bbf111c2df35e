-- ===== src/Package/Editor/Trust.antt =====
-- src/gpgme/editutil.py: `edit_trust`.
use Prim.Native.String.{String}
use pygpgme.Base.{Bool, ◌||◌, Option, none, some, ◌++◌, if◌then◌else◌}
use pygpgme.Base.Int.{ℤ, int_eq}
use pygpgme.Package.Editor.{
  codes, decimal, Outcome, yields, returns, fails, Generator, assertion, is,
}

-- Where `edit_trust` waits: after its first `yield None`, and after each of its answers.
pub data TrustPoint : Type 0 where
  at_menu at_value at_confirmation at_end at_save at_close : TrustPoint

-- The test for the menu and the answer, which two paths lead to.
leave : Option String → Outcome TrustPoint
leave args = if is "keyedit.prompt" args then yields (codes "quit\n") at_save else fails assertion

-- The rest of `edit_trust` from a point on, up to its next `yield`.
unfoldable pub trust_resume : ℤ → TrustPoint → Option String → Outcome TrustPoint
unfolding leave
trust_resume trust at_menu args =
    if is "keyedit.prompt" args then yields (codes "trust\n") at_value else fails assertion
trust_resume trust at_value args =
    if is "edit_ownertrust.value" args
    then yields (decimal trust ++ codes "\n") at_confirmation
    else fails assertion
trust_resume trust at_confirmation args =
    if is "edit_ownertrust.set_ultimate.okay" args then yields (codes "Y\n") at_end else leave args
trust_resume trust at_end args = leave args
trust_resume trust at_save args =
    if is "keyedit.save.okay" args then yields (codes "Y\n") at_close else fails assertion
trust_resume trust at_close args = returns

abbrev pub trust_generator : ℤ → Generator TrustPoint
trust_generator trust = record { resume = trust_resume trust }

-- `trust in (...)`, where `validity` has the numbers of the members of `Validity`.
unfoldable pub is_trust : (String → ℤ) → ℤ → Bool
is_trust validity trust =
    int_eq trust (validity "UNDEFINED")
    || int_eq trust (validity "NEVER")
    || int_eq trust (validity "MARGINAL")
    || int_eq trust (validity "FULL")
    || int_eq trust (validity "ULTIMATE")

-- `edit_trust` up to its first `yield`; `none` is a `ValueError`.
unfoldable pub edit_trust : (String → ℤ) → ℤ → Option TrustPoint
edit_trust validity trust = if is_trust validity trust then some at_menu else none
