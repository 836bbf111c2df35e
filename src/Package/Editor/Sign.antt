-- ===== src/Package/Editor/Sign.antt =====
-- src/gpgme/editutil.py: `edit_sign`.
use Prim.Native.String.{String}
use pygpgme.Base.{ℕ, Bool, false, leb, Option, none, some, ◌++◌, if◌then◌else◌}
use pygpgme.Base.Int.{ℤ, pos, negsuc}
use pygpgme.Python.Value.{Text}
use pygpgme.Package.Editor.{
  codes, decimal, Outcome, yields, returns, fails, Generator, assertion, is,
}

pub record SignOptions : Type 0 where
  pub index : ℤ
  pub local : Bool
  pub norevoke : Bool
  pub expire : Bool
  pub check : ℤ

-- Where `edit_sign` waits: after its first `yield None`, and after its answers.
pub data SignPoint : Type 0 where
  at_menu at_selected at_question at_save at_close : SignPoint

unfoldable pub command : SignOptions → Text
command o =
    let plain = codes "sign" in
    let maybe_local = if o.local then codes "l" ++ plain else plain in
    if o.norevoke then codes "nr" ++ maybe_local else maybe_local

-- The body of the `while` loop: the answer to a question of the signing, which the loop waits after.
unfoldable pub answer : SignOptions → Option String → Outcome SignPoint
answer o args =
    if is "keyedit.sign_all.okay" args
    then yields (codes "Y\n") at_question
    else (if is "sign_uid.expire" args
        then yields ((if o.expire then codes "Y" else codes "N") ++ codes "\n") at_question
        else (if is "sign_uid.class" args
            then yields (decimal o.check ++ codes "\n") at_question
            else (if is "sign_uid.okay" args
                then yields (codes "Y\n") at_question
                else fails assertion)))

-- The rest of `edit_sign` from a point on, up to its next `yield`.
unfoldable pub sign_resume : SignOptions → SignPoint → Option String → Outcome SignPoint
unfolding answer
sign_resume o at_menu args =
    if is "keyedit.prompt" args
    then yields (codes "uid " ++ (decimal o.index ++ codes "\n")) at_selected
    else fails assertion
sign_resume o at_selected args =
    if is "keyedit.prompt" args
    then yields (command o ++ codes "\n") at_question
    else fails assertion
sign_resume o at_question args =
    if is "keyedit.prompt" args then yields (codes "quit\n") at_save else answer o args
sign_resume o at_save args =
    if is "keyedit.save.okay" args then yields (codes "Y\n") at_close else fails assertion
sign_resume o at_close args = returns

abbrev pub sign_generator : SignOptions → Generator SignPoint
sign_generator o = record { resume = sign_resume o }

-- An int between 0 and the bound.
up_to : ℕ → ℤ → Bool
up_to bound (pos n) = leb n bound
up_to bound (negsuc n) = false

-- `edit_sign` up to its first `yield`, for a key with as many user IDs; `none` is a `ValueError`.
unfoldable pub edit_sign : ℕ → SignOptions → Option SignPoint
unfolding up_to
edit_sign uids o =
    if up_to uids o.index then (if up_to 3 o.check then some at_menu else none) else none
