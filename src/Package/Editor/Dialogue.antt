-- ===== src/Package/Editor/Dialogue.antt =====
-- The dialogues that the two generators hold, described without them.
use Prim.Native.String.{String}
use pygpgme.Base.{Option, none, some, List, [], ◌∷◌, ◌++◌, if◌then◌else◌}
use pygpgme.Base.Int.{ℤ}
use pygpgme.Python.Value.{Text}
use pygpgme.Package.Editor.{codes, decimal, yields, returns, fails, Generator}
use pygpgme.Package.Editor.Sign.{SignOptions, command}

module _ {S : Type 0} where
  -- An answer before the later ones.
  abbrev pub and_then : Text → Option (List Text × S) → Option (List Text × S)
  and_then d none = none
  and_then d (some (ds, p)) = some (d ∷ ds, p)

  -- The answers to a list of questions and the point after them; `none` where a question is refused.
  unfoldable pub talk : Generator S → List (Option String) → S → Option (List Text × S)
  talk g [] p = some ([], p)
  talk g (q ∷ qs) p = elim (g.resume p q) [
    | yields d p' ↦ and_then d (talk g qs p')
    | returns ↦ none
    | fails k ↦ none
  ]

-- A question with its answer.
abbrev pub Turn : Type 0
Turn = Option String × Text

abbrev pub asked : List Turn → List (Option String)
asked [] = []
asked ((q, d) ∷ rest) = q ∷ asked rest

abbrev pub said : List Turn → List Text
said [] = []
said ((q, d) ∷ rest) = d ∷ said rest

-- Saving the changes at the end, from the menu on.
abbrev pub closing : List Turn
closing = (some "keyedit.prompt", codes "quit\n") ∷ (some "keyedit.save.okay", codes "Y\n") ∷ []

-- Setting the trust: the menu, the value, which for some is to be confirmed, and the end.
pub data TrustDialogue (trust : ℤ) : List Turn → Type 0 where
  unconfirmed : TrustDialogue trust (
      (some "keyedit.prompt", codes "trust\n")
      ∷ (some "edit_ownertrust.value", decimal trust ++ codes "\n")
      ∷ closing)
  confirmed : TrustDialogue trust (
      (some "keyedit.prompt", codes "trust\n")
      ∷ (some "edit_ownertrust.value", decimal trust ++ codes "\n")
      ∷ (some "edit_ownertrust.set_ultimate.okay", codes "Y\n")
      ∷ closing)

-- What gpg asks while it signs.
pub data SignTurn (o : SignOptions) : Turn → Type 0 where
  sign_all : SignTurn o (some "keyedit.sign_all.okay", codes "Y\n")
  expire : SignTurn o (some "sign_uid.expire", (if o.expire then codes "Y\n" else codes "N\n"))
  class : SignTurn o (some "sign_uid.class", decimal o.check ++ codes "\n")
  okay : SignTurn o (some "sign_uid.okay", codes "Y\n")

-- Any number of these questions, then the end.
pub data SignTurns (o : SignOptions) : List Turn → Type 0 where
  done : SignTurns o closing
  turn : {t : Turn} {ts : List Turn} → SignTurn o t → SignTurns o ts → SignTurns o (t ∷ ts)

-- Signing: the user IDs are selected at the menu, then the command is given there.
pub data SignDialogue (o : SignOptions) : List Turn → Type 0 where
  signing :
      {ts : List Turn}
      → SignTurns o ts
      → SignDialogue o (
          (some "keyedit.prompt", codes "uid " ++ (decimal o.index ++ codes "\n"))
          ∷ (some "keyedit.prompt", command o ++ codes "\n")
          ∷ ts)
