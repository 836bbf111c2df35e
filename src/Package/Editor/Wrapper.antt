-- ===== src/Package/Editor/Wrapper.antt =====
-- src/gpgme/editutil.py: `key_editor`, its `edit_callback`, and the call of Context.edit.
use Prim.Native.String.{String}
use pygpgme.Base.{ℕ, Bool, false, ◌||◌, Option, none, some, List, [], ◌∷◌, if◌then◌else◌}
use pygpgme.Base.Int.{ℤ, int_eq}
use pygpgme.Python.Value.{
  EnumName, Text, Value, member, as_int, str, Exc, ExcType, gpgme_error, value_error,
}
use pygpgme.Python.State.{Platform}
use pygpgme.Gpgme.Engine.{Engine}
use pygpgme.Context.World.{World, with_error}
use pygpgme.Context.Keyring.{EditArgs, edit}
use pygpgme.Package.Editor.{Outcome, yields, returns, fails, Generator}

-- The statuses that need no answer.
abbrev pub quiet : List String
quiet =
    "EOF" ∷ "GOT_IT" ∷ "NEED_PASSPHRASE" ∷ "GOOD_PASSPHRASE" ∷ "BAD_PASSPHRASE" ∷ "USERID_HINT"
    ∷ "SIGEXPIRED" ∷ "KEYEXPIRED" ∷ "PROGRESS" ∷ "KEY_CREATED" ∷ "ALREADY_SIGNED" ∷ "KEY_CONSIDERED"
    ∷ []

-- The number is that of a member of the list.
unfoldable pub one_of : (String → ℤ) → List String → ℤ → Bool
one_of status [] z = false
one_of status (n ∷ rest) z = int_eq (status n) z || one_of status rest z

-- `status in (...)`, by the number of the object.
unfoldable pub is_quiet : (String → ℤ) → Value → Bool
unfolding one_of
is_quiet status v = elim (as_int v) [ none ↦ false | some z ↦ one_of status quiet z ]

-- A generator: waiting at a point, or ended by a return or an exception.
pub data Running (S : Type 0) : Type 0 where
  waiting : S → Running S
  ended : Running S

-- What a call of `edit_callback` does: the exception it raises, the text it writes to the file
-- descriptor, and the generator after it.
pub record Called (S : Type 0) : Type 0 where
  pub raises : Option Exc
  pub written : Option Text
  pub after : Running S

-- An exception with a message, whose wording is left out.
abbrev pub plain_exc : ExcType → Exc
plain_exc k = record { kind = k; args = some (str [] ∷ []); attrs = [] }

module _ (macro : String → String → ℤ) where
  -- `gpgme.GpgmeError(gpgme.ErrSource.UNKNOWN, gpgme.ErrCode.GENERAL)`
  abbrev pub no_more_answers : Exc
  no_more_answers = record {
    kind = gpgme_error;
    args = some (
        member EnumName.err_source (macro "GPG_ERR_SOURCE_" "UNKNOWN")
        ∷ member EnumName.err_code (macro "GPG_ERR_" "GENERAL")
        ∷ []);
    attrs = [];
  }

  module _ {S : Type 0} (g : Generator S) (write : Text → Option Exc) where
    -- What `gen.send` leads to; the outcome of `os.write` is `write`'s, its result is not looked at.
    unfoldable pub sent : Outcome S → Called S
    sent (yields d p) = record {
      raises = write d;
      written = elim (write d) [ none ↦ some d | some e ↦ none ];
      after = waiting p;
    }
    sent returns = record { raises = some no_more_answers; written = none; after = ended }
    sent (fails k) = record { raises = some (plain_exc k); written = none; after = ended }

    -- An ended generator answers `send` by `StopIteration`, as one that returns.
    unfoldable pub send : Running S → Option String → Called S
    unfolding sent
    send ended args = sent returns
    send (waiting p) args = sent (g.resume p args)

    -- `edit_callback`
    unfoldable pub edit_callback : Value → Option String → Running S → Called S
    unfolding is_quiet send
    edit_callback status args gen =
        if is_quiet (macro "GPGME_STATUS_") status
        then record { raises = none; written = none; after = gen }
        else send gen args

-- `wrapper` of a function that starts at the point, or raises a `ValueError`: `gen.__next__()`, then
-- `ctx.edit`. The `gen.close()` at the end changes nothing, as the generators catch no exception.
unfoldable pub wrapper :
    {C S : Type 0}
    → Platform
    → Engine C
    → ℕ
    → Option S
    → EditArgs
    → World C
    → Option (Unit {0}) × World C
unfolding edit
wrapper P E self none a w = (none, with_error value_error w)
wrapper P E self (some p) a w = edit P E self (some a) w
