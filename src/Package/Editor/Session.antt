-- ===== src/Package/Editor/Session.antt =====
-- A session of Context.edit: gpgme calls `pygpgme_edit_cb` of lib/pygpgme-context.c for each status of gpg,
-- and that calls `edit_callback` of src/gpgme/editutil.py.
use Prim.Native.String.{String}
use pygpgme.Base.{ℕ, Option, none, some, List, [], ◌∷◌, ◌==◌, if◌then◌else◌}
use pygpgme.Base.Int.{ℤ, pos}
use pygpgme.Python.Value.{EnumName, Text, Value, Exc}
use pygpgme.Python.State.{Platform, PyState}
use pygpgme.Constants.Lookup.{enum_value_new}
use pygpgme.Context.World.{World}
use pygpgme.Context.Callbacks.{edit_cb}
use pygpgme.Package.Editor.{Generator}
use pygpgme.Package.Editor.Wrapper.{quiet, one_of, Running, Called, edit_callback}

-- A status of gpg with its arguments.
abbrev pub Event : Type 0
Event = ℕ × Option String

-- A Python function that returns, or raises.
abbrev pub pending : Option Exc → PyState → PyState
pending none s = s
pending (some e) s = record s { exc = some e }

-- A text that was written before the others.
abbrev pub put : Option Text → List Text → List Text
put none ds = ds
put (some d) ds = d ∷ ds

-- The questions among the events, by the numbers of the statuses.
unfoldable pub questions : (String → ℤ) → List Event → List (Option String)
questions number [] = []
questions number ((status, args) ∷ es) =
    if one_of number quiet (pos status) then questions number es else args ∷ questions number es

module _ {S : Type 0} (P : Platform) (macro : String → String → ℤ) (g : Generator S)
    (write : Text → Option Exc) where
  -- What the Python function does with the object for the status, if there is one.
  unfoldable pub called : Option Value → Option String → Running S → Called S
  called none args gen = record { raises = none; written = none; after = gen }
  called (some v) args gen = edit_callback macro g write v args gen

  module _ {C : Type 0} where
    -- One call of `pygpgme_edit_cb`: its result, what was written, the generator and the world.
    unfoldable pub one_status : Event → Running S → World C → ℕ × Option Text × Running S × World C
    unfolding called
    one_status (status, args) gen w =
        let (err, w1) =
          edit_cb P (λ v s. pending (edit_callback macro g write v args gen).raises s) status w in
        let r = called (enum_value_new P EnumName.status (pos status) w.py).0 args gen in
        (err, r.written, r.after, w1)

    -- gpgme ends the operation at the first error.
    unfoldable pub session : List Event → Running S → World C → ℕ × List Text × Running S × World C
    session [] gen w = (0, [], gen, w)
    session (e ∷ es) gen w =
        let (err, text, gen1, w1) = one_status e gen w in
        let rest = session es gen1 w1 in
        if err == 0 then (rest.0, put text rest.1, rest.2, rest.3) else (err, put text [], gen1, w1)
