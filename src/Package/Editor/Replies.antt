-- ===== src/Package/Editor/Replies.antt =====
-- What a status of gpg leads to in a session of Context.edit.
use Prim.Native.String.{String}
use pygpgme.Base.{
  ℕ, ◌≡◌, ◌≢◌, refl, ap, ◌∙◌, Bool, true, false, Option, none, some, List, [], ◌∷◌, ◌==◌,
  if◌then◌else◌, arith,
}
use pygpgme.Base.Int.{ℤ, pos, to_uint}
use pygpgme.Python.Value.{EnumName, Text, Value, as_int, Exc, ExcType}
use pygpgme.Python.State.{Platform, PyState, long_of, found, raises}
use pygpgme.Constants.Values.{IsEnumeration, enum_view, enum_value_new-eq_view}
use pygpgme.Errors.Convert.{check_pyerror, error_of}
use pygpgme.Context.World.{World}
use pygpgme.Context.Callbacks.{edit_call, edit_cb}
use pygpgme.Context.Callbacks.Leaves.{IsInside, Leaves, edit_cb-Leaves}
use pygpgme.Package.Editor.{Generator}
use pygpgme.Package.Editor.Wrapper.{
  quiet, one_of, is_quiet, Running, Called, send, edit_callback, no_more_answers, plain_exc,
}
use pygpgme.Package.Editor.Session.{Event, pending, put, one_status, session}

as_int-enum_view : (P : Platform) (t : EnumName) (z : ℤ) → as_int (enum_view P t z) ≡ some z
as_int-enum_view P t z =
    elim (P.enum_call t z)
      as (λ c. as_int (elim c [ found ↦ Value.member t z | raises k ↦ Value.int z ]) ≡ some z) [
        | found ↦ refl
        | raises k ↦ refl
      ]

-- The test of an object for a status is that of its number.
is_quiet-enum_view :
    (P : Platform) (number : String → ℤ) (t : EnumName) (z : ℤ)
    → is_quiet number (enum_view P t z) ≡ one_of number quiet z
unfolding is_quiet
is_quiet-enum_view P number t z =
    ap (λ o. elim o [ none ↦ false | some y ↦ one_of number quiet y ]) (as_int-enum_view P t z)

-- The general error and that of a GpgmeError(UNKNOWN, GENERAL) are errors.
pub record HasErrors (P : Platform) (macro : String → String → ℤ) : Type 0 where
  pub general : P.err_general ≢ 0
  pub unknown_general :
      P.err_make
        (to_uint (long_of (macro "GPG_ERR_SOURCE_" "UNKNOWN")))
        (to_uint (long_of (macro "GPG_ERR_" "GENERAL")))
      ≢ 0

plain_general : (P : Platform) (k : ExcType) → error_of P k (plain_exc k).args ≡ P.err_general
unfolding error_of
plain_general P ExcType.gpgme_error = refl
plain_general P ExcType.os_error = refl
plain_general P _ = refl

-- What `pygpgme_check_pyerror` makes of the exceptions of `edit_callback`.
module _ (P : Platform) (macro : String → String → ℤ) (s : PyState) where
  pub no_error : s.exc ≡ none → (check_pyerror P s).0 ≡ 0
  unfolding check_pyerror
  no_error q = ground (arith, q)

  pub ended_error :
      HasErrors P macro → (check_pyerror P (pending (some (no_more_answers macro)) s)).0 ≢ 0
  unfolding check_pyerror error_of
  ended_error h = h.unknown_general

  pub failed_error :
      (k : ExcType) → HasErrors P macro → (check_pyerror P (pending (some (plain_exc k)) s)).0 ≢ 0
  unfolding check_pyerror
  failed_error k h = rw (plain_general P k) h.general

module _ {S : Type 0} (P : Platform) (macro : String → String → ℤ) (g : Generator S)
    (write : Text → Option Exc) where
  -- What the Python function does for a status.
  abbrev pub reply : ℕ → Option String → Running S → Called S
  reply status args gen =
      edit_callback macro g write (enum_view P EnumName.status (pos status)) args gen

  abbrev pub needs_none : ℕ → Bool
  needs_none status = one_of (macro "GPGME_STATUS_") quiet (pos status)

  abbrev pub ignored : Running S → Called S
  ignored gen = record { raises = none; written = none; after = gen }

  pub reply_quiet :
      (status : ℕ) (args : Option String) (gen : Running S)
      → needs_none status ≡ true
      → reply status args gen ≡ ignored gen
  unfolding edit_callback
  reply_quiet status args gen h =
      let e = is_quiet-enum_view P (macro "GPGME_STATUS_") EnumName.status (pos status) ∙ h in
      ap (λ b. if b then ignored gen else send macro g write gen args) e

  pub reply_loud :
      (status : ℕ) (args : Option String) (gen : Running S)
      → needs_none status ≡ false
      → reply status args gen ≡ send macro g write gen args
  unfolding edit_callback
  reply_loud status args gen h =
      let e = is_quiet-enum_view P (macro "GPGME_STATUS_") EnumName.status (pos status) ∙ h in
      ap (λ b. if b then ignored gen else send macro g write gen args) e

  module _ {C : Type 0} (statuses : IsEnumeration P EnumName.status) where
    pub one_status-reply :
        (status : ℕ) (args : Option String) (gen : Running S) (w : World C)
        → w.py.exc ≡ none
        → let (err, text, gen1, w1) = one_status P macro g write (status, args) gen w in
          let r = reply status args gen in
          (err ≡ (check_pyerror P (pending r.raises w.py)).0)
          × (text ≡ r.written)
          × (gen1 ≡ r.after)
    unfolding one_status edit_cb edit_call
    one_status-reply status args gen w q =
        let e = enum_value_new-eq_view P EnumName.status (pos status) w.py statuses q in
        rw e (refl, refl, refl)

    pub one_status-Leaves :
        (e : Event) (gen : Running S) (w : World C)
        → IsInside w
        → Leaves w (one_status P macro g write e gen w).3
    unfolding one_status
    one_status-Leaves (status, args) gen w h =
        edit_cb-Leaves P w h (λ v s. pending (edit_callback macro g write v args gen).raises s)
          status

    -- A session goes on after a status without an error.
    pub session-go :
        (e : Event) (es : List Event) (gen gen1 : Running S) (w : World C) (t : Option Text)
        → let one = one_status P macro g write e gen w in
          (one.0 ≡ 0)
          → (one.1 ≡ t)
          → (one.2 ≡ gen1)
          → let rest = session P macro g write es gen1 one.3 in
            session P macro g write (e ∷ es) gen w ≡ (rest.0, put t rest.1, rest.2, rest.3)
    unfolding session
    session-go e es gen gen1 w t a b c = rw (a, b, c) refl

    pub session-stop :
        (e : Event) (es : List Event) (gen : Running S) (w : World C)
        → let one = one_status P macro g write e gen w in
          (one.0 ≢ 0) → session P macro g write (e ∷ es) gen w ≡ (one.0, put one.1 [], one.2, one.3)
    unfolding session
    session-stop e es gen w a =
        let loud : ((one_status P macro g write e gen w).0 == 0) ≡ false = ground arith in
        rw loud refl
