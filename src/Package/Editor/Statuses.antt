-- ===== src/Package/Editor/Statuses.antt =====
-- What one status of gpg leads to in a session of Context.edit.
use Prim.Native.String.{String}
use pygpgme.Base.{
  ℕ, ◌≡◌, ◌≢◌, ◌⊎◌, inl, inr, refl, ap, sym, ◌∙◌, true, false, Option, none, some, arith,
}
use pygpgme.Base.Int.{ℤ}
use pygpgme.Python.Value.{EnumName, Text, Exc, ExcType}
use pygpgme.Python.State.{Platform}
use pygpgme.Constants.Values.{IsEnumeration}
use pygpgme.Errors.Convert.{check_pyerror}
use pygpgme.Context.World.{World}
use pygpgme.Context.Callbacks.Leaves.{IsInside, Leaves}
use pygpgme.Package.Editor.{Outcome, yields, returns, fails, Generator}
use pygpgme.Package.Editor.Wrapper.{Running, waiting, ended, Called, sent, send}
use pygpgme.Package.Editor.Session.{Event, pending, one_status}
use pygpgme.Package.Editor.Replies.{
  HasErrors, no_error, ended_error, failed_error, needs_none, reply_quiet, reply_loud,
  one_status-reply, one_status-Leaves,
}

pub Leaves-trans : {C : Type 0} {w w1 w2 : World C} → Leaves w w1 → Leaves w1 w2 → Leaves w w2
Leaves-trans a b = ground arith

Leaves-IsInside : {C : Type 0} {w w1 : World C} → Leaves w w1 → IsInside w1
Leaves-IsInside a = ground arith

pub Leaves-self : {C : Type 0} (w : World C) → IsInside w → w.py.exc ≡ none → Leaves w w
Leaves-self w h q = ground arith

module _ {S C : Type 0} (P : Platform) (macro : String → String → ℤ) (g : Generator S)
    (write : Text → Option Exc) (statuses : IsEnumeration P EnumName.status) where
  -- A status that needs no answer.
  pub quiet_status :
      (status : ℕ) (args : Option String) (gen : Running S) (w : World C)
      → w.py.exc ≡ none
      → needs_none P macro g write status ≡ true
      → let one = one_status P macro g write (status, args) gen w in
        (one.0 ≡ 0) × (one.1 ≡ none) × (one.2 ≡ gen)
  quiet_status status args gen w q h =
      let (a, b, c) = one_status-reply P macro g write statuses status args gen w q in
      let e = reply_quiet P macro g write status args gen h in
      (
        a
            ∙ ap (λ (r : Called S). (check_pyerror P (pending r.raises w.py)).0) e
            ∙ no_error P macro w.py q,
        b ∙ ap (λ (r : Called S). r.written) e,
        c ∙ ap (λ (r : Called S). r.after) e,
      )

  -- Another status is sent to the generator.
  loud_status :
      (status : ℕ) (args : Option String) (p : S) (o : Outcome S) (w : World C)
      → w.py.exc ≡ none
      → needs_none P macro g write status ≡ false
      → g.resume p args ≡ o
      → let one = one_status P macro g write (status, args) (waiting p) w in
        let r = sent macro g write o in
        (one.0 ≡ (check_pyerror P (pending r.raises w.py)).0)
        × (one.1 ≡ r.written)
        × (one.2 ≡ r.after)
  unfolding send
  loud_status status args p o w q h m =
      let (a, b, c) = one_status-reply P macro g write statuses status args (waiting p) w q in
      let e = reply_loud P macro g write status args (waiting p) h ∙ ap (sent macro g write) m in
      (
        a ∙ ap (λ (r : Called S). (check_pyerror P (pending r.raises w.py)).0) e,
        b ∙ ap (λ (r : Called S). r.written) e,
        c ∙ ap (λ (r : Called S). r.after) e,
      )

  pub answered :
      (status : ℕ) (args : Option String) (p p1 : S) (d : Text) (w : World C)
      → w.py.exc ≡ none
      → write d ≡ none
      → needs_none P macro g write status ≡ false
      → g.resume p args ≡ yields d p1
      → let one = one_status P macro g write (status, args) (waiting p) w in
        (one.0 ≡ 0) × (one.1 ≡ some d) × (one.2 ≡ waiting p1)
  unfolding sent
  answered status args p p1 d w q accepts h m =
      let (a, b, c) = loud_status status args p (yields d p1) w q h m in
      (a ∙ (rw accepts (no_error P macro w.py q)), b ∙ (rw accepts refl), c)

  pub refused :
      (status : ℕ) (args : Option String) (p : S) (o : Outcome S) (w : World C)
      → HasErrors P macro
      → w.py.exc ≡ none
      → needs_none P macro g write status ≡ false
      → g.resume p args ≡ o
      → (o ≡ returns) ⊎ ((k : ExcType) × (o ≡ fails k))
      → let one = one_status P macro g write (status, args) (waiting p) w in
        (one.0 ≢ 0) × (one.2 ≡ ended)
  unfolding sent
  refused status args p o w errors q h m (inl e) =
      let (a, b, c) = loud_status status args p returns w q h (m ∙ e) in
      (λ z. ended_error P macro w.py errors (sym a ∙ z), c)
  refused status args p o w errors q h m (inr (k, e)) =
      let (a, b, c) = loud_status status args p (fails k) w q h (m ∙ e) in
      (λ z. failed_error P macro w.py k errors (sym a ∙ z), c)

  -- The state of the world after a status, for the next one.
  pub ready :
      (e : Event) (gen : Running S) (w : World C)
      → IsInside w
      → let w1 = (one_status P macro g write e gen w).3 in
        Leaves w w1 × IsInside w1 × (w1.py.exc ≡ none)
  ready e gen w h =
      let l = one_status-Leaves P macro g write statuses e gen w h in
      (l, Leaves-IsInside l, l.no_exc)
