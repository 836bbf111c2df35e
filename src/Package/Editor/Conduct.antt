-- ===== src/Package/Editor/Conduct.antt =====
-- What a session of Context.edit with a generator comes to.
use Prim.Native.String.{String}
use pygpgme.Base.{
  ℕ, ◌≡◌, ◌≢◌, ◌⊎◌, inl, inr, refl, true, false, Option, none, some, List, [], ◌∷◌, Bool-cases,
}
use pygpgme.Base.Int.{ℤ, pos}
use pygpgme.Python.Value.{EnumName, Text, Exc, ExcType}
use pygpgme.Python.State.{Platform}
use pygpgme.Constants.Values.{IsEnumeration}
use pygpgme.Context.World.{World}
use pygpgme.Context.Callbacks.Leaves.{IsInside, Leaves}
use pygpgme.Package.Editor.{Outcome, yields, returns, fails, Generator}
use pygpgme.Package.Editor.Dialogue.{talk}
use pygpgme.Package.Editor.Wrapper.{Running, waiting, ended, quiet, one_of}
use pygpgme.Package.Editor.Session.{Event, put, one_status, session, questions}
use pygpgme.Package.Editor.Replies.{HasErrors, needs_none, session-go, session-stop}
use pygpgme.Package.Editor.Statuses.{
  Leaves-trans, Leaves-self, quiet_status, answered, refused, ready,
}

-- Whether the talk about the questions came to a point without an error, or broke off with one.
abbrev pub Conducts :
    {S C : Type 0}
    → (String → ℤ)
    → Generator S
    → S
    → List Event
    → ℕ × List Text × Running S × World C
    → Type 0
Conducts {S} number g p es r =
    ((p' : S) × (talk g (questions number es) p ≡ some (r.1, p')) × (r.0 ≡ 0) × (r.2 ≡ waiting p'))
    ⊎ ((talk g (questions number es) p ≡ none) × (r.0 ≢ 0) × (r.2 ≡ ended))

module _ {S C : Type 0} (number : String → ℤ) (g : Generator S) (status : ℕ) (args : Option String)
    (p : S) (es : List Event) (r : ℕ × List Text × Running S × World C) where
  Conducts-quiet :
      one_of number quiet (pos status) ≡ true
      → Conducts number g p es r
      → Conducts number g p ((status, args) ∷ es) r
  unfolding questions
  Conducts-quiet h c = rw h c

  Conducts-answer :
      (d : Text) (p1 : S)
      → one_of number quiet (pos status) ≡ false
      → g.resume p args ≡ yields d p1
      → Conducts number g p1 es r
      → Conducts number g p ((status, args) ∷ es) (r.0, d ∷ r.1, r.2, r.3)
  unfolding questions talk
  Conducts-answer d p1 h m (inl (p2, t, z, e)) = rw h (inl (p2, rw (m, t) refl, z, e))
  Conducts-answer d p1 h m (inr (t, z, e)) = rw h (inr (rw (m, t) refl, z, e))

  Conducts-refusal :
      (o : Outcome S)
      → one_of number quiet (pos status) ≡ false
      → g.resume p args ≡ o
      → (o ≡ returns) ⊎ ((k : ExcType) × (o ≡ fails k))
      → r.0 ≢ 0
      → r.2 ≡ ended
      → Conducts number g p ((status, args) ∷ es) r
  unfolding questions talk
  Conducts-refusal o h m (inl e) z gone = rw h (inr (rw (m, e) refl, z, gone))
  Conducts-refusal o h m (inr (k, e)) z gone = rw h (inr (rw (m, e) refl, z, gone))

module _ {S C : Type 0} (P : Platform) (macro : String → String → ℤ) (g : Generator S)
    (write : Text → Option Exc) (statuses : IsEnumeration P EnumName.status)
    (errors : HasErrors P macro) (accepts : (d : Text) → write d ≡ none) where
  abbrev Holds : List Event → S → World C → Type 0
  Holds es p w =
      let r = session P macro g write es (waiting p) w in
      Leaves w r.3 × Conducts (macro "GPGME_STATUS_") g p es r

  -- A status that the generator is sent, by how that ends.
  loud_holds :
      (status : ℕ) (args : Option String) (es : List Event) (p : S) (w : World C) (o : Outcome S)
      → IsInside w
      → w.py.exc ≡ none
      → needs_none P macro g write status ≡ false
      → g.resume p args ≡ o
      → ((p1 : S) → Holds es p1 (one_status P macro g write (status, args) (waiting p) w).3)
      → Holds ((status, args) ∷ es) p w
  loud_holds status args es p w (yields d p1) h q loud m later =
      let (a, b, c) = answered P macro g write statuses status args p p1 d w q (accepts d) loud m in
      let l = (ready P macro g write statuses (status, args) (waiting p) w h).0 in
      let (l1, ih) = later p1 in
      let rest =
        session P macro g write es (waiting p1)
          (one_status P macro g write (status, args) (waiting p) w).3 in
      rw
        (session-go P macro g write statuses (status, args) es (waiting p) (waiting p1) w (some d) a
          b c)
        (
          Leaves-trans l l1,
          Conducts-answer (macro "GPGME_STATUS_") g status args p es rest d p1 loud m ih,
        )
  loud_holds status args es p w returns h q loud m later =
      let (a, c) =
        refused P macro g write statuses status args p returns w errors q loud m (inl refl) in
      let one = one_status P macro g write (status, args) (waiting p) w in
      rw (session-stop P macro g write statuses (status, args) es (waiting p) w a) (
        (ready P macro g write statuses (status, args) (waiting p) w h).0,
        Conducts-refusal (macro "GPGME_STATUS_") g status args p es
            (one.0, put one.1 [], one.2, one.3) returns loud m (inl refl) a c,
      )
  loud_holds status args es p w (fails k) h q loud m later =
      let (a, c) =
        refused P macro g write statuses status args p (fails k) w errors q loud m
          (inr (k, refl)) in
      let one = one_status P macro g write (status, args) (waiting p) w in
      rw (session-stop P macro g write statuses (status, args) es (waiting p) w a) (
        (ready P macro g write statuses (status, args) (waiting p) w h).0,
        Conducts-refusal (macro "GPGME_STATUS_") g status args p es
            (one.0, put one.1 [], one.2, one.3) (fails k) loud m (inr (k, refl)) a c,
      )

  nothing_holds : (p : S) (w : World C) → IsInside w → w.py.exc ≡ none → Holds [] p w
  unfolding session questions talk
  nothing_holds p w h q = (Leaves-self w h q, inl (p, refl, refl, refl))

  -- A session of Context.edit, in which gpgme makes `pygpgme_edit_cb` call the `edit_callback` of a
  -- generator for one status after the other, leaves the interpreter, the locks, gpgme and the
  -- references as they were, with no exception pending. The generator is asked the questions alone,
  -- the statuses that need no answer left out: either it answers them all, then no error is reported
  -- and the texts written are its answers, or it refuses one, then an error is reported and it has
  -- ended. This holds where the writes succeed and the errors of the exceptions are not 0.
  pub session-Conducts :
      (es : List Event) (p : S) (w : World C)
      → IsInside w
      → w.py.exc ≡ none
      → let r = session P macro g write es (waiting p) w in
        Leaves w r.3 × Conducts (macro "GPGME_STATUS_") g p es r
  session-Conducts [] p w h q = nothing_holds p w h q
  session-Conducts ((status, args) ∷ es) p w h q =
      let (l, h1, q1) = ready P macro g write statuses (status, args) (waiting p) w h in
      let later = λ (p1 : S).
        session-Conducts es p1 (one_status P macro g write (status, args) (waiting p) w).3 h1 q1 in
      elim (Bool-cases (needs_none P macro g write status)) [
        | inl silent ↦
            let (a, b, c) =
              quiet_status P macro g write statuses status args (waiting p) w q silent in
            let rest =
              session P macro g write es (waiting p)
                (one_status P macro g write (status, args) (waiting p) w).3 in
            rw
              (session-go P macro g write statuses (status, args) es (waiting p) (waiting p) w none
                a b c)
              (
                Leaves-trans l (later p).0,
                Conducts-quiet (macro "GPGME_STATUS_") g status args p es rest silent (later p).1,
              )
        | inr loud ↦ loud_holds status args es p w (g.resume p args) h q loud refl later
      ]
