-- ===== src/Package/Editor/Talks.antt =====
-- A talk that ends, taken apart at its first question.
use mathlib.Core.Path.{subst}
use Prim.Native.String.{String}
use text.Mathlib.TextEquality.{eq_iff}
use pygpgme.Base.{
  ◌≡◌, ◌≢◌, refl, ap, sym, ◌∙◌, ◌⊎◌, inl, inr, Bool-cases, true, if◌then◌else◌, Option, none, some,
  List, [], ◌∷◌, arith,
}
use pygpgme.Python.Value.{Text, ExcType}
use pygpgme.Package.Editor.{Outcome, yields, returns, fails, Generator, is}
use pygpgme.Package.Editor.Dialogue.{and_then, talk, Turn, asked, said}

pub is-eq : (s : String) (q : Option String) → is s q ≡ true → q ≡ some s
is-eq s none h = cc
is-eq s (some t) h = ap some ((eq_iff t s).0 h)

-- The turns of a generator from a point to another.
pub data Walk {S : Type 0} (g : Generator S) (e : S) : S → List Turn → Type 0 where
  stop : Walk g e e []
  go :
      {p : S} {q : Option String} {d : Text} {ts : List Turn} (p' : S)
      → g.resume p q ≡ yields d p'
      → Walk g e p' ts
      → Walk g e p ((q, d) ∷ ts)

module _ {S : Type 0} (g : Generator S) (e : S) where
  -- A walk's first turn, and where it leads.
  pub record First (p : S) (ts : List Turn) : Type 0 where
    pub question : Option String
    pub answer : Text
    pub rest : List Turn
    pub point : S
    pub turns : ts ≡ (question, answer) ∷ rest
    pub resumed : g.resume p question ≡ yields answer point
    pub later : Walk g e point rest

  pub Walk-First : {p : S} {ts : List Turn} → Walk g e p ts → ((ts ≡ []) × (p ≡ e)) ⊎ First p ts
  Walk-First stop = inl (refl, refl)
  Walk-First (go p' r w) = inr record {
    question = _;
    answer = _;
    rest = _;
    point = p';
    turns = refl;
    resumed = r;
    later = w;
  }

  pub Walk-talk : {p : S} {ts : List Turn} → Walk g e p ts → talk g (asked ts) p ≡ some (said ts, e)
  unfolding talk
  Walk-talk stop = refl
  Walk-talk (go p' r w) = rw r (rw (Walk-talk w) refl)

  -- The turns from a point that a talk is.
  abbrev pub Held : S → List (Option String) → List Text → Type 0
  Held p qs ds = (ts : List Turn) × (asked ts ≡ qs) × (said ts ≡ ds) × Walk g e p ts

  and_then-inv :
      (d : Text) (r : Option (List Text × S)) (ds : List Text)
      → and_then d r ≡ some (ds, e)
      → (later : List Text) × (ds ≡ d ∷ later) × (r ≡ some (later, e))
  and_then-inv d none ds h = absurd (ground arith)
  and_then-inv d (some (later, p)) ds h = (later, ground arith, ground arith)

  stop_at : (p : S) → p ≡ e → Walk g e p []
  stop_at p q = subst (λ x. Walk g e x []) (sym q) stop

  pub talk-Held :
      (qs : List (Option String)) (p : S) (ds : List Text)
      → talk g qs p ≡ some (ds, e)
      → Held p qs ds
  unfolding talk
  talk-Held [] p ds h = ([], refl, ground arith, stop_at p (ground arith))
  talk-Held (q ∷ qs) p ds h = by_outcome (g.resume p q) refl (talk-Held qs)
    where
      by_outcome :
          (o : Outcome S)
          → g.resume p q ≡ o
          → ((p' : S) (ds' : List Text) → talk g qs p' ≡ some (ds', e) → Held p' qs ds')
          → Held p (q ∷ qs) ds
      by_outcome (yields d p') r ih =
          let (later, t, rest) = and_then-inv d (talk g qs p') ds (ground (arith, h, r)) in
          let (ts, a, b, w) = ih p' later rest in
          ((q, d) ∷ ts, ap (λ x. q ∷ x) a, ap (λ x. d ∷ x) b ∙ sym t, go p' r w)
      by_outcome returns r ih = absurd (ground (arith, h, r))
      by_outcome (fails k) r ih = absurd (ground (arith, h, r))

-- The first turn of a walk that is not at its end, by what is known of the generator's answers.
pub turn_at :
    {S : Type 0} {g : Generator S} {e : S} (Next : S → Option String → Text → S → Type 0)
    → ((p : S) (q : Option String) (d : Text) (p' : S) → g.resume p q ≡ yields d p' → Next p q d p')
    → (p : S) (ts : List Turn) → p ≢ e
    → Walk g e p ts
    → (q : Option String) × (d : Text) × (p' : S) × (more : List Turn) × (ts ≡ (q, d) ∷ more)
      × Next p q d p'
      × Walk g e p' more
turn_at {g} {e} Next next p ts ne w = elim (Walk-First g e w) [
  | inl (none_left, m) ↦ absurd (ne m)
  | inr f ↦ (
    f.question,
    f.answer,
    f.point,
    f.rest,
    f.turns,
    next p f.question f.answer f.point f.resumed,
    f.later,
  )
]

-- A test of the question with its answer, else another outcome.
pub tested :
    {S : Type 0} (s : String) (q : Option String) (a d : Text) (x p : S) (other : Outcome S)
    → (if is s q then yields a x else other) ≡ yields d p
    → ((q ≡ some s) × (d ≡ a) × (p ≡ x)) ⊎ (other ≡ yields d p)
tested s q a d x p other h = elim (Bool-cases (is s q)) [
  | inl e ↦ inl (is-eq s q e, ground (arith, h, e), ground (arith, h, e))
  | inr e ↦ inr (ground (arith, h, e))
]

-- A test without which the generator fails.
pub demanded :
    {S : Type 0} (s : String) (q : Option String) (a d : Text) (x p : S) (k : ExcType)
    → (if is s q then yields a x else fails k) ≡ yields d p
    → (q ≡ some s) × (d ≡ a) × (p ≡ x)
demanded s q a d x p k h = elim (tested s q a d x p (fails k) h) [
  | inl r ↦ r
  | inr r ↦ absurd (ground (arith, r))
]
