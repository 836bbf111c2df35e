-- ===== src/Package/Editor/SignExact.antt =====
-- `edit_sign` holds exactly the dialogues of its description.
use mathlib.Core.Path.{subst}
use Prim.Native.String.{String}
use pygpgme.Base.{
  ◌≡◌, refl, ap, sym, ◌∙◌, ◌↔◌, ◌⊎◌, Option, some, List, [], ◌∷◌, ◌++◌, arith, if◌then◌else◌, inl,
  inr,
}
use pygpgme.Python.Value.{Text}
use pygpgme.Package.Editor.{codes, decimal, yields, assertion}
use pygpgme.Package.Editor.Sign.{
  SignOptions, SignPoint, at_menu, at_selected, at_question, at_save, at_close, command, answer,
  sign_resume, sign_generator,
}
use pygpgme.Package.Editor.Dialogue.{
  talk, Turn, asked, said, SignTurn, sign_all, expire, class, okay, SignTurns, done, turn,
  SignDialogue, signing,
}
use pygpgme.Package.Editor.Talks.{
  Walk, stop, go, Walk-First, Walk-talk, talk-Held, turn_at, tested, demanded,
}

module _ (o : SignOptions) where
  -- The answers at each point, by the question.
  abbrev Next : SignPoint → Option String → Text → SignPoint → Type 0
  Next at_menu q d p =
      (q ≡ some "keyedit.prompt")
      × (d ≡ codes "uid " ++ (decimal o.index ++ codes "\n"))
      × (p ≡ at_selected)
  Next at_selected q d p =
      (q ≡ some "keyedit.prompt") × (d ≡ command o ++ codes "\n") × (p ≡ at_question)
  Next at_question q d p =
      ((q ≡ some "keyedit.prompt") × (d ≡ codes "quit\n") × (p ≡ at_save))
      ⊎ (SignTurn o (q, d) × (p ≡ at_question))
  Next at_save q d p = (q ≡ some "keyedit.save.okay") × (d ≡ codes "Y\n") × (p ≡ at_close)
  Next at_close q d p = ⊥

  expire_text :
      (if o.expire then codes "Y" else codes "N") ++ codes "\n"
      ≡ (if o.expire then codes "Y\n" else codes "N\n")
  expire_text = ground arith

  as_turn :
      {q : Option String} {d a : Text} {p : SignPoint} (s : String)
      → SignTurn o (some s, a)
      → (q ≡ some s) × (d ≡ a) × (p ≡ at_question)
      → SignTurn o (q, d) × (p ≡ at_question)
  as_turn s t (e, f, m) = (rw (e, f) t, m)

  answer-Next :
      (q : Option String) (d : Text) (p : SignPoint)
      → answer o q ≡ yields d p
      → SignTurn o (q, d) × (p ≡ at_question)
  unfolding answer
  answer-Next q d p h = elim (tested "keyedit.sign_all.okay" q _ d _ p _ h) [
    | inl r ↦ as_turn _ sign_all r
    | inr h1 ↦ elim (tested "sign_uid.expire" q _ d _ p _ h1) [
      | inl r ↦ as_turn _ (rw expire_text expire) r
      | inr h2 ↦ elim (tested "sign_uid.class" q _ d _ p _ h2) [
        | inl r ↦ as_turn _ class r
        | inr h3 ↦ as_turn _ okay (demanded "sign_uid.okay" q _ d _ p assertion h3)
      ]
    ]
  ]

  resume-Next :
      (p : SignPoint) (q : Option String) (d : Text) (p' : SignPoint)
      → sign_resume o p q ≡ yields d p'
      → Next p q d p'
  unfolding sign_resume
  resume-Next at_menu q d p' h = demanded _ q _ d _ p' assertion h
  resume-Next at_selected q d p' h = demanded _ q _ d _ p' assertion h
  resume-Next at_question q d p' h = elim (tested _ q _ d _ p' _ h) [
    | inl r ↦ inl r
    | inr r ↦ inr (answer-Next q d p' r)
  ]
  resume-Next at_save q d p' h = demanded _ q _ d _ p' assertion h
  resume-Next at_close q d p' h = absurd (ground (arith, h))

  abbrev Rest : SignPoint → List Turn → Type 0
  Rest = Walk (sign_generator o) at_close

  close-Rest : (ts : List Turn) → Rest at_close ts → ts ≡ []
  close-Rest ts w = elim (Walk-First (sign_generator o) at_close w) [
    | inl (e, m) ↦ e
    | inr f ↦ absurd (resume-Next at_close f.question f.answer f.point f.resumed)
  ]

  save-Rest : (ts : List Turn) → Rest at_save ts → ts ≡ (some "keyedit.save.okay", codes "Y\n") ∷ []
  save-Rest ts w =
      let (q, d, p', more, e, (a, b, c), later) = turn_at Next resume-Next at_save ts (cc) w in
      let none_left = close-Rest more (subst (λ p. Rest p more) c later) in
      e ∙ (rw (a, b, none_left) refl)

  question-Rest : {p : SignPoint} {ts : List Turn} → p ≡ at_question → Rest p ts → SignTurns o ts
  question-Rest m stop = absurd (ground arith)
  question-Rest {p} m (go {q} {d} {ts} p' r w) =
      elim (resume-Next at_question q d p' (subst (λ x. sign_resume o x q ≡ yields d p') m r)) [
        | inl (a, b, c) ↦
            let left = save-Rest ts (subst (λ x. Rest x ts) c w) in rw (a, b, left) done
        | inr (t, c) ↦ turn t (question-Rest c w)
      ]

  menu-Rest : (ts : List Turn) → Rest at_menu ts → SignDialogue o ts
  menu-Rest ts w =
      let (q, d, p', more, e, (a, b, c), later) = turn_at Next resume-Next at_menu ts (cc) w in
      let (q1, d1, p1, more1, e1, (a1, b1, c1), later1) =
        turn_at Next resume-Next at_selected more (cc) (subst (λ p. Rest p more) c later) in
      subst (SignDialogue o) (sym (e ∙ (rw (a, b, e1, a1, b1) refl)))
        (signing (question-Rest c1 later1))

  turn_resumed :
      {q : Option String} {d : Text}
      → SignTurn o (q, d)
      → sign_resume o at_question q ≡ yields d at_question
  unfolding sign_resume answer
  turn_resumed sign_all = refl
  turn_resumed expire = ap (λ d. yields d at_question) expire_text
  turn_resumed class = refl
  turn_resumed okay = refl

  turns_walk : {ts : List Turn} → SignTurns o ts → Rest at_question ts
  unfolding sign_resume
  turns_walk done = go at_save refl (go at_close refl stop)
  turns_walk (turn {t} r ts) = go at_question (turn_resumed r) (turns_walk ts)

  dialogue_walk : {ts : List Turn} → SignDialogue o ts → Rest at_menu ts
  unfolding sign_resume
  dialogue_walk (signing ts) = go at_selected refl (go at_question refl (turns_walk ts))

  -- The questions and answers with which `edit_sign` comes to its end are exactly those of a dialogue
  -- that signs with these options: the selection of the user IDs, the command, then any number of the
  -- four questions of signing in any order, each with its answer, then quitting and saving.
  pub edit_sign-SignDialogue :
      (qs : List (Option String)) (ds : List Text)
      → (talk (sign_generator o) qs at_menu ≡ some (ds, at_close))
        ↔ ((ts : List Turn) × (asked ts ≡ qs) × (said ts ≡ ds) × SignDialogue o ts)
  edit_sign-SignDialogue qs ds = (
    λ h.
        let (ts, a, b, w) = talk-Held (sign_generator o) at_close qs at_menu ds h in
        (ts, a, b, menu-Rest ts w),
    λ (ts, a, b, dialogue).
        rw (← a, ← b) (Walk-talk (sign_generator o) at_close (dialogue_walk dialogue)),
  )
