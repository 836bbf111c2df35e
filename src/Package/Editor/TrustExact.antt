-- ===== src/Package/Editor/TrustExact.antt =====
-- `edit_trust` holds exactly the dialogues of its description.
use mathlib.Core.Path.{subst}
use Prim.Native.String.{String}
use pygpgme.Base.{◌≡◌, refl, sym, ◌∙◌, ◌↔◌, ◌⊎◌, Option, some, List, [], ◌∷◌, ◌++◌, arith, inl, inr}
use pygpgme.Base.Int.{ℤ}
use pygpgme.Python.Value.{Text}
use pygpgme.Package.Editor.{codes, decimal, yields, assertion}
use pygpgme.Package.Editor.Trust.{
  TrustPoint, at_menu, at_value, at_confirmation, at_end, at_save, at_close, trust_resume,
  trust_generator,
}
use pygpgme.Package.Editor.Dialogue.{
  talk, Turn, asked, said, closing, TrustDialogue, unconfirmed, confirmed,
}
use pygpgme.Package.Editor.Talks.{
  Walk, stop, go, Walk-First, Walk-talk, talk-Held, turn_at, tested, demanded,
}

module _ (trust : ℤ) where
  -- The answers at each point, by the question.
  abbrev Next : TrustPoint → Option String → Text → TrustPoint → Type 0
  Next at_menu q d p = (q ≡ some "keyedit.prompt") × (d ≡ codes "trust\n") × (p ≡ at_value)
  Next at_value q d p =
      (q ≡ some "edit_ownertrust.value") × (d ≡ decimal trust ++ codes "\n") × (p ≡ at_confirmation)
  Next at_confirmation q d p =
      ((q ≡ some "edit_ownertrust.set_ultimate.okay") × (d ≡ codes "Y\n") × (p ≡ at_end))
      ⊎ ((q ≡ some "keyedit.prompt") × (d ≡ codes "quit\n") × (p ≡ at_save))
  Next at_end q d p = (q ≡ some "keyedit.prompt") × (d ≡ codes "quit\n") × (p ≡ at_save)
  Next at_save q d p = (q ≡ some "keyedit.save.okay") × (d ≡ codes "Y\n") × (p ≡ at_close)
  Next at_close q d p = ⊥

  resume-Next :
      (p : TrustPoint) (q : Option String) (d : Text) (p' : TrustPoint)
      → trust_resume trust p q ≡ yields d p'
      → Next p q d p'
  unfolding trust_resume
  resume-Next at_menu q d p' h = demanded _ q _ d _ p' assertion h
  resume-Next at_value q d p' h = demanded _ q _ d _ p' assertion h
  resume-Next at_confirmation q d p' h = elim (tested _ q _ d _ p' _ h) [
    | inl r ↦ inl r
    | inr r ↦ inr (demanded _ q _ d _ p' assertion r)
  ]
  resume-Next at_end q d p' h = demanded _ q _ d _ p' assertion h
  resume-Next at_save q d p' h = demanded _ q _ d _ p' assertion h
  resume-Next at_close q d p' h = absurd (ground (arith, h))

  abbrev Rest : TrustPoint → List Turn → Type 0
  Rest = Walk (trust_generator trust) at_close

  close-Rest : (ts : List Turn) → Rest at_close ts → ts ≡ []
  close-Rest ts w = elim (Walk-First (trust_generator trust) at_close w) [
    | inl (e, m) ↦ e
    | inr f ↦ absurd (resume-Next at_close f.question f.answer f.point f.resumed)
  ]

  save-Rest : (ts : List Turn) → Rest at_save ts → ts ≡ (some "keyedit.save.okay", codes "Y\n") ∷ []
  save-Rest ts w =
      let (q, d, p', more, e, (a, b, c), later) = turn_at Next resume-Next at_save ts (cc) w in
      let none_left = close-Rest more (subst (λ p. Rest p more) c later) in
      e ∙ (rw (a, b, none_left) refl)

  end-Rest : (ts : List Turn) → Rest at_end ts → ts ≡ closing
  end-Rest ts w =
      let (q, d, p', more, e, (a, b, c), later) = turn_at Next resume-Next at_end ts (cc) w in
      let saved = save-Rest more (subst (λ p. Rest p more) c later) in e ∙ (rw (a, b, saved) refl)

  confirmation-Rest :
      (ts : List Turn)
      → Rest at_confirmation ts
      → (ts ≡ closing) ⊎ (ts ≡ (some "edit_ownertrust.set_ultimate.okay", codes "Y\n") ∷ closing)
  confirmation-Rest ts w =
      let (q, d, p', more, e, next, later) = turn_at Next resume-Next at_confirmation ts (cc) w in
      elim next [
        | inl (a, b, c) ↦
            let left = end-Rest more (subst (λ p. Rest p more) c later) in
            inr (e ∙ (rw (a, b, left) refl))
        | inr (a, b, c) ↦
            let left = save-Rest more (subst (λ p. Rest p more) c later) in
            inl (e ∙ (rw (a, b, left) refl))
      ]

  menu-Rest : (ts : List Turn) → Rest at_menu ts → TrustDialogue trust ts
  menu-Rest ts w =
      let (q, d, p', more, e, (a, b, c), later) = turn_at Next resume-Next at_menu ts (cc) w in
      let (q1, d1, p1, more1, e1, (a1, b1, c1), later1) =
        turn_at Next resume-Next at_value more (cc) (subst (λ p. Rest p more) c later) in
      elim (confirmation-Rest more1 (subst (λ p. Rest p more1) c1 later1)) [
        | inl left ↦
            subst (TrustDialogue trust) (sym (e ∙ (rw (a, b, e1, a1, b1, left) refl))) unconfirmed
        | inr left ↦
            subst (TrustDialogue trust) (sym (e ∙ (rw (a, b, e1, a1, b1, left) refl))) confirmed
      ]

  dialogue_walk : {ts : List Turn} → TrustDialogue trust ts → Rest at_menu ts
  unfolding trust_resume
  dialogue_walk unconfirmed =
      go at_value refl (go at_confirmation refl (go at_save refl (go at_close refl stop)))
  dialogue_walk confirmed =
      go at_value refl
        (go at_confirmation refl (go at_end refl (go at_save refl (go at_close refl stop))))

  -- The questions and answers with which `edit_trust` comes to its end are exactly those of a dialogue
  -- that sets this trust: the menu, the value, a confirmation or none, then quitting and saving. Any
  -- other sequence of questions is refused, or leaves it waiting before its end.
  pub edit_trust-TrustDialogue :
      (qs : List (Option String)) (ds : List Text)
      → (talk (trust_generator trust) qs at_menu ≡ some (ds, at_close))
        ↔ ((ts : List Turn) × (asked ts ≡ qs) × (said ts ≡ ds) × TrustDialogue trust ts)
  edit_trust-TrustDialogue qs ds = (
    λ h.
        let (ts, a, b, w) = talk-Held (trust_generator trust) at_close qs at_menu ds h in
        (ts, a, b, menu-Rest ts w),
    λ (ts, a, b, dialogue).
        rw (← a, ← b) (Walk-talk (trust_generator trust) at_close (dialogue_walk dialogue)),
  )
