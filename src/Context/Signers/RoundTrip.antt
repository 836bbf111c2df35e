-- ===== src/Context/Signers/RoundTrip.antt =====
-- What the attribute `signers` reads, and what it reads after it was set.
use mathlib.Core.Path.{subst}
use mathlib.Core.List.{append-nil, append_assoc}
use pygpgme.Base.{
  ℕ, ◌<◌, ◌≡◌, refl, ap, sym, ◌∙◌, true, false, not, ◌||◌, Option, none, some, List, [], ◌∷◌, ◌++◌,
  length, map, arith,
}
use pygpgme.Python.State.{Platform}
use pygpgme.Gpgme.Engine.{Engine}
use pygpgme.Context.World.{World, incref, lock_context, unlock_context}
use pygpgme.Context.Resources.{key_item, sequence}
use pygpgme.Context.Signers.{
  SignerStore, signers_from, unlocked, get_signers, add_signers, set_signers,
}
use pygpgme.Context.Signers.Listing.{IsSignerStore, GivesSigners, count, signers_from-GivesSigners}

module _ {C : Type 0} (P : Platform) (E : Engine C) (self : ℕ) (G : SignerStore C) (x : ℕ)
    (signers : C → List ℕ) (g : IsSignerStore G signers) where
  GivesSigners-unlocked :
      (keys : List ℕ) (w : World C) (r : Option (Option (List ℕ) × World C))
      → GivesSigners x keys w r
      → GivesSigners x keys w (unlocked P E self G r)
  unfolding unlocked unlock_context
  GivesSigners-unlocked keys w none h = h
  GivesSigners-unlocked keys w (some (none, w')) h = h
  GivesSigners-unlocked keys w (some (some l, w')) h = h

  -- Where gpgme enumerates a list of signers, the loop of `get_signers` ends within one round more than
  -- there are signers: with the tuple of these keys in order, each wrapper with a new reference on its
  -- key and the exception as it was; or with an exception and the references on keys as they were.
  pub get_signers-GivesSigners :
      (fuel : ℕ) (w : World C)
      → length (signers w.lib) < fuel
      → GivesSigners x (signers w.lib) w (get_signers P E self G fuel w)
  unfolding get_signers lock_context count
  get_signers-GivesSigners fuel w l =
      GivesSigners-unlocked (signers w.lib) w (signers_from P E self G fuel 0 [] (lock_context w)) (
        signers_from-GivesSigners P E self G x signers g [] (signers w.lib) w (lock_context w) fuel
          refl l refl (omega arith))

  add_signers_all :
      (keys : List ℕ) (w : World C)
      → let (bad, w1) = add_signers P E self G (map key_item keys) w in
        (bad ≡ false)
        × (signers w1.lib ≡ signers w.lib ++ keys)
        × (w1.py ≡ w.py)
        × (w1.keys ≡ w.keys)
  unfolding add_signers
  add_signers_all [] w = (refl, sym (append-nil (signers w.lib)), refl, refl)
  add_signers_all (k ∷ keys) w =
      let w1 : World C = record w { lib = G.add w.lib k } in
      let r = add_signers_all keys w1 in
      (
        r.0,
        r.1 ∙ (ap (λ l. l ++ keys) (g.added w.lib k) ∙ append_assoc (signers w.lib) (k ∷ []) keys),
        r.2,
        r.3,
      )

  -- A sequence of keys is set without an error, and where gpgme enumerates the signers that it was given
  -- the attribute then shows these keys in order, as far as its wrappers can be allocated, within
  -- one round more than there are keys.
  pub set_signers-get_signers :
      (o : ℕ) (keys : List ℕ) (fuel : ℕ) (w : World C)
      → length keys < fuel
      → let (bad, w1) = set_signers P E self G (some (sequence o (map key_item keys))) w in
        (bad ≡ false) × GivesSigners x keys w1 (get_signers P E self G fuel w1)
  unfolding set_signers
  set_signers-get_signers o keys fuel w l =
      let w0 : World C = record w {
        refs = incref o w.refs;
        mutex = true;
        broken = w.broken || (not w.gil || w.mutex);
        lib = G.clear w.lib;
      } in
      let loop = add_signers_all keys w0 in
      let w1 = (set_signers P E self G (some (sequence o (map key_item keys))) w).1 in
      let kept : signers w1.lib ≡ keys = loop.1 ∙ ap (λ k. k ++ keys) (g.cleared w.lib) in
      (
        loop.0,
        subst (λ ks. GivesSigners x ks w1 (get_signers P E self G fuel w1)) kept
            (get_signers-GivesSigners fuel w1 (omega (arith, ap length kept))),
      )
