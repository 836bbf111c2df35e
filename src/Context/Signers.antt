-- ===== src/Context/Signers.antt =====
-- lib/pygpgme-context.c: the signers of a Context, `pygpgme_context_get_signers` and its setter.
pub mod Listing
pub mod RoundTrip
pub mod Tests
use pygpgme.Base.{ℕ, zero, suc, Bool, true, false, Option, none, some, List, [], ◌∷◌, ◌++◌}
use pygpgme.Python.Value.{type_error, attribute_error}
use pygpgme.Python.State.{Platform}
use pygpgme.Gpgme.Engine.{Engine}
use pygpgme.Context.World.{World, incref, decref, with_error, lock_context, unlock_context}
use pygpgme.Context.Resources.{Item, key_item, other_item, SeqArg, not_sequence, sequence}
use pygpgme.Context.Keyring.{wrap_key}

-- `gpgme_signers_clear`, `gpgme_signers_add`, whose error is not looked at, and `gpgme_signers_enum`,
-- which gives a key with a new reference, or `NULL` past the last one.
pub record SignerStore (C : Type 0) : Type 0 where
  pub clear : C → C
  pub add : C → ℕ → C
  pub enum : C → ℕ → Option ℕ

module _ {C : Type 0} (P : Platform) (E : Engine C) (self : ℕ) (G : SignerStore C) where
  -- The release of the list, with `pygpgme_key_dealloc` of each item.
  unfoldable pub keys_dealloc : List ℕ → World C → World C
  keys_dealloc [] w = w
  keys_dealloc (key ∷ rest) w = keys_dealloc rest (record w { keys = decref key w.keys })

  -- What is left of a round once `pygpgme_key_new` returned; `more` is the rest of the loop.
  unfoldable pub signer_item :
      (List ℕ → World C → Option (Option (List ℕ) × World C))
      → List ℕ
      → Option ℕ × World C
      → Option (Option (List ℕ) × World C)
  unfolding keys_dealloc
  signer_item more done (none, w) = some (none, keys_dealloc done w)
  signer_item more done (some k, w) = more (done ++ (k ∷ [])) w

  -- A round of the loop, once `gpgme_signers_enum` returned.
  unfoldable pub signer_next :
      (List ℕ → World C → Option (Option (List ℕ) × World C))
      → List ℕ
      → Option ℕ
      → World C
      → Option (Option (List ℕ) × World C)
  unfolding signer_item wrap_key
  signer_next more done none w = some (some done, w)
  signer_next more done (some key) w = signer_item more done (wrap_key P E self key w)

  -- The loop: its fuel, the next index, and the keys of the list so far. The outer `none` says that
  -- the fuel ran out, the inner one is `NULL`.
  unfoldable pub signers_from : ℕ → ℕ → List ℕ → World C → Option (Option (List ℕ) × World C)
  unfolding signer_next
  signers_from zero i done w = none
  signers_from (suc fuel) i done w = signer_next (signers_from fuel (suc i)) done (G.enum w.lib i) w

  unlocked : Option (Option (List ℕ) × World C) → Option (Option (List ℕ) × World C)
  unfolding unlock_context
  unlocked none = none
  unlocked (some (keys, w)) = some (keys, unlock_context w)

  -- `pygpgme_context_get_signers`
  unfoldable pub get_signers : ℕ → World C → Option (Option (List ℕ) × World C)
  unfolding lock_context signers_from unlocked
  get_signers fuel w = unlocked (signers_from fuel 0 [] (lock_context w))

  -- The loop of the setter; `true` is the result -1.
  unfoldable pub add_signers : List Item → World C → Bool × World C
  add_signers [] w = (false, w)
  add_signers (key_item k ∷ rest) w = add_signers rest (record w { lib = G.add w.lib k })
  add_signers (other_item ∷ rest) w = (true, with_error type_error w)

  -- `pygpgme_context_set_signers`; a value `none` is a deletion.
  unfoldable pub set_signers : Option SeqArg → World C → Bool × World C
  unfolding lock_context unlock_context add_signers
  set_signers none w = (true, with_error attribute_error w)
  set_signers (some not_sequence) w = (true, with_error type_error w)
  set_signers (some (sequence o items)) w =
      let w1 = lock_context (record w { refs = incref o w.refs }) in
      let (bad, w2) = add_signers items (record w1 { lib = G.clear w1.lib }) in
      let w3 = unlock_context w2 in (bad, record w3 { refs = decref o w3.refs })
