-- ===== src/Keys/Parts.antt =====
-- lib/pygpgme-key.c: the lists of a key's parts, whose items hold a reference on the object that
-- they come from.
use pygpgme.Base.{ℕ, Option, none, some, List, [], ◌∷◌, ◌++◌, if◌then◌else◌}
use pygpgme.Python.State.{new_object}
use pygpgme.Gpgme.Keys.{SubkeyRaw, KeySigRaw, UserIdRaw, KeyRaw}
use pygpgme.Context.World.{World, incref, decref}

-- `PyGpgmeSubkey`, `PyGpgmeUserId` and `PyGpgmeKeySig`: the C structure and the parent.
pub record Part (A : Type 0) : Type 0 where
  pub raw : A
  pub parent : ℕ

module _ {C : Type 0} {A : Type 0} where
  -- `pygpgme_subkey_dealloc`, `pygpgme_key_sig_dealloc` and `pygpgme_user_id_dealloc`, as far as the
  -- parent's references go.
  unfoldable pub part_dealloc : Part A → World C → World C
  part_dealloc p w = record w { refs = decref p.parent w.refs }

  -- The release of a list that holds the only references on its items.
  unfoldable pub list_dealloc : List (Part A) → World C → World C
  unfolding part_dealloc
  list_dealloc [] w = w
  list_dealloc (p ∷ rest) w = list_dealloc rest (part_dealloc p w)

  -- The loop over a C list, with the items so far; `self` is the object whose getter runs.
  unfoldable pub parts_from :
      ℕ → List (Part A) → List A → World C → Option (List (Part A)) × World C
  unfolding list_dealloc
  parts_from self done [] w = (some done, w)
  parts_from self done (raw ∷ rest) w =
      let (fits, s) = new_object w.py in
      let w1 : World C = record w { py = s } in
      let item : Part A = record { raw = raw; parent = self } in
      let next =
        parts_from self (done ++ (item ∷ [])) rest (record w1 { refs = incref self w1.refs }) in
      if fits then next else (none, list_dealloc done w1)

  -- `PyList_New(0)` and the loop.
  unfoldable pub parts_new : ℕ → List A → World C → Option (List (Part A)) × World C
  unfolding parts_from
  parts_new self raws w =
      let (fits, s) = new_object w.py in
      let w1 : World C = record w { py = s } in
      let list = parts_from self [] raws w1 in if fits then list else (none, w1)

module _ {C : Type 0} (self : ℕ) where
  -- `pygpgme_key_get_subkeys`
  unfoldable pub key_get_subkeys : KeyRaw → World C → Option (List (Part SubkeyRaw)) × World C
  unfolding parts_new
  key_get_subkeys key w = parts_new self key.subkeys w

  -- `pygpgme_key_get_uids`
  unfoldable pub key_get_uids : KeyRaw → World C → Option (List (Part UserIdRaw)) × World C
  unfolding parts_new
  key_get_uids key w = parts_new self key.uids w

  -- `pygpgme_user_id_get_signatures`
  unfoldable pub user_id_get_signatures :
      UserIdRaw → World C → Option (List (Part KeySigRaw)) × World C
  unfolding parts_new
  user_id_get_signatures uid w = parts_new self uid.signatures w
