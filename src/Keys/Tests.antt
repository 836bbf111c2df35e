-- ===== src/Keys/Tests.antt =====
-- A key with two subkeys and a user ID, and programs that use keys.
use pygpgme.Base.{ℕ, ◌<◌, ◌≡◌, ◌≢◌, refl, none, some, true, false, [], ◌∷◌, arith}
use pygpgme.Base.Int.{pos}
use pygpgme.Context.World.{World, same, incref, decref}
use pygpgme.Context.Tests.{fresh}
use pygpgme.Errors.Tests.{idle}
use pygpgme.Gpgme.Keys.{SubkeyRaw, KeySigRaw, UserIdRaw, KeyRaw}
use pygpgme.Keys.Parts.{key_get_subkeys, key_get_uids, user_id_get_signatures}
use pygpgme.Keys.References.{GivesParts, getters-GivesParts}
use pygpgme.Keys.Heap.{
  Heap, new_key, new_part, drop_object, drop_from, Reach, here, step, make_key, make_part, release,
  start,
}
use pygpgme.Keys.Safety.{KeyOf, held_has_key, none_held_released}

abbrev main : SubkeyRaw
main = record {
  revoked = 0;
  expired = 0;
  disabled = 0;
  invalid = 0;
  can_encrypt = 1;
  can_sign = 1;
  can_certify = 1;
  secret = 0;
  can_authenticate = 0;
  pubkey_algo = 1;
  length = 2048;
  keyid = some (65 ∷ 66 ∷ []);
  fpr = none;
  timestamp = pos 1200000000;
  expires = pos 0;
}

abbrev self_sig : KeySigRaw
self_sig = record {
  revoked = 0;
  expired = 0;
  invalid = 0;
  exportable = 1;
  pubkey_algo = 200;
  keyid = some (65 ∷ 66 ∷ []);
  timestamp = pos 1200000000;
  expires = pos 0;
  status = 0;
  uid = some (97 ∷ []);
  name = none;
  email = none;
  comment = none;
  sig_class = 19;
}

abbrev owner : UserIdRaw
owner = record {
  revoked = 0;
  invalid = 0;
  validity = 4;
  uid = some (97 ∷ []);
  name = some (97 ∷ []);
  email = none;
  comment = none;
  signatures = self_sig ∷ [];
}

abbrev whole : KeyRaw
whole = record {
  revoked = 0;
  expired = 0;
  disabled = 0;
  invalid = 0;
  can_encrypt = 1;
  can_sign = 1;
  can_certify = 1;
  secret = 0;
  can_authenticate = 0;
  protocol = 0;
  issuer_serial = none;
  issuer_name = none;
  chain_id = none;
  owner_trust = 5;
  keylist_mode = 1;
  subkeys = main ∷ main ∷ [];
  uids = owner ∷ [];
}

-- The second item cannot be allocated.
abbrev short : World ℕ
short = record fresh { py = record idle { mem = true ∷ true ∷ false ∷ [] } }

getters-GivesParts_example :
    GivesParts 3 3 whole.subkeys short (key_get_subkeys 3 whole short)
    × GivesParts 3 3 whole.uids short (key_get_uids 3 whole short)
    × GivesParts 3 3 owner.signatures short (user_id_get_signatures 3 owner short)
getters-GivesParts_example = getters-GivesParts 3 3 whole owner short

-- A program makes the object 0 for the key 7, takes a part of it, the object 1, and drops the first.
abbrev others : ℕ → ℕ
others k = 0

abbrev with_part : Heap
with_part = new_part 0 (new_key 7 (start others))

abbrev first_held : ℕ → ℕ
first_held = incref 1 (incref 0 (λ o. 0))

-- The key object is released while its part is still held, and then the part.
part_left : Reach others (drop_object 0 with_part) (decref 0 first_held)
unfolding new_key same
part_left =
    step
      (step (step here (make_key (start others) (λ o. 0) 7))
        (make_part (new_key 7 (start others)) (incref 0 (λ o. 0)) 0 (omega arith)))
      (release with_part first_held 0 (omega arith))

part_released :
    Reach others (drop_object 1 (drop_object 0 with_part)) (decref 1 (decref 0 first_held))
unfolding same
part_released =
    step part_left (release (drop_object 0 with_part) (decref 0 first_held) 1 (omega arith))

held_has_key_example :
    ((drop_object 0 with_part).body 1 ≢ none)
    × (k : ℕ) × KeyOf (drop_object 0 with_part) 1 k
    × (others k < (drop_object 0 with_part).keys k)
unfolding same
held_has_key_example = held_has_key others part_left 1 (omega arith)

none_held_released_example :
    ((o : ℕ) → (drop_object 1 (drop_object 0 with_part)).body o ≡ none)
    × ((k : ℕ) → (drop_object 1 (drop_object 0 with_part)).keys k ≡ others k)
none_held_released_example = none_held_released others part_released (λ o. omega arith)

key_counts :
    ((drop_object 0 with_part).keys 7 ≡ 1) × ((drop_object 1 (drop_object 0 with_part)).keys 7 ≡ 0)
unfolding drop_from new_part new_key same
key_counts = (refl, refl)
