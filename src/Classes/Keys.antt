-- ===== src/Classes/Keys.antt =====
-- The tables of the classes of keys: lib/pygpgme-key.c and lib/pygpgme-keyiter.c.
use pygpgme.Base.{Bool, none, List, [], ◌∷◌, if◌then◌else◌}
use pygpgme.Module.State.{subkey, key_sig, user_id, key, key_iter}
use pygpgme.Keys.Getters.{SubkeyAttr, KeySigAttr, UserIdAttr, KeyFlag, KeyAttr}
use pygpgme.Classes.Spec.{
  of_subkey, of_key_sig, of_user_id, of_key_flag, of_key, key_sig_status, user_id_signatures,
  key_subkeys, key_uids, key_keylist_mode, GetSet, no_constructor, Slot, tp_init, tp_dealloc,
  tp_getset, tp_iter, tp_iternext, TypeSpec, hidden_flags,
}

abbrev pub subkey_getsets : List GetSet
subkey_getsets =
    ("revoked", of_subkey SubkeyAttr.revoked, none)
    ∷ ("expired", of_subkey SubkeyAttr.expired, none)
    ∷ ("disabled", of_subkey SubkeyAttr.disabled, none)
    ∷ ("invalid", of_subkey SubkeyAttr.invalid, none)
    ∷ ("can_encrypt", of_subkey SubkeyAttr.can_encrypt, none)
    ∷ ("can_sign", of_subkey SubkeyAttr.can_sign, none)
    ∷ ("can_certify", of_subkey SubkeyAttr.can_certify, none)
    ∷ ("secret", of_subkey SubkeyAttr.secret, none)
    ∷ ("can_authenticate", of_subkey SubkeyAttr.can_authenticate, none)
    ∷ ("pubkey_algo", of_subkey SubkeyAttr.pubkey_algo, none)
    ∷ ("length", of_subkey SubkeyAttr.length, none)
    ∷ ("keyid", of_subkey SubkeyAttr.keyid, none)
    ∷ ("fpr", of_subkey SubkeyAttr.fpr, none)
    ∷ ("timestamp", of_subkey SubkeyAttr.timestamp, none)
    ∷ ("expires", of_subkey SubkeyAttr.expires, none)
    ∷ []

abbrev pub key_sig_getsets : List GetSet
key_sig_getsets =
    ("revoked", of_key_sig KeySigAttr.revoked, none)
    ∷ ("expired", of_key_sig KeySigAttr.expired, none)
    ∷ ("invalid", of_key_sig KeySigAttr.invalid, none)
    ∷ ("exportable", of_key_sig KeySigAttr.exportable, none)
    ∷ ("pubkey_algo", of_key_sig KeySigAttr.pubkey_algo, none)
    ∷ ("keyid", of_key_sig KeySigAttr.keyid, none)
    ∷ ("timestamp", of_key_sig KeySigAttr.timestamp, none)
    ∷ ("expires", of_key_sig KeySigAttr.expires, none)
    ∷ ("status", key_sig_status, none)
    ∷ ("uid", of_key_sig KeySigAttr.uid, none)
    ∷ ("name", of_key_sig KeySigAttr.name, none)
    ∷ ("email", of_key_sig KeySigAttr.email, none)
    ∷ ("comment", of_key_sig KeySigAttr.comment, none)
    ∷ ("sig_class", of_key_sig KeySigAttr.sig_class, none)
    ∷ []

abbrev pub user_id_getsets : List GetSet
user_id_getsets =
    ("revoked", of_user_id UserIdAttr.revoked, none)
    ∷ ("invalid", of_user_id UserIdAttr.invalid, none)
    ∷ ("validity", of_user_id UserIdAttr.validity, none)
    ∷ ("uid", of_user_id UserIdAttr.uid, none)
    ∷ ("name", of_user_id UserIdAttr.name, none)
    ∷ ("email", of_user_id UserIdAttr.email, none)
    ∷ ("comment", of_user_id UserIdAttr.comment, none)
    ∷ ("signatures", user_id_signatures, none)
    ∷ []

abbrev pub key_getsets : List GetSet
key_getsets =
    ("revoked", of_key_flag KeyFlag.revoked, none)
    ∷ ("expired", of_key_flag KeyFlag.expired, none)
    ∷ ("disabled", of_key_flag KeyFlag.disabled, none)
    ∷ ("invalid", of_key_flag KeyFlag.invalid, none)
    ∷ ("can_encrypt", of_key_flag KeyFlag.can_encrypt, none)
    ∷ ("can_sign", of_key_flag KeyFlag.can_sign, none)
    ∷ ("can_certify", of_key_flag KeyFlag.can_certify, none)
    ∷ ("secret", of_key_flag KeyFlag.secret, none)
    ∷ ("can_authenticate", of_key_flag KeyFlag.can_authenticate, none)
    ∷ ("protocol", of_key KeyAttr.protocol, none)
    ∷ ("issuer_serial", of_key KeyAttr.issuer_serial, none)
    ∷ ("issuer_name", of_key KeyAttr.issuer_name, none)
    ∷ ("chain_id", of_key KeyAttr.chain_id, none)
    ∷ ("owner_trust", of_key KeyAttr.owner_trust, none)
    ∷ ("subkeys", key_subkeys, none)
    ∷ ("uids", key_uids, none)
    ∷ ("keylist_mode", key_keylist_mode, none)
    ∷ []

abbrev pub subkey_slots : Bool → List Slot
subkey_slots old =
    let rest = tp_dealloc subkey ∷ tp_getset subkey_getsets ∷ [] in
    if old then tp_init no_constructor ∷ rest else rest

abbrev pub subkey_spec : Bool → TypeSpec
subkey_spec old = record {
  name = "gpgme.Subkey";
  flags = hidden_flags old;
  slots = subkey_slots old;
}

abbrev pub key_sig_slots : Bool → List Slot
key_sig_slots old =
    let rest = tp_dealloc key_sig ∷ tp_getset key_sig_getsets ∷ [] in
    if old then tp_init no_constructor ∷ rest else rest

abbrev pub key_sig_spec : Bool → TypeSpec
key_sig_spec old = record {
  name = "gpgme.KeySig";
  flags = hidden_flags old;
  slots = key_sig_slots old;
}

abbrev pub user_id_slots : Bool → List Slot
user_id_slots old =
    let rest = tp_dealloc user_id ∷ tp_getset user_id_getsets ∷ [] in
    if old then tp_init no_constructor ∷ rest else rest

abbrev pub user_id_spec : Bool → TypeSpec
user_id_spec old = record {
  name = "gpgme.UserId";
  flags = hidden_flags old;
  slots = user_id_slots old;
}

abbrev pub key_slots : Bool → List Slot
key_slots old =
    let rest = tp_dealloc key ∷ tp_getset key_getsets ∷ [] in
    if old then tp_init no_constructor ∷ rest else rest

abbrev pub key_spec : Bool → TypeSpec
key_spec old = record { name = "gpgme.Key"; flags = hidden_flags old; slots = key_slots old }

abbrev pub keyiter_slots : Bool → List Slot
keyiter_slots old =
    let rest = tp_dealloc key_iter ∷ tp_iter ∷ tp_iternext ∷ [] in
    if old then tp_init no_constructor ∷ rest else rest

abbrev pub keyiter_spec : Bool → TypeSpec
keyiter_spec old = record {
  name = "gpgme.KeyIter";
  flags = hidden_flags old;
  slots = keyiter_slots old;
}
