-- ===== src/Classes/Reach.antt =====
-- Every getter and every method of the extension is an attribute of its class.
use pygpgme.Base.{ℕ, ◌≡◌, refl, ap, ◌∙◌, Bool, true, false, some}
use pygpgme.Module.State.{TypeName}
use pygpgme.Keys.Getters.{SubkeyAttr, KeySigAttr, UserIdAttr, KeyFlag, KeyAttr}
use pygpgme.Classes.Spec.{
  ContextAttr, Getter, of_subkey, of_key_sig, of_user_id, of_key_flag, of_key, of_context,
  key_sig_status, user_id_signatures, key_subkeys, key_uids, key_keylist_mode, notation_flags,
  notation_human_readable, notation_critical, Method, is_old,
}
use pygpgme.Classes.Lookup.{spec_of, calls, property, entries, find, attribute}
use pygpgme.Classes.Names.{class_of, setter_of, getter_name, method_name}
use pygpgme.Classes.Interface.{entries_same}

-- The getter and its setter stand under its name in its class.
abbrev pub ReachesGetter : Bool → Getter → Type 0
ReachesGetter old g =
    attribute (spec_of old (class_of g)) (getter_name g) ≡ some (property g (setter_of g))

abbrev pub ReachesMethod : Bool → Method → Type 0
ReachesMethod old m = attribute (spec_of old TypeName.context) (method_name m) ≡ some (calls m)

getter-Reaches : (g : Getter) → ReachesGetter true g
unfolding spec_of entries find
getter-Reaches (of_subkey SubkeyAttr.revoked) = refl
getter-Reaches (of_subkey SubkeyAttr.expired) = refl
getter-Reaches (of_subkey SubkeyAttr.disabled) = refl
getter-Reaches (of_subkey SubkeyAttr.invalid) = refl
getter-Reaches (of_subkey SubkeyAttr.can_encrypt) = refl
getter-Reaches (of_subkey SubkeyAttr.can_sign) = refl
getter-Reaches (of_subkey SubkeyAttr.can_certify) = refl
getter-Reaches (of_subkey SubkeyAttr.secret) = refl
getter-Reaches (of_subkey SubkeyAttr.can_authenticate) = refl
getter-Reaches (of_subkey SubkeyAttr.pubkey_algo) = refl
getter-Reaches (of_subkey SubkeyAttr.length) = refl
getter-Reaches (of_subkey SubkeyAttr.keyid) = refl
getter-Reaches (of_subkey SubkeyAttr.fpr) = refl
getter-Reaches (of_subkey SubkeyAttr.timestamp) = refl
getter-Reaches (of_subkey SubkeyAttr.expires) = refl
getter-Reaches (of_key_sig KeySigAttr.revoked) = refl
getter-Reaches (of_key_sig KeySigAttr.expired) = refl
getter-Reaches (of_key_sig KeySigAttr.invalid) = refl
getter-Reaches (of_key_sig KeySigAttr.exportable) = refl
getter-Reaches (of_key_sig KeySigAttr.pubkey_algo) = refl
getter-Reaches (of_key_sig KeySigAttr.keyid) = refl
getter-Reaches (of_key_sig KeySigAttr.timestamp) = refl
getter-Reaches (of_key_sig KeySigAttr.expires) = refl
getter-Reaches (of_key_sig KeySigAttr.uid) = refl
getter-Reaches (of_key_sig KeySigAttr.name) = refl
getter-Reaches (of_key_sig KeySigAttr.email) = refl
getter-Reaches (of_key_sig KeySigAttr.comment) = refl
getter-Reaches (of_key_sig KeySigAttr.sig_class) = refl
getter-Reaches (of_user_id UserIdAttr.revoked) = refl
getter-Reaches (of_user_id UserIdAttr.invalid) = refl
getter-Reaches (of_user_id UserIdAttr.validity) = refl
getter-Reaches (of_user_id UserIdAttr.uid) = refl
getter-Reaches (of_user_id UserIdAttr.name) = refl
getter-Reaches (of_user_id UserIdAttr.email) = refl
getter-Reaches (of_user_id UserIdAttr.comment) = refl
getter-Reaches (of_key_flag KeyFlag.revoked) = refl
getter-Reaches (of_key_flag KeyFlag.expired) = refl
getter-Reaches (of_key_flag KeyFlag.disabled) = refl
getter-Reaches (of_key_flag KeyFlag.invalid) = refl
getter-Reaches (of_key_flag KeyFlag.can_encrypt) = refl
getter-Reaches (of_key_flag KeyFlag.can_sign) = refl
getter-Reaches (of_key_flag KeyFlag.can_certify) = refl
getter-Reaches (of_key_flag KeyFlag.secret) = refl
getter-Reaches (of_key_flag KeyFlag.can_authenticate) = refl
getter-Reaches (of_key KeyAttr.protocol) = refl
getter-Reaches (of_key KeyAttr.issuer_serial) = refl
getter-Reaches (of_key KeyAttr.issuer_name) = refl
getter-Reaches (of_key KeyAttr.chain_id) = refl
getter-Reaches (of_key KeyAttr.owner_trust) = refl
getter-Reaches (of_context ContextAttr.protocol) = refl
getter-Reaches (of_context ContextAttr.armor) = refl
getter-Reaches (of_context ContextAttr.textmode) = refl
getter-Reaches (of_context ContextAttr.offline) = refl
getter-Reaches (of_context ContextAttr.include_certs) = refl
getter-Reaches (of_context ContextAttr.keylist_mode) = refl
getter-Reaches (of_context ContextAttr.pinentry_mode) = refl
getter-Reaches (of_context ContextAttr.passphrase_cb) = refl
getter-Reaches (of_context ContextAttr.progress_cb) = refl
getter-Reaches (of_context ContextAttr.signers) = refl
getter-Reaches (of_context ContextAttr.sig_notations) = refl
getter-Reaches (of_context ContextAttr.sender) = refl
getter-Reaches key_sig_status = refl
getter-Reaches user_id_signatures = refl
getter-Reaches key_subkeys = refl
getter-Reaches key_uids = refl
getter-Reaches key_keylist_mode = refl
getter-Reaches notation_flags = refl
getter-Reaches notation_human_readable = refl
getter-Reaches notation_critical = refl

method-Reaches : (m : Method) → ReachesMethod true m
unfolding spec_of entries find
method-Reaches Method.get_engine_info = refl
method-Reaches Method.set_engine_info = refl
method-Reaches Method.set_locale = refl
method-Reaches Method.get_key = refl
method-Reaches Method.encrypt = refl
method-Reaches Method.encrypt_sign = refl
method-Reaches Method.decrypt = refl
method-Reaches Method.decrypt_verify = refl
method-Reaches Method.sign = refl
method-Reaches Method.verify = refl
method-Reaches Method.import_ = refl
method-Reaches Method.import_keys = refl
method-Reaches Method.export = refl
method-Reaches Method.export_keys = refl
method-Reaches Method.genkey = refl
method-Reaches Method.delete = refl
method-Reaches Method.edit = refl
method-Reaches Method.card_edit = refl
method-Reaches Method.keylist = refl

getter-any : (old : Bool) (g : Getter) → ReachesGetter old g
getter-any true g = getter-Reaches g
getter-any false g = ap (find (getter_name g)) (entries_same (class_of g)) ∙ getter-Reaches g

method-any : (old : Bool) (m : Method) → ReachesMethod old m
method-any true m = method-Reaches m
method-any false m = ap (find (method_name m)) (entries_same TypeName.context) ∙ method-Reaches m

-- With every version of Python, each getter is the attribute of its own name of its class, each getter of
-- Context with the setter that belongs to it and every other with none, and each method of Context is
-- the attribute of its own name of Context.
pub attributes-Reaches :
    (version : ℕ) (g : Getter) (m : Method)
    → ReachesGetter (is_old version) g × ReachesMethod (is_old version) m
attributes-Reaches version g m = (getter-any (is_old version) g, method-any (is_old version) m)
