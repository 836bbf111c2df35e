-- ===== src/Classes/Names.antt =====
-- The name of every getter and method, as the tables of lib/pygpgme-key.c, lib/pygpgme-context.c and
-- lib/pygpgme-signature.c have to spell it, with the class that it belongs to.
use Prim.Native.String.{String}
use pygpgme.Base.{◌≡◌, Option, none, some}
use pygpgme.Module.State.{TypeName}
use pygpgme.Keys.Getters.{SubkeyAttr, KeySigAttr, UserIdAttr, KeyFlag, KeyAttr}
use pygpgme.Classes.Spec.{
  ContextAttr, Getter, of_subkey, of_key_sig, of_user_id, of_key_flag, of_key, of_context,
  key_sig_status, user_id_signatures, key_subkeys, key_uids, key_keylist_mode, notation_flags,
  notation_human_readable, notation_critical, Method,
}
use pygpgme.Classes.Lookup.{Access, calls, shows, property}

-- The class whose objects a getter reads.
abbrev pub class_of : Getter → TypeName
class_of (of_subkey a) = TypeName.subkey
class_of (of_key_sig a) = TypeName.key_sig
class_of (of_user_id a) = TypeName.user_id
class_of (of_key_flag a) = TypeName.key
class_of (of_key a) = TypeName.key
class_of (of_context a) = TypeName.context
class_of key_sig_status = TypeName.key_sig
class_of user_id_signatures = TypeName.user_id
class_of key_subkeys = TypeName.key
class_of key_uids = TypeName.key
class_of key_keylist_mode = TypeName.key
class_of notation_flags = TypeName.sig_notation
class_of notation_human_readable = TypeName.sig_notation
class_of notation_critical = TypeName.sig_notation

-- The setter that belongs to a getter.
abbrev pub setter_of : Getter → Option ContextAttr
setter_of (of_context a) = some a
setter_of _ = none

abbrev pub getter_name : Getter → String
getter_name (of_subkey SubkeyAttr.revoked) = "revoked"
getter_name (of_subkey SubkeyAttr.expired) = "expired"
getter_name (of_subkey SubkeyAttr.disabled) = "disabled"
getter_name (of_subkey SubkeyAttr.invalid) = "invalid"
getter_name (of_subkey SubkeyAttr.can_encrypt) = "can_encrypt"
getter_name (of_subkey SubkeyAttr.can_sign) = "can_sign"
getter_name (of_subkey SubkeyAttr.can_certify) = "can_certify"
getter_name (of_subkey SubkeyAttr.secret) = "secret"
getter_name (of_subkey SubkeyAttr.can_authenticate) = "can_authenticate"
getter_name (of_subkey SubkeyAttr.pubkey_algo) = "pubkey_algo"
getter_name (of_subkey SubkeyAttr.length) = "length"
getter_name (of_subkey SubkeyAttr.keyid) = "keyid"
getter_name (of_subkey SubkeyAttr.fpr) = "fpr"
getter_name (of_subkey SubkeyAttr.timestamp) = "timestamp"
getter_name (of_subkey SubkeyAttr.expires) = "expires"
getter_name (of_key_sig KeySigAttr.revoked) = "revoked"
getter_name (of_key_sig KeySigAttr.expired) = "expired"
getter_name (of_key_sig KeySigAttr.invalid) = "invalid"
getter_name (of_key_sig KeySigAttr.exportable) = "exportable"
getter_name (of_key_sig KeySigAttr.pubkey_algo) = "pubkey_algo"
getter_name (of_key_sig KeySigAttr.keyid) = "keyid"
getter_name (of_key_sig KeySigAttr.timestamp) = "timestamp"
getter_name (of_key_sig KeySigAttr.expires) = "expires"
getter_name (of_key_sig KeySigAttr.uid) = "uid"
getter_name (of_key_sig KeySigAttr.name) = "name"
getter_name (of_key_sig KeySigAttr.email) = "email"
getter_name (of_key_sig KeySigAttr.comment) = "comment"
getter_name (of_key_sig KeySigAttr.sig_class) = "sig_class"
getter_name (of_user_id UserIdAttr.revoked) = "revoked"
getter_name (of_user_id UserIdAttr.invalid) = "invalid"
getter_name (of_user_id UserIdAttr.validity) = "validity"
getter_name (of_user_id UserIdAttr.uid) = "uid"
getter_name (of_user_id UserIdAttr.name) = "name"
getter_name (of_user_id UserIdAttr.email) = "email"
getter_name (of_user_id UserIdAttr.comment) = "comment"
getter_name (of_key_flag KeyFlag.revoked) = "revoked"
getter_name (of_key_flag KeyFlag.expired) = "expired"
getter_name (of_key_flag KeyFlag.disabled) = "disabled"
getter_name (of_key_flag KeyFlag.invalid) = "invalid"
getter_name (of_key_flag KeyFlag.can_encrypt) = "can_encrypt"
getter_name (of_key_flag KeyFlag.can_sign) = "can_sign"
getter_name (of_key_flag KeyFlag.can_certify) = "can_certify"
getter_name (of_key_flag KeyFlag.secret) = "secret"
getter_name (of_key_flag KeyFlag.can_authenticate) = "can_authenticate"
getter_name (of_key KeyAttr.protocol) = "protocol"
getter_name (of_key KeyAttr.issuer_serial) = "issuer_serial"
getter_name (of_key KeyAttr.issuer_name) = "issuer_name"
getter_name (of_key KeyAttr.chain_id) = "chain_id"
getter_name (of_key KeyAttr.owner_trust) = "owner_trust"
getter_name (of_context ContextAttr.protocol) = "protocol"
getter_name (of_context ContextAttr.armor) = "armor"
getter_name (of_context ContextAttr.textmode) = "textmode"
getter_name (of_context ContextAttr.offline) = "offline"
getter_name (of_context ContextAttr.include_certs) = "include_certs"
getter_name (of_context ContextAttr.keylist_mode) = "keylist_mode"
getter_name (of_context ContextAttr.pinentry_mode) = "pinentry_mode"
getter_name (of_context ContextAttr.passphrase_cb) = "passphrase_cb"
getter_name (of_context ContextAttr.progress_cb) = "progress_cb"
getter_name (of_context ContextAttr.signers) = "signers"
getter_name (of_context ContextAttr.sig_notations) = "sig_notations"
getter_name (of_context ContextAttr.sender) = "sender"
getter_name key_sig_status = "status"
getter_name user_id_signatures = "signatures"
getter_name key_subkeys = "subkeys"
getter_name key_uids = "uids"
getter_name key_keylist_mode = "keylist_mode"
getter_name notation_flags = "flags"
getter_name notation_human_readable = "human_readable"
getter_name notation_critical = "critical"

abbrev pub method_name : Method → String
method_name Method.get_engine_info = "get_engine_info"
method_name Method.set_engine_info = "set_engine_info"
method_name Method.set_locale = "set_locale"
method_name Method.get_key = "get_key"
method_name Method.encrypt = "encrypt"
method_name Method.encrypt_sign = "encrypt_sign"
method_name Method.decrypt = "decrypt"
method_name Method.decrypt_verify = "decrypt_verify"
method_name Method.sign = "sign"
method_name Method.verify = "verify"
method_name Method.import_ = "import_"
method_name Method.import_keys = "import_keys"
method_name Method.export = "export"
method_name Method.export_keys = "export_keys"
method_name Method.genkey = "genkey"
method_name Method.delete = "delete"
method_name Method.edit = "edit"
method_name Method.card_edit = "card_edit"
method_name Method.keylist = "keylist"

-- What a class may have under a name: a method of Context by the method's name, a getter of the class
-- by the getter's name, with the setter that belongs to it, or a field by the field's name.
abbrev pub Fits : TypeName → String → Access → Type 0
Fits t name (calls m) = (name ≡ method_name m) × (t ≡ TypeName.context)
Fits t name (shows field) = name ≡ field
Fits t name (property g s) = (name ≡ getter_name g) × (t ≡ class_of g) × (s ≡ setter_of g)
