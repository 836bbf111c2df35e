-- ===== src/Classes/Stub.antt =====
-- src/gpgme/_gpgme.pyi: what the stub declares of the classes, without types and without the names that
-- begin with two underscores.
use Prim.Native.String.{String}
use pygpgme.Base.{Option, none, some, List, [], ◌∷◌}
use pygpgme.Module.State.{TypeName}
use pygpgme.Classes.Spec.{Init, init_context, init_notation}

abbrev pub stub_class : TypeName → String
stub_class TypeName.context = "Context"
stub_class TypeName.engine_info = "EngineInfo"
stub_class TypeName.key = "Key"
stub_class TypeName.subkey = "Subkey"
stub_class TypeName.user_id = "UserId"
stub_class TypeName.key_sig = "KeySig"
stub_class TypeName.key_iter = "KeyIter"
stub_class TypeName.new_signature = "NewSignature"
stub_class TypeName.signature = "Signature"
stub_class TypeName.sig_notation = "SigNotation"
stub_class TypeName.import_result = "ImportResult"
stub_class TypeName.genkey_result = "GenkeyResult"

-- The attributes and methods that it declares, in its order.
unfoldable pub stub_names : TypeName → List String
stub_names TypeName.context =
    "get_engine_info" ∷ "set_engine_info" ∷ "set_locale" ∷ "get_key" ∷ "encrypt" ∷ "encrypt_sign"
    ∷ "decrypt" ∷ "decrypt_verify" ∷ "sign" ∷ "verify" ∷ "import_" ∷ "import_keys" ∷ "export"
    ∷ "export_keys" ∷ "genkey" ∷ "delete" ∷ "edit" ∷ "card_edit" ∷ "keylist" ∷ "protocol" ∷ "armor"
    ∷ "textmode" ∷ "offline" ∷ "include_certs" ∷ "keylist_mode" ∷ "pinentry_mode" ∷ "passphrase_cb"
    ∷ "progress_cb" ∷ "signers" ∷ "sig_notations" ∷ "sender" ∷ []
stub_names TypeName.engine_info =
    "protocol" ∷ "file_name" ∷ "version" ∷ "req_version" ∷ "home_dir" ∷ []
stub_names TypeName.key =
    "revoked" ∷ "expired" ∷ "disabled" ∷ "invalid" ∷ "can_encrypt" ∷ "can_sign" ∷ "can_certify"
    ∷ "secret" ∷ "can_authenticate" ∷ "protocol" ∷ "issuer_serial" ∷ "issuer_name" ∷ "chain_id"
    ∷ "owner_trust" ∷ "subkeys" ∷ "uids" ∷ "keylist_mode" ∷ []
stub_names TypeName.subkey =
    "revoked" ∷ "expired" ∷ "disabled" ∷ "invalid" ∷ "can_encrypt" ∷ "can_sign" ∷ "can_certify"
    ∷ "secret" ∷ "can_authenticate" ∷ "pubkey_algo" ∷ "length" ∷ "keyid" ∷ "fpr" ∷ "timestamp"
    ∷ "expires" ∷ []
stub_names TypeName.user_id =
    "revoked" ∷ "invalid" ∷ "validity" ∷ "uid" ∷ "name" ∷ "email" ∷ "comment" ∷ "signatures" ∷ []
stub_names TypeName.key_sig =
    "revoked" ∷ "expired" ∷ "invalid" ∷ "exportable" ∷ "pubkey_algo" ∷ "keyid" ∷ "timestamp"
    ∷ "expires" ∷ "status" ∷ "uid" ∷ "name" ∷ "email" ∷ "comment" ∷ "sig_class" ∷ []
stub_names TypeName.key_iter = []
stub_names TypeName.new_signature =
    "type" ∷ "pubkey_algo" ∷ "hash_algo" ∷ "timestamp" ∷ "fpr" ∷ "sig_class" ∷ []
stub_names TypeName.signature =
    "summary" ∷ "fpr" ∷ "status" ∷ "notations" ∷ "timestamp" ∷ "exp_timestamp" ∷ "wrong_key_usage"
    ∷ "validity" ∷ "validity_reason" ∷ "pubkey_algo" ∷ "hash_algo" ∷ []
stub_names TypeName.sig_notation = "name" ∷ "value" ∷ "flags" ∷ "human_readable" ∷ "critical" ∷ []
stub_names TypeName.import_result =
    "considered" ∷ "no_user_id" ∷ "imported" ∷ "imported_rsa" ∷ "unchanged" ∷ "new_user_ids"
    ∷ "new_sub_keys" ∷ "new_signatures" ∷ "new_revocations" ∷ "secret_read" ∷ "secret_imported"
    ∷ "secret_unchanged" ∷ "skipped_new_keys" ∷ "not_imported" ∷ "imports" ∷ []
stub_names TypeName.genkey_result = "primary" ∷ "sub" ∷ "fpr" ∷ []

-- The classes for which it declares `__init__`, with the function for it.
abbrev pub stub_init : TypeName → Option Init
stub_init TypeName.context = some init_context
stub_init TypeName.sig_notation = some init_notation
stub_init _ = none
