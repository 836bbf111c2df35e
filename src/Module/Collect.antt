-- ===== src/Module/Collect.antt =====
-- lib/gpgme.c: `pygpgme_mod_traverse` and `pygpgme_mod_clear`.
use pygpgme.Base.{ℕ, none, some, List, [], ◌∷◌}
use pygpgme.Python.Value.{EnumName}
use pygpgme.Module.State.{
  context, engine_info, key, subkey, user_id, key_sig, key_iter, new_signature, signature,
  sig_notation, import_result, genkey_result, Field, type_field, enum_field, error_field, Slots,
  Module, clear_slot,
}

-- The `Py_VISIT` lines.
unfoldable pub traverse_fields : List Field
traverse_fields =
    type_field context
    ∷ type_field engine_info
    ∷ type_field key
    ∷ type_field subkey
    ∷ type_field user_id
    ∷ type_field key_sig
    ∷ type_field key_iter
    ∷ type_field new_signature
    ∷ type_field signature
    ∷ type_field sig_notation
    ∷ type_field import_result
    ∷ type_field genkey_result
    ∷ enum_field EnumName.data_encoding
    ∷ enum_field EnumName.pubkey_algo
    ∷ enum_field EnumName.hash_algo
    ∷ enum_field EnumName.sig_mode
    ∷ enum_field EnumName.validity
    ∷ enum_field EnumName.protocol
    ∷ enum_field EnumName.keylist_mode
    ∷ enum_field EnumName.pinentry_mode
    ∷ enum_field EnumName.export_mode
    ∷ enum_field EnumName.sig_notation_flags
    ∷ enum_field EnumName.status
    ∷ enum_field EnumName.encrypt_flags
    ∷ enum_field EnumName.sigsum
    ∷ enum_field EnumName.import_status
    ∷ enum_field EnumName.delete_flags
    ∷ enum_field EnumName.err_source
    ∷ enum_field EnumName.err_code
    ∷ error_field
    ∷ []

-- The `Py_CLEAR` lines.
unfoldable pub clear_fields : List Field
clear_fields =
    type_field context
    ∷ type_field engine_info
    ∷ type_field key
    ∷ type_field subkey
    ∷ type_field user_id
    ∷ type_field key_sig
    ∷ type_field key_iter
    ∷ type_field new_signature
    ∷ type_field signature
    ∷ type_field sig_notation
    ∷ type_field import_result
    ∷ type_field genkey_result
    ∷ enum_field EnumName.data_encoding
    ∷ enum_field EnumName.pubkey_algo
    ∷ enum_field EnumName.hash_algo
    ∷ enum_field EnumName.sig_mode
    ∷ enum_field EnumName.validity
    ∷ enum_field EnumName.protocol
    ∷ enum_field EnumName.keylist_mode
    ∷ enum_field EnumName.pinentry_mode
    ∷ enum_field EnumName.export_mode
    ∷ enum_field EnumName.sig_notation_flags
    ∷ enum_field EnumName.status
    ∷ enum_field EnumName.encrypt_flags
    ∷ enum_field EnumName.sigsum
    ∷ enum_field EnumName.import_status
    ∷ enum_field EnumName.delete_flags
    ∷ enum_field EnumName.err_source
    ∷ enum_field EnumName.err_code
    ∷ error_field
    ∷ []

-- The objects in the fields of a list, in its order; `Py_VISIT` passes over `NULL`.
unfoldable pub objects : List Field → Slots → List ℕ
objects [] s = []
objects (f ∷ rest) s = elim (s f) [ none ↦ objects rest s | some o ↦ o ∷ objects rest s ]

-- The objects that `pygpgme_mod_traverse` passes to `visit`.
unfoldable pub mod_traverse : Module → List ℕ
unfolding traverse_fields objects
mod_traverse m = objects traverse_fields m.slots

-- `Py_CLEAR` of each field of a list.
unfoldable pub clear_all : List Field → Module → Module
unfolding clear_slot
clear_all [] m = m
clear_all (f ∷ rest) m = clear_all rest (clear_slot f m)

-- `pygpgme_mod_clear`, which `pygpgme_mod_free` calls too.
unfoldable pub mod_clear : Module → Module
unfolding clear_fields clear_all
mod_clear m = clear_all clear_fields m
