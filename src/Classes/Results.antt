-- ===== src/Classes/Results.antt =====
-- The tables of the classes of results: lib/pygpgme-signature.c, lib/pygpgme-import.c, lib/pygpgme-genkey.c
-- and lib/pygpgme-engine-info.c.
use pygpgme.Base.{Bool, none, List, [], ◌∷◌, if◌then◌else◌}
use pygpgme.Module.State.{
  new_signature, signature, sig_notation, import_result, genkey_result, engine_info,
}
use pygpgme.Classes.Spec.{
  notation_flags, notation_human_readable, notation_critical, Member, readonly, GetSet,
  no_constructor, init_notation, Slot, tp_init, tp_dealloc, tp_members, tp_getset, sq_length,
  sq_item, tp_doc, TypeSpec, hidden_flags, open_flags,
}

abbrev pub newsig_members : List Member
newsig_members =
    readonly "type" "type"
    ∷ readonly "pubkey_algo" "pubkey_algo"
    ∷ readonly "hash_algo" "hash_algo"
    ∷ readonly "timestamp" "timestamp"
    ∷ readonly "fpr" "fpr"
    ∷ readonly "sig_class" "sig_class"
    ∷ []

abbrev pub sig_members : List Member
sig_members =
    readonly "summary" "summary"
    ∷ readonly "fpr" "fpr"
    ∷ readonly "status" "status"
    ∷ readonly "notations" "notations"
    ∷ readonly "timestamp" "timestamp"
    ∷ readonly "exp_timestamp" "exp_timestamp"
    ∷ readonly "wrong_key_usage" "wrong_key_usage"
    ∷ readonly "validity" "validity"
    ∷ readonly "validity_reason" "validity_reason"
    ∷ readonly "pubkey_algo" "pubkey_algo"
    ∷ readonly "hash_algo" "hash_algo"
    ∷ []

abbrev pub sig_notation_members : List Member
sig_notation_members = readonly "name" "name" ∷ readonly "value" "value" ∷ []

abbrev pub import_result_members : List Member
import_result_members =
    readonly "considered" "considered"
    ∷ readonly "no_user_id" "no_user_id"
    ∷ readonly "imported" "imported"
    ∷ readonly "imported_rsa" "imported_rsa"
    ∷ readonly "unchanged" "unchanged"
    ∷ readonly "new_user_ids" "new_user_ids"
    ∷ readonly "new_sub_keys" "new_sub_keys"
    ∷ readonly "new_signatures" "new_signatures"
    ∷ readonly "new_revocations" "new_revocations"
    ∷ readonly "secret_read" "secret_read"
    ∷ readonly "secret_imported" "secret_imported"
    ∷ readonly "secret_unchanged" "secret_unchanged"
    ∷ readonly "skipped_new_keys" "skipped_new_keys"
    ∷ readonly "not_imported" "not_imported"
    ∷ readonly "imports" "imports"
    ∷ []

abbrev pub genkey_result_members : List Member
genkey_result_members =
    readonly "primary" "primary" ∷ readonly "sub" "sub" ∷ readonly "fpr" "fpr" ∷ []

abbrev pub engine_info_members : List Member
engine_info_members =
    readonly "protocol" "protocol"
    ∷ readonly "file_name" "file_name"
    ∷ readonly "version" "version"
    ∷ readonly "req_version" "req_version"
    ∷ readonly "home_dir" "home_dir"
    ∷ []

abbrev pub sig_notation_getsets : List GetSet
sig_notation_getsets =
    ("flags", notation_flags, none)
    ∷ ("human_readable", notation_human_readable, none)
    ∷ ("critical", notation_critical, none)
    ∷ []

abbrev pub newsig_slots : Bool → List Slot
newsig_slots old =
    let rest = tp_dealloc new_signature ∷ tp_members newsig_members ∷ tp_doc ∷ [] in
    if old then tp_init no_constructor ∷ rest else rest

abbrev pub newsig_spec : Bool → TypeSpec
newsig_spec old = record {
  name = "gpgme.NewSignature";
  flags = hidden_flags old;
  slots = newsig_slots old;
}

abbrev pub sig_slots : Bool → List Slot
sig_slots old =
    let rest = tp_dealloc signature ∷ tp_members sig_members ∷ tp_doc ∷ [] in
    if old then tp_init no_constructor ∷ rest else rest

abbrev pub sig_spec : Bool → TypeSpec
sig_spec old = record { name = "gpgme.Signature"; flags = hidden_flags old; slots = sig_slots old }

abbrev pub sig_notation_slots : Bool → List Slot
sig_notation_slots _ =
    tp_init init_notation
    ∷ tp_dealloc sig_notation
    ∷ tp_members sig_notation_members
    ∷ tp_getset sig_notation_getsets
    ∷ sq_length
    ∷ sq_item
    ∷ []

abbrev pub sig_notation_spec : Bool → TypeSpec
sig_notation_spec old = record {
  name = "gpgme.SigNotation";
  flags = open_flags old;
  slots = sig_notation_slots old;
}

abbrev pub import_result_slots : Bool → List Slot
import_result_slots old =
    let rest = tp_dealloc import_result ∷ tp_members import_result_members ∷ [] in
    if old then tp_init no_constructor ∷ rest else rest

abbrev pub import_result_spec : Bool → TypeSpec
import_result_spec old = record {
  name = "gpgme.ImportResult";
  flags = hidden_flags old;
  slots = import_result_slots old;
}

abbrev pub genkey_result_slots : Bool → List Slot
genkey_result_slots old =
    let rest = tp_dealloc genkey_result ∷ tp_members genkey_result_members ∷ tp_doc ∷ [] in
    if old then tp_init no_constructor ∷ rest else rest

abbrev pub genkey_result_spec : Bool → TypeSpec
genkey_result_spec old = record {
  name = "gpgme.GenkeyResult";
  flags = hidden_flags old;
  slots = genkey_result_slots old;
}

abbrev pub engine_info_slots : Bool → List Slot
engine_info_slots old =
    let rest = tp_dealloc engine_info ∷ tp_members engine_info_members ∷ [] in
    if old then tp_init no_constructor ∷ rest else rest

abbrev pub engine_info_spec : Bool → TypeSpec
engine_info_spec old = record {
  name = "gpgme.EngineInfo";
  flags = hidden_flags old;
  slots = engine_info_slots old;
}
