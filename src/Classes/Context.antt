-- ===== src/Classes/Context.antt =====
-- The tables of `Context`: lib/pygpgme-context.c.
use pygpgme.Base.{Bool, some, List, [], ◌∷◌}
use pygpgme.Module.State.{context}
use pygpgme.Classes.Spec.{
  ContextAttr, of_context, Method, GetSet, MethodDef, init_context, Slot, tp_init, tp_dealloc,
  tp_new, tp_getset, tp_methods, tp_doc, TypeSpec, open_flags,
}

abbrev pub context_getsets : List GetSet
context_getsets =
    ("protocol", of_context ContextAttr.protocol, some ContextAttr.protocol)
    ∷ ("armor", of_context ContextAttr.armor, some ContextAttr.armor)
    ∷ ("textmode", of_context ContextAttr.textmode, some ContextAttr.textmode)
    ∷ ("offline", of_context ContextAttr.offline, some ContextAttr.offline)
    ∷ ("include_certs", of_context ContextAttr.include_certs, some ContextAttr.include_certs)
    ∷ ("keylist_mode", of_context ContextAttr.keylist_mode, some ContextAttr.keylist_mode)
    ∷ ("pinentry_mode", of_context ContextAttr.pinentry_mode, some ContextAttr.pinentry_mode)
    ∷ ("passphrase_cb", of_context ContextAttr.passphrase_cb, some ContextAttr.passphrase_cb)
    ∷ ("progress_cb", of_context ContextAttr.progress_cb, some ContextAttr.progress_cb)
    ∷ ("signers", of_context ContextAttr.signers, some ContextAttr.signers)
    ∷ ("sig_notations", of_context ContextAttr.sig_notations, some ContextAttr.sig_notations)
    ∷ ("sender", of_context ContextAttr.sender, some ContextAttr.sender)
    ∷ []

abbrev pub context_methods : List MethodDef
context_methods =
    ("get_engine_info", Method.get_engine_info)
    ∷ ("set_engine_info", Method.set_engine_info)
    ∷ ("set_locale", Method.set_locale)
    ∷ ("get_key", Method.get_key)
    ∷ ("encrypt", Method.encrypt)
    ∷ ("encrypt_sign", Method.encrypt_sign)
    ∷ ("decrypt", Method.decrypt)
    ∷ ("decrypt_verify", Method.decrypt_verify)
    ∷ ("sign", Method.sign)
    ∷ ("verify", Method.verify)
    ∷ ("import_", Method.import_)
    ∷ ("import_keys", Method.import_keys)
    ∷ ("export", Method.export)
    ∷ ("export_keys", Method.export_keys)
    ∷ ("genkey", Method.genkey)
    ∷ ("delete", Method.delete)
    ∷ ("edit", Method.edit)
    ∷ ("card_edit", Method.card_edit)
    ∷ ("keylist", Method.keylist)
    ∷ []

abbrev pub context_slots : Bool → List Slot
context_slots _ =
    tp_dealloc context
    ∷ tp_new
    ∷ tp_init init_context
    ∷ tp_getset context_getsets
    ∷ tp_methods context_methods
    ∷ tp_doc
    ∷ []

abbrev pub context_spec : Bool → TypeSpec
context_spec old = record {
  name = "gpgme.Context";
  flags = open_flags old;
  slots = context_slots old;
}
