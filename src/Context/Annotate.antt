-- ===== src/Context/Annotate.antt =====
-- lib/pygpgme-context.c: the attributes that a failed method adds to its exception.
use pygpgme.Base.{true, Option, none, some, List, [], ◌∷◌, ◌++◌, if◌then◌else◌}
use pygpgme.Python.Value.{
  Attr, null, InvalidKey, invalid_recipients, invalid_signers, NewSignature, Signature,
  new_signatures_attr, signatures_attr, unsupported_algorithm, wrong_key_usage_attr, Ref, null_ref,
  ImportResult, GenkeyResult, import_attr, genkey_attr,
}
use pygpgme.Python.State.{Platform, PyState, clear_error, is_gpgme_error, or_none, bool_from_long}
use pygpgme.Errors.Convert.{error_object}
use pygpgme.Gpgme.Structs.{InvalidKeyRaw, SigRaw, SignResult, DecryptResult}
use pygpgme.Signature.Lists.{newsiglist_new, siglist_new}

-- `Py_DECREF(NULL)` and the like.
abbrev fail : PyState → PyState
fail s = record s { fault = true }

-- `PyErr_Fetch` and `PyErr_NormalizeException`, then the attributes if the exception is a
-- `GpgmeError`, and `PyErr_Restore`, which drops what was raised in between.
unfoldable pub annotating : (PyState → List Attr × PyState) → PyState → PyState
annotating build s = elim s.exc [
  | none ↦ s
  | some e ↦
      let (attrs, s') = build (clear_error s) in
      if is_gpgme_error s
      then record s' { exc = some (record e { attrs = e.attrs ++ attrs }) }
      else s
]

-- The loop over the invalid keys. Without memory for the reason, `Py_BuildValue` gives `NULL`, on
-- which `Py_DECREF` is called.
unfoldable pub invalid_list :
    Platform → List InvalidKey → List InvalidKeyRaw → PyState → List InvalidKey × PyState
invalid_list P done [] s = (done, s)
invalid_list P done (key ∷ rest) s =
    let (reason, s1) = error_object P key.reason s in
    elim reason [
      | null ↦ (done, fail s1)
      | r ↦
          invalid_list P
            (done ++ (record { fpr = or_none P.decode_ascii key.fpr; reason = r } ∷ [])) rest s1
    ]

recipients_attr : Platform → Option (List InvalidKeyRaw) → PyState → List Attr × PyState
recipients_attr P none s = ([], s)
recipients_attr P (some keys) s =
    let (l, s1) = invalid_list P [] keys s in (invalid_recipients l ∷ [], s1)

-- `decode_encrypt_result`, of what `gpgme_op_encrypt_result` returned.
unfoldable pub decode_encrypt_result : Platform → Option (List InvalidKeyRaw) → PyState → PyState
unfolding annotating recipients_attr invalid_list
decode_encrypt_result P r s = annotating (recipients_attr P r) s

-- A list as an attribute; a `NULL` list is passed to `Py_DECREF`.
new_list_attr : List Attr → Option (List NewSignature) × PyState → List Attr × PyState
new_list_attr before (none, s) = (before, fail s)
new_list_attr before (some l, s) = (before ++ (new_signatures_attr l ∷ []), s)

signers_attrs : Platform → Option SignResult → PyState → List Attr × PyState
signers_attrs P none s = ([], s)
signers_attrs P (some r) s =
    let (l, s1) = invalid_list P [] r.invalid_signers s in
    new_list_attr (invalid_signers l ∷ []) (newsiglist_new P r.signatures s1)

-- The block of `encrypt_sign` and `sign`, of what `gpgme_op_sign_result` returned.
unfoldable pub annotate_sign : Platform → Option SignResult → PyState → PyState
unfolding annotating signers_attrs new_list_attr invalid_list
annotate_sign P r s = annotating (signers_attrs P r) s

decrypt_attrs : Platform → Option DecryptResult → PyState → List Attr × PyState
decrypt_attrs P none s = ([], s)
decrypt_attrs P (some r) s = (
  unsupported_algorithm (or_none P.decode_utf8 r.unsupported_algorithm)
      ∷ wrong_key_usage_attr (bool_from_long r.wrong_key_usage)
      ∷ [],
  s,
)

-- `decode_decrypt_result`, of what `gpgme_op_decrypt_result` returned.
unfoldable pub decode_decrypt_result : Platform → Option DecryptResult → PyState → PyState
unfolding annotating decrypt_attrs
decode_decrypt_result P r s = annotating (decrypt_attrs P r) s

list_attr : Option (List Signature) × PyState → List Attr × PyState
list_attr (none, s) = ([], fail s)
list_attr (some l, s) = (signatures_attr l ∷ [], s)

verify_attrs : Platform → Option (List SigRaw) → PyState → List Attr × PyState
verify_attrs P none s = ([], s)
verify_attrs P (some sigs) s = list_attr (siglist_new P sigs s)

-- The block of `decrypt_verify` and `verify`, of what `gpgme_op_verify_result` returned.
unfoldable pub annotate_verify : Platform → Option (List SigRaw) → PyState → PyState
unfolding annotating verify_attrs list_attr
annotate_verify P r s = annotating (verify_attrs P r) s

import_attrs : Ref ImportResult → PyState → List Attr × PyState
import_attrs null_ref s = ([], s)
import_attrs r s = (import_attr r ∷ [], s)

-- The block of `import_` and `import_keys`.
unfoldable pub annotate_import : Ref ImportResult → PyState → PyState
unfolding annotating import_attrs
annotate_import r s = annotating (import_attrs r) s

genkey_attrs : Ref GenkeyResult → PyState → List Attr × PyState
genkey_attrs null_ref s = ([], s)
genkey_attrs r s = (genkey_attr r ∷ [], s)

-- The block of `genkey`.
unfoldable pub annotate_genkey : Ref GenkeyResult → PyState → PyState
unfolding annotating genkey_attrs
annotate_genkey r s = annotating (genkey_attrs r) s
