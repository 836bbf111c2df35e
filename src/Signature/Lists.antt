-- ===== src/Signature/Lists.antt =====
-- lib/pygpgme-signature.c: `pygpgme_newsiglist_new`, `pygpgme_siglist_new` and
-- `pygpgme_sig_notation_list_new`.
use pygpgme.Base.{
  ℕ, ◌-◌, ◌%◌, ◌^◌, Bool, Option, none, some, List, [], ◌∷◌, ◌++◌, ◌==◌, if◌then◌else◌, ltb, length,
  ◌+◌,
}
use pygpgme.Base.Int.{pos, negsuc}
use pygpgme.Python.Value.{Value, int, str, bytes, EnumName, NewSignature, SigNotation, Signature}
use pygpgme.Python.State.{Platform, PyState, new_object, occurred, or_none, bool_from_long, lose}
use pygpgme.Constants.Lookup.{enum_value_new}
use pygpgme.Errors.Convert.{error_object}
use pygpgme.Gpgme.Structs.{NewSigRaw, NotationRaw, SigRaw}

-- The fields of one `NewSignature`, set in the order of the source.
unfoldable pub new_signature : Platform → NewSigRaw → PyState → NewSignature × PyState
new_signature P sig s =
    let (sig_type, s1) = enum_value_new P EnumName.sig_mode (pos sig.sig_type) s in
    let (pubkey_algo, s2) = enum_value_new P EnumName.pubkey_algo (pos sig.pubkey_algo) s1 in
    let (hash_algo, s3) = enum_value_new P EnumName.hash_algo (pos sig.hash_algo) s2 in
    (
      record {
        sig_type = sig_type;
        pubkey_algo = pubkey_algo;
        hash_algo = hash_algo;
        timestamp = some (int sig.timestamp);
        fpr = some (or_none P.decode_ascii sig.fpr);
        sig_class = some (int (pos sig.sig_class));
      },
      s3,
    )

-- The loop over the list, with the items so far.
unfoldable pub newsiglist_from :
    Platform → List NewSignature → List NewSigRaw → PyState → Option (List NewSignature) × PyState
newsiglist_from P done [] s = (some done, s)
newsiglist_from P done (sig ∷ rest) s =
    let (fits, s1) = new_object s in
    let (item, s2) = new_signature P sig s1 in
    let next = newsiglist_from P (done ++ (item ∷ [])) rest s2 in
    if fits then (if occurred s2 then (none, s2) else next) else (none, s1)

-- `pygpgme_newsiglist_new`; `none` is `NULL`.
unfoldable pub newsiglist_new :
    Platform → List NewSigRaw → PyState → Option (List NewSignature) × PyState
unfolding newsiglist_from new_signature enum_value_new
newsiglist_new P siglist s = newsiglist_from P [] siglist s

-- GPGME_SIG_NOTATION_HUMAN_READABLE is bit 0.
abbrev pub is_human_readable : ℕ → Bool
is_human_readable flags = flags % 2 == 1

-- The text of a notation that is human readable, else its bytes.
notation_value : Platform → NotationRaw → Value
notation_value P n =
    if is_human_readable n.flags then str (P.decode_utf8 n.value) else bytes n.value

unfoldable pub sig_notation : Platform → NotationRaw → SigNotation
unfolding notation_value
sig_notation P n = record {
  name = or_none P.decode_utf8 n.name;
  value = notation_value P n;
  flags = n.flags;
}

-- Without memory the list so far is released, and its items are not freed.
unfoldable pub sig_notation_list_from :
    Platform → List SigNotation → List NotationRaw → PyState → Option (List SigNotation) × PyState
sig_notation_list_from P done [] s = (some done, s)
sig_notation_list_from P done (n ∷ rest) s =
    let (fits, s1) = new_object s in
    let next = sig_notation_list_from P (done ++ (sig_notation P n ∷ [])) rest s1 in
    if fits then next else (none, lose (length done) s1)

-- `pygpgme_sig_notation_list_new`
unfoldable pub sig_notation_list_new :
    Platform → List NotationRaw → PyState → Option (List SigNotation) × PyState
unfolding sig_notation_list_from sig_notation
sig_notation_list_new P notations s = sig_notation_list_from P [] notations s

-- `PyLong_FromLong` of an `unsigned long`.
abbrev pub from_ulong : ℕ → Value
from_ulong n = int (if ltb n (2 ^ 63) then pos n else negsuc (2 ^ 64 - 1 - n))

-- The fields of one `Signature`, set in the order of the source.
unfoldable pub signature : Platform → SigRaw → PyState → Signature × PyState
signature P sig s =
    let (summary, s1) = enum_value_new P EnumName.sigsum (pos sig.summary) s in
    let (status, s2) = error_object P sig.status s1 in
    let (notations, s3) = sig_notation_list_new P sig.notations s2 in
    let (validity, s4) = enum_value_new P EnumName.validity (pos sig.validity) s3 in
    let (validity_reason, s5) = error_object P sig.validity_reason s4 in
    let (pubkey_algo, s6) = enum_value_new P EnumName.pubkey_algo (pos sig.pubkey_algo) s5 in
    let (hash_algo, s7) = enum_value_new P EnumName.hash_algo (pos sig.hash_algo) s6 in
    (
      record {
        summary = summary;
        fpr = some (or_none P.decode_ascii sig.fpr);
        status = status;
        notations = notations;
        timestamp = some (from_ulong sig.timestamp);
        exp_timestamp = some (from_ulong sig.exp_timestamp);
        wrong_key_usage = some (bool_from_long sig.wrong_key_usage);
        validity = validity;
        validity_reason = validity_reason;
        pubkey_algo = pubkey_algo;
        hash_algo = hash_algo;
      },
      s7,
    )

-- The notations that a released list of signatures leaves behind.
unfoldable pub notations_in : List Signature → ℕ
notations_in [] = 0
notations_in (sig ∷ rest) = elim sig.notations [
  | none ↦ notations_in rest
  | some l ↦ length l + notations_in rest
]

unfoldable pub siglist_from :
    Platform → List Signature → List SigRaw → PyState → Option (List Signature) × PyState
siglist_from P done [] s = (some done, s)
siglist_from P done (sig ∷ rest) s =
    let (fits, s1) = new_object s in
    let (item, s2) = signature P sig s1 in
    let next = siglist_from P (done ++ (item ∷ [])) rest s2 in
    if fits
    then (if occurred s2 then (none, lose (notations_in (done ++ (item ∷ []))) s2) else next)
    else (none, lose (notations_in done) s1)

-- `pygpgme_siglist_new`
unfoldable pub siglist_new : Platform → List SigRaw → PyState → Option (List Signature) × PyState
unfolding siglist_from notations_in signature sig_notation_list_new error_object enum_value_new
siglist_new P siglist s = siglist_from P [] siglist s
