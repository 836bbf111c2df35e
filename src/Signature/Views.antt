-- ===== src/Signature/Views.antt =====
-- Every structure of a gpgme list becomes one object, in order and field by field.
use pygpgme.Base.{◌≡◌, some, List, [], ◌∷◌, ◌++◌, map, arith}
use mathlib.Core.List.{append-nil, append_assoc}
use pygpgme.Base.Int.{pos}
use pygpgme.Python.Value.{EnumName, int, NewSignature, SigNotation, Signature}
use pygpgme.Python.State.{Platform, PyState, or_none, bool_from_long}
use pygpgme.Constants.Values.{enum_view, enum_value_new-eq_view}
use pygpgme.Errors.View.{AreEnumerations, IsQuiet, error_view, error_object-eq_view}
use pygpgme.Gpgme.Structs.{NewSigRaw, NotationRaw, SigRaw}
use pygpgme.Signature.Lists.{
  newsiglist_from, newsiglist_new, new_signature, sig_notation, sig_notation_list_from,
  sig_notation_list_new, signature, siglist_from, siglist_new, from_ulong,
}

-- The object that stands for a new signature.
pub new_signature_view : Platform → NewSigRaw → NewSignature
new_signature_view P sig = record {
  sig_type = some (enum_view P EnumName.sig_mode (pos sig.sig_type));
  pubkey_algo = some (enum_view P EnumName.pubkey_algo (pos sig.pubkey_algo));
  hash_algo = some (enum_view P EnumName.hash_algo (pos sig.hash_algo));
  timestamp = some (int sig.timestamp);
  fpr = some (or_none P.decode_ascii sig.fpr);
  sig_class = some (int (pos sig.sig_class));
}

-- The object that stands for a verified signature.
pub signature_view : Platform → SigRaw → Signature
signature_view P sig = record {
  summary = some (enum_view P EnumName.sigsum (pos sig.summary));
  fpr = some (or_none P.decode_ascii sig.fpr);
  status = error_view P sig.status;
  notations = some (map (sig_notation P) sig.notations);
  timestamp = some (from_ulong sig.timestamp);
  exp_timestamp = some (from_ulong sig.exp_timestamp);
  wrong_key_usage = some (bool_from_long sig.wrong_key_usage);
  validity = some (enum_view P EnumName.validity (pos sig.validity));
  validity_reason = error_view P sig.validity_reason;
  pubkey_algo = some (enum_view P EnumName.pubkey_algo (pos sig.pubkey_algo));
  hash_algo = some (enum_view P EnumName.hash_algo (pos sig.hash_algo));
}

module _ (P : Platform) (h : AreEnumerations P) (s : PyState) (q : IsQuiet s) where
  new_signature-eq_view : (sig : NewSigRaw) → new_signature P sig s ≡ (new_signature_view P sig, s)
  unfolding new_signature new_signature_view
  new_signature-eq_view sig = simp (
    enum_value_new-eq_view P EnumName.sig_mode (pos sig.sig_type) s (h.each _) q.no_exc,
    enum_value_new-eq_view P EnumName.pubkey_algo (pos sig.pubkey_algo) s (h.each _) q.no_exc,
    enum_value_new-eq_view P EnumName.hash_algo (pos sig.hash_algo) s (h.each _) q.no_exc,
  )

  newsiglist_from-eq_map :
      (done : List NewSignature) (l : List NewSigRaw)
      → newsiglist_from P done l s ≡ (some (done ++ map (new_signature_view P) l), s)
  unfolding newsiglist_from
  newsiglist_from-eq_map done [] = rw append-nil
  newsiglist_from-eq_map done (sig ∷ rest) = ground (
    arith,
    new_signature-eq_view sig,
    newsiglist_from-eq_map (done ++ (new_signature_view P sig ∷ [])) rest,
    append_assoc done (new_signature_view P sig ∷ []) (map (new_signature_view P) rest),
  )

  -- With memory, the extension's enumerations and no exception pending, the list of new signatures
  -- is the C list turned field by field and in order, and the thread's state is unchanged.
  pub newsiglist_new-eq_map :
      (l : List NewSigRaw) → newsiglist_new P l s ≡ (some (map (new_signature_view P) l), s)
  unfolding newsiglist_new
  newsiglist_new-eq_map l = newsiglist_from-eq_map [] l

  sig_notation_list_from-eq_map :
      (done : List SigNotation) (l : List NotationRaw)
      → sig_notation_list_from P done l s ≡ (some (done ++ map (sig_notation P) l), s)
  unfolding sig_notation_list_from
  sig_notation_list_from-eq_map done [] = rw append-nil
  sig_notation_list_from-eq_map done (n ∷ rest) = ground (
    arith,
    sig_notation_list_from-eq_map (done ++ (sig_notation P n ∷ [])) rest,
    append_assoc done (sig_notation P n ∷ []) (map (sig_notation P) rest),
  )

  -- With memory and no exception pending, the list of notations is the C list turned field by field
  -- and in order, and the thread's state is unchanged.
  pub sig_notation_list_new-eq_map :
      (l : List NotationRaw) → sig_notation_list_new P l s ≡ (some (map (sig_notation P) l), s)
  unfolding sig_notation_list_new
  sig_notation_list_new-eq_map l = sig_notation_list_from-eq_map [] l

  signature-eq_view : (sig : SigRaw) → signature P sig s ≡ (signature_view P sig, s)
  unfolding signature signature_view
  signature-eq_view sig = simp (
    enum_value_new-eq_view P EnumName.sigsum (pos sig.summary) s (h.each _) q.no_exc,
    enum_value_new-eq_view P EnumName.validity (pos sig.validity) s (h.each _) q.no_exc,
    enum_value_new-eq_view P EnumName.pubkey_algo (pos sig.pubkey_algo) s (h.each _) q.no_exc,
    enum_value_new-eq_view P EnumName.hash_algo (pos sig.hash_algo) s (h.each _) q.no_exc,
    error_object-eq_view P sig.status s h q,
    error_object-eq_view P sig.validity_reason s h q,
    sig_notation_list_new-eq_map sig.notations,
  )

  siglist_from-eq_map :
      (done : List Signature) (l : List SigRaw)
      → siglist_from P done l s ≡ (some (done ++ map (signature_view P) l), s)
  unfolding siglist_from
  siglist_from-eq_map done [] = rw append-nil
  siglist_from-eq_map done (sig ∷ rest) = ground (
    arith,
    signature-eq_view sig,
    siglist_from-eq_map (done ++ (signature_view P sig ∷ [])) rest,
    append_assoc done (signature_view P sig ∷ []) (map (signature_view P) rest),
  )

  -- With memory, the extension's enumerations and no exception pending, the list of verified
  -- signatures is the C list turned field by field and in order, and the thread's state is unchanged.
  pub siglist_new-eq_map :
      (l : List SigRaw) → siglist_new P l s ≡ (some (map (signature_view P) l), s)
  unfolding siglist_new
  siglist_new-eq_map l = siglist_from-eq_map [] l
