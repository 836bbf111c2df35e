-- ===== src/Signature/Tests.antt =====
-- Concrete lists of signatures.
use pygpgme.Base.{◌≡◌, refl, true, false, some, [], ◌∷◌, map}
use pygpgme.Base.Int.{pos}
use pygpgme.Gpgme.Structs.{NewSigRaw, NotationRaw, SigRaw}
use pygpgme.Errors.Tests.{demo, idle, demo-IsEnumeration, canceled}
use pygpgme.Errors.View.{AreEnumerations, IsQuiet}
use pygpgme.Signature.Lists.{newsiglist_new, siglist_new}
use pygpgme.Signature.Views.{signature_view, siglist_new-eq_map}
use pygpgme.Signature.Failures.{Ends, siglists-Ends}

pub demo-AreEnumerations : AreEnumerations demo
demo-AreEnumerations = record { each = demo-IsEnumeration }

pub idle-IsQuiet : IsQuiet idle
idle-IsQuiet = record { no_exc = refl; no_failure = refl }

abbrev made : NewSigRaw
made = record {
  sig_type = 0;
  pubkey_algo = 1;
  hash_algo = 8;
  timestamp = pos 1200000000;
  fpr = some (65 ∷ 66 ∷ []);
  sig_class = 0;
}

abbrev note : NotationRaw
note = record { name = some (110 ∷ []); value = 118 ∷ []; flags = 1 }

abbrev plain : SigRaw
plain = record {
  summary = 3;
  fpr = some (65 ∷ []);
  status = 0;
  notations = note ∷ [];
  timestamp = 1200000000;
  exp_timestamp = 0;
  wrong_key_usage = 0;
  validity = 4;
  validity_reason = 0;
  pubkey_algo = 1;
  hash_algo = 8;
}

abbrev bad : SigRaw
bad = record plain { status = canceled; hash_algo = 200; notations = [] }

siglist_new-eq_map_example :
    siglist_new demo (plain ∷ bad ∷ []) idle
    ≡ (some (map (signature_view demo) (plain ∷ bad ∷ [])), idle)
siglist_new-eq_map_example =
    siglist_new-eq_map demo demo-AreEnumerations idle idle-IsQuiet (plain ∷ bad ∷ [])

siglists-Ends_example :
    Ends 1 (newsiglist_new demo (made ∷ []) (record idle { mem = true ∷ false ∷ [] }))
    × Ends 2 (siglist_new demo (plain ∷ bad ∷ []) (record idle { mem = true ∷ false ∷ [] }))
siglists-Ends_example =
    siglists-Ends demo (made ∷ []) (plain ∷ bad ∷ []) (record idle { mem = true ∷ false ∷ [] }) refl
