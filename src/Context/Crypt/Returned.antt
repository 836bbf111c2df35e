-- ===== src/Context/Crypt/Returned.antt =====
-- lib/pygpgme-context.c: the lists of signatures that the methods of a Context return.
use pygpgme.Base.{Option, none, some, List, []}
use pygpgme.Python.Value.{NewSignature, Signature}
use pygpgme.Python.State.{Platform, PyState}
use pygpgme.Gpgme.Structs.{SignResult, SigRaw}
use pygpgme.Signature.Lists.{newsiglist_new, siglist_new}

-- The lists that a successful call returns; without a result structure, an empty one.
unfoldable pub new_signatures :
    Platform → Option SignResult → PyState → Option (List NewSignature) × PyState
new_signatures P none s = (some [], s)
new_signatures P (some r) s = newsiglist_new P r.signatures s

unfoldable pub signatures :
    Platform → Option (List SigRaw) → PyState → Option (List Signature) × PyState
signatures P none s = (some [], s)
signatures P (some sigs) s = siglist_new P sigs s
