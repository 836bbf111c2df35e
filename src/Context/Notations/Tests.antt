-- ===== src/Context/Notations/Tests.antt =====
-- A gpgme that keeps a list of notations.
use pygpgme.Base.{true, false, some, none, List, [], ◌∷◌, ◌++◌}
use pygpgme.Python.Value.{none_value, str, bytes, SigNotation}
use pygpgme.Errors.Tests.{idle}
use pygpgme.Gpgme.Structs.{NotationRaw}
use pygpgme.Context.World.{World}
use pygpgme.Context.Notations.{NotationStore}

-- It takes a missing value as an empty one.
abbrev keeping : NotationStore (List NotationRaw)
keeping = record {
  clear = λ c. [];
  add = λ c name value flags. (
    0,
    c
        ++ (record { name = name; value = elim value [ none ↦ [] | some v ↦ v ]; flags = flags }
            ∷ []),
  );
  notations = λ c. c;
}

abbrev readable : SigNotation
readable = record { name = str (97 ∷ []); value = str (98 ∷ 99 ∷ []); flags = 1 }

abbrev policy : SigNotation
policy = record { name = none_value; value = bytes (255 ∷ []); flags = 2 }

abbrev readable_raw : NotationRaw
readable_raw = record { name = some (97 ∷ []); value = 98 ∷ 99 ∷ []; flags = 1 }

abbrev policy_raw : NotationRaw
policy_raw = record { name = none; value = 255 ∷ []; flags = 2 }

abbrev before : World (List NotationRaw)
before = record {
  py = idle;
  lib = policy_raw ∷ [];
  gil = true;
  mutex = false;
  tstate = false;
  refs = λ x. 1;
  keys = λ k. 1;
  owned = 0;
  blocks = 0;
  broken = false;
}
