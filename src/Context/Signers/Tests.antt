-- ===== src/Context/Signers/Tests.antt =====
-- A gpgme that keeps a list of signers.
use pygpgme.Base.{ℕ, ◌≡◌, ◌++◌, refl, true, false, none, some, List, [], ◌∷◌, map, arith}
use pygpgme.Errors.Tests.{demo, idle}
use pygpgme.Context.World.{World}
use pygpgme.Context.Resources.{key_item, sequence}
use pygpgme.Gpgme.Engine.{Engine}
use pygpgme.Context.Signers.{SignerStore, get_signers, set_signers}
use pygpgme.Context.Signers.Listing.{IsSignerStore, GivesSigners, get_elem?}
use pygpgme.Context.Signers.RoundTrip.{set_signers-get_signers}

-- No operation of it is called.
abbrev none_called : Engine (List ℕ)
none_called = record {
  perform = λ c op. (0, c);
  new_data = λ c. (0, c);
  found_key = λ c. 0;
  next_key = λ c. (0, none, c);
  end_list = λ c. (0, c);
  encrypt_result = λ c. none;
  sign_result = λ c. none;
  decrypt_result = λ c. none;
  verify_result = λ c. none;
  import_result = λ c. none;
  genkey_result = λ c. none;
}

abbrev signing : SignerStore (List ℕ)
signing = record { clear = λ c. []; add = λ c k. c ++ (k ∷ []); enum = get_elem? }

signing-IsSignerStore : IsSignerStore signing (λ c. c)
signing-IsSignerStore = record { cleared = λ c. refl; added = λ c k. refl; listed = λ c i. refl }

-- The third wrapper cannot be allocated.
abbrev before : World (List ℕ)
before = record {
  py = record idle { mem = true ∷ true ∷ false ∷ [] };
  lib = 8 ∷ [];
  gil = true;
  mutex = false;
  tstate = false;
  refs = λ x. 1;
  keys = λ k. 1;
  owned = 0;
  blocks = 0;
  broken = false;
}

set_signers-get_signers_example :
    let (bad, w1) =
      set_signers demo none_called 1 signing
        (some (sequence 4 (map key_item (5 ∷ 6 ∷ 5 ∷ []))))
        before in
    (bad ≡ false) × GivesSigners 5 (5 ∷ 6 ∷ 5 ∷ []) w1 (get_signers demo none_called 1 signing 4 w1)
set_signers-get_signers_example =
    set_signers-get_signers demo none_called 1 signing 5 (λ c. c) signing-IsSignerStore 4
      (5 ∷ 6 ∷ 5 ∷ []) 4 before (omega arith)
