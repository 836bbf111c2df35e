-- ===== src/Context/Tests.antt =====
-- Calls on a concrete gpgme, which counts its operations and refuses to decrypt.
use pygpgme.Base.{
  ltb, if◌then◌else◌, ◌*◌, ℕ, ◌+◌, ◌≡◌, ◌≢◌, ◌⊎◌, refl, true, false, Option, none, some, [], ◌∷◌,
}
use pygpgme.Base.Int.{pos}
use pygpgme.Errors.Tests.{demo, idle, canceled}
use pygpgme.Gpgme.Engine.{Op, Engine}
use pygpgme.Context.World.{World}
use pygpgme.Context.Resources.{key_item, other_item, sequence}
use pygpgme.Context.Patterns.{
  take_pattern, PatternArg, parse_key_patterns, free_key_patterns, patterns, bytes_item, str_item,
}
use pygpgme.Context.Keyring.{
  EditArgs, GetKeyArgs, get_key, ExportArgs, export, KeylistArgs, keylist,
}
use pygpgme.Context.Outcome.{Signals}
use pygpgme.Context.Outcome.Listing.{listing-Signals}
use pygpgme.Context.Outcome.Rule.{Obeys, call-Obeys}
use pygpgme.Context.Balance.{IsIdle, Restores}
use pygpgme.Context.Balance.Patterns.{
  bytes_refs, str_count, items_of, Keeps, parse_key_patterns_loses,
}
use pygpgme.Signature.Tests.{demo-AreEnumerations}
use pygpgme.Context.Calm.{Calm}
use pygpgme.Context.Calls.{Call, encrypt_call, decrypt_call, call, calls, calls-Restores}

abbrev answer : ℕ → Op → ℕ × ℕ
answer n (Op.decrypt _ _) = (canceled, n + 1)
answer n _ = (0, n + 1)

abbrev pub counting : Engine ℕ
counting = record {
  perform = answer;
  new_data = λ n. (0, n + 1);
  found_key = λ n. 5;
  next_key = λ n. if ltb n 2 then (0, some (5 + n), n + 1) else (7 * 16777216 + 16383, none, n);
  end_list = λ n. (0, 0);
  encrypt_result = λ n. none;
  sign_result = λ n. none;
  decrypt_result = λ n. some (record { unsupported_algorithm = none; wrong_key_usage = 1 });
  verify_result = λ n. some [];
  import_result = λ n. none;
  genkey_result = λ n. none;
}

abbrev pub fresh : World ℕ
fresh = record {
  py = idle;
  lib = 0;
  gil = true;
  mutex = false;
  tstate = false;
  refs = λ x. 1;
  keys = λ k. 1;
  owned = 0;
  blocks = 0;
  broken = false;
}

pub fresh-IsIdle : IsIdle fresh
fresh-IsIdle = record { held = refl; unlocked = refl; no_tstate = refl }

-- Two recipients, and the files 10 and 11.
abbrev to_two : Call
to_two = encrypt_call (
    some (record {
      recipients = some (sequence 9 (key_item 5 ∷ key_item 6 ∷ []));
      flags = pos 1;
      plain = some 10;
      cipher = some 11;
    }))

abbrev refused : Call
refused = decrypt_call (some (record { cipher = some 10; plain = some 11 }))

calls-Restores_example :
    Restores 10 5 fresh (calls demo counting 1 (to_two ∷ refused ∷ to_two ∷ []) fresh)
calls-Restores_example =
    calls-Restores demo counting 1 (to_two ∷ refused ∷ to_two ∷ []) fresh fresh-IsIdle 10 5

abbrev wanted : Option GetKeyArgs
wanted = some (record { fpr = 65 ∷ []; secret = pos 0 })

abbrev two_patterns : PatternArg
two_patterns = patterns 9 (bytes_item 12 (65 ∷ []) ∷ str_item (66 ∷ []) ∷ [])

two_patterns_good : (parse_key_patterns demo two_patterns fresh).0 ≡ true
unfolding parse_key_patterns take_pattern
two_patterns_good = refl

parse_key_patterns_loses_example :
    let (good, ps, w1) = parse_key_patterns demo two_patterns fresh in
    Keeps 12 fresh
      (free_key_patterns ps w1)
      (bytes_refs 12 (items_of two_patterns))
      (str_count (items_of two_patterns))
      0
parse_key_patterns_loses_example =
    parse_key_patterns_loses demo 12 two_patterns fresh two_patterns_good

-- A sequence with an object that is no key.
abbrev not_a_key : Call
not_a_key = encrypt_call (
    some (record {
      recipients = some (sequence 9 (key_item 5 ∷ other_item ∷ []));
      flags = pos 1;
      plain = some 10;
      cipher = some 11;
    }))

call-Obeys_example :
    (((call demo counting 1 not_a_key fresh).py.fault ≡ true) × (fresh.py.mem ≢ []))
    ⊎ (((call demo counting 1 not_a_key fresh).py.fault ≡ false)
        × Obeys demo counting 1 not_a_key fresh)
call-Obeys_example = call-Obeys demo counting 1 not_a_key fresh demo-AreEnumerations refl refl refl

abbrev strict_edit : EditArgs
strict_edit = record { key = 5; callback = 13; out = none; strict = true }

-- A gpgme that fails at everything.
abbrev refusing : Engine ℕ
refusing = record counting { perform = λ n op. (canceled, n) }

abbrev exporting : ExportArgs
exporting = record { pattern = two_patterns; keydata = some 3; export_mode = pos 0 }

abbrev listing : KeylistArgs
listing = record { pattern = two_patterns; secret_only = pos 0 }

listing-Signals_example :
    Signals (get_key demo counting 1 wanted fresh)
    × Signals (export demo counting 1 (some exporting) fresh)
    × Signals (keylist demo counting 1 (some listing) fresh)
listing-Signals_example =
    listing-Signals demo counting 1 wanted (some exporting) (some listing) fresh refl
