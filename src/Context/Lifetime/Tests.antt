-- ===== src/Context/Lifetime/Tests.antt =====
-- A Context that is initialised, initialised again, given callbacks and freed.
use pygpgme.Base.{ℕ, ◌≡◌, refl, true, false, none, some, List, [], ◌∷◌}
use pygpgme.Errors.Tests.{demo, idle}
use pygpgme.Context.Callbacks.{passphrase, progress, Hooks}
use pygpgme.Context.Tests.{fresh}
use pygpgme.Context.Life.{no_callbacks, Usage, context_init}
use pygpgme.Context.Lifetime.{Use, initialise, assign, use_once, use_all}

abbrev unused : Usage
unused = record { py = idle; objects = 4; mutexes = 1; contexts = 1; refs = λ o. 2 }

abbrev hooks : Hooks ℕ
hooks = record { get = λ k c. true; set = λ k c on. c }

-- Object 5 becomes the passphrase callback and object 6 the progress callback, then both change.
abbrev uses : List (Use ℕ)
uses =
    initialise false (0, 7)
    ∷ initialise true (0, 7)
    ∷ assign passphrase (some 5)
    ∷ initialise true (0, 8)
    ∷ assign progress (some 6)
    ∷ assign passphrase none
    ∷ assign progress (some 5)
    ∷ []

-- The second gpgme context is not made.
one_context :
    (use_all demo hooks 11 uses (record {
      self = record { ctx = none; mutex = true; callbacks = no_callbacks };
      usage = unused;
      world = fresh;
    })).usage.contexts
    ≡ 2
unfolding use_all use_once context_init
one_context = refl
