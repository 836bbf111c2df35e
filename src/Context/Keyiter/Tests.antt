-- ===== src/Context/Keyiter/Tests.antt =====
-- The listing of two keys.
use pygpgme.Base.{refl, [], ◌∷◌, arith}
use pygpgme.Errors.Tests.{demo}
use pygpgme.Context.Tests.{counting, fresh}
use pygpgme.Context.Keyiter.{keys_from, Lists, ends, gives}
use pygpgme.Context.Keyiter.Listing.{Listed, keys_from-Listed}

two_keys : Lists demo counting 1 0 (5 ∷ 6 ∷ [])
two_keys = gives refl (gives refl (ends refl refl))

keys_from-Listed_example :
    Listed demo counting 1 fresh (5 ∷ 6 ∷ []) (keys_from demo counting 1 3 fresh)
keys_from-Listed_example =
    keys_from-Listed demo counting 1 (5 ∷ 6 ∷ []) fresh (ground arith) refl two_keys
