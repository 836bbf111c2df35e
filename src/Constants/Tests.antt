-- ===== src/Constants/Tests.antt =====
-- Constants of two versions of the libraries.
use pygpgme.Base.{◌≡◌, refl, none, some, map}
use pygpgme.Base.Int.{pos}
use pygpgme.Python.Value.{EnumName}
use pygpgme.Constants.Enums.{Versions, ver, names, members, lookup}
use pygpgme.Constants.Tables.{table}
use pygpgme.Constants.Members.{members-eq_map}

abbrev older : Versions
older = record { gpgme = ver 1 14 0; gpg_error = ver 1 36 0 }

abbrev newer : Versions
newer = record { gpgme = ver 1 18 0; gpg_error = ver 1 47 0 }

members-eq_map_example :
    members (λ p n. pos 7) older (table EnumName.keylist_mode)
    ≡ map (λ n. (n, pos 7)) (names older (table EnumName.keylist_mode).blocks)
members-eq_map_example = members-eq_map (λ p n. pos 7) older EnumName.keylist_mode

-- FORCE_EXTERN is there from gpgme 1.18 on.
force_extern :
    (lookup "FORCE_EXTERN" (members (λ p n. pos 7) older (table EnumName.keylist_mode)) ≡ none)
    × (lookup "FORCE_EXTERN" (members (λ p n. pos 7) newer (table EnumName.keylist_mode))
        ≡ some (pos 7))
unfolding lookup members table
force_extern = (refl, refl)
