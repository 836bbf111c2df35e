-- ===== src/Package/Aliases/Tests.antt =====
-- The lines with the headers of one version of the libraries.
use pygpgme.Base.{◌≡◌, refl, none, some, [], ◌∷◌, map}
use pygpgme.Base.Int.{pos}
use pygpgme.Python.Value.{EnumName}
use pygpgme.Constants.Enums.{Versions, ver, members, lookup}
use pygpgme.Constants.Tables.{table}
use pygpgme.Package.Aliases.Names.{to, assign}
use pygpgme.Package.Aliases.All.{aliases}
use pygpgme.Package.Aliases.Binding.{enum, entry, assign-aliases}

abbrev built_with : Versions
built_with = record { gpgme = ver 1 14 0; gpg_error = ver 1 36 0 }

assign-aliases_example :
    assign (enum (λ p n. pos 7) built_with) aliases []
    ≡ some (map (entry (λ p n. pos 7) built_with) aliases)
assign-aliases_example = assign-aliases (λ p n. pos 7) built_with

-- A member of a later gpgme would not be found.
too_new :
    assign
      (enum (λ p n. pos 7) built_with)
      (to "KEYLIST_MODE_FORCE_EXTERN" EnumName.keylist_mode "FORCE_EXTERN" ∷ [])
      []
    ≡ none
unfolding assign lookup members table
too_new = refl
