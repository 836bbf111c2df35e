-- ===== src/Package/Aliases/All.antt =====
-- src/gpgme/__init__.py: all the lines.
use pygpgme.Base.{List, ◌++◌}
use pygpgme.Package.Aliases.Names.{Alias}
use pygpgme.Package.Aliases.Others.{
  data_encoding_aliases, pubkey_algo_aliases, hash_algo_aliases, sig_mode_aliases, validity_aliases,
  protocol_aliases, keylist_mode_aliases, encrypt_flags_aliases, sigsum_aliases,
  import_status_aliases, err_source_aliases,
}
use pygpgme.Package.Aliases.Statuses.{status_aliases}
use pygpgme.Package.Aliases.ErrCodes.{
  err_code_aliases_first, err_code_aliases_second, err_code_aliases_third,
}

-- The lines in the order of the source.
abbrev pub aliases : List Alias
aliases =
    data_encoding_aliases
    ++ (pubkey_algo_aliases
        ++ (hash_algo_aliases
            ++ (sig_mode_aliases
                ++ (validity_aliases
                    ++ (protocol_aliases
                        ++ (keylist_mode_aliases
                            ++ (status_aliases
                                ++ (encrypt_flags_aliases
                                    ++ (sigsum_aliases
                                        ++ (import_status_aliases
                                            ++ (err_source_aliases
                                                ++ (err_code_aliases_first
                                                    ++ (err_code_aliases_second
                                                        ++ (err_code_aliases_third))))))))))))))
