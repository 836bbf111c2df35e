-- ===== src/Constants/Tables.antt =====
-- lib/pygpgme-constants.c: the table of each enumeration.
mod Crypt
mod Keyring
mod Status
mod ErrCode
use pygpgme.Python.Value.{EnumName}
use pygpgme.Constants.Enums.{Table}
use pygpgme.Constants.Tables.Crypt.{
  data_encoding_table, pubkey_algo_table, hash_algo_table, sig_mode_table, validity_table,
  sig_notation_flags_table, encrypt_flags_table, sigsum_table,
}
use pygpgme.Constants.Tables.Keyring.{
  protocol_table, keylist_mode_table, pinentry_mode_table, export_mode_table, import_status_table,
  delete_flags_table,
}
use pygpgme.Constants.Tables.Status.{status_table, err_source_table}
use pygpgme.Constants.Tables.ErrCode.{err_code_table}

-- The table whose class the state's field of this name holds.
unfoldable pub table : EnumName → Table
table EnumName.data_encoding = data_encoding_table
table EnumName.pubkey_algo = pubkey_algo_table
table EnumName.hash_algo = hash_algo_table
table EnumName.sig_mode = sig_mode_table
table EnumName.validity = validity_table
table EnumName.protocol = protocol_table
table EnumName.keylist_mode = keylist_mode_table
table EnumName.pinentry_mode = pinentry_mode_table
table EnumName.export_mode = export_mode_table
table EnumName.sig_notation_flags = sig_notation_flags_table
table EnumName.status = status_table
table EnumName.encrypt_flags = encrypt_flags_table
table EnumName.sigsum = sigsum_table
table EnumName.import_status = import_status_table
table EnumName.delete_flags = delete_flags_table
table EnumName.err_source = err_source_table
table EnumName.err_code = err_code_table
