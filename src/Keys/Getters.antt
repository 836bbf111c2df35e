-- ===== src/Keys/Getters.antt =====
-- lib/pygpgme-key.c: the getters of Subkey, KeySig, UserId and Key that make one Python value. The
-- result `none` is `NULL`.
use pygpgme.Base.{Option, some}
use pygpgme.Base.Int.{pos}
use pygpgme.Python.Value.{EnumName, Value, int, ErrRef}
use pygpgme.Python.State.{Platform, PyState, or_none, bool_from_long}
use pygpgme.Constants.Lookup.{enum_value_new}
use pygpgme.Errors.Convert.{error_object}
use pygpgme.Gpgme.Keys.{SubkeyRaw, KeySigRaw, UserIdRaw, KeyRaw}

-- The attributes of `Subkey`.
pub data SubkeyAttr : Type 0 where
  revoked expired disabled invalid can_encrypt can_sign can_certify secret can_authenticate
        pubkey_algo length keyid fpr timestamp expires :
      SubkeyAttr

-- The attributes of `KeySig`, without `status`.
pub data KeySigAttr : Type 0 where
  revoked expired invalid exportable pubkey_algo keyid timestamp expires uid name email comment
        sig_class :
      KeySigAttr

-- The attributes of `UserId`, without `signatures`.
pub data UserIdAttr : Type 0 where
  revoked invalid validity uid name email comment : UserIdAttr

-- The flags of `Key`.
pub data KeyFlag : Type 0 where
  revoked expired disabled invalid can_encrypt can_sign can_certify secret can_authenticate :
      KeyFlag

-- Other attributes of `Key`.
pub data KeyAttr : Type 0 where
  protocol issuer_serial issuer_name chain_id owner_trust : KeyAttr

module _ (P : Platform) where
  -- `pygpgme_subkey_get_…`
  unfoldable pub subkey_get : SubkeyAttr → SubkeyRaw → PyState → Option Value × PyState
  unfolding enum_value_new
  subkey_get SubkeyAttr.revoked r s = (some (bool_from_long r.revoked), s)
  subkey_get SubkeyAttr.expired r s = (some (bool_from_long r.expired), s)
  subkey_get SubkeyAttr.disabled r s = (some (bool_from_long r.disabled), s)
  subkey_get SubkeyAttr.invalid r s = (some (bool_from_long r.invalid), s)
  subkey_get SubkeyAttr.can_encrypt r s = (some (bool_from_long r.can_encrypt), s)
  subkey_get SubkeyAttr.can_sign r s = (some (bool_from_long r.can_sign), s)
  subkey_get SubkeyAttr.can_certify r s = (some (bool_from_long r.can_certify), s)
  subkey_get SubkeyAttr.secret r s = (some (bool_from_long r.secret), s)
  subkey_get SubkeyAttr.can_authenticate r s = (some (bool_from_long r.can_authenticate), s)
  subkey_get SubkeyAttr.pubkey_algo r s =
      enum_value_new P EnumName.pubkey_algo (pos r.pubkey_algo) s
  subkey_get SubkeyAttr.length r s = (some (int (pos r.length)), s)
  subkey_get SubkeyAttr.keyid r s = (some (or_none P.decode_ascii r.keyid), s)
  subkey_get SubkeyAttr.fpr r s = (some (or_none P.decode_ascii r.fpr), s)
  subkey_get SubkeyAttr.timestamp r s = (some (int r.timestamp), s)
  subkey_get SubkeyAttr.expires r s = (some (int r.expires), s)

  -- `pygpgme_key_sig_get_…`
  unfoldable pub key_sig_get : KeySigAttr → KeySigRaw → PyState → Option Value × PyState
  unfolding enum_value_new
  key_sig_get KeySigAttr.revoked r s = (some (bool_from_long r.revoked), s)
  key_sig_get KeySigAttr.expired r s = (some (bool_from_long r.expired), s)
  key_sig_get KeySigAttr.invalid r s = (some (bool_from_long r.invalid), s)
  key_sig_get KeySigAttr.exportable r s = (some (bool_from_long r.exportable), s)
  key_sig_get KeySigAttr.pubkey_algo r s =
      enum_value_new P EnumName.pubkey_algo (pos r.pubkey_algo) s
  key_sig_get KeySigAttr.keyid r s = (some (or_none P.decode_ascii r.keyid), s)
  key_sig_get KeySigAttr.timestamp r s = (some (int r.timestamp), s)
  key_sig_get KeySigAttr.expires r s = (some (int r.expires), s)
  key_sig_get KeySigAttr.uid r s = (some (or_none P.decode_utf8 r.uid), s)
  key_sig_get KeySigAttr.name r s = (some (or_none P.decode_utf8 r.name), s)
  key_sig_get KeySigAttr.email r s = (some (or_none P.decode_utf8 r.email), s)
  key_sig_get KeySigAttr.comment r s = (some (or_none P.decode_utf8 r.comment), s)
  key_sig_get KeySigAttr.sig_class r s = (some (int (pos r.sig_class)), s)

  unfoldable pub key_sig_get_status : KeySigRaw → PyState → ErrRef × PyState
  unfolding error_object
  key_sig_get_status r s = error_object P r.status s

  -- `pygpgme_user_id_get_…`
  unfoldable pub user_id_get : UserIdAttr → UserIdRaw → PyState → Option Value × PyState
  unfolding enum_value_new
  user_id_get UserIdAttr.revoked r s = (some (bool_from_long r.revoked), s)
  user_id_get UserIdAttr.invalid r s = (some (bool_from_long r.invalid), s)
  user_id_get UserIdAttr.validity r s = enum_value_new P EnumName.validity (pos r.validity) s
  user_id_get UserIdAttr.uid r s = (some (or_none P.decode_utf8 r.uid), s)
  user_id_get UserIdAttr.name r s = (some (or_none P.decode_utf8 r.name), s)
  user_id_get UserIdAttr.email r s = (some (or_none P.decode_utf8 r.email), s)
  user_id_get UserIdAttr.comment r s = (some (or_none P.decode_utf8 r.comment), s)

  -- `pygpgme_key_get_…`, for the flags
  unfoldable pub key_flag_get : KeyFlag → KeyRaw → PyState → Option Value × PyState
  key_flag_get KeyFlag.revoked r s = (some (bool_from_long r.revoked), s)
  key_flag_get KeyFlag.expired r s = (some (bool_from_long r.expired), s)
  key_flag_get KeyFlag.disabled r s = (some (bool_from_long r.disabled), s)
  key_flag_get KeyFlag.invalid r s = (some (bool_from_long r.invalid), s)
  key_flag_get KeyFlag.can_encrypt r s = (some (bool_from_long r.can_encrypt), s)
  key_flag_get KeyFlag.can_sign r s = (some (bool_from_long r.can_sign), s)
  key_flag_get KeyFlag.can_certify r s = (some (bool_from_long r.can_certify), s)
  key_flag_get KeyFlag.secret r s = (some (bool_from_long r.secret), s)
  key_flag_get KeyFlag.can_authenticate r s = (some (bool_from_long r.can_authenticate), s)

  -- `pygpgme_key_get_…`
  unfoldable pub key_get : KeyAttr → KeyRaw → PyState → Option Value × PyState
  unfolding enum_value_new
  key_get KeyAttr.protocol r s = enum_value_new P EnumName.protocol (pos r.protocol) s
  key_get KeyAttr.issuer_serial r s = (some (or_none P.decode_ascii r.issuer_serial), s)
  key_get KeyAttr.issuer_name r s = (some (or_none P.decode_utf8 r.issuer_name), s)
  key_get KeyAttr.chain_id r s = (some (or_none P.decode_ascii r.chain_id), s)
  key_get KeyAttr.owner_trust r s = enum_value_new P EnumName.validity (pos r.owner_trust) s

  unfoldable pub key_get_keylist_mode : KeyRaw → PyState → Option Value × PyState
  unfolding enum_value_new
  key_get_keylist_mode r s = enum_value_new P EnumName.keylist_mode (pos r.keylist_mode) s
