-- ===== src/Python/Value.antt =====
-- lib/pygpgme.h: the Python objects that the extension builds and reads, and its exceptions.
use pygpgme.Base.{ℕ, Bool, true, false, Option, none, some, List}
use pygpgme.Base.Int.{ℤ, pos}

-- The enumerations that the module state keeps a class for.
pub data EnumName : Type 0 where
  data_encoding pubkey_algo hash_algo sig_mode validity protocol : EnumName
  keylist_mode pinentry_mode export_mode sig_notation_flags status : EnumName
  encrypt_flags sigsum import_status delete_flags err_source err_code : EnumName

-- The bytes of a C string, or the code points of a Python str.
abbrev pub Text : Type 0
Text = List ℕ

-- A Python object, as far as the extension looks into it. `other` is any object of a class that it
-- does not know, told apart by a number.
pub data Value : Type 0 where
  none_value : Value
  boolean : Bool → Value
  int : ℤ → Value
  member : EnumName → ℤ → Value
  str : Text → Value
  bytes : Text → Value
  other : ℕ → Value

-- `PyLong_Check` with the value: bool and the enumerations derive from int.
abbrev pub as_int : Value → Option ℤ
as_int (boolean true) = some (pos 1)
as_int (boolean false) = some (pos 0)
as_int (int z) = some z
as_int (member t z) = some z
as_int _ = none

-- An exception's class, by the first of these classes that it derives from; `IOError` is `OSError`.
pub data ExcType : Type 0 where
  gpgme_error os_error value_error type_error attribute_error index_error : ExcType
  overflow_error memory_error stop_iteration system_error : ExcType
  another : ℕ → ExcType

-- The `GpgmeError` instance that `pygpgme_error_object` makes: its three arguments.
pub record ErrorObject : Type 0 where
  pub source : Value
  pub code : Value
  pub strerror : Value

-- What `pygpgme_error_object` returns: `NULL`, `None` or an instance.
pub data ErrRef : Type 0 where
  null : ErrRef
  py_none : ErrRef
  instance_of : ErrorObject → ErrRef

-- A returned object pointer: `NULL`, `None` or an object of a class of the extension.
pub data Ref (A : Type 0) : Type 0 where
  null_ref : Ref A
  none_ref : Ref A
  object : A → Ref A

-- `PyGpgmeNewSignature`; a field is `none` where its pointer is `NULL`.
pub record NewSignature : Type 0 where
  pub sig_type : Option Value
  pub pubkey_algo : Option Value
  pub hash_algo : Option Value
  pub timestamp : Option Value
  pub fpr : Option Value
  pub sig_class : Option Value

-- `PyGpgmeSigNotation`
pub record SigNotation : Type 0 where
  pub name : Value
  pub value : Value
  pub flags : ℕ

-- `PyGpgmeSignature`
pub record Signature : Type 0 where
  pub summary : Option Value
  pub fpr : Option Value
  pub status : ErrRef
  pub notations : Option (List SigNotation)
  pub timestamp : Option Value
  pub exp_timestamp : Option Value
  pub wrong_key_usage : Option Value
  pub validity : Option Value
  pub validity_reason : ErrRef
  pub pubkey_algo : Option Value
  pub hash_algo : Option Value

-- One tuple of `ImportResult.imports`.
pub record ImportItem : Type 0 where
  pub fpr : Value
  pub result : ErrRef
  pub status : Option Value

-- `PyGpgmeImportResult`
pub record ImportResult : Type 0 where
  pub considered : ℤ
  pub no_user_id : ℤ
  pub imported : ℤ
  pub imported_rsa : ℤ
  pub unchanged : ℤ
  pub new_user_ids : ℤ
  pub new_sub_keys : ℤ
  pub new_signatures : ℤ
  pub new_revocations : ℤ
  pub secret_read : ℤ
  pub secret_imported : ℤ
  pub secret_unchanged : ℤ
  pub skipped_new_keys : ℤ
  pub not_imported : ℤ
  pub imports : List ImportItem

-- `PyGpgmeGenkeyResult`
pub record GenkeyResult : Type 0 where
  pub primary : Value
  pub sub : Value
  pub fpr : Value

-- A tuple of `invalid_recipients` or `invalid_signers`: fingerprint and reason.
pub record InvalidKey : Type 0 where
  pub fpr : Value
  pub reason : ErrRef

-- An attribute that the C code sets on an exception.
pub data Attr : Type 0 where
  source_attr code_attr strerror_attr : Value → Attr
  invalid_recipients invalid_signers : List InvalidKey → Attr
  new_signatures_attr : List NewSignature → Attr
  signatures_attr : List Signature → Attr
  unsupported_algorithm wrong_key_usage_attr : Value → Attr
  import_attr : Ref ImportResult → Attr
  genkey_attr : Ref GenkeyResult → Attr

-- A Python exception: its class, its `args` tuple (`none` where reading it fails) and the attributes
-- set on it, the first set first.
pub record Exc : Type 0 where
  pub kind : ExcType
  pub args : Option (List Value)
  pub attrs : List Attr
