-- ===== src/Classes/Spec.antt =====
-- What the tables of a class are made of: `PyMemberDef`, `PyGetSetDef`, `PyMethodDef`, `PyType_Slot` and
-- `PyType_Spec`.
use Prim.Native.String.{String}
use pygpgme.Base.{ℕ, Bool, ltb, Option, List, [], ◌∷◌, if◌then◌else◌}
use pygpgme.Module.State.{TypeName}
use pygpgme.Keys.Getters.{SubkeyAttr, KeySigAttr, UserIdAttr, KeyFlag, KeyAttr}

-- The attributes of `Context`, each with its `pygpgme_context_get_…` and `pygpgme_context_set_…`.
pub data ContextAttr : Type 0 where
  protocol armor textmode offline include_certs keylist_mode pinentry_mode : ContextAttr
  passphrase_cb progress_cb signers sig_notations sender : ContextAttr

-- The getters of all classes.
pub data Getter : Type 0 where
  of_subkey : SubkeyAttr → Getter
  of_key_sig : KeySigAttr → Getter
  of_user_id : UserIdAttr → Getter
  of_key_flag : KeyFlag → Getter
  of_key : KeyAttr → Getter
  of_context : ContextAttr → Getter
  key_sig_status user_id_signatures key_subkeys key_uids key_keylist_mode : Getter
  notation_flags notation_human_readable notation_critical : Getter

-- The methods of `Context`.
pub data Method : Type 0 where
  get_engine_info set_engine_info set_locale get_key encrypt encrypt_sign decrypt : Method
  decrypt_verify sign verify import_ import_keys export export_keys genkey delete : Method
  edit card_edit keylist : Method

-- An attribute and the field of the object that it shows, which cannot be assigned.
pub data Member : Type 0 where
  readonly : String → String → Member

-- An attribute with its getter and its setter, `none` for `NULL`.
abbrev pub GetSet : Type 0
GetSet = String × Getter × Option ContextAttr

abbrev pub MethodDef : Type 0
MethodDef = String × Method

-- The functions for `Py_tp_init`.
pub data Init : Type 0 where
  no_constructor init_context init_notation : Init

-- The slots; the function for `Py_tp_dealloc` is told by the class that it is for, and the others that
-- have no argument here stand in one class only.
pub data Slot : Type 0 where
  tp_init : Init → Slot
  tp_dealloc : TypeName → Slot
  tp_members : List Member → Slot
  tp_getset : List GetSet → Slot
  tp_methods : List MethodDef → Slot
  tp_new tp_iter tp_iternext sq_length sq_item tp_doc : Slot

-- `Py_TPFLAGS_…`
pub data TypeFlag : Type 0 where
  default disallow_instantiation immutable_type : TypeFlag

pub record TypeSpec : Type 0 where
  pub name : String
  pub flags : List TypeFlag
  pub slots : List Slot

-- `PY_VERSION_HEX < 0x030a0000`
abbrev pub is_old : ℕ → Bool
is_old version = ltb version 50987008

-- The flags of the classes that Python code does not create, and of the two that it does.
abbrev pub hidden_flags : Bool → List TypeFlag
hidden_flags old =
    if old then default ∷ [] else default ∷ disallow_instantiation ∷ immutable_type ∷ []

abbrev pub open_flags : Bool → List TypeFlag
open_flags old = if old then default ∷ [] else default ∷ immutable_type ∷ []
