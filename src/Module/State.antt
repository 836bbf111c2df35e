-- ===== src/Module/State.antt =====
-- lib/pygpgme.h and lib/gpgme.c: the state of the module, and the references on what it holds.
use Prim.Native.String.{String}
use pygpgme.Base.{ℕ, ◌+◌, ◌==◌, Bool, true, false, Option, none, some, List, [], ◌∷◌, if◌then◌else◌}
use pygpgme.Python.Value.{EnumName}
use pygpgme.Context.World.{incref, decref}

-- The classes that `mod_exec` makes from a spec.
pub data TypeName : Type 0 where
  context engine_info key subkey user_id key_sig key_iter : TypeName
  new_signature signature sig_notation import_result genkey_result : TypeName

-- The fields of `PyGpgmeModState`.
pub data Field : Type 0 where
  type_field : TypeName → Field
  enum_field : EnumName → Field
  error_field : Field

abbrev pub type_index : TypeName → ℕ
type_index context = 0
type_index engine_info = 1
type_index key = 2
type_index subkey = 3
type_index user_id = 4
type_index key_sig = 5
type_index key_iter = 6
type_index new_signature = 7
type_index signature = 8
type_index sig_notation = 9
type_index import_result = 10
type_index genkey_result = 11

-- The place of a field in the structure.
abbrev pub index : Field → ℕ
index (type_field t) = type_index t
index (enum_field EnumName.data_encoding) = 12
index (enum_field EnumName.pubkey_algo) = 13
index (enum_field EnumName.hash_algo) = 14
index (enum_field EnumName.sig_mode) = 15
index (enum_field EnumName.validity) = 16
index (enum_field EnumName.protocol) = 17
index (enum_field EnumName.keylist_mode) = 18
index (enum_field EnumName.pinentry_mode) = 19
index (enum_field EnumName.export_mode) = 20
index (enum_field EnumName.sig_notation_flags) = 21
index (enum_field EnumName.status) = 22
index (enum_field EnumName.encrypt_flags) = 23
index (enum_field EnumName.sigsum) = 24
index (enum_field EnumName.import_status) = 25
index (enum_field EnumName.delete_flags) = 26
index (enum_field EnumName.err_source) = 27
index (enum_field EnumName.err_code) = 28
index error_field = 29

-- The structure; `none` is `NULL`, else the number of an object.
abbrev pub Slots : Type 0
Slots = Field → Option ℕ

abbrev pub set_slot : Field → Option ℕ → Slots → Slots
set_slot f o s g = if index f == index g then o else s g

-- The module while it is set up: its state, its attributes with the newest first, the references on
-- each object, the number of the next object, and the outcome of each creation of a class to come;
-- past the end of the list all succeed. `pending` says that an exception is set, `fault` that
-- `NULL` was used as an object.
pub record Module : Type 0 where
  pub slots : Slots
  pub attrs : List (String × ℕ)
  pub refs : ℕ → ℕ
  pub next : ℕ
  pub outcomes : List Bool
  pub pending : Bool
  pub fault : Bool

-- A new object with one reference.
abbrev pub fresh : List Bool → Module → Option ℕ × Module
fresh rest m =
    (some m.next, record m { refs = incref m.next m.refs; next = m.next + 1; outcomes = rest })

-- The creation of a class: a new object, or `NULL` with an exception.
unfoldable pub create : Module → Option ℕ × Module
create m = elim m.outcomes [
  | [] ↦ fresh [] m
  | true ∷ rest ↦ fresh rest m
  | false ∷ rest ↦ (none, record m { outcomes = rest; pending = true })
]

-- `PyModule_AddObject` of an object takes over the caller's reference; of `NULL` it sets an exception.
unfoldable pub add_object : String → Option ℕ → Module → Module
add_object name none m = record m { pending = true }
add_object name (some o) m = record m { attrs = (name, o) ∷ m.attrs }

-- `Py_CLEAR` of a field.
unfoldable pub clear_slot : Field → Module → Module
clear_slot f m = elim (m.slots f) [
  | none ↦ m
  | some o ↦ record m { slots = set_slot f none m.slots; refs = decref o m.refs }
]
