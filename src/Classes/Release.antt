-- ===== src/Classes/Release.antt =====
-- lib/pygpgme-signature.c, lib/pygpgme-import.c, lib/pygpgme-genkey.c, lib/pygpgme-engine-info.c: the release of
-- results.
use Prim.Native.String.{String}
use pygpgme.Base.{ℕ, ◌-◌, Option, none, some, List, [], ◌∷◌}
use pygpgme.Module.State.{TypeName}
use pygpgme.Context.World.{decref}

-- An object of one of the classes: the object that each field points to, `none` for `NULL`, and its class.
pub record Struct : Type 0 where
  pub field : String → Option ℕ
  pub class : ℕ

-- The references on each object, and the number of objects in memory. `PyObject_New` has taken a
-- reference on the class. What happens where a last reference is dropped is not followed.
pub record Memory : Type 0 where
  pub refs : ℕ → ℕ
  pub objects : ℕ

-- `Py_XDECREF`
abbrev pub xdecref : Option ℕ → Memory → Memory
xdecref none m = m
xdecref (some o) m = record m { refs = decref o m.refs }

-- `Py_XDECREF` of fields, one after the other.
unfoldable pub xdecrefs : Struct → List String → Memory → Memory
xdecrefs self [] m = m
xdecrefs self (f ∷ rest) m = xdecrefs self rest (xdecref (self.field f) m)

-- `PyObject_Del`
abbrev pub object_del : Memory → Memory
object_del m = record m { objects = m.objects - 1 }

unfoldable pub newsig_dealloc : Struct → Memory → Memory
newsig_dealloc self m = object_del (
    xdecrefs self ("type" ∷ "pubkey_algo" ∷ "hash_algo" ∷ "timestamp" ∷ "fpr" ∷ "sig_class" ∷ []) m)

unfoldable pub sig_dealloc : Struct → Memory → Memory
sig_dealloc self m = object_del (
    xdecrefs self
      ("summary" ∷ "fpr" ∷ "status" ∷ "notations" ∷ "timestamp" ∷ "exp_timestamp"
        ∷ "wrong_key_usage" ∷ "validity" ∷ "validity_reason" ∷ "pubkey_algo" ∷ "hash_algo" ∷ [])
      m)

unfoldable pub sig_notation_dealloc : Struct → Memory → Memory
sig_notation_dealloc self m = xdecrefs self ("name" ∷ "value" ∷ []) m

unfoldable pub import_result_dealloc : Struct → Memory → Memory
import_result_dealloc self m = object_del (
    xdecrefs self
      ("considered" ∷ "no_user_id" ∷ "imported" ∷ "imported_rsa" ∷ "unchanged" ∷ "new_user_ids"
        ∷ "new_sub_keys" ∷ "new_signatures" ∷ "new_revocations" ∷ "secret_read" ∷ "secret_imported"
        ∷ "secret_unchanged" ∷ "skipped_new_keys" ∷ "not_imported" ∷ "imports" ∷ [])
      m)

unfoldable pub genkey_result_dealloc : Struct → Memory → Memory
genkey_result_dealloc self m = object_del (xdecrefs self ("primary" ∷ "sub" ∷ "fpr" ∷ []) m)

unfoldable pub engine_info_dealloc : Struct → Memory → Memory
engine_info_dealloc self m =
    xdecrefs self ("protocol" ∷ "file_name" ∷ "version" ∷ "req_version" ∷ "home_dir" ∷ []) m

-- The classes of results.
pub data ResultName : Type 0 where
  new_signature signature sig_notation import_result genkey_result engine_info : ResultName

abbrev pub type_of : ResultName → TypeName
type_of ResultName.new_signature = TypeName.new_signature
type_of ResultName.signature = TypeName.signature
type_of ResultName.sig_notation = TypeName.sig_notation
type_of ResultName.import_result = TypeName.import_result
type_of ResultName.genkey_result = TypeName.genkey_result
type_of ResultName.engine_info = TypeName.engine_info

-- The function for `Py_tp_dealloc` of each of them.
abbrev pub dealloc_of : ResultName → Struct → Memory → Memory
dealloc_of ResultName.new_signature = newsig_dealloc
dealloc_of ResultName.signature = sig_dealloc
dealloc_of ResultName.sig_notation = sig_notation_dealloc
dealloc_of ResultName.import_result = import_result_dealloc
dealloc_of ResultName.genkey_result = genkey_result_dealloc
dealloc_of ResultName.engine_info = engine_info_dealloc
