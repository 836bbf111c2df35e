-- ===== src/Module/Exec.antt =====
-- lib/gpgme.c: `pygpgme_mod_exec`, with `pygpgme_add_constants`. The dict that `make_enum` gives to
-- Python's `enum` is that of Constants.Enums.
use Prim.Native.String.{String}
use pygpgme.Base.{ℕ, Bool, true, false, Option, none, some, List, [], ◌∷◌}
use pygpgme.Python.Value.{EnumName}
use pygpgme.Context.World.{incref}
use pygpgme.Constants.Tables.{table}
use pygpgme.Module.State.{
  TypeName, context, engine_info, key, subkey, user_id, key_sig, key_iter, new_signature, signature,
  sig_notation, import_result, genkey_result, type_field, enum_field, error_field, Module, set_slot,
  fresh, create, add_object,
}

-- The names in `INIT_TYPE`.
abbrev pub type_name : TypeName → String
type_name context = "Context"
type_name engine_info = "EngineInfo"
type_name key = "Key"
type_name subkey = "Subkey"
type_name user_id = "UserId"
type_name key_sig = "KeySig"
type_name key_iter = "KeyIter"
type_name new_signature = "NewSignature"
type_name signature = "Signature"
type_name sig_notation = "SigNotation"
type_name import_result = "ImportResult"
type_name genkey_result = "GenkeyResult"

abbrev pub all_types : List TypeName
all_types =
    context ∷ engine_info ∷ key ∷ subkey ∷ user_id ∷ key_sig ∷ key_iter ∷ new_signature ∷ signature
    ∷ sig_notation ∷ import_result ∷ genkey_result ∷ []

-- The enumerations in the order in which `pygpgme_add_constants` makes them.
abbrev pub all_enums : List EnumName
all_enums =
    EnumName.data_encoding ∷ EnumName.pubkey_algo ∷ EnumName.hash_algo ∷ EnumName.sig_mode
    ∷ EnumName.validity ∷ EnumName.protocol ∷ EnumName.keylist_mode ∷ EnumName.pinentry_mode
    ∷ EnumName.export_mode ∷ EnumName.sig_notation_flags ∷ EnumName.status ∷ EnumName.encrypt_flags
    ∷ EnumName.sigsum ∷ EnumName.import_status ∷ EnumName.delete_flags ∷ EnumName.err_source
    ∷ EnumName.err_code ∷ []

-- `Py_INCREF`
incref_object : Option ℕ → Module → Module
incref_object none m = record m { fault = true }
incref_object (some o) m = record m { refs = incref o m.refs }

-- `PyErr_NewException` and the two lines after it: its result is not checked.
unfoldable pub add_error : Module → Module
unfolding create add_object incref_object
add_error m =
    let (o, m1) = create m in
    add_object "GpgmeError" o
      (incref_object o (record m1 { slots = set_slot error_field o m1.slots }))

-- The end of `INIT_TYPE`: the state and the module hold a reference each.
keep_type : TypeName → Option ℕ → Module → Bool × Module
unfolding add_object incref_object
keep_type t none m = (true, m)
keep_type t (some o) m = (false, add_object (type_name t) (some o) (incref_object (some o) m))

-- `INIT_TYPE`; `true` is the result -1.
unfoldable pub init_type : TypeName → Module → Bool × Module
unfolding create keep_type
init_type t m =
    let (o, m1) = create m in
    keep_type t o (record m1 { slots = set_slot (type_field t) o m1.slots })

unfoldable pub init_types : List TypeName → Module → Bool × Module
unfolding init_type
init_types [] m = (false, m)
init_types (t ∷ rest) m =
    let (bad, m1) = init_type t m in
    let next = init_types rest m1 in elim bad [ true ↦ (true, m1) | false ↦ next ]

-- `make_enum` and the line that stores its result: the only reference on the class goes to the module.
unfoldable pub make_enum : EnumName → Module → Module
unfolding create add_object
make_enum e m =
    let (o, m1) = create m in
    let m2 = add_object (table e).name o m1 in
    record m2 { slots = set_slot (enum_field e) o m2.slots }

-- `pygpgme_add_constants`
unfoldable pub add_constants : List EnumName → Module → Module
unfolding make_enum
add_constants [] m = m
add_constants (e ∷ rest) m = add_constants rest (make_enum e m)

-- The text of gpgme's version, an object whose creation is not checked.
unfoldable pub add_version : Module → Module
unfolding add_object
add_version m = let (o, m1) = fresh m.outcomes m in add_object "gpgme_version" o m1

-- `pygpgme_mod_exec`
unfoldable pub mod_exec : Module → Bool × Module
unfolding add_error init_types add_constants add_version
mod_exec m =
    let (bad, m1) = init_types all_types (add_error m) in
    elim bad [ true ↦ (true, m1) | false ↦ (false, add_version (add_constants all_enums m1)) ]
