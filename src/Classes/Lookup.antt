-- ===== src/Classes/Lookup.antt =====
-- What CPython makes of the tables of a class: its attributes, and the call of the class.
use Prim.Native.String.{String}
use text.Mathlib.Text.{◌==◌}
use pygpgme.Base.{Bool, true, false, Option, none, some, List, [], ◌∷◌, ◌++◌, map, if◌then◌else◌}
use pygpgme.Python.Value.{ExcType, type_error, another}
use pygpgme.Module.State.{TypeName}
use pygpgme.Classes.Spec.{
  ContextAttr, Getter, Method, Member, readonly, GetSet, MethodDef, Init, no_constructor, Slot,
  tp_init, tp_members, tp_getset, tp_methods, TypeFlag, disallow_instantiation, immutable_type,
  TypeSpec,
}
use pygpgme.Classes.Results.{
  newsig_spec, sig_spec, sig_notation_spec, import_result_spec, genkey_result_spec,
  engine_info_spec,
}
use pygpgme.Classes.Keys.{subkey_spec, key_sig_spec, user_id_spec, key_spec, keyiter_spec}
use pygpgme.Classes.Context.{context_spec}

-- The spec of a class, by whether Python is older than 3.10.
unfoldable pub spec_of : Bool → TypeName → TypeSpec
spec_of old TypeName.context = context_spec old
spec_of old TypeName.engine_info = engine_info_spec old
spec_of old TypeName.key = key_spec old
spec_of old TypeName.subkey = subkey_spec old
spec_of old TypeName.user_id = user_id_spec old
spec_of old TypeName.key_sig = key_sig_spec old
spec_of old TypeName.key_iter = keyiter_spec old
spec_of old TypeName.new_signature = newsig_spec old
spec_of old TypeName.signature = sig_spec old
spec_of old TypeName.sig_notation = sig_notation_spec old
spec_of old TypeName.import_result = import_result_spec old
spec_of old TypeName.genkey_result = genkey_result_spec old

-- What an attribute is: a method, a field of the object, or a getter with a setter or none.
pub data Access : Type 0 where
  calls : Method → Access
  shows : String → Access
  property : Getter → Option ContextAttr → Access

abbrev pub Entry : Type 0
Entry = String × Access

abbrev pub member_entry : Member → Entry
member_entry (readonly name field) = (name, shows field)

getset_entry : GetSet → Entry
getset_entry (name, get, set) = (name, property get set)

method_entry : MethodDef → Entry
method_entry (name, method) = (name, calls method)

abbrev pub members_of : List Slot → List Member
members_of [] = []
members_of (tp_members ms ∷ rest) = ms ++ members_of rest
members_of (s ∷ rest) = members_of rest

getsets_of : List Slot → List GetSet
getsets_of [] = []
getsets_of (tp_getset gs ∷ rest) = gs ++ getsets_of rest
getsets_of (s ∷ rest) = getsets_of rest

methods_of : List Slot → List MethodDef
methods_of [] = []
methods_of (tp_methods ms ∷ rest) = ms ++ methods_of rest
methods_of (s ∷ rest) = methods_of rest

-- The methods come first, then the members and the getters.
unfoldable pub entries : TypeSpec → List Entry
unfolding getset_entry method_entry getsets_of methods_of
entries spec =
    map method_entry (methods_of spec.slots)
    ++ (map member_entry (members_of spec.slots) ++ map getset_entry (getsets_of spec.slots))

unfoldable pub find : String → List Entry → Option Access
find name [] = none
find name ((n, a) ∷ rest) = if n == name then some a else find name rest

-- The attribute of the name: of two entries with one name the first counts.
abbrev pub attribute : TypeSpec → String → Option Access
attribute spec name = find name (entries spec)

-- The call of a class: `Py_tp_init` runs, or an exception is raised.
pub data Creation : Type 0 where
  refused : ExcType → Creation
  initialised : Init → Creation
  plain : Creation

-- The class of `NotImplementedError`.
abbrev pub not_implemented : ExcType
not_implemented = another 2

-- `pygpgme_no_constructor` raises always.
abbrev pub run_init : Init → Creation
run_init no_constructor = refused not_implemented
run_init i = initialised i

abbrev pub init_in : List Slot → Creation
init_in [] = plain
init_in (tp_init i ∷ rest) = run_init i
init_in (s ∷ rest) = init_in rest

abbrev pub disallows : List TypeFlag → Bool
disallows [] = false
disallows (disallow_instantiation ∷ rest) = true
disallows (f ∷ rest) = disallows rest

abbrev pub is_immutable : List TypeFlag → Bool
is_immutable [] = false
is_immutable (immutable_type ∷ rest) = true
is_immutable (f ∷ rest) = is_immutable rest

unfoldable pub creation : TypeSpec → Creation
creation spec = if disallows spec.flags then refused type_error else init_in spec.slots
