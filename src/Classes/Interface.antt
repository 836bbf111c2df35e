-- ===== src/Classes/Interface.antt =====
-- The classes as Python code sees them.
use Prim.Native.String.{String}
use Prim.Native.String as strings
use pygpgme.Base.{ℕ, ◌≡◌, refl, Bool, true, false, not, Option, none, some, map, if◌then◌else◌}
use pygpgme.Python.Value.{type_error}
use pygpgme.Module.State.{TypeName}
use pygpgme.Constants.Members.{mem, distinct}
use pygpgme.Classes.Spec.{Init, Member, readonly, is_old}
use pygpgme.Classes.Lookup.{
  spec_of, Entry, entries, members_of, Creation, refused, initialised, not_implemented,
  is_immutable, creation,
}
use pygpgme.Classes.Stub.{stub_class, stub_names, stub_init}

-- The version makes no difference to the attributes.
pub entries_same : (t : TypeName) → entries (spec_of false t) ≡ entries (spec_of true t)
unfolding entries spec_of
entries_same TypeName.context = refl
entries_same TypeName.engine_info = refl
entries_same TypeName.key = refl
entries_same TypeName.subkey = refl
entries_same TypeName.user_id = refl
entries_same TypeName.key_sig = refl
entries_same TypeName.key_iter = refl
entries_same TypeName.new_signature = refl
entries_same TypeName.signature = refl
entries_same TypeName.sig_notation = refl
entries_same TypeName.import_result = refl
entries_same TypeName.genkey_result = refl

-- How the call of a class is to end.
abbrev pub expected : Bool → Option Init → Creation
expected old none = refused (if old then not_implemented else type_error)
expected old (some i) = initialised i

abbrev pub Creates : Bool → TypeName → Type 0
Creates old t =
    (creation (spec_of old t) ≡ expected old (stub_init t))
    × (is_immutable (spec_of old t).flags ≡ not old)
    × ((spec_of old t).name ≡ strings.◌++◌ "gpgme." (stub_class t))

abbrev pub entry_name : Entry → String
entry_name (name, a) = name

abbrev pub member_name : Member → String
member_name (readonly name field) = name

abbrev pub member_field : Member → String
member_field (readonly name field) = field

abbrev Declares : Bool → TypeName → Type 0
Declares old t =
    (map entry_name (entries (spec_of old t)) ≡ stub_names t)
    × (distinct (stub_names t) ≡ true)
    × (map member_name (members_of (spec_of old t).slots)
        ≡ map member_field (members_of (spec_of old t).slots))

entries_by : (old : Bool) (t : TypeName) → Declares old t
unfolding entries spec_of stub_names distinct mem
entries_by true TypeName.context = (refl, refl, refl)
entries_by true TypeName.engine_info = (refl, refl, refl)
entries_by true TypeName.key = (refl, refl, refl)
entries_by true TypeName.subkey = (refl, refl, refl)
entries_by true TypeName.user_id = (refl, refl, refl)
entries_by true TypeName.key_sig = (refl, refl, refl)
entries_by true TypeName.key_iter = (refl, refl, refl)
entries_by true TypeName.new_signature = (refl, refl, refl)
entries_by true TypeName.signature = (refl, refl, refl)
entries_by true TypeName.sig_notation = (refl, refl, refl)
entries_by true TypeName.import_result = (refl, refl, refl)
entries_by true TypeName.genkey_result = (refl, refl, refl)
entries_by false TypeName.context = (refl, refl, refl)
entries_by false TypeName.engine_info = (refl, refl, refl)
entries_by false TypeName.key = (refl, refl, refl)
entries_by false TypeName.subkey = (refl, refl, refl)
entries_by false TypeName.user_id = (refl, refl, refl)
entries_by false TypeName.key_sig = (refl, refl, refl)
entries_by false TypeName.key_iter = (refl, refl, refl)
entries_by false TypeName.new_signature = (refl, refl, refl)
entries_by false TypeName.signature = (refl, refl, refl)
entries_by false TypeName.sig_notation = (refl, refl, refl)
entries_by false TypeName.import_result = (refl, refl, refl)
entries_by false TypeName.genkey_result = (refl, refl, refl)

-- With every version of Python, the attributes and methods in the tables of a class are exactly those
-- that the stub declares for it, in its order and none twice, and each that shows a field of the object
-- shows the field of its own name. Names that begin with two underscores are left out.
entries-Declares : (version : ℕ) (t : TypeName) → Declares (is_old version) t
entries-Declares version t = entries_by (is_old version) t
