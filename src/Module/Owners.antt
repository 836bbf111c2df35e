-- ===== src/Module/Owners.antt =====
-- lib/gpgme.c: which fields of the state own a reference, and which borrow that of the module.
use Prim.Native.String.{String}
use pygpgme.Base.{ℕ, ◌+◌, ◌≤◌, ◌≡◌, refl, true, false, List, [], ◌∷◌, map}
use pygpgme.Python.Value.{EnumName}
use pygpgme.Context.World.{same}
use pygpgme.Module.State.{
  TypeName, context, engine_info, key, subkey, user_id, key_sig, key_iter, new_signature, signature,
  sig_notation, import_result, genkey_result, Field, type_field, enum_field, error_field, Module,
}
use pygpgme.Module.Exec.{all_types, all_enums}
use pygpgme.Module.Fields.{mem, distinct, held}

-- The fields that hold a reference of their own, and those that hold the module's.
abbrev pub own_fields : List Field
own_fields = error_field ∷ map type_field all_types

abbrev pub enum_fields : List Field
enum_fields = map enum_field all_enums

-- How many attributes of the module hold `x`.
unfoldable pub listed : ℕ → List (String × ℕ) → ℕ
listed x [] = 0
listed x ((name, o) ∷ rest) = same o x + listed x rest

-- Each object has the references of the module's attributes and of the fields that own one; and
-- what the enumerations' fields hold is among the attributes.
pub record IsBalanced (x : ℕ) (m : Module) : Type 0 where
  pub balance : m.refs x ≡ listed x m.attrs + held x own_fields m.slots
  pub borrowed : held x enum_fields m.slots ≤ listed x m.attrs

pub type_own :
    (t : TypeName)
    → (mem (type_field t) own_fields ≡ true) × (mem (type_field t) enum_fields ≡ false)
unfolding mem
type_own context = (refl, refl)
type_own engine_info = (refl, refl)
type_own key = (refl, refl)
type_own subkey = (refl, refl)
type_own user_id = (refl, refl)
type_own key_sig = (refl, refl)
type_own key_iter = (refl, refl)
type_own new_signature = (refl, refl)
type_own signature = (refl, refl)
type_own sig_notation = (refl, refl)
type_own import_result = (refl, refl)
type_own genkey_result = (refl, refl)

pub enum_borrowed :
    (e : EnumName)
    → (mem (enum_field e) own_fields ≡ false) × (mem (enum_field e) enum_fields ≡ true)
unfolding mem
enum_borrowed EnumName.data_encoding = (refl, refl)
enum_borrowed EnumName.pubkey_algo = (refl, refl)
enum_borrowed EnumName.hash_algo = (refl, refl)
enum_borrowed EnumName.sig_mode = (refl, refl)
enum_borrowed EnumName.validity = (refl, refl)
enum_borrowed EnumName.protocol = (refl, refl)
enum_borrowed EnumName.keylist_mode = (refl, refl)
enum_borrowed EnumName.pinentry_mode = (refl, refl)
enum_borrowed EnumName.export_mode = (refl, refl)
enum_borrowed EnumName.sig_notation_flags = (refl, refl)
enum_borrowed EnumName.status = (refl, refl)
enum_borrowed EnumName.encrypt_flags = (refl, refl)
enum_borrowed EnumName.sigsum = (refl, refl)
enum_borrowed EnumName.import_status = (refl, refl)
enum_borrowed EnumName.delete_flags = (refl, refl)
enum_borrowed EnumName.err_source = (refl, refl)
enum_borrowed EnumName.err_code = (refl, refl)

pub own_distinct : distinct own_fields ≡ true
unfolding distinct mem
own_distinct = refl

pub enum_distinct : distinct enum_fields ≡ true
unfolding distinct mem
enum_distinct = refl
