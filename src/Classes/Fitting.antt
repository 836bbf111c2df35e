-- ===== src/Classes/Fitting.antt =====
-- Every attribute of a class is one that the class may have, under its own name.
use Prim.Native.String.{String}
use mathlib.Core.Path.{subst}
use text.Mathlib.Text.{◌==◌}
use text.Mathlib.TextEquality.{eq_iff}
use pygpgme.Base.{
  ℕ, ◌≡◌, sym, ap, ◌∙◌, Bool, true, false, some, List, [], ◌∷◌, arith, Bool-cases, inl, inr,
}
use pygpgme.Module.State.{TypeName}
use pygpgme.Classes.Spec.{is_old}
use pygpgme.Classes.Lookup.{spec_of, Access, Entry, entries, find, attribute}
use pygpgme.Classes.Names.{Fits}
use pygpgme.Classes.Interface.{entries_same}

abbrev AllFit : TypeName → List Entry → Type 0
AllFit t [] = true ≡ true
AllFit t ((name, a) ∷ rest) = Fits t name a × AllFit t rest

entries-AllFit : (t : TypeName) → AllFit t (entries (spec_of true t))
unfolding spec_of entries
entries-AllFit TypeName.context = ground arith
entries-AllFit TypeName.engine_info = ground arith
entries-AllFit TypeName.key = ground arith
entries-AllFit TypeName.subkey = ground arith
entries-AllFit TypeName.user_id = ground arith
entries-AllFit TypeName.key_sig = ground arith
entries-AllFit TypeName.key_iter = ground arith
entries-AllFit TypeName.new_signature = ground arith
entries-AllFit TypeName.signature = ground arith
entries-AllFit TypeName.sig_notation = ground arith
entries-AllFit TypeName.import_result = ground arith
entries-AllFit TypeName.genkey_result = ground arith

find-AllFit :
    (t : TypeName) (l : List Entry) (name : String) (a : Access)
    → AllFit t l
    → find name l ≡ some a
    → Fits t name a
unfolding find
find-AllFit t [] name a f e = ground arith
find-AllFit t ((n, b) ∷ rest) name a (f, fs) e = elim (Bool-cases (n == name)) [
  | inl y ↦
      let same : b ≡ a = ground (arith, y, e) in
      subst (λ x. Fits t name x) same (subst (λ x. Fits t x b) ((eq_iff n name).0 y) f)
  | inr y ↦ find-AllFit t rest name a fs (rw y at e)
]

attribute-any :
    (old : Bool) (t : TypeName) (name : String) (a : Access)
    → attribute (spec_of old t) name ≡ some a
    → Fits t name a
attribute-any true t name a e = find-AllFit t _ name a (entries-AllFit t) e
attribute-any false t name a e =
    find-AllFit t _ name a (entries-AllFit t) (ap (find name) (sym (entries_same t)) ∙ e)

-- With every version of Python, whatever attribute a class of the extension has under a name is a
-- method of Context whose name this is, in Context only, a getter of this class whose name this is, with
-- the setter that belongs to it in Context and with none elsewhere, or the field of that name; so only
-- the attributes of Context that the source gives a setter can be assigned.
pub attribute-Fits :
    (version : ℕ) (t : TypeName) (name : String) (a : Access)
    → attribute (spec_of (is_old version) t) name ≡ some a
    → Fits t name a
attribute-Fits version t name a e = attribute-any (is_old version) t name a e
