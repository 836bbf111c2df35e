-- ===== src/Classes/Tests.antt =====
-- The classes with Python 3.9 and 3.13, and the release of one result.
use text.Mathlib.Text.{◌==◌}
use pygpgme.Base.{ℕ, ◌≡◌, refl, some, arith, if◌then◌else◌}
use pygpgme.Python.Value.{type_error}
use pygpgme.Module.State.{TypeName}
use pygpgme.Classes.Spec.{ContextAttr, of_context, Method, is_old}
use pygpgme.Classes.Lookup.{spec_of, property, refused, creation, entries, find}
use pygpgme.Classes.Names.{Fits}
use pygpgme.Classes.Reach.{ReachesGetter, ReachesMethod, attributes-Reaches}
use pygpgme.Classes.Fitting.{attribute-Fits}
use pygpgme.Classes.Release.{Struct, Memory, ResultName}
use pygpgme.Classes.Released.{Releases, shown_fields, held_in, dealloc-Releases}

abbrev python_3_9 : ℕ
python_3_9 = 50921712

abbrev python_3_13 : ℕ
python_3_13 = 51183856

key_refused : creation (spec_of (is_old python_3_13) TypeName.key) ≡ refused type_error
unfolding creation spec_of
key_refused = refl

attributes-Reaches_example :
    ReachesGetter (is_old python_3_9) (of_context ContextAttr.armor)
    × ReachesMethod (is_old python_3_9) Method.keylist
attributes-Reaches_example =
    attributes-Reaches python_3_9 (of_context ContextAttr.armor) Method.keylist

attribute-Fits_example :
    Fits TypeName.context "armor" (property (of_context ContextAttr.armor) (some ContextAttr.armor))
unfolding find entries spec_of
attribute-Fits_example =
    attribute-Fits python_3_13 TypeName.context "armor"
      (property (of_context ContextAttr.armor) (some ContextAttr.armor)) refl

-- `primary` and `sub` are both `True`, and there is no fingerprint.
abbrev generated : Struct
generated = record { field = λ f. if f == "fpr" then some 8 else some 7; class = 1 }

abbrev memory : Memory
memory = record { refs = λ x. 20; objects = 4 }

held_twice : held_in 7 generated (shown_fields ResultName.genkey_result) ≡ 2
unfolding held_in shown_fields spec_of pygpgme.Context.World.same
held_twice = refl

dealloc-Releases_example : Releases ResultName.genkey_result generated memory 7
dealloc-Releases_example =
    dealloc-Releases ResultName.genkey_result generated memory 7 (omega (arith, held_twice))
