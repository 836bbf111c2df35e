-- ===== src/Context/Lifetime.antt =====
-- What a Context holds from its construction to its deallocation.
pub mod Tests
use pygpgme.Base.{if◌then◌else◌, ℕ, ◌+◌, ◌*◌, ◌≡◌, Bool, true, Option, none, some, List, [], ◌∷◌}
use pygpgme.Python.State.{Platform, new_object}
use pygpgme.Context.World.{World, same}
use pygpgme.Context.Callbacks.{Callback, Hooks, set_callback}
use pygpgme.Context.Life.{ContextObject, Usage, context_new, context_init, context_dealloc}

-- What a program does with a Context: a call of `__init__`, with whether its arguments are none and
-- what `gpgme_new` gives, or an assignment to a callback attribute.
pub data Use (C : Type 0) : Type 0 where
  initialise : Bool → ℕ × C → Use C
  assign : Callback → Option ℕ → Use C

-- The object, what is in use, and the world.
pub record Alive (C : Type 0) : Type 0 where
  pub self : ContextObject C
  pub usage : Usage
  pub world : World C

-- 1 if the field holds the object `o`.
unfoldable pub holds : Option ℕ → ℕ → ℕ
holds none o = 0
holds (some x) o = same x o

unfoldable pub made : {C : Type 0} → Option C → ℕ
made none = 0
made (some c) = 1

-- 1 if the object is allocated.
abbrev pub is_made : Usage → ℕ
is_made u = if (new_object u.py).0 then 1 else 0

-- The same objects, mutexes, gpgme contexts and references are in use, but for `n` more references on
-- the class.
pub record Same (class n : ℕ) (u u' : Usage) : Type 0 where
  pub objects_same : u'.objects ≡ u.objects
  pub mutexes_same : u'.mutexes ≡ u.mutexes
  pub contexts_same : u'.contexts ≡ u.contexts
  pub refs_same : (o : ℕ) → u'.refs o ≡ u.refs o + n * same class o

-- Beside what `u` counts, `u'` counts what the object holds, its class included.
pub record Holds {C : Type 0} (class : ℕ) (u : Usage) (self : ContextObject C) (u' : Usage)
    : Type 0 where
  pub object : u'.objects ≡ u.objects + 1
  pub has_mutex : self.mutex ≡ true
  pub mutex_held : u'.mutexes ≡ u.mutexes + 1
  pub context_held : u'.contexts ≡ u.contexts + made self.ctx
  pub refs_held :
      (o : ℕ)
      → u'.refs o
        ≡ u.refs o
          + same class o
          + (holds self.callbacks.passphrase_field o + holds self.callbacks.progress_field o)

module _ {C : Type 0} (P : Platform) (G : Hooks C) (class : ℕ) where
  unfoldable pub use_once : Use C → Alive C → Alive C
  use_once (initialise bare new) a =
      let (failed, self, u) = context_init P bare new a.self a.usage in
      record a { self = self; usage = u }
  use_once (assign k value) a =
      let (fields, w) =
        set_callback G k value a.self.callbacks (record a.world { refs = a.usage.refs }) in
      record {
        self = record a.self { callbacks = fields };
        usage = record a.usage { refs = w.refs };
        world = w;
      }

  unfoldable pub use_all : List (Use C) → Alive C → Alive C
  use_all [] a = a
  use_all (x ∷ xs) a = use_all xs (use_once x a)

  -- The use of a Context and its deallocation, if it could be made.
  use_up : List (Use C) → World C → Option (ContextObject C) × Usage → Usage
  use_up xs w (none, u) = u
  use_up xs w (some self, u) =
      let a = use_all xs (record { self = self; usage = u; world = w }) in
      context_dealloc a.self a.usage

  -- A Context from its construction to its deallocation.
  unfoldable pub lifetime : List (Use C) → World C → Usage → Usage
  unfolding use_up
  lifetime xs w u = use_up xs w (context_new class u)

  -- What the construction leads to: an object and what it holds, or nothing.
  Starts : Usage → Option (ContextObject C) × Usage → Type 0
  Starts u (none, u1) = Same class (is_made u) u u1
  Starts u (some self, u1) = Holds class u self u1 × (is_made u ≡ 1)
