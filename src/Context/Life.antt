-- ===== src/Context/Life.antt =====
-- lib/pygpgme-context.c: how a Context is made, initialised and freed.
use pygpgme.Base.{ℕ, ◌+◌, ◌-◌, Bool, true, false, Option, none, some, if◌then◌else◌}
use pygpgme.Python.Value.{type_error, value_error}
use pygpgme.Python.State.{Platform, PyState, new_object, set_error}
use pygpgme.Errors.Convert.{check_error}
use pygpgme.Context.World.{incref}
use pygpgme.Context.Callbacks.{Fields, drop_ref}

-- An object of the class: its gpgme context, `none` for `NULL`, whether it has its mutex, and its
-- callbacks.
pub record ContextObject (C : Type 0) : Type 0 where
  pub ctx : Option C
  pub mutex : Bool
  pub callbacks : Fields

-- What is in use: objects, mutexes, gpgme contexts, and the references on Python objects.
pub record Usage : Type 0 where
  pub py : PyState
  pub objects : ℕ
  pub mutexes : ℕ
  pub contexts : ℕ
  pub refs : ℕ → ℕ

abbrev pub no_callbacks : Fields
no_callbacks = record { passphrase_field = none; progress_field = none }

module _ {C : Type 0} where
  -- `pygpgme_context_new`: `tp_alloc`, which clears the object and takes a reference on the class, and
  -- `PyThread_allocate_lock`, without which `tp_free` gives back the object, but not that reference.
  unfoldable pub context_new : ℕ → Usage → Option (ContextObject C) × Usage
  context_new class u =
      let refs = incref class u.refs in
      let (fits, s) = new_object u.py in
      let (locks, s1) = new_object s in
      let made : ContextObject C = record { ctx = none; mutex = true; callbacks = no_callbacks } in
      if fits
      then (if locks
          then (
            some made,
            record u { py = s1; objects = u.objects + 1; mutexes = u.mutexes + 1; refs = refs },
          )
          else (none, record u { py = s1; refs = refs }))
      else (none, record u { py = s })

  -- `gpgme_new` gave the error `err` or, if that is 0, the context `c`; `true` is the result -1.
  unfoldable pub init_with :
      Platform → ContextObject C → ℕ → C → Usage → Bool × ContextObject C × Usage
  unfolding check_error
  init_with P self err c u =
      let (failed, s) = check_error P err u.py in
      if failed
      then (true, self, record u { py = s })
      else (false, record self { ctx = some c }, record u { py = s; contexts = u.contexts + 1 })

  -- `pygpgme_context_init`; `args` says whether the arguments are none, as they must be, and
  -- `gpgme_new` is the error and the context that it gives.
  unfoldable pub context_init :
      Platform → Bool → ℕ × C → ContextObject C → Usage → Bool × ContextObject C × Usage
  unfolding init_with
  context_init P false (err, c) self u = (true, self, record u { py = set_error type_error u.py })
  context_init P true (err, c) self u = elim self.ctx [
    | none ↦ init_with P self err c u
    | some old ↦ (true, self, record u { py = set_error value_error u.py })
  ]

  -- `pygpgme_context_dealloc`, which leaves the class as it is.
  unfoldable pub context_dealloc : ContextObject C → Usage → Usage
  context_dealloc self u = record u {
    contexts = elim self.ctx [ none ↦ u.contexts | some c ↦ u.contexts - 1 ];
    mutexes = if self.mutex then u.mutexes - 1 else u.mutexes;
    refs = drop_ref self.callbacks.progress_field (drop_ref self.callbacks.passphrase_field u.refs);
    objects = u.objects - 1;
  }
