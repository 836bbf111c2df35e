-- ===== src/Keys/Heap.antt =====
-- lib/pygpgme-key.c: the Python objects for keys and their parts in memory, their deallocation, and
-- a Python program that uses them.
use pygpgme.Base.{ℕ, zero, suc, ◌<◌, Option, none, some, ◌==◌, if◌then◌else◌}
use pygpgme.Context.World.{incref, decref}

-- What an object points to: a `Key` to its `gpgme_key_t`, a part to its parent.
pub data Body : Type 0 where
  wraps : ℕ → Body
  part_of : ℕ → Body

-- The objects by number, `none` where there is none or where it is freed; their reference counts; those
-- of the gpgme keys; and the number of the next object.
pub record Heap : Type 0 where
  pub body : ℕ → Option Body
  pub refs : ℕ → ℕ
  pub keys : ℕ → ℕ
  pub next : ℕ

abbrev pub set_body : ℕ → Option Body → (ℕ → Option Body) → ℕ → Option Body
set_body o b bodies x = if x == o then b else bodies x

-- `pygpgme_key_new`: a new object with one reference takes one on the gpgme key.
unfoldable pub new_key : ℕ → Heap → Heap
new_key k h = record {
  body = set_body h.next (some (wraps k)) h.body;
  refs = incref h.next h.refs;
  keys = incref k h.keys;
  next = suc h.next;
}

-- One round of the loop of `pygpgme_key_get_subkeys`, `pygpgme_key_get_uids` or
-- `pygpgme_user_id_get_signatures`: a new object with one reference, the list's, takes one on the
-- object whose getter runs.
unfoldable pub new_part : ℕ → Heap → Heap
new_part parent h = record {
  body = set_body h.next (some (part_of parent)) h.body;
  refs = incref parent (incref h.next h.refs);
  keys = h.keys;
  next = suc h.next;
}

-- What a deallocation does with the object's body. Here the object's memory is freed before this and
-- in C after it, which makes no difference, as nothing else refers to the object: `pygpgme_key_dealloc` gives
-- back the gpgme key, and the function of a part's class drops the parent by `drop_parent`.
unfoldable pub dealloc : (ℕ → Heap → Heap) → Option Body → Heap → Heap
dealloc drop_parent none h = h
dealloc drop_parent (some (wraps k)) h = record h { keys = decref k h.keys }
dealloc drop_parent (some (part_of p)) h = drop_parent p h

-- An object without its last reference and its place in memory.
abbrev pub freed : ℕ → Heap → Heap
freed o h = record h { refs = decref o h.refs; body = set_body o none h.body }

-- `Py_DECREF` of an object, which is freed at its last reference. The fuel bounds the chain of
-- parents, each of which is older than its part: one more than the object's number is enough.
unfoldable pub drop_from : ℕ → ℕ → Heap → Heap
unfolding dealloc
drop_from zero o h = h
drop_from (suc fuel) o h =
    let after = dealloc (drop_from fuel) (h.body o) (freed o h) in
    if h.refs o == 1 then after else record h { refs = decref o h.refs }

-- `Py_DECREF`
abbrev pub drop_object : ℕ → Heap → Heap
drop_object o h = drop_from (suc o) o h

-- A program and the references it holds. It makes keys, asks an object that it holds for a part,
-- copies a reference, and drops one. gpgme and others hold `outside` references on each gpgme key.
pub data Step : Heap → (ℕ → ℕ) → Heap → (ℕ → ℕ) → Type 0 where
  make_key : (h : Heap) (held : ℕ → ℕ) (k : ℕ) → Step h held (new_key k h) (incref h.next held)
  make_part :
      (h : Heap) (held : ℕ → ℕ) (o : ℕ)
      → 0 < held o
      → Step h held (new_part o h) (incref h.next held)
  copy :
      (h : Heap) (held : ℕ → ℕ) (o : ℕ)
      → 0 < held o
      → Step h held (record h { refs = incref o h.refs }) (incref o held)
  release :
      (h : Heap) (held : ℕ → ℕ) (o : ℕ) → 0 < held o → Step h held (drop_object o h) (decref o held)

-- No object yet; `outside` counts the references of others on the gpgme keys.
abbrev pub start : (ℕ → ℕ) → Heap
start outside = record { body = λ o. none; refs = λ o. 0; keys = outside; next = 0 }

pub data Reach (outside : ℕ → ℕ) : Heap → (ℕ → ℕ) → Type 0 where
  here : Reach outside (start outside) (λ o. 0)
  step :
      {h h' : Heap} {held held' : ℕ → ℕ}
      → Reach outside h held
      → Step h held h' held'
      → Reach outside h' held'
