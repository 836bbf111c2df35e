-- ===== src/Data/Callbacks.antt =====
-- `set_errno`, `read_cb`, `write_cb` and `seek_cb`. The interpreter is held all through them: taking
-- it and giving it back is in Threads.
use pygpgme.Base.{ℕ, ◌-◌, ◌^◌, min, true, Option, none, some, [], ltb, if◌then◌else◌, length, take}
use pygpgme.Base.Int.{ℤ, pos, negsuc, to_int}
use pygpgme.Python.Value.{Text, Value, as_int, bytes, Exc, ExcType}
use pygpgme.Python.State.{PyState, clear_error, new_object, as_long}

-- How a call of a Python method ends.
pub data Reply : Type 0 where
  returned : Value → Reply
  raised : Exc → Reply

-- A Python file object, over the type `F` of its states. `errno_attr` is the attribute `errno` of an
-- exception, `none` where there is none.
pub record FileObject (F : Type 0) : Type 0 where
  pub read : F → ℤ → Reply × F
  pub write : F → Text → Reply × F
  pub seek : F → ℤ → ℤ → Reply × F
  pub tell : F → Reply × F
  pub errno_attr : Exc → Option Value

-- The thread's Python state, the file, and C's `errno`.
pub record Io (F : Type 0) : Type 0 where
  pub py : PyState
  pub file : F
  pub errno : ℤ

-- EINVAL of Linux
abbrev pub einval : ℤ
einval = pos 22

-- A `size_t` below 2 ^ 64, as `long`.
abbrev pub long_of_size : ℕ → ℤ
long_of_size n = if ltb n (2 ^ 63) then pos n else negsuc (2 ^ 64 - 1 - n)

-- `PyObject_CallMethod` that fails: `NULL`, with the exception pending.
abbrev pub failed : {F : Type 0} → Exc → F → Io F → Io F
failed e f io = record io { file = f; py = record io.py { exc = some e } }

module _ {F : Type 0} (file : FileObject F) where
  invalid : Io F → Io F
  invalid io = record io { errno = einval }

  -- The attribute `errno`, if it is an int, by `PyLong_AsLong`.
  from_attr : Option Value → Io F → Io F
  from_attr none io = invalid io
  from_attr (some v) io =
      let (z, s) = as_long v io.py in
      elim (as_int v) [ none ↦ invalid io | some _ ↦ record io { py = s; errno = to_int z } ]

  from_exc : Exc → Io F → Io F
  from_exc e io = elim e.kind [
    | ExcType.os_error ↦ from_attr (file.errno_attr e) io
    | _ ↦ invalid io
  ]

  -- `set_errno`; with no exception pending, it would call `Py_DECREF(NULL)`.
  unfoldable pub set_errno : Io F → Io F
  unfolding from_exc from_attr invalid
  set_errno io = elim io.py.exc [
    | none ↦ invalid (record io { py = record io.py { fault = true } })
    | some e ↦ from_exc e (record io { py = clear_error io.py })
  ]

  -- The bytes that a `read` returned, into a buffer of `size`.
  copy_out : ℕ → Value → Io F → ℤ × Text × Io F
  copy_out size (bytes b) io = let n = min (length b) size in (pos n, take n b, io)
  copy_out size v io = (negsuc 0, [], invalid io)

  unfoldable pub read_end : ℕ → Reply × F → Io F → ℤ × Text × Io F
  unfolding copy_out invalid
  read_end size (returned v, f) io = copy_out size v (record io { file = f })
  read_end size (raised e, f) io = (negsuc 0, [], set_errno (failed e f io))

  -- `read_cb`: the result, the bytes copied into the buffer, and the state.
  unfoldable pub read_cb : ℕ → Io F → ℤ × Text × Io F
  read_cb size io = read_end size (file.read io.file (long_of_size size)) io

  unfoldable pub write_end : Text → Reply × F → Io F → ℤ × Io F
  write_end buffer (returned v, f) io = (pos (length buffer), record io { file = f })
  write_end buffer (raised e, f) io = (negsuc 0, set_errno (failed e f io))

  -- `write_cb`
  unfoldable pub write_cb : Text → Io F → ℤ × Io F
  write_cb buffer io =
      let (fits, s) = new_object io.py in
      let io1 : Io F = record io { py = s } in
      if fits then write_end buffer (file.write io.file buffer) io1 else (negsuc 0, set_errno io1)

  -- The position that `tell` returns, by `PyLong_AsLong`.
  unfoldable pub tell_end : Reply × F → Io F → ℤ × Io F
  unfolding invalid
  tell_end (returned v, f) io =
      let io1 : Io F = record io { file = f } in
      let (z, s) = as_long v io1.py in
      elim (as_int v) [ none ↦ (negsuc 0, invalid io1) | some _ ↦ (z, record io1 { py = s }) ]
  tell_end (raised e, f) io = (negsuc 0, set_errno (failed e f io))

  unfoldable pub seek_end : Reply × F → Io F → ℤ × Io F
  seek_end (returned v, f) io = tell_end (file.tell f) (record io { file = f })
  seek_end (raised e, f) io = (negsuc 0, set_errno (failed e f io))

  -- `seek_cb`
  unfoldable pub seek_cb : ℤ → ℤ → Io F → ℤ × Io F
  seek_cb offset whence io = seek_end (file.seek io.file offset whence) io
