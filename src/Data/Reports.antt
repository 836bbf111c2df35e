-- ===== src/Data/Reports.antt =====
-- What the callbacks report to gpgme.
use pygpgme.Base.{
  ℕ, ◌≡◌, inl, inr, refl, ◌∙◌, Bool, true, false, Option, none, some, [], length, take, length-take,
  take-min, ap, arith, min, Bool-cases, Option-cases,
}
use pygpgme.Base.Int.{ℤ, pos, negsuc, fits_long, to_int}
use pygpgme.Python.Value.{Text, Value, as_int, bytes, Exc, ExcType}
use pygpgme.Python.State.{PyState, occurred, new_object}
use pygpgme.Data.Callbacks.{
  FileObject, Io, einval, Reply, returned, raised, long_of_size, set_errno, read_end, read_cb,
  write_cb, write_end, seek_end, tell_end, seek_cb,
}

-- Without memory a `MemoryError` is pending.
no_memory :
    (s : PyState)
    → (new_object s).0 ≡ false
    → (x : Exc) × ((new_object s).1.exc ≡ some x) × (x.kind ≡ ExcType.memory_error)
no_memory s e = elim (Option-cases (new_object s).1.exc) [
  | inl n ↦ absurd (ground arith)
  | inr (x, m) ↦ (x, m, ground arith)
]

module _ {F : Type 0} (file : FileObject F) where
  -- Every int that is the `errno` of an exception, or that `tell` returns, is in the range of `long`.
  pub record HasLongs : Type 0 where
    pub errnos :
        (e : Exc) (v : Value) (z : ℤ)
        → file.errno_attr e ≡ some v
        → as_int v ≡ some z
        → fits_long z ≡ true
    pub positions :
        (f : F) (v : Value) (z : ℤ)
        → (file.tell f).0 ≡ returned v
        → as_int v ≡ some z
        → fits_long z ≡ true

  set_errno-clears :
      (io : Io F) (e : Exc) → HasLongs → io.py.exc ≡ some e → (set_errno file io).py.exc ≡ none
  unfolding set_errno
  set_errno-clears io e h q = elim (Option-cases (file.errno_attr e)) [
    | inl a ↦ ground arith
    | inr (v, a) ↦ elim (Option-cases (as_int v)) [
      | inl b ↦ ground arith
      | inr (z, b) ↦ ground (arith, h.errnos e v z a b)
    ]
  ]

  -- The `errno` that stands for an exception: that of an `OSError` if it is an int, cut to an `int`, else
  -- EINVAL.
  abbrev pub errno_value : Option Value → ℤ
  errno_value none = einval
  errno_value (some v) = elim (as_int v) [ none ↦ einval | some z ↦ to_int z ]

  abbrev pub errno_for : Exc → ℤ
  errno_for e = elim e.kind [ ExcType.os_error ↦ errno_value (file.errno_attr e) | _ ↦ einval ]

  errno_for-memory : (x : Exc) → x.kind ≡ ExcType.memory_error → errno_for x ≡ einval
  errno_for-memory x k = ground (arith, k)

  set_errno-sets :
      (io : Io F) (e : Exc)
      → HasLongs
      → io.py.exc ≡ some e
      → (set_errno file io).errno ≡ errno_for e
  unfolding set_errno
  set_errno-sets io e h q = elim (Option-cases (file.errno_attr e)) [
    | inl a ↦ ground arith
    | inr (v, a) ↦ elim (Option-cases (as_int v)) [
      | inl b ↦ ground arith
      | inr (z, b) ↦ ground (arith, h.errnos e v z a b)
    ]
  ]

  -- What `read_cb` returns and copies, by how the file's `read` ends.
  abbrev pub Copies : ℕ → Reply → ℤ → Text → ℤ → Type 0
  Copies size (returned (bytes b)) n got errno = (got ≡ take size b) × (n ≡ pos (length got))
  Copies size (returned v) n got errno = (n ≡ negsuc 0) × (got ≡ []) × (errno ≡ einval)
  Copies size (raised e) n got errno = (n ≡ negsuc 0) × (got ≡ []) × (errno ≡ errno_for e)

  read_end-Copies :
      (size : ℕ) (r : Reply × F) (io : Io F)
      → HasLongs
      → io.py.exc ≡ none
      → let (n, got, io') = read_end file size r io in
        (io'.py.exc ≡ none) × Copies size r.0 n got io'.errno
  unfolding read_end
  read_end-Copies size (returned (bytes b), f) io h q =
      (q, (take-min size b, ap pos (ground (arith, length-take (min (length b) size) b))))
  read_end-Copies size (returned v, f) io h q = (q, (refl, refl, refl))
  read_end-Copies size (raised e, f) io h q =
      (set_errno-clears _ e h refl, (refl, refl, set_errno-sets _ e h refl))

  -- Where the ints of the file's exceptions fit a `long`, `read_cb` leaves no exception pending. Where
  -- `read` returns bytes, the buffer gets as many of their first bytes as it has room for, and their
  -- number is the result; otherwise the result is -1, the buffer is left alone, and C's `errno` stands
  -- for the exception that `read` raised, or is EINVAL for an object that is no bytes.
  pub read_cb-Copies :
      (size : ℕ) (io : Io F)
      → HasLongs
      → io.py.exc ≡ none
      → let (n, got, io') = read_cb file size io in
        (io'.py.exc ≡ none) × Copies size (file.read io.file (long_of_size size)).0 n got io'.errno
  unfolding read_cb
  read_cb-Copies size io h q = read_end-Copies size (file.read io.file (long_of_size size)) io h q

  -- What `write_cb` returns, and C's `errno` where it fails, once the bytes object is made.
  abbrev pub Writes : Text → Reply → ℤ → ℤ → Type 0
  Writes buffer (returned v) n errno = n ≡ pos (length buffer)
  Writes buffer (raised e) n errno = (n ≡ negsuc 0) × (errno ≡ errno_for e)

  write_end-Writes :
      (buffer : Text) (r : Reply × F) (io : Io F)
      → HasLongs
      → io.py.exc ≡ none
      → let (n, io') = write_end file buffer r io in
        (io'.py.exc ≡ none) × Writes buffer r.0 n io'.errno
  unfolding write_end
  write_end-Writes buffer (returned v, f) io h q = (q, refl)
  write_end-Writes buffer (raised e, f) io h q =
      (set_errno-clears _ e h refl, (refl, set_errno-sets _ e h refl))

  -- What it comes to with the bytes object or without: then `write` is not called.
  abbrev pub Buffers : Bool → Text → Reply × F → ℤ → Io F → Io F → Type 0
  Buffers true buffer r n io io' = Writes buffer r.0 n io'.errno × (io'.file ≡ r.1)
  Buffers false buffer r n io io' = (n ≡ negsuc 0) × (io'.errno ≡ einval) × (io'.file ≡ io.file)

  set_errno-file : (io : Io F) → (set_errno file io).file ≡ io.file
  unfolding set_errno
  set_errno-file io = ground arith

  write_end-file :
      (buffer : Text) (r : Reply × F) (io : Io F) → (write_end file buffer r io).1.file ≡ r.1
  unfolding write_end
  write_end-file buffer (returned v, f) io = refl
  write_end-file buffer (raised e, f) io = set_errno-file _

  -- Where the ints of the file's exceptions fit a `long`, `write_cb` leaves no exception pending. With
  -- memory for the bytes, it calls `write` with all of the buffer; where that returns, the result is the
  -- size of the buffer, whatever `write` returned, and where it raises, the result is -1 and C's `errno`
  -- stands for the exception. Without memory, `write` is not called, the result is -1 and `errno` EINVAL.
  pub write_cb-Writes :
      (buffer : Text) (io : Io F)
      → HasLongs
      → io.py.exc ≡ none
      → let (n, io') = write_cb file buffer io in
        (io'.py.exc ≡ none)
        × Buffers (new_object io.py).0 buffer (file.write io.file buffer) n io io'
  unfolding write_cb
  write_cb-Writes buffer io h q = elim (Bool-cases (new_object io.py).0) [
    | inl e ↦
        let io1 : Io F = record io { py = (new_object io.py).1 } in
        let (a, b) = write_end-Writes buffer (file.write io.file buffer) io1 h (ground arith) in
        rw e (a, (b, write_end-file buffer (file.write io.file buffer) io1))
    | inr e ↦
        let io1 : Io F = record io { py = (new_object io.py).1 } in
        let (x, m, k) = no_memory io.py e in
        rw e (
          set_errno-clears io1 x h m,
          (refl, set_errno-sets io1 x h m ∙ errno_for-memory x k, set_errno-file io1),
        )
  ]

  -- What `seek_cb` returns, and C's `errno` where it fails: a `seek` and then a `tell`.
  abbrev pub Tells : Reply → ℤ → ℤ → Type 0
  Tells (raised e) n errno = (n ≡ negsuc 0) × (errno ≡ errno_for e)
  Tells (returned p) n errno = elim (as_int p) [
    | none ↦ (n ≡ negsuc 0) × (errno ≡ einval)
    | some z ↦ n ≡ z
  ]

  abbrev pub Seeks : Reply × F → ℤ → ℤ → Type 0
  Seeks (raised e, f) n errno = (n ≡ negsuc 0) × (errno ≡ errno_for e)
  Seeks (returned v, f) n errno = Tells (file.tell f).0 n errno

  tell_end-Tells :
      (f : F) (r : Reply × F) (io : Io F)
      → HasLongs
      → file.tell f ≡ r
      → io.py.exc ≡ none
      → let (n, io') = tell_end file r io in (io'.py.exc ≡ none) × Tells r.0 n io'.errno
  unfolding tell_end
  tell_end-Tells f (returned v, g) io h t q = elim (Option-cases (as_int v)) [
    | inl a ↦ ground arith
    | inr (z, a) ↦ let fits = h.positions f v z (ap (λ x. x.0) t) a in ground arith
  ]
  tell_end-Tells f (raised e, g) io h t q =
      (set_errno-clears _ e h refl, (refl, set_errno-sets _ e h refl))

  seek_end-Seeks :
      (r : Reply × F) (io : Io F)
      → HasLongs
      → io.py.exc ≡ none
      → let (n, io') = seek_end file r io in (io'.py.exc ≡ none) × Seeks r n io'.errno
  unfolding seek_end
  seek_end-Seeks (returned v, f) io h q =
      tell_end-Tells f (file.tell f) (record io { file = f }) h refl q
  seek_end-Seeks (raised e, f) io h q =
      (set_errno-clears _ e h refl, (refl, set_errno-sets _ e h refl))

  -- Where the positions that `tell` returns and the ints of the file's exceptions fit a `long`, `seek_cb`
  -- leaves no exception pending. Where `seek` and then `tell` return and the position is an int, that is
  -- the result; otherwise the result is -1, and C's `errno` stands for the exception that `seek` or
  -- `tell` raised, or is EINVAL for a position that is no int.
  pub seek_cb-Seeks :
      (offset whence : ℤ) (io : Io F)
      → HasLongs
      → io.py.exc ≡ none
      → let (n, io') = seek_cb file offset whence io in
        (io'.py.exc ≡ none) × Seeks (file.seek io.file offset whence) n io'.errno
  unfolding seek_cb
  seek_cb-Seeks offset whence io h q = seek_end-Seeks (file.seek io.file offset whence) io h q

  -- A position that does not fit a `long` escapes `seek_cb`: after a `seek` that returns, it returns -1
  -- with the `OverflowError` of the conversion still pending.
  seek_cb_leaves :
      (offset whence : ℤ) (io : Io F) (v p : Value) (f : F) (z : ℤ)
      → file.seek io.file offset whence ≡ (returned v, f)
      → (file.tell f).0 ≡ returned p
      → as_int p ≡ some z
      → fits_long z ≡ false
      → let (n, io') = seek_cb file offset whence io in (n ≡ negsuc 0) × (occurred io'.py ≡ true)
  unfolding seek_cb seek_end tell_end
  seek_cb_leaves offset whence io v p f z a b c d = ground (arith, a, b, c, d)
