-- ===== src/Data/Reading.antt =====
-- gpgme reading a file object to its end by calls of `read_cb`.
use pygpgme.Base.{
  ℕ, zero, suc, ◌^◌, ◌≤◌, ◌<◌, ◌≡◌, refl, sym, ap, ◌∙◌, Option, none, some, [], ◌∷◌, ◌++◌, length,
  length-append, take_all, min, arith,
}
use pygpgme.Base.Int.{ℤ, pos, negsuc}
use pygpgme.Python.Value.{Text, bytes}
use pygpgme.Data.Callbacks.{FileObject, Io, returned, long_of_size, read_end, read_cb}

module _ {F : Type 0} (file : FileObject F) where
  -- One call of `read` gives bytes `got` and leaves the file as `after`: at most `n` bytes, the first of
  -- those that are `left`, and none only where none are left.
  pub record Reads (left : F → Text) (f : F) (n : ℕ) : Type 0 where
    pub got : Text
    pub after : F
    pub gives : file.read f (pos n) ≡ (returned (bytes got), after)
    pub fits : length got ≤ n
    pub first : left f ≡ got ++ left after
    pub ends : got ≡ [] → left f ≡ []

  -- What a call that returned `n` and copied `got` leads to, where the later calls give `more`.
  next : ℤ → Text → Io F → Option Text × Io F → Option Text × Io F
  next (negsuc n) got io more = (none, io)
  next (pos zero) got io more = (some [], io)
  next (pos (suc n)) got io (none, io1) = (none, io1)
  next (pos (suc n)) got io (some more, io1) = (some (got ++ more), io1)

  -- The calls of `read_cb` with a buffer of `size`, `fuel` at most, until one copies nothing: all the
  -- bytes copied, `none` after an error or where the fuel is used up.
  unfoldable pub read_all : ℕ → ℕ → Io F → Option Text × Io F
  unfolding next
  read_all zero size io = (none, io)
  read_all (suc fuel) size io =
      let (n, got, io1) = read_cb file size io in next n got io1 (read_all fuel size io1)

  read_cb-gives :
      (size : ℕ) (io : Io F) (b : Text) (f : F)
      → size < 2 ^ 63
      → file.read io.file (pos size) ≡ (returned (bytes b), f)
      → length b ≤ size
      → read_cb file size io ≡ (pos (length b), b, record io { file = f })
  unfolding read_cb read_end
  read_cb-gives size io b f small e fits =
      let cut : long_of_size size ≡ pos size = ground arith in
      let all : min (length b) size ≡ length b = ground arith in
      rw (cut, e, all, take_all (length b) b (omega arith)) refl

  module _ (left : F → Text) where
    -- The result of reading to the end: all of `whole`, with nothing left and the rest of the state as
    -- in `io`.
    abbrev pub Ends : Text → Io F → Option Text × Io F → Type 0
    Ends whole io r =
        (r.0 ≡ some whole) × (left r.1.file ≡ []) × (r.1.py ≡ io.py) × (r.1.errno ≡ io.errno)

    next-Ends :
        (b whole : Text) (io : Io F) (more : Option Text × Io F)
        → whole ≡ b ++ left io.file
        → (b ≡ [] → whole ≡ [])
        → (0 < length b → Ends (left io.file) io more)
        → Ends whole io (next (pos (length b)) b io more)
    unfolding next
    next-Ends [] whole io more split last rest =
        (ap some (sym (last refl)), sym split ∙ last refl, refl, refl)
    next-Ends (x ∷ b) whole io (none, io1) split last rest =
        let h = rest (omega arith) in ground arith
    next-Ends (x ∷ b) whole io (some m, io1) split last rest =
        let h = rest (omega arith) in ground arith

    -- A file whose `read` of `size` bytes gives that many of the bytes left or fewer, and none only at
    -- the end, is read to its end by calls of `read_cb` with a buffer of that size below 2 ^ 63: one call
    -- more than there are bytes is enough, the bytes copied are all that were left, in order, none is
    -- left, and the thread's Python state and `errno` are as before.
    pub read_all-Ends :
        (size fuel : ℕ) (io : Io F)
        → size < 2 ^ 63
        → ((f : F) → Reads left f size)
        → length (left io.file) < fuel
        → Ends (left io.file) io (read_all fuel size io)
    unfolding read_all
    read_all-Ends size zero io small reads enough = absurd (omega arith)
    read_all-Ends size (suc fuel) io small reads enough =
        let r = reads io.file in
        let io1 : Io F = record io { file = r.after } in
        let size_of = ap length r.first ∙ length-append r.got (left r.after) in
        rw (read_cb-gives size io r.got r.after small r.gives r.fits) (
          next-Ends r.got (left io.file) io1 (read_all fuel size io1) r.first r.ends
            (λ some_got. read_all-Ends size fuel io1 small reads (omega arith)))
