-- ===== src/Data/Tests.antt =====
-- A file in memory, as io.BytesIO: its bytes and its position. Its device holds 8 bytes.
use pygpgme.Base.{
  ℕ, ◌+◌, ◌^◌, ◌≡◌, refl, true, none, some, [], ◌∷◌, ◌++◌, ltb, if◌then◌else◌, length, take, drop,
  arith, sym, length-take, take-append-drop,
}
use pygpgme.Base.Int.{ℤ, pos, negsuc}
use pygpgme.Python.Value.{Text, int, bytes, Exc, os_error}
use pygpgme.Errors.Tests.{idle}
use pygpgme.Data.Callbacks.{
  FileObject, Io, Reply, returned, raised, read_cb, write_cb, write_end, seek_cb,
}
use pygpgme.Data.Reading.{Reads, Ends, read_all, read_all-Ends}
use pygpgme.Data.Reports.{
  HasLongs, Copies, Buffers, Seeks, read_cb-Copies, write_cb-Writes, seek_cb-Seeks,
}

record Memory : Type 0 where
  content : Text
  at : ℕ

-- `OSError(28, ...)`
abbrev no_space : Exc
no_space = record { kind = os_error; args = some (int (pos 28) ∷ []); attrs = [] }

abbrev read : Memory → ℤ → Reply × Memory
read m (pos n) =
    let got = take n (drop m.at m.content) in
    (returned (bytes got), record m { at = m.at + length got })
read m (negsuc n) =
    let got = drop m.at m.content in (returned (bytes got), record m { at = m.at + length got })

-- Writing at the end; the device has room for 8 bytes.
abbrev write : Memory → Text → Reply × Memory
write m b =
    if ltb (length m.content + length b) 9
    then (returned (int (pos (length b))), record m { content = m.content ++ b })
    else (raised no_space, m)

abbrev seek : Memory → ℤ → ℤ → Reply × Memory
seek m (pos n) whence = (returned (int (pos n)), record m { at = n })
seek m (negsuc n) whence = (raised no_space, m)

abbrev memory : FileObject Memory
memory = record {
  read = read;
  write = write;
  seek = seek;
  tell = λ m. (returned (int (if ltb m.at 9 then pos m.at else pos 9)), m);
  errno_attr = λ e. some (int (pos 28));
}

memory-HasLongs : HasLongs memory
memory-HasLongs = record {
  errnos = λ e v z p q. ground arith;
  positions = λ f v z p q. ground arith;
}

abbrev opened : Io Memory
opened = record { py = idle; file = record { content = 1 ∷ 2 ∷ 3 ∷ []; at = 0 }; errno = pos 0 }

read_cb-Copies_example :
    let (n, got, io') = read_cb memory 2 opened in
    (io'.py.exc ≡ none) × Copies memory 2 (returned (bytes (1 ∷ 2 ∷ []))) n got io'.errno
read_cb-Copies_example = read_cb-Copies memory 2 opened memory-HasLongs refl

write_cb-Writes_example :
    let (n, io') = write_cb memory (4 ∷ 5 ∷ []) opened in
    (io'.py.exc ≡ none)
    × Buffers memory true (4 ∷ 5 ∷ []) (memory.write opened.file (4 ∷ 5 ∷ [])) n opened io'
write_cb-Writes_example = write_cb-Writes memory (4 ∷ 5 ∷ []) opened memory-HasLongs refl

seek_cb-Seeks_example :
    let (n, io') = seek_cb memory (pos 2) (pos 0) opened in
    (io'.py.exc ≡ none) × Seeks memory (memory.seek opened.file (pos 2) (pos 0)) n io'.errno
seek_cb-Seeks_example = seek_cb-Seeks memory (pos 2) (pos 0) opened memory-HasLongs refl

full_device : (write_cb memory (4 ∷ 5 ∷ 6 ∷ 7 ∷ 8 ∷ 9 ∷ []) opened).0 ≡ negsuc 0
unfolding write_cb write_end
full_device = refl

-- A file so large that its position does not fit.
abbrev huge : FileObject Memory
huge = record memory { tell = λ m. (returned (int (pos (2 ^ 63))), m) }

-- A pipe that nobody writes to: the bytes that are left.
abbrev read_pipe : Text → ℤ → Reply × Text
read_pipe m (pos n) = (returned (bytes (take n m)), drop n m)
read_pipe m (negsuc n) = (returned (bytes m), [])

abbrev pipe : FileObject Text
pipe = record {
  read = read_pipe;
  write = λ m b. (raised no_space, m);
  seek = λ m offset whence. (raised no_space, m);
  tell = λ m. (raised no_space, m);
  errno_attr = λ e. none;
}

take_empty : (m : Text) → take 2 m ≡ [] → m ≡ []
take_empty [] q = refl
take_empty (x ∷ m) q = absurd (ground arith)

pipe-Reads : (m : Text) → Reads pipe (λ m. m) m 2
pipe-Reads m = record {
  got = take 2 m;
  after = drop 2 m;
  gives = refl;
  fits = ground (arith, length-take 2 m);
  first = sym (take-append-drop 2 m);
  ends = take_empty m;
}

abbrev opened_pipe : Io Text
opened_pipe = record { py = idle; file = 1 ∷ 2 ∷ 3 ∷ []; errno = pos 0 }

read_all-Ends_example :
    Ends pipe (λ m. m) (1 ∷ 2 ∷ 3 ∷ []) opened_pipe (read_all pipe 4 2 opened_pipe)
read_all-Ends_example =
    read_all-Ends pipe (λ m. m) 2 4 opened_pipe (omega arith) pipe-Reads (omega arith)
