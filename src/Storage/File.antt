-- ===== src/Storage/File.antt =====
-- The reads, writes and truncations of disk/DiskIO.cpp on a file as a list of bytes. They do not
-- fail; a read beyond the end does.
use stoneleaf_db.Common.Slices.{drop-append, drop_beyond, take-append, take_self}
use mathlib.Core.List.{append-nil}
use stoneleaf_db.Common.{
  ℕ, ◌+◌, Option, none, some, List, ◌++◌, length, take, drop, ltb, if◌then◌else◌, ◌≡◌, arith,
  length-append,
}

-- disk::write_exact_at
unfoldable pub write_at : List ℕ → ℕ → List ℕ → List ℕ
write_at file offset bytes = take offset file ++ (bytes ++ drop (offset + length bytes) file)

-- disk::read_exact_at
unfoldable pub read_at : List ℕ → ℕ → ℕ → Option (List ℕ)
read_at file offset count =
    if ltb (length file) (offset + count) then none else some (take count (drop offset file))

-- disk::truncate_file to a size that is not above the file's
unfoldable pub truncate : List ℕ → ℕ → List ℕ
truncate file size = take size file

-- Writing at the end appends.
pub write_at_end : (file bytes : List ℕ) → write_at file (length file) bytes ≡ file ++ bytes
unfolding write_at
write_at_end file bytes =
    rw (
      take_self file,
      drop_beyond (length file + length bytes) file (omega arith),
      append-nil bytes,
    )

-- What stands in the middle of a file is read from there.
pub read_at_middle :
    (before bytes after : List ℕ)
    → read_at (before ++ (bytes ++ after)) (length before) (length bytes) ≡ some bytes
unfolding read_at
read_at_middle before bytes after =
    rw (drop-append before (bytes ++ after), take-append bytes after)
      (ground (arith, length-append before (bytes ++ after), length-append bytes after))
