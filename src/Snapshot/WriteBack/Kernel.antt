-- ===== src/Snapshot/WriteBack/Kernel.antt =====
-- What the copies of shm-snapshot/src/bin/shm-restore.rs rely on of `lseek`, `ftruncate`, `mmap`,
-- `write` and `copy_file_range`, as their manual pages have it.
use shmfd.Prelude.{ℕ, ◌+◌, ◌≤◌, ◌≡◌, ◌≢◌, some, List, ◌++◌, length, take, drop}
use shmfd.Fd.Text.{ℤ, pos}
use shmfd.Snapshot.WriteBack.{Calls}

-- Bytes put over a file from a position on.
abbrev pub overwrite : List ℕ → ℕ → List ℕ → List ℕ
overwrite file k bytes = take k file ++ (bytes ++ drop (k + length bytes) file)

-- The files as a process sees them: their bytes, the position of each descriptor, and how many bytes
-- the next `write` will take.
pub record Kernel {S : Type 0} (calls : Calls S) : Type 0 where
  pub contents : S → ℤ → List ℕ
  pub cursor : S → ℤ → ℕ
  pub takes : S → ℤ → List ℕ → ℕ
  pub seek_end-size : (s : S) (fd : ℤ) → (calls.seek_end s fd).0 ≡ pos (length (contents s fd))
  pub seek_end-contents : (s : S) (fd g : ℤ) → contents (calls.seek_end s fd).1 g ≡ contents s g
  pub seek_set-cursor : (s : S) (fd : ℤ) → cursor (calls.seek_set s fd) fd ≡ 0
  pub seek_set-contents : (s : S) (fd g : ℤ) → contents (calls.seek_set s fd) g ≡ contents s g
  pub ftruncate-size :
      (s : S) (fd : ℤ) (n : ℕ) → length (contents (calls.ftruncate s fd (pos n)) fd) ≡ n
  pub ftruncate-cursor :
      (s : S) (fd : ℤ) (n : ℕ) → cursor (calls.ftruncate s fd (pos n)) fd ≡ cursor s fd
  pub ftruncate-others :
      (s : S) (fd : ℤ) (n : ℕ) (g : ℤ)
      → g ≢ fd
      → contents (calls.ftruncate s fd (pos n)) g ≡ contents s g
  pub map-contents : (s : S) (fd : ℤ) → calls.map s fd ≡ some (contents s fd)
  pub takes-bound : (s : S) (fd : ℤ) (bytes : List ℕ) → takes s fd bytes ≤ length bytes
  pub write-count :
      (s : S) (fd : ℤ) (bytes : List ℕ) → (calls.write s fd bytes).0 ≡ pos (takes s fd bytes)
  pub write-contents :
      (s : S) (fd : ℤ) (bytes : List ℕ)
      → contents (calls.write s fd bytes).1 fd
        ≡ overwrite (contents s fd) (cursor s fd) (take (takes s fd bytes) bytes)
  pub write-cursor :
      (s : S) (fd : ℤ) (bytes : List ℕ)
      → cursor (calls.write s fd bytes).1 fd ≡ cursor s fd + takes s fd bytes
  pub write-others :
      (s : S) (fd : ℤ) (bytes : List ℕ) (g : ℤ)
      → g ≢ fd
      → contents (calls.write s fd bytes).1 g ≡ contents s g

-- `copy_file_range` may fail, and changes only the bytes of the file that it copies to: within it, if
-- it was made long enough.
pub record KeepsSize {S : Type 0} {calls : Calls S} (k : Kernel calls) : Type 0 where
  pub size :
      (s : S) (source dest : ℤ) (n : ℕ)
      → n ≤ length (k.contents s dest)
      → length (k.contents (calls.copy_range s source dest n).1 dest) ≡ length (k.contents s dest)
  pub others :
      (s : S) (source dest : ℤ) (n : ℕ) (g : ℤ)
      → g ≢ dest
      → k.contents (calls.copy_range s source dest n).1 g ≡ k.contents s g
