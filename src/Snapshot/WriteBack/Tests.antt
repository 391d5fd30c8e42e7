-- ===== src/Snapshot/WriteBack/Tests.antt =====
-- The copies of shm-snapshot/src/bin/shm-restore.rs on files in memory, with writes that take all or a
-- part of their bytes.
use shmfd.Prelude.{
  ℕ, suc, ◌+◌, ◌-◌, ◌/◌, ◌≤◌, ◌≡◌, ◌≢◌, refl, ap, ◌∙◌, arith, if◌then◌else◌, ◌==◌, done, some, List,
  [], ◌∷◌, ◌++◌, length, take, replicate, length-append, length-replicate,
}
use shmfd.Fd.Text.{ℤ, pos, negsuc, same_i32}
use shmfd.Fd.Exec.Table.{same_i32_refl, same_i32-ne}
use shmfd.Snapshot.WriteBack.{Calls, WriteBack, copy_file_all, writeback_protector}
use shmfd.Snapshot.WriteBack.Kernel.{Kernel, KeepsSize, overwrite}
use shmfd.Snapshot.WriteBack.Begun.{copy_file_all-returns}
use shmfd.Snapshot.WriteBack.Copies.{length-take, copy_file_all-Repeats}
use shmfd.Snapshot.WriteBack.Protector.{writeback_protector-Resizes}

-- The bytes and the position of every descriptor, and the number of writes so far.
pub record Disk : Type 0 where
  pub files : ℤ → List ℕ
  pub positions : ℤ → ℕ
  pub writes : ℕ

abbrev pub put {ℓ} : {A : Type ℓ} → (ℤ → A) → ℤ → A → ℤ → A
put f fd x g = if same_i32 g fd then x else f g

pub put-same {ℓ} : {A : Type ℓ} (f : ℤ → A) (fd : ℤ) (x : A) → put f fd x fd ≡ x
put-same f fd x = rw (same_i32_refl fd) refl

pub put-other {ℓ} : {A : Type ℓ} (f : ℤ → A) (fd : ℤ) (x : A) (g : ℤ) → g ≢ fd → put f fd x g ≡ f g
put-other f fd x g ne = rw (same_i32-ne g fd ne) refl

abbrev pub resize : List ℕ → ℕ → List ℕ
resize file n = take n (file ++ replicate n 0)

pub length-resize : (file : List ℕ) (n : ℕ) → length (resize file n) ≡ n
length-resize file n =
    length-take n (file ++ replicate n 0)
      (omega (arith, length-append file (replicate n 0), length-replicate {A = ℕ} n 0))

-- System calls by how many of `n` bytes the write number `c` takes. Copies within the kernel fail with
-- EXDEV.
module _ (taken : ℕ → ℕ → ℕ) where
  abbrev pub truncate : Disk → ℤ → ℤ → Disk
  truncate s fd (pos n) = record s { files = put s.files fd (resize (s.files fd) n) }
  truncate s fd (negsuc n) = s

  abbrev pub write_out : Disk → ℤ → List ℕ → ℤ × Disk
  write_out s fd bytes =
      let n = taken s.writes (length bytes) in
      (
        pos n,
        record {
          files = put s.files fd (overwrite (s.files fd) (s.positions fd) (take n bytes));
          positions = put s.positions fd (s.positions fd + n);
          writes = suc s.writes;
        },
      )

  abbrev pub disk_calls : Calls Disk
  disk_calls = record {
    seek_end = λ s fd. (
      pos (length (s.files fd)),
      record s { positions = put s.positions fd (length (s.files fd)) },
    );
    seek_set = λ s fd. record s { positions = put s.positions fd 0 };
    ftruncate = truncate;
    copy_range = λ s source dest n. (negsuc 0, s);
    map = λ s fd. some (s.files fd);
    write = write_out;
    errno = λ s. pos 18;
    exdev = pos 18;
    efbig = pos 27;
  }

  abbrev pub disk_kernel : ((c n : ℕ) → taken c n ≤ n) → Kernel disk_calls
  disk_kernel bound = record {
    contents = λ s fd. s.files fd;
    cursor = λ s fd. s.positions fd;
    takes = λ s fd bytes. taken s.writes (length bytes);
    seek_end-size = λ s fd. refl;
    seek_end-contents = λ s fd g. refl;
    seek_set-cursor = λ s fd. put-same s.positions fd 0;
    seek_set-contents = λ s fd g. refl;
    ftruncate-size = λ s fd n.
        ap length (put-same s.files fd (resize (s.files fd) n)) ∙ length-resize (s.files fd) n;
    ftruncate-cursor = λ s fd n. refl;
    ftruncate-others = λ s fd n g ne. put-other s.files fd (resize (s.files fd) n) g ne;
    map-contents = λ s fd. refl;
    takes-bound = λ s fd bytes. bound s.writes (length bytes);
    write-count = λ s fd bytes. refl;
    write-contents = λ s fd bytes. put-same s.files fd _;
    write-cursor = λ s fd bytes. put-same s.positions fd _;
    write-others = λ s fd bytes g ne. put-other s.files fd _ g ne;
  }

  disk-KeepsSize : (bound : (c n : ℕ) → taken c n ≤ n) → KeepsSize (disk_kernel bound)
  disk-KeepsSize bound = record {
    size = λ s source dest n le. refl;
    others = λ s source dest n g ne. refl;
  }

-- Descriptor 3 is a file of three bytes, 4 one of five.
abbrev pub disk : Disk
disk = record {
  files = λ fd. if same_i32 fd (pos 3) then 1 ∷ 2 ∷ 3 ∷ [] else 5 ∷ 6 ∷ 7 ∷ 8 ∷ 9 ∷ [];
  positions = λ fd. 0;
  writes = 0;
}

abbrev pub whole : ℕ → ℕ → ℕ
whole c n = n

pub whole-bound : (c n : ℕ) → whole c n ≤ n
whole-bound c n = omega arith

-- The first write takes the larger half, later ones the smaller one.
abbrev halves : ℕ → ℕ → ℕ
halves c n = if c == 0 then n - n / 2 else n / 2

halves-bound : (c n : ℕ) → halves c n ≤ n
halves-bound c n = ground arith

pub apart : pos 4 ≢ pos 3
apart e = absurd (omega (arith, ap (λ (n : ℤ). elim n [ pos m ↦ m | negsuc m ↦ m ]) e))

abbrev files : WriteBack
files = record { shm = pos 3; bck = pos 4 }

copy_file_all-returns_example :
    (s : Disk) × (copy_file_all (disk_calls whole) disk (pos 4) (pos 3) ≡ done (pos 5, s))
    × ((g : ℤ) → g ≢ pos 3 → s.files g ≡ disk.files g)
copy_file_all-returns_example =
    copy_file_all-returns (disk_calls whole) (disk_kernel whole whole-bound) disk (pos 4) (pos 3)
      apart (λ s bytes h. h)

copy_file_all-Repeats_example :
    (s : Disk) × (copy_file_all (disk_calls halves) disk (pos 4) (pos 3) ≡ done (pos 5, s))
    × (s.files (pos 3) ≡ 5 ∷ 6 ∷ 7 ∷ 5 ∷ 6 ∷ [])
copy_file_all-Repeats_example =
    copy_file_all-Repeats (disk_calls halves) (disk_kernel halves halves-bound) disk (pos 4) (pos 3)
      3 apart (omega arith) (omega arith) refl refl

writeback_protector-Resizes_example :
    (length ((writeback_protector (disk_calls whole) disk files).1.files (pos 3)) ≡ 5)
    × ((writeback_protector (disk_calls whole) disk files).1.files (pos 4) ≡ 5 ∷ 6 ∷ 7 ∷ 8 ∷ 9 ∷ [])
writeback_protector-Resizes_example =
    writeback_protector-Resizes (disk_calls whole) (disk_kernel whole whole-bound) disk files
      (disk-KeepsSize whole whole-bound) apart

-- The command stores two bytes into the memory.
abbrev two_bytes : Disk → Disk
two_bytes s = record s { files = put s.files (pos 3) (10 ∷ 11 ∷ []) }
