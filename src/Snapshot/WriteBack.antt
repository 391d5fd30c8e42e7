-- ===== src/Snapshot/WriteBack.antt =====
-- shm-snapshot/src/bin/shm-restore.rs: the copies between the shared memory file and the backup,
-- `writeback_protector` with its two ways to copy, and the order in which `main` recovers, runs the
-- command and writes back. The system calls are arguments: each takes the state of the files, and
-- hands on the next one.
pub mod Kernel
pub mod Begun
pub mod Copies
pub mod Protector
pub mod Tests
use shmfd.Prelude.{
  ℕ, zero, suc, ◌-◌, ◌^◌, ◌==◌, ◌&&◌, ◌||◌, if◌then◌else◌, Bool, true, false, Run, done, panic,
  starved, ◌>>=◌, Option, none, some, Result, ok, err, List, length,
}
use shmfd.Fd.Text.{ℤ, pos, negsuc, as_i32, same_i32}

-- The system calls, by the file descriptors that they are called on. `seek_end` and `seek_set` are
-- `lseek` to either end; `copy_range` is `copy_file_range` from and to the offset 0; `map` gives the
-- bytes of a mapping of the file.
pub record Calls (S : Type 0) : Type 0 where
  pub seek_end : S → ℤ → ℤ × S
  pub seek_set : S → ℤ → S
  pub ftruncate : S → ℤ → ℤ → S
  pub copy_range : S → ℤ → ℤ → ℕ → ℤ × S
  pub map : S → ℤ → Option (List ℕ)
  pub write : S → ℤ → List ℕ → ℤ × S
  pub errno : S → ℤ
  pub exdev : ℤ
  pub efbig : ℤ

-- Casts of an `i64` to `usize` and to `c_int`.
unfoldable pub as_usize : ℤ → ℕ
as_usize (pos n) = n
as_usize (negsuc n) = 2 ^ 64 - suc n

unfoldable pub as_c_int : ℤ → ℤ
as_c_int n = as_i32 (as_usize n)

-- `WriteBack`
pub record WriteBack : Type 0 where
  pub shm : ℤ
  pub bck : ℤ

-- The two functions that `Dropped::how` may be.
pub data How : Type 0 where
  file_all : How
  file_range : How

-- `Dropped`
pub record Dropped : Type 0 where
  pub write_back : WriteBack
  pub how : How

module _ {S : Type 0} (calls : Calls S) where
  -- `copy_file_range`
  unfoldable pub copy_file_range : S → ℤ → ℤ → ℤ × S
  copy_file_range s source dest =
      let (length, s₁) = calls.seek_end s source in
      let s₂ = calls.seek_set s₁ dest in
      let s₃ = calls.ftruncate s₂ dest length in calls.copy_range s₃ source dest (as_usize length)

  -- The loop of `copy_file_all`: every round writes the whole mapping. A write that takes nothing
  -- leaves the loop where it was, so the fuel is one more than the bytes that remain.
  unfoldable pub write_all : ℕ → S → ℤ → List ℕ → ℕ → Run (ℤ × S)
  write_all zero s dest bytes remaining = starved
  write_all (suc fuel) s dest bytes zero = done (pos (length bytes), s)
  write_all (suc fuel) s dest bytes (suc remaining) =
      let (written, s') = calls.write s dest bytes in
      elim written [
        | negsuc n ↦ done (negsuc 0, s')
        | pos n ↦ write_all fuel s' dest bytes (suc remaining - n)
      ]

  -- `copy_file_all`
  unfoldable pub copy_file_all : S → ℤ → ℤ → Run (ℤ × S)
  unfolding write_all
  copy_file_all s source dest =
      let (len, s₁) = calls.seek_end s source in
      let s₂ = calls.seek_set s₁ dest in
      let s₃ = calls.ftruncate s₂ dest len in
      elim (calls.map s₃ source) [
        | none ↦ done (negsuc 0, s₃)
        | some bytes ↦ write_all (suc (length bytes)) s₃ dest bytes (length bytes)
      ]

  -- A call of `Dropped::how`, whose result is dropped.
  unfoldable pub call_how : How → S → ℤ → ℤ → Run S
  unfolding copy_file_range copy_file_all
  call_how file_all s source dest = copy_file_all s source dest >>= λ (n, s'). done s'
  call_how file_range s source dest = let (n, s') = copy_file_range s source dest in done s'

  -- The `match` of `writeback_protector` on the result of the first copy, and the error number then.
  unfoldable pub choose_how : ℤ → ℤ → Result How ℤ
  unfolding as_c_int
  choose_how diff errno =
      let cross =
        same_i32 (as_c_int diff) (negsuc 0)
        && (same_i32 errno calls.exdev || same_i32 errno calls.efbig) in
      elim cross [
        | true ↦ ok file_all
        | false ↦ elim diff [ negsuc n ↦ err errno | pos n ↦ ok file_range ]
      ]

  -- `writeback_protector`: the error is the error number.
  unfoldable pub writeback_protector : S → WriteBack → Result Dropped ℤ × S
  unfolding copy_file_range choose_how
  writeback_protector s w =
      let (diff, s') = copy_file_range s w.bck w.shm in
      (
        elim (choose_how diff (calls.errno s')) [
          | err e ↦ err e
          | ok how ↦ ok (record { write_back = w; how = how })
        ],
        s',
      )

  -- `Drop for Dropped`
  unfoldable pub drop_dropped : S → Dropped → Run S
  unfolding call_how
  drop_dropped s d = call_how d.how s d.write_back.shm d.write_back.bck

  -- `main` from the protector on, without a snapshot mode: `created` says that the memory file is new,
  -- and `command` is what the child does to the files.
  unfoldable pub restore_run : S → WriteBack → Bool → (S → S) → Run S
  unfolding writeback_protector call_how drop_dropped
  restore_run s w created command =
      let (protector, s₁) = writeback_protector s w in
      elim protector [
        | err e ↦ panic
        | ok d ↦ do
          s₂ ← if created then call_how d.how s₁ d.write_back.bck d.write_back.shm else done s₁
          drop_dropped (command s₂) d
      ]
