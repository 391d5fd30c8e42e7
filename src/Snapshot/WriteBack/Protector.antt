-- ===== src/Snapshot/WriteBack/Protector.antt =====
-- `writeback_protector` of shm-snapshot/src/bin/shm-restore.rs, and the run of `main` around it: what
-- becomes of the shared memory file and of the backup.
use shmfd.Prelude.{◌≡◌, ◌≢◌, ap, ◌∙◌, arith, length}
use shmfd.Snapshot.WriteBack.{Calls, WriteBack, as_usize, copy_file_range, writeback_protector}
use shmfd.Snapshot.WriteBack.Kernel.{Kernel, KeepsSize}
use shmfd.Snapshot.WriteBack.Begun.{truncated, truncated-size, truncated-others}

module _ {S : Type 0} (calls : Calls S) (k : Kernel calls) where
  abbrev guarded : S → WriteBack → S
  guarded s w = (writeback_protector calls s w).1

  guarded-bck :
      (s : S) (w : WriteBack)
      → KeepsSize k
      → w.bck ≢ w.shm
      → k.contents (guarded s w) w.bck ≡ k.contents s w.bck
  unfolding writeback_protector copy_file_range
  guarded-bck s w keeps apart =
      keeps.others (truncated calls k s w.bck w.shm) w.bck w.shm
        (as_usize (calls.seek_end s w.bck).0) w.bck apart
      ∙ truncated-others calls k s w.bck w.shm w.bck apart

  guarded-size :
      (s : S) (w : WriteBack)
      → KeepsSize k
      → length (k.contents (guarded s w) w.shm) ≡ length (k.contents s w.bck)
  unfolding writeback_protector copy_file_range as_usize
  guarded-size s w keeps =
      keeps.size (truncated calls k s w.bck w.shm) w.bck w.shm (as_usize (calls.seek_end s w.bck).0)
        (omega (arith, truncated-size calls k s w.bck w.shm, ap as_usize (k.seek_end-size s w.bck)))
      ∙ truncated-size calls k s w.bck w.shm

-- Setting up the write-back leaves the shared memory file with exactly as many bytes as the backup
-- had, whatever bytes the memory had before and whether a way to copy is found or not, and leaves the
-- bytes of the backup alone, if the two are different files and `copy_file_range` neither resizes a
-- destination that has room nor changes another file.
pub writeback_protector-Resizes :
    {S : Type 0} (calls : Calls S) (k : Kernel calls) (s : S) (w : WriteBack)
    → KeepsSize k
    → w.bck ≢ w.shm
    → (length (k.contents (writeback_protector calls s w).1 w.shm) ≡ length (k.contents s w.bck))
      × (k.contents (writeback_protector calls s w).1 w.bck ≡ k.contents s w.bck)
writeback_protector-Resizes calls k s w keeps apart =
    (guarded-size calls k s w keeps, guarded-bck calls k s w keeps apart)
