-- ===== src/Snapshot/Continuous.antt =====
-- shm-snapshot/src/bin/shm-restore.rs with the mode `RestoreV1`: `try_restore_v1` with the files and
-- descriptors that it opens, replaces and closes, and the loop of `main` that runs it until the child has
-- exited. The child changes the files at the waits only.
pub mod Path
pub mod Keeps
pub mod Sandwiched
pub mod Tests
use shmfd.Prelude.{
  ℕ, zero, suc, if◌then◌else◌, Bool, true, false, Run, done, panic, starved, ◌>>=◌, Option, none,
  some, Result, ok, err, List, [], map,
}
use shmfd.Fd.Text.{ℤ}
use shmfd.Snapshot.Layout.{HeadPage, WriteHead, Snapshot, ConfigureFile}
use shmfd.Snapshot.Config.{from_map}
use shmfd.Snapshot.File.{FileDiscovery, recover, valid}
use shmfd.Snapshot.Backup.{is_empty, mask, snoc}
use shmfd.Snapshot.WriteBack.{
  Calls, WriteBack, Dropped, call_how, writeback_protector, drop_dropped,
}

-- The calls of `try_restore_v1` and of the loop around it: `map_raw` gives the length, the head page and
-- the words of a file, and `store` puts back what was stored through such a mapping; `new_in` makes a
-- temporary file, which `remove` deletes and `persist` moves over the backup; `try_wait` gives the status of a
-- child that has exited.
pub record BackupCalls (S : Type 0) : Type 0 where
  pub map_raw : S → ℤ → Option (ℕ × HeadPage × (ℕ → ℕ))
  pub store : S → ℤ → WriteHead → S
  pub new_in : S → Result ℤ ℤ × S
  pub remove : S → ℤ → S
  pub persist : S → ℤ → Result ℤ ℤ × S
  pub close : S → ℤ → S
  pub try_wait : S → Result (Option ℤ) ℤ × S

-- The result of `try_restore_v1`, the protector, and the files after it.
abbrev pub Outcome : Type 0 → Type 0
Outcome S = Result (Unit {0}) ℤ × Dropped × S

-- The valid snapshots of the shared memory, and the file after they were collected.
unfoldable pub collect_valid : WriteHead → Option FileDiscovery → Run (List Snapshot × WriteHead)
collect_valid file none = done ([], file)
collect_valid file (some recovery) =
    valid recovery snoc [] >>= λ (found, after). done (found, after.file)

-- `File::new`
unfoldable pub file_new : {S : Type 0} → BackupCalls S → S → ℤ → Option WriteHead
file_new b s fd = elim (b.map_raw s fd) [
  | none ↦ none
  | some (len, meta, words) ↦ some (from_map len meta words)
]

module _ {S : Type 0} (calls : Calls S) (b : BackupCalls S) where
  -- `try_restore_v1` from the answer of `persist` on: the new file replaces the backup's descriptor.
  unfoldable pub swap_backup : ℤ → Dropped → Result ℤ ℤ × S → Run (Outcome S)
  swap_backup fd d (err e, s) = done (err e, d, b.remove s fd)
  swap_backup fd d (ok pending_fd, s) = done (
    ok tt,
    record d { write_back = record (d.write_back) { bck = pending_fd } },
    b.close s d.write_back.bck,
  )

  -- From the test of `post_valid` on.
  unfoldable pub persist_backup : Bool → ℤ → Dropped → S → Run (Outcome S)
  unfolding swap_backup
  persist_backup true fd d s = done (ok tt, d, b.remove s fd)
  persist_backup false fd d s = swap_backup fd d (b.persist s fd)

  -- From the mapping of the copy on.
  unfoldable pub mask_copy : List Snapshot → ℤ → Dropped → Option WriteHead → S → Run (Outcome S)
  unfolding persist_backup
  mask_copy pre_valid fd d none s = done (err (calls.errno s), d, b.remove s fd)
  mask_copy pre_valid fd d (some copy) s = do
    (post_cfg, post_recovery) ← recover copy
    (post_valid, masked) ← mask pre_valid copy post_recovery
    persist_backup (is_empty post_valid) fd d (b.store s fd masked)

  -- From the temporary file on.
  unfoldable pub copy_to : List Snapshot → Dropped → Result ℤ ℤ × S → Run (Outcome S)
  unfolding mask_copy file_new
  copy_to pre_valid d (err e, s) = done (err e, d, s)
  copy_to pre_valid d (ok fd, s) = do
    s' ← call_how calls d.how s d.write_back.shm fd
    mask_copy pre_valid fd d (file_new b s' fd) s'

  -- From the mapping of the shared memory on.
  unfoldable pub restore_file : Dropped → Option WriteHead → S → Run (Outcome S)
  unfolding copy_to
  restore_file d none s = done (err (calls.errno s), d, s)
  restore_file d (some snapshot) s = do
    (pre_cfg, recovery) ← recover snapshot
    (pre_valid, file) ← collect_valid snapshot recovery
    copy_to pre_valid d (b.new_in (b.store s d.write_back.shm file))

  -- `try_restore_v1`
  unfoldable pub restore_round : S → Dropped → Run (Outcome S)
  unfolding restore_file file_new
  restore_round s d = restore_file d (file_new b s d.write_back.shm) s

  -- The loop of `main`, one round of fuel for each wait: the status, the protector, and the files when
  -- the child has exited. An error of a round is only printed.
  unfoldable pub keep_backups : ℕ → S → Dropped → Run (ℤ × Dropped × S)
  unfolding restore_round
  keep_backups zero s d = starved
  keep_backups (suc fuel) s d =
      let (waited, s') = b.try_wait s in
      elim waited [
        | err e ↦ panic
        | ok exited ↦ elim exited [
          | some status ↦ done (status, d, s')
          | none ↦ restore_round s' d >>= λ (result, d', s''). keep_backups fuel s'' d'
        ]
      ]

  -- The loop and the drop of the protector after it.
  unfoldable pub continuous_run : ℕ → S → Dropped → Run (ℤ × S)
  unfolding keep_backups
  continuous_run fuel s d = do
    (status, d', s') ← keep_backups fuel s d
    s'' ← drop_dropped calls s' d'
    done (status, s'')

  -- `main` from the protector on, with the mode `RestoreV1`: `created` says that the memory file is new,
  -- `parent` whether the backup's path has a parent, and `spawn` starts the child.
  unfoldable pub restore_continuous :
      ℕ → S → WriteBack → Bool → Option (Unit {0}) → (S → Result S ℤ) → Run (ℤ × S)
  unfolding continuous_run
  restore_continuous fuel s w created parent spawn =
      let (protector, s₁) = writeback_protector calls s w in
      elim protector [
        | err e ↦ panic
        | ok d ↦ do
          s₂ ←
              if created then call_how calls d.how s₁ d.write_back.bck d.write_back.shm else done s₁
          elim parent [
            | none ↦ panic
            | some u ↦ elim (spawn s₂) [ err e ↦ panic | ok s₃ ↦ continuous_run fuel s₃ d ]
          ]
      ]
