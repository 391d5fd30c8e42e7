-- ===== src/Snapshot/Backup.antt =====
-- shm-snapshot/src/bin/shm-restore.rs: the continuous backup, `try_restore_v1`. The shared memory file,
-- the copy of it in a temporary file, and the move of that file over the backup are what the operating
-- system makes of them: arguments, that may be errors. The copy may be any file, since the client goes
-- on writing. A `HashSet` is the list of what was inserted.
pub mod Sandwich
use shmfd.Prelude.{
  ◌==◌, ◌&&◌, ◌||◌, if◌then◌else◌, Bool, true, false, Run, done, ◌>>=◌, Option, none, some, Result,
  ok, err, List, [], ◌∷◌, ◌++◌,
}
use shmfd.Snapshot.Layout.{WriteHead, Snapshot, ConfigureFile}
use shmfd.Snapshot.File.{FileDiscovery, recover, valid, retain}

-- `Snapshot`'s equality, and `HashSet::contains` as a `RetainSnapshot`.
abbrev pub snapshot_eq : Snapshot → Snapshot → Bool
snapshot_eq s t = (s.offset == t.offset) && (s.length == t.length)

unfoldable pub contains : List Snapshot → Snapshot → Bool
contains [] snapshot = false
contains (s ∷ rest) snapshot = snapshot_eq s snapshot || contains rest snapshot

unfoldable pub is_empty : List Snapshot → Bool
is_empty [] = true
is_empty (s ∷ rest) = false

abbrev pub snoc : List Snapshot → Snapshot → List Snapshot
snoc into s = into ++ (s ∷ [])

-- The valid snapshots of the shared memory, before it is copied.
unfoldable pub valid_before : Option FileDiscovery → Run (List Snapshot)
valid_before none = done []
valid_before (some recovery) = valid recovery snoc [] >>= λ (found, after). done found

-- The masking of the copy: the snapshots that stay valid, and the file after it.
unfoldable pub mask :
    List Snapshot → WriteHead → Option FileDiscovery → Run (List Snapshot × WriteHead)
mask pre_valid copy none = done ([], copy)
mask pre_valid copy (some recovery) = do
  retained ← retain recovery (contains pre_valid)
  (post_valid, after) ← valid retained snoc []
  done (post_valid, after.file)

-- The last part of `try_restore_v1`: the copy replaces the backup, if it has a snapshot.
unfoldable pub replace_backup :
    {E : Type 0}
    → Result (Unit {0}) E
    → List Snapshot × WriteHead
    → Run (Result (Option WriteHead) E)
replace_backup (err e) (post_valid, masked) = done (if is_empty post_valid then ok none else err e)
replace_backup (ok u) (post_valid, masked) =
    done (ok (if is_empty post_valid then none else some masked))

-- `try_restore_v1`: the file that has replaced the backup, if it was replaced.
unfoldable pub try_restore_v1 :
    {E : Type 0}
    → Result WriteHead E
    → Result WriteHead E
    → Result (Unit {0}) E
    → Run (Result (Option WriteHead) E)
unfolding valid_before mask
try_restore_v1 shm pending persist = elim shm [
  | err e ↦ done (err e)
  | ok snapshot ↦ do
    (pre_cfg, recovery) ← recover snapshot
    pre_valid ← valid_before recovery
    elim pending [
      | err e ↦ done (err e)
      | ok copy ↦ do
        (post_cfg, post_recovery) ← recover copy
        masked ← mask pre_valid copy post_recovery
        replace_backup persist masked
    ]
]
