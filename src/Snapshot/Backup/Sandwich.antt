-- ===== src/Snapshot/Backup/Sandwich.antt =====
-- Which snapshots a backup of shm-snapshot/src/bin/shm-restore.rs has.
use shmfd.Prelude.{
  ◌≡◌, ◌≢◌, ◌⊎◌, inl, inr, refl, true, false, done, none, some, ok, List, [], ◌∷◌, select,
}
use shmfd.Snapshot.Layout.{WriteHead, Snapshot}
use shmfd.Snapshot.Config.Configure.{Suits}
use shmfd.Snapshot.File.{FileDiscovery}
use shmfd.Snapshot.File.Retain.{IsDiscovery, valid_snapshots, looked_at}
use shmfd.Snapshot.Backup.{contains, is_empty, try_restore_v1}

-- The snapshots that are valid in the shared memory before the copy, and in the copy.
abbrev pub sandwiched : FileDiscovery → FileDiscovery → List Snapshot
sandwiched before copy = select (contains (valid_snapshots before)) (valid_snapshots copy)

-- What `try_restore_v1` makes of the shared memory and its copy: no backup, if no snapshot was valid
-- in both, and else the masked copy, which has just those snapshots.
pub data BacksUp (shm copy : WriteHead) (before after : FileDiscovery) : Type 0 where
  no_progress :
      sandwiched before after ≡ []
      → try_restore_v1 {E = Unit {0}} (ok shm) (ok copy) (ok tt) ≡ done (ok none)
      → BacksUp shm copy before after
  replaced :
      (backup : FileDiscovery)
      → sandwiched before after ≢ []
      → try_restore_v1 {E = Unit {0}} (ok shm) (ok copy) (ok tt) ≡ done (ok (some backup.file))
      → backup.configuration ≡ after.configuration
      → IsDiscovery backup
      → valid_snapshots backup ≡ sandwiched before after
      → BacksUp shm copy before after

pub List-cases :
    (l : List Snapshot) → ((l ≡ []) × (is_empty l ≡ true)) ⊎ ((l ≢ []) × (is_empty l ≡ false))
unfolding is_empty
List-cases [] = inl (refl, refl)
List-cases (s ∷ l) = inr (λ e. absurd cc, refl)

pub looked_at-Suits :
    (d : FileDiscovery) → Suits d.file d.configuration → Suits (looked_at d).file d.configuration
looked_at-Suits d s = record {
  entries_power = s.entries_power;
  data_power = s.data_power;
  initialized = s.initialized;
  enough = s.enough;
}
