-- ===== src/Snapshot/File/Retain.antt =====
-- `FileDiscovery::retain` of shm-snapshot/src/lib.rs: which snapshots it leaves valid.
use shmfd.Prelude.{◌≡◌, refl, Bool, done, List, [], ◌∷◌, ◌++◌, select}
use shmfd.Snapshot.Layout.{Snapshot}
use shmfd.Snapshot.Ring.Valid.{valid_entries, iter_valid-extend, iter_valid-Retains}
use shmfd.Snapshot.Config.Configure.{Suits, configured, configure_head_suited}
use shmfd.Snapshot.File.{
  FileDiscovery, see, valid, retain, valid_at, retain_at, valid_in_head, retain_in_head,
}

-- A discovery whose configuration suits its file.
pub record IsDiscovery (d : FileDiscovery) : Type 0 where
  pub same_len : d.file.sequence.len ≡ d.file.data_pages.len
  pub suits : Suits d.file d.configuration

-- The snapshots that are valid in a discovered file.
abbrev pub valid_snapshots : FileDiscovery → List Snapshot
valid_snapshots d = valid_entries (configured d.file d.configuration)

-- The file after a look at it: its head page is written.
abbrev pub looked_at : FileDiscovery → FileDiscovery
looked_at d = record d { file = see d.file (configured d.file d.configuration) }

pub valid_snapshots_lem :
    (d : FileDiscovery)
    → IsDiscovery d
    → valid d (λ into s. into ++ (s ∷ [])) [] ≡ done (valid_snapshots d, looked_at d)
unfolding valid valid_at valid_in_head
valid_snapshots_lem d v =
    rw (configure_head_suited d.file d.configuration v.same_len v.suits)
      (rw (iter_valid-extend [] (configured d.file d.configuration)))

-- What `retain` leaves of a discovered file.
pub record RetainedBy (contains : Snapshot → Bool) (d : FileDiscovery) : Type 0 where
  pub after : FileDiscovery
  pub returns : retain d contains ≡ done after
  pub discovery : IsDiscovery after
  pub same_configuration : after.configuration ≡ d.configuration
  pub kept : valid_snapshots after ≡ select contains (valid_snapshots d)

-- On a discovered file that its configuration suits, `FileDiscovery::retain` returns, and the snapshots
-- that are valid afterwards are those that were valid and that it is to keep, in their order; the
-- configuration is the same, and suits the file.
pub retain-RetainedBy :
    (contains : Snapshot → Bool) (d : FileDiscovery) → IsDiscovery d → RetainedBy contains d
unfolding retain retain_at retain_in_head
retain-RetainedBy contains d v =
    let r = iter_valid-Retains contains (configured d.file d.configuration) in
    let after : FileDiscovery = record d {
      file = record (d.file) { meta = (configured d.file d.configuration).meta; words = r.words };
    } in
    record {
      after = after;
      returns =
          rw (configure_head_suited d.file d.configuration v.same_len v.suits)
            (rw (retain_in_head, r.returns));
      discovery = record {
        same_len = v.same_len;
        suits = record {
          entries_power = v.suits.entries_power;
          data_power = v.suits.data_power;
          initialized = v.suits.initialized;
          enough = v.suits.enough;
        };
      };
      same_configuration = refl;
      kept = r.kept;
    }
