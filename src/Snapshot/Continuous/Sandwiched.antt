-- ===== src/Snapshot/Continuous/Sandwiched.antt =====
-- A round of `try_restore_v1` in shm-snapshot/src/bin/shm-restore.rs whose calls succeed: when the backup
-- is replaced, and what the new one has.
use shmfd.Prelude.{◌≡◌, ◌≢◌, inl, inr, refl, ap, ◌∙◌, Bool, done, some, Result, ok, err, []}
use shmfd.Fd.Text.{ℤ}
use shmfd.Snapshot.Layout.{WriteHead, ConfigureFile}
use shmfd.Snapshot.File.{FileDiscovery, recover}
use shmfd.Snapshot.File.Retain.{
  IsDiscovery, valid_snapshots, looked_at, valid_snapshots_lem, RetainedBy, retain-RetainedBy,
}
use shmfd.Snapshot.Backup.{contains, is_empty, mask}
use shmfd.Snapshot.Backup.Sandwich.{sandwiched, List-cases, looked_at-Suits}
use shmfd.Snapshot.WriteBack.{Calls, Dropped, call_how}
use shmfd.Snapshot.Continuous.{
  BackupCalls, collect_valid, file_new, swap_backup, persist_backup, mask_copy, copy_to,
  restore_file, restore_round,
}

collect_valid_lem :
    (file : WriteHead) (d : FileDiscovery)
    → IsDiscovery d
    → collect_valid file (some d) ≡ done (valid_snapshots d, (looked_at d).file)
unfolding collect_valid
collect_valid_lem file d v = rw (collect_valid, valid_snapshots_lem d v) refl

mask_lem :
    (before after : FileDiscovery) (v : IsDiscovery after)
    → mask (valid_snapshots before) after.file (some after)
      ≡ done (
        sandwiched before after,
        (looked_at (retain-RetainedBy (contains (valid_snapshots before)) after v).after).file,
      )
unfolding mask
mask_lem before after v =
    let kept = retain-RetainedBy (contains (valid_snapshots before)) after v in
    rw (mask, kept.returns, valid_snapshots_lem kept.after kept.discovery, kept.kept) refl

looked_at-IsDiscovery : (d : FileDiscovery) → IsDiscovery d → IsDiscovery (looked_at d)
looked_at-IsDiscovery d v = record { same_len = v.same_len; suits = looked_at-Suits d v.suits }

module _ {S : Type 0} (calls : Calls S) (b : BackupCalls S) where
  -- A round that gets as far as the masking of the copy: the shared memory is discovered as `before`, and
  -- the copy of it, in the temporary file `fd`, as `after`.
  pub record RoundCalls (s : S) (d : Dropped) : Type 0 where
    pub before : FileDiscovery
    pub after : FileDiscovery
    pub cfg : ConfigureFile
    pub cfg' : ConfigureFile
    pub fd : ℤ
    pub s₁ : S
    pub s₂ : S
    pub mapped : file_new b s d.write_back.shm ≡ some before.file
    pub recovers : recover before.file ≡ done (cfg, some before)
    pub discovery : IsDiscovery before
    pub temporary : b.new_in (b.store s d.write_back.shm (looked_at before).file) ≡ (ok fd, s₁)
    pub copied : call_how calls d.how s₁ d.write_back.shm fd ≡ done s₂
    pub mapped_copy : file_new b s₂ fd ≡ some after.file
    pub recovers_copy : recover after.file ≡ done (cfg', some after)
    pub discovery_copy : IsDiscovery after

  module _ (s : S) (d : Dropped) (c : RoundCalls s d) where
    abbrev pub retained : RetainedBy (contains (valid_snapshots c.before)) c.after
    retained = retain-RetainedBy (contains (valid_snapshots c.before)) c.after c.discovery_copy

    -- The masked copy.
    abbrev pub backup : FileDiscovery
    backup = looked_at retained.after

    abbrev pub stored : S
    stored = b.store c.s₂ c.fd backup.file

    mask_copy_lem :
        mask_copy calls b (valid_snapshots c.before) c.fd d (some c.after.file) c.s₂
        ≡ persist_backup calls b (is_empty (sandwiched c.before c.after)) c.fd d stored
    unfolding mask_copy
    mask_copy_lem = rw (mask_copy, c.recovers_copy, mask_lem c.before c.after c.discovery_copy) refl

    copy_to_lem :
        copy_to calls b (valid_snapshots c.before) d (ok c.fd, c.s₁)
        ≡ persist_backup calls b (is_empty (sandwiched c.before c.after)) c.fd d stored
    unfolding copy_to
    copy_to_lem = rw (copy_to, c.copied, c.mapped_copy) mask_copy_lem

    restore_round_lem :
        restore_round calls b s d
        ≡ persist_backup calls b (is_empty (sandwiched c.before c.after)) c.fd d stored
    unfolding restore_round restore_file
    restore_round_lem =
        rw
          (
            restore_round,
            c.mapped,
            restore_file,
            c.recovers,
            collect_valid_lem c.before.file c.before c.discovery,
          )
          (ap (copy_to calls b (valid_snapshots c.before) d) c.temporary ∙ copy_to_lem)

    swapped :
        (answer : Result ℤ ℤ × S)
        → sandwiched c.before c.after ≢ []
        → b.persist stored c.fd ≡ answer
        → restore_round calls b s d ≡ swap_backup calls b c.fd d answer
    unfolding persist_backup
    swapped answer some_kept persisted = elim (List-cases (sandwiched c.before c.after)) [
      | inl (none_kept, empty) ↦ absurd (some_kept none_kept)
      | inr (kept, full) ↦
          restore_round_lem
          ∙ ap (λ (t : Bool). persist_backup calls b t c.fd d stored) full
          ∙ ap (swap_backup calls b c.fd d) persisted
    ]

    unchanged :
        sandwiched c.before c.after ≡ []
        → restore_round calls b s d ≡ done (ok tt, d, b.remove stored c.fd)
    unfolding persist_backup
    unchanged none_kept = elim (List-cases (sandwiched c.before c.after)) [
      | inr (kept, full) ↦ absurd (kept none_kept)
      | inl (none_left, empty) ↦
          restore_round_lem ∙ ap (λ (t : Bool). persist_backup calls b t c.fd d stored) empty
    ]

    -- What such a round comes to, by the snapshots that are left and the answer of `persist`. The copy is
    -- stored masked in either case.
    pub record Replaces : Type 0 where
      pub masked : valid_snapshots backup ≡ sandwiched c.before c.after
      pub discovery : IsDiscovery backup
      pub no_progress :
          sandwiched c.before c.after ≡ []
          → restore_round calls b s d ≡ done (ok tt, d, b.remove stored c.fd)
      pub replaced :
          (new : ℤ) (s₃ : S)
          → sandwiched c.before c.after ≢ []
          → b.persist stored c.fd ≡ (ok new, s₃)
          → restore_round calls b s d
            ≡ done (
              ok tt,
              record d { write_back = record (d.write_back) { bck = new } },
              b.close s₃ d.write_back.bck,
            )
      pub refused :
          (e : ℤ) (s₃ : S)
          → sandwiched c.before c.after ≢ []
          → b.persist stored c.fd ≡ (err e, s₃)
          → restore_round calls b s d ≡ done (err e, d, b.remove s₃ c.fd)

pub restore_round-Replaces :
    {S : Type 0} (calls : Calls S) (b : BackupCalls S) (s : S) (d : Dropped)
    (c : RoundCalls calls b s d)
    → Replaces calls b s d c
unfolding swap_backup
restore_round-Replaces calls b s d c = record {
  masked = (retained calls b s d c).kept;
  discovery =
      looked_at-IsDiscovery (retained calls b s d c).after (retained calls b s d c).discovery;
  no_progress = unchanged calls b s d c;
  replaced = λ new s₃ some_kept persisted. swapped calls b s d c (ok new, s₃) some_kept persisted;
  refused = λ e s₃ some_kept persisted. swapped calls b s d c (err e, s₃) some_kept persisted;
}
