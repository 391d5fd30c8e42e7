-- ===== src/Snapshot/Tests.antt =====
-- Runs of the snapshot theorems on a file of four pages: a ring of four entries, sixteen bytes of
-- data, and a page of tail.
pub mod Files
use shmfd.Prelude.{
  panic, ℕ, ◌+◌, ◌≤◌, ◌<◌, ◌≡◌, ◌↔◌, refl, arith, ltb, Bool, false, Run, done, none, some, List, [],
  ◌∷◌, ◌++◌,
}
use shmfd.Snapshot.Layout.{
  HeadPage, is_initialized, WriteHead, ConfigureFile, magic_version, update,
}
use shmfd.Snapshot.Ring.{read_from, copy_from_slice, iter_valid}
use shmfd.Snapshot.Ring.Bytes.{IsConfigured}
use shmfd.Snapshot.Ring.Stream.{AllBytes, put_bytes, bytes_at}
use shmfd.Snapshot.Ring.Copy.{data_base, data_len, read_from_lem, copy_from_slice_lem}
use shmfd.Snapshot.Ring.Valid.{
  extend, valid_entries, iter_valid-extend, Retains, iter_valid-Retains,
}
use shmfd.Snapshot.Config.{pages_for, discover, configure_head}
use shmfd.Snapshot.Config.Powers.{LargestPower, fitting_power_of_two-LargestPower}
use shmfd.Snapshot.Config.Configure.{
  Suits, IsMapped, configured, configured-IsConfigured, configure_head_lem, configure_head_iff,
  configure_head-configured, discover-configured,
}
use shmfd.Snapshot.Write.Replace.{IsPrepared, Replaces, replace-Replaces, replace_iff}
use shmfd.Snapshot.Write.{
  replace, PreparedTransaction, write_with, commit, commit_with, snapshot_at,
}
use shmfd.Snapshot.Write.Invalidate.{HeadsInvalidated, invalidate_heads_to-HeadsInvalidated}
use shmfd.Snapshot.Write.Commit.{IsWriter, IsWritable, prepared, committed}
use shmfd.Snapshot.Write.Outcomes.{
  Commits, commit-Commits, commit_refused_iff, commit_with-outcomes, write_with_declined,
  commit-commit_same_slot,
}
use shmfd.Snapshot.File.{FileDiscovery, recover}
use shmfd.Snapshot.File.Retain.{IsDiscovery, RetainedBy, retain-RetainedBy}
use shmfd.Snapshot.Backup.Sandwich.{BacksUp}
use shmfd.Snapshot.File.Runs.{LastRestores, commit_all-LastRestores}
use shmfd.Snapshot.File.Restore.{Restores, commit-Restores}
use shmfd.Snapshot.File.Progress.{Progress, serving}

-- Three pages of zeros behind the head page, as `from_map` maps them.
abbrev pub zero_words : ℕ → ℕ
zero_words x = 0

abbrev pub mapped : WriteHead
mapped = record {
  cache = record {
    entry_mask = 0;
    entry_read_offset = 0;
    entry_write_offset = 0;
    page_mask = 0;
    page_write_offset = 0;
    page_read_offset = 0;
  };
  meta = record { version = 0; entry_mask = 0; page_mask = 0; page_write_offset = 0 };
  words = zero_words;
  sequence = record { start = 0; len = 3 };
  data_pages = record { start = 0; len = 3 };
  tail = record { start = 0; len = 0 };
}

pub mapped-IsMapped : IsMapped mapped
mapped-IsMapped = record { same_start = refl; same_len = refl; words_fit = λ x. omega arith }

abbrev pub small_ring : ConfigureFile
small_ring = record {
  entries = 4;
  data_size = 16;
  initial_offset = 0;
  layout_version = magic_version;
}

pub small_ring-Suits : Suits mapped small_ring
unfolding pages_for
small_ring-Suits = record {
  entries_power = record { exponent = 2; is_power = refl; small = omega arith };
  data_power = record { exponent = 4; is_power = refl; small = omega arith };
  initialized = refl;
  enough = omega arith;
}

abbrev pub writer : WriteHead
writer = configured mapped small_ring

pub writer-IsConfigured : IsConfigured writer
writer-IsConfigured = configured-IsConfigured mapped small_ring mapped-IsMapped small_ring-Suits

pub writer-IsWriter : IsWriter writer
writer-IsWriter = record {
  configured = writer-IsConfigured;
  entry_write_lt = omega arith;
  entry_read_lt = omega arith;
}

abbrev pub hello : List ℕ
hello = 104 ∷ 101 ∷ 108 ∷ 108 ∷ 111 ∷ []

pub hello-IsWritable : IsWritable writer hello
hello-IsWritable = record {
  all_bytes = (omega arith, (omega arith, (omega arith, (omega arith, (omega arith, tt)))));
  fits = omega arith;
  in_stream = omega arith;
}

commit-Commits_example : Commits writer hello
commit-Commits_example = commit-Commits writer hello writer-IsWriter hello-IsWritable

-- A payload of seventeen bytes is longer than the page mask.
abbrev long : List ℕ
long = 1 ∷ 2 ∷ 3 ∷ 4 ∷ 5 ∷ 6 ∷ 7 ∷ 8 ∷ 9 ∷ 10 ∷ 11 ∷ 12 ∷ 13 ∷ 14 ∷ 15 ∷ 16 ∷ 17 ∷ []

abbrev answer : Bool → ℕ → PreparedTransaction → Run (Bool × ℕ × WriteHead)
answer keep calls tx = done (keep, calls + 1, tx.head)

long-bytes : AllBytes long
long-bytes = (
  omega arith,
  (
    omega arith,
    (
      omega arith,
      (
        omega arith,
        (
          omega arith,
          (
            omega arith,
            (
              omega arith,
              (
                omega arith,
                (
                  omega arith,
                  (
                    omega arith,
                    (
                      omega arith,
                      (
                        omega arith,
                        (
                          omega arith,
                          (omega arith, (omega arith, (omega arith, (omega arith, tt)))),
                        ),
                      ),
                    ),
                  ),
                ),
              ),
            ),
          ),
        ),
      ),
    ),
  ),
)

commit_refused_iff_example :
    (((h : WriteHead) × (commit writer long ≡ done (none, h))) ↔ (15 < 17))
    × (((index : ℕ) × (h : WriteHead) × (commit writer long ≡ done (some index, h))) ↔ (17 ≤ 15))
commit_refused_iff_example = commit_refused_iff writer long writer-IsWriter long-bytes (omega arith)

commit_with-outcomes_example :
    commit_with writer hello (λ tx. done (some tx.length, tx.head))
    ≡ done (some (0, 5), committed writer hello writer-IsWriter hello-IsWritable)
commit_with-outcomes_example =
    commit_with-outcomes writer hello (λ tx. done (some tx.length, tx.head)) (some 5)
      writer-IsWriter hello-IsWritable refl

commit-commit_same_slot_example :
    (first second : WriteHead) × (commit writer hello ≡ done (some 0, first))
    × (commit first (1 ∷ 2 ∷ []) ≡ done (some 0, second))
    × (snapshot_at second 0 ≡ done (record { offset = 5; length = 2 }))
commit-commit_same_slot_example =
    commit-commit_same_slot writer hello (1 ∷ 2 ∷ []) writer-IsWriter hello-IsWritable
      (omega arith, (omega arith, tt)) (omega arith) (omega arith)

invalidate_heads_to-HeadsInvalidated_example : HeadsInvalidated writer 5
invalidate_heads_to-HeadsInvalidated_example =
    invalidate_heads_to-HeadsInvalidated writer 5 writer-IsConfigured (omega arith) (omega arith)

configure_head_iff_example :
    ((h : WriteHead) × (configure_head mapped small_ring ≡ done h)) ↔ Suits mapped small_ring
configure_head_iff_example = configure_head_iff mapped small_ring mapped-IsMapped

-- Two entries, of five bytes and of two.
abbrev pub listed : WriteHead
listed = record writer { words = update (update (update zero_words 1 5) 2 5) 3 2 }

-- A transaction of five bytes round the end of the ring.
abbrev round : PreparedTransaction
round = record { offset = 13; length = 5; head = writer; tail = writer.tail }

round-IsPrepared : IsPrepared round
round-IsPrepared = record {
  configured = writer-IsConfigured;
  once = omega arith;
  in_stream = omega arith;
}

replace-Replaces_example : Replaces round (1 ∷ 2 ∷ [])
replace-Replaces_example =
    replace-Replaces round (1 ∷ 2 ∷ []) round-IsPrepared (omega arith, (omega arith, tt))
      (omega arith)
