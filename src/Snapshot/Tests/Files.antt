-- ===== src/Snapshot/Tests/Files.antt =====
-- Runs of the theorems on readers of a file, and on its backup.
use shmfd.Prelude.{ℕ, ◌≡◌, refl, arith, done, some, [], ◌∷◌}
use shmfd.Snapshot.Layout.{HeadPage, is_initialized, WriteHead, update}
use shmfd.Snapshot.Config.Configure.{Suits, IsMapped, discover-configured}
use shmfd.Snapshot.Write.Commit.{IsWritable}
use shmfd.Snapshot.File.{FileDiscovery, recover}
use shmfd.Snapshot.File.Retain.{IsDiscovery}
use shmfd.Snapshot.File.Runs.{LastRestores, commit_all-LastRestores}
use shmfd.Snapshot.File.Restore.{Restores, commit-Restores}
use shmfd.Snapshot.File.Progress.{Progress, serving}
use shmfd.Snapshot.Tests.{
  zero_words, mapped, mapped-IsMapped, small_ring, small_ring-Suits, writer, hello,
  hello-IsWritable, listed,
}

abbrev fresh : Progress
fresh = record { words = zero_words; entry_read = 0; entry_write = 0; page_read = 0; offset = 0 }

fresh-IsWritable : IsWritable (serving mapped small_ring fresh) hello
fresh-IsWritable = record {
  all_bytes = hello-IsWritable.all_bytes;
  fits = omega arith;
  in_stream = omega arith;
}

commit-Restores_example : Restores mapped small_ring fresh hello
commit-Restores_example =
    commit-Restores mapped small_ring fresh hello mapped-IsMapped small_ring-Suits (omega arith)
      (λ x. omega arith) (omega arith) (omega arith) fresh-IsWritable

-- The shared memory with two snapshots, and a copy of it in which the second is another.
abbrev pub with_words : (ℕ → ℕ) → WriteHead
with_words words = record mapped { words = words; meta = writer.meta }

abbrev pub found_in : (ℕ → ℕ) → FileDiscovery
found_in words = record { file = with_words words; configuration = small_ring }

abbrev pub copied_words : ℕ → ℕ
copied_words = update (update (update zero_words 1 5) 2 7) 3 3

small_ring-Suits_meta :
    (words : ℕ → ℕ) (meta : HeadPage)
    → Suits (record mapped { words = words; meta = meta }) small_ring
small_ring-Suits_meta words meta = record {
  entries_power = small_ring-Suits.entries_power;
  data_power = small_ring-Suits.data_power;
  initialized = refl;
  enough = small_ring-Suits.enough;
}

pub found_in-IsDiscovery : (words : ℕ → ℕ) → IsDiscovery (found_in words)
found_in-IsDiscovery words = record {
  same_len = refl;
  suits = small_ring-Suits_meta words writer.meta;
}

pub recover-found_in :
    (words : ℕ → ℕ)
    → IsMapped (record mapped { words = words })
    → recover (with_words words) ≡ done (small_ring, some (found_in words))
unfolding recover is_initialized
recover-found_in words m = rw (
    discover-configured (record mapped { words = words }) small_ring m
      (small_ring-Suits_meta words mapped.meta) (omega arith))

pub listed-IsMapped : IsMapped (record mapped { words = listed.words })
listed-IsMapped = record { same_start = refl; same_len = refl; words_fit = λ x. ground arith }

pub copied-IsMapped : IsMapped (record mapped { words = copied_words })
copied-IsMapped = record { same_start = refl; same_len = refl; words_fit = λ x. ground arith }

commit_all-LastRestores_example : LastRestores mapped small_ring fresh (hello ∷ []) (1 ∷ 2 ∷ [])
commit_all-LastRestores_example =
    commit_all-LastRestores mapped small_ring fresh (hello ∷ []) (1 ∷ 2 ∷ []) mapped-IsMapped
      small_ring-Suits (omega arith) (λ x. omega arith) (omega arith) (omega arith)
      (
        (hello-IsWritable.all_bytes, omega arith),
        (((omega arith, (omega arith, tt)), omega arith), tt),
      )
      (omega arith)
