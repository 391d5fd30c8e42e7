-- ===== src/Snapshot/Crash/Tests.antt =====
-- A commit of five bytes of shm-snapshot/src/writer.rs, store by store, and one more after it.
use shmfd.Prelude.{
  ℕ, ◌+◌, ◌≡◌, ◌⊎◌, refl, arith, some, List, [], ◌∷◌, ◌++◌, length, take, drop, done,
}
use shmfd.Snapshot.Layout.{WriteHead, Snapshot, update}
use shmfd.Snapshot.Ring.{read, entry_at_relaxed}
use shmfd.Snapshot.Ring.Entries.{entry_word, entry_at_relaxed_lem, update-WordsFit}
use shmfd.Snapshot.Write.{commit}
use shmfd.Snapshot.Write.Commit.{
  IsWriter, IsWritable, committed, committed-IsConfigured, invalidated,
}
use shmfd.Snapshot.Tests.{writer, writer-IsWriter, hello, hello-IsWritable}
use shmfd.Snapshot.Crash.{published, offset_stored, length_stored, Reach, start}
use shmfd.Snapshot.Crash.Runs.{stored, published-Reach, committed-Reach}
use shmfd.Snapshot.Crash.Safe.{Reach-Reads, Reach-NewOrOld}
use shmfd.Snapshot.Crash.Torn.{Reach-Torn}
use shmfd.Snapshot.Crash.Unique.{Reach-Finishes}

abbrev after : WriteHead
after = committed writer hello writer-IsWriter hello-IsWritable

after-IsWriter : IsWriter after
after-IsWriter = record {
  configured = committed-IsConfigured writer hello writer-IsWriter hello-IsWritable;
  entry_write_lt = omega arith;
  entry_read_lt = (invalidated writer hello writer-IsWriter hello-IsWritable).entry_lt;
}

after-IsWritable : IsWritable after hello
after-IsWritable = record {
  all_bytes = hello-IsWritable.all_bytes;
  fits = hello-IsWritable.fits;
  in_stream = omega arith;
}

-- The first bytes are read while the second ones are published.
Reach-Reads_example :
    read
      (stored after hello after-IsWriter after-IsWritable)
      (record { offset = 0; length = 5 })
      (0 ∷ 0 ∷ 0 ∷ 0 ∷ 0 ∷ [])
    ≡ read after (record { offset = 0; length = 5 }) (0 ∷ 0 ∷ 0 ∷ 0 ∷ 0 ∷ [])
Reach-Reads_example =
    Reach-Reads after hello (record { offset = 0; length = 5 }) (0 ∷ 0 ∷ 0 ∷ 0 ∷ 0 ∷ [])
      (stored after hello after-IsWriter after-IsWritable, published) after-IsWriter
      after-IsWritable (omega arith) (omega arith)
      (published-Reach after hello after-IsWriter after-IsWritable)

Reach-NewOrOld_example :
    (snapshot : Snapshot) × (entry_at_relaxed after 0 ≡ done snapshot)
    × ((snapshot.length ≡ 0)
        ⊎ (entry_at_relaxed writer 0 ≡ done snapshot)
        ⊎ ((snapshot ≡ record { offset = 0; length = 5 })
            × ((into : List ℕ)
                → read after snapshot into ≡ done (take (length into) hello ++ drop 5 into))))
Reach-NewOrOld_example =
    Reach-NewOrOld writer hello 0 (after, length_stored) writer-IsWriter hello-IsWritable refl
      (committed-Reach writer hello writer-IsWriter hello-IsWritable)

-- The entry of the writer is in use, with three bytes at offset 0.
abbrev used : WriteHead
used = record writer {
  words = update writer.words (entry_word writer 0 + 1) 3;
  cache = record (writer.cache) { page_write_offset = 3 };
}

used-IsWriter : IsWriter used
used-IsWriter = record {
  configured = record {
    entry_power = writer-IsWriter.configured.entry_power;
    data_power = writer-IsWriter.configured.data_power;
    entries_fit = writer-IsWriter.configured.entries_fit;
    data_fits = writer-IsWriter.configured.data_fits;
    apart = writer-IsWriter.configured.apart;
    tail_apart = writer-IsWriter.configured.tail_apart;
    words_fit =
        update-WordsFit (entry_word writer 0 + 1) 3 writer-IsWriter.configured.words_fit
          (omega arith);
  };
  entry_write_lt = omega arith;
  entry_read_lt = omega arith;
}

used-IsWritable : IsWritable used hello
used-IsWritable = record {
  all_bytes = hello-IsWritable.all_bytes;
  fits = hello-IsWritable.fits;
  in_stream = omega arith;
}

-- Five bytes are committed at offset 3, and for a moment three of them are listed.
Reach-Torn_example :
    (g : WriteHead) × Reach used hello (start used) (g, offset_stored)
    × (entry_at_relaxed g 0 ≡ done (record { offset = 3; length = 3 }))
Reach-Torn_example =
    Reach-Torn used hello (record { offset = 0; length = 3 }) used-IsWriter used-IsWritable refl
      (entry_at_relaxed_lem 0 used-IsWriter.configured)

Reach-Finishes_example :
    (g : WriteHead) × Reach writer hello
      (stored writer hello writer-IsWriter hello-IsWritable, published)
      (g, length_stored)
    × (commit writer hello ≡ done (some 0, g))
Reach-Finishes_example =
    Reach-Finishes writer hello (stored writer hello writer-IsWriter hello-IsWritable, published)
      writer-IsWriter hello-IsWritable
      (published-Reach writer hello writer-IsWriter hello-IsWritable)
