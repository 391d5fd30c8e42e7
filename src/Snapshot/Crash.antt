-- ===== src/Snapshot/Crash.antt =====
-- A commit as the memory sees it: the stores of `Writer::commit` in shm-snapshot/src/lib.rs and of
-- `Head::write_with` in shm-snapshot/src/writer.rs, one at a time and in the order of the program. A
-- process that is killed, or a reader of the shared file, meets one of the states between them.
pub mod Stores
pub mod Holding
pub mod Steps
pub mod Safe
pub mod Runs
pub mod Torn
pub mod Unique
pub mod Tests
use shmfd.Prelude.{ℕ, ◌+◌, ◌^◌, ◌≤◌, ◌<◌, ◌≡◌, ◌≢◌, Run, done, List, [], ◌∷◌, length}
use shmfd.Prelude.Words.{wrapping_add}
use shmfd.Snapshot.Layout.{HeadPage, HeadCache, WriteHead, update}
use shmfd.Snapshot.Ring.{write_at, get_entry_atomic, invalidate_at}

-- How far a commit has come: in the loop of `invalidate_heads_to` with its two offsets, in the loop
-- of `copy_from_slice` with the next stream offset and the bytes that are left, past the store of
-- the write offset, past the store of the entry's offset, and past the store of its length.
pub data Stage : Type 0 where
  invalidating : ℕ → ℕ → Stage
  copying : ℕ → List ℕ → Stage
  published : Stage
  offset_stored : Stage
  length_stored : Stage

-- The stores of a commit of `bs` that starts with the head `h`.
pub data Step (h : WriteHead) (bs : List ℕ) : WriteHead × Stage → WriteHead × Stage → Type 0 where
  reached :
      (g : WriteHead) (entry bytes : ℕ)
      → h.cache.page_write_offset + length bs ≤ bytes
      → Step h bs
          (g, invalidating entry bytes)
          (
            record g {
              cache = record (g.cache) { entry_read_offset = entry; page_read_offset = bytes };
            },
            copying h.cache.page_write_offset bs,
          )
  caught_up :
      (g : WriteHead) (entry bytes : ℕ)
      → bytes < h.cache.page_write_offset + length bs
      → entry ≡ h.cache.entry_write_offset
      → Step h bs
          (g, invalidating entry bytes)
          (
            record g {
              cache = record (g.cache) {
                entry_read_offset = entry;
                page_read_offset = h.cache.page_write_offset + length bs;
              };
            },
            copying h.cache.page_write_offset bs,
          )
  invalidate :
      (g g' : WriteHead) (entry bytes length' : ℕ)
      → bytes < h.cache.page_write_offset + length bs
      → entry ≢ h.cache.entry_write_offset
      → invalidate_at g entry ≡ done (g', length')
      → Step h bs
          (g, invalidating entry bytes)
          (g', invalidating (wrapping_add entry 1) (wrapping_add bytes length'))
  copy :
      (g g' : WriteHead) (idx b : ℕ) (rest : List ℕ)
      → write_at g idx b ≡ done g'
      → Step h bs (g, copying idx (b ∷ rest)) (g', copying (idx + 1) rest)
  publish :
      (g : WriteHead) (idx : ℕ)
      → Step h bs
          (g, copying idx [])
          (
            record g {
              cache = record (g.cache) { page_write_offset = idx };
              meta = record (g.meta) { page_write_offset = idx };
            },
            published,
          )
  store_offset :
      (g : WriteHead) (a : ℕ)
      → get_entry_atomic g h.cache.entry_write_offset ≡ done a
      → Step h bs
          (g, published)
          (record g { words = update g.words a h.cache.page_write_offset }, offset_stored)
  store_length :
      (g : WriteHead) (a : ℕ)
      → get_entry_atomic g h.cache.entry_write_offset ≡ done a
      → Step h bs
          (g, offset_stored)
          (record g { words = update g.words (a + 1) (length bs) }, length_stored)

-- The states that a commit passes through.
pub data Reach (h : WriteHead) (bs : List ℕ) (s : WriteHead × Stage)
    : WriteHead × Stage → Type 0 where
  here : Reach h bs s s
  next : {t u : WriteHead × Stage} → Reach h bs s t → Step h bs t u → Reach h bs s u

-- Where a commit starts.
abbrev pub start : WriteHead → WriteHead × Stage
start h = (h, invalidating h.cache.entry_read_offset h.cache.page_read_offset)
