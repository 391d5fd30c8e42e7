-- ===== src/Snapshot/Crash/Torn.antt =====
-- The two stores of `insert_at` in shm-snapshot/src/writer.rs, and what stands between them when a
-- writer commits to an entry that is in use.
use shmfd.Prelude.{
  ℕ, ◌+◌, ◌≡◌, inl, inr, refl, sym, ap, ◌∙◌, arith, done, List, leb, Bool-cases, eq→==,
}
use shmfd.Snapshot.Layout.{WriteHead, Snapshot, update}
use shmfd.Snapshot.Ring.{entry_at_relaxed}
use shmfd.Snapshot.Ring.Stream.{put_bytes-outside}
use shmfd.Snapshot.Ring.Copy.{data_base, data_len}
use shmfd.Snapshot.Ring.Entries.{
  entry_word, entry_word_bounds, entry_at_relaxed_lem, update-outside,
}
use shmfd.Snapshot.Write.{invalidate_from, invalidate_heads_to}
use shmfd.Snapshot.Write.Commit.{IsWriter, IsWritable, end_offset, invalidated}
use shmfd.Snapshot.Crash.{offset_stored, Reach, start}
use shmfd.Snapshot.Crash.Steps.{Reach-Holding}
use shmfd.Snapshot.Crash.Runs.{stored, offset_stored-Reach}
use shmfd.Snapshot.Crash.Safe.{entry_at_relaxed-Holding}

module _ (h : WriteHead) (bs : List ℕ) (v : IsWriter h) (w : IsWritable h bs) where
  -- A writer that has no entries to read invalidates none.
  idle-words :
      h.cache.entry_read_offset ≡ h.cache.entry_write_offset
      → (invalidated h bs v w).words ≡ h.words
  unfolding invalidate_heads_to invalidate_from
  idle-words caught =
      let returns = (invalidated h bs v w).returns in
      elim (Bool-cases (leb (end_offset h bs v w) h.cache.page_read_offset)) [
        | inl past ↦
            let stays : invalidate_heads_to h (end_offset h bs v w) ≡ done h = rw past refl in
            let same : left ≡ h = cc in ap (λ (g : WriteHead). g.words) same
        | inr before ↦
            let stays : invalidate_heads_to h (end_offset h bs v w) ≡ done skipped =
              rw (before, eq→== h.cache.entry_read_offset h.cache.entry_write_offset caught) refl in
            let same : left ≡ skipped = cc in ap (λ (g : WriteHead). g.words) same
      ]
    where
      left : WriteHead
      left = record h {
        words = (invalidated h bs v w).words;
        cache = record (h.cache) {
          entry_read_offset = (invalidated h bs v w).entry;
          page_read_offset = (invalidated h bs v w).bytes;
        };
      }

      skipped : WriteHead
      skipped = record h { cache = record (h.cache) { page_read_offset = end_offset h bs v w } }

  -- The length of the entry stands until it is stored.
  length-stays :
      h.cache.entry_read_offset ≡ h.cache.entry_write_offset
      → (stored h bs v w).words (entry_word h h.cache.entry_write_offset + 1)
        ≡ h.words (entry_word h h.cache.entry_write_offset + 1)
  length-stays caught =
      let bounds = entry_word_bounds h.cache.entry_write_offset v.configured in
      put_bytes-outside (data_base h) (data_len h) (invalidated h bs v w).words
        h.cache.page_write_offset bs (entry_word h h.cache.entry_write_offset + 1) (omega arith)
        (inl (omega (arith, bounds, v.configured.apart)))
      ∙ ap (λ (words : ℕ → ℕ). words (entry_word h h.cache.entry_write_offset + 1))
          (idle-words caught)

-- On a well-formed head whose writer has no entries left to read, a commit of bytes that fit the data
-- ring, short of the last `u64` of the stream, passes through a state in which the entry at the entry
-- write offset has the new offset and still the length of the snapshot that it gave before.
pub Reach-Torn :
    (h : WriteHead) (bs : List ℕ) (old : Snapshot)
    → IsWriter h
    → IsWritable h bs
    → h.cache.entry_read_offset ≡ h.cache.entry_write_offset
    → entry_at_relaxed h h.cache.entry_write_offset ≡ done old
    → (g : WriteHead) × Reach h bs (start h) (g, offset_stored)
      × (entry_at_relaxed g h.cache.entry_write_offset
          ≡ done (record old { offset = h.cache.page_write_offset }))
Reach-Torn h bs old v w caught e =
    let r = offset_stored-Reach h bs v w in
    let s = Reach-Holding h bs v w r in
    let a = entry_word h h.cache.entry_write_offset in
    let found : entry_at_relaxed h h.cache.entry_write_offset
        ≡ done (record { offset = h.words a; length = h.words (a + 1) }) =
      entry_at_relaxed_lem h.cache.entry_write_offset v.configured in
    let same : record { offset = h.words a; length = h.words (a + 1) } ≡ old = cc in
    let memory : s.memory.words ≡ update (stored h bs v w).words a h.cache.page_write_offset =
      sym (ap (λ (g : WriteHead). g.words) s.same) in
    (
      _,
      r,
      entry_at_relaxed-Holding h bs v w s h.cache.entry_write_offset
          ∙ rw
              (
                memory,
                sym same,
                update-outside (stored h bs v w).words a h.cache.page_write_offset (a + 1)
                    (omega arith),
                length-stays h bs v w caught,
              )
              (ground arith),
    )
