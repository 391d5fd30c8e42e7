-- ===== src/Snapshot/Ring.antt =====
-- shm-snapshot/src/writer.rs, `impl WriteHead`: bytes of the data ring and entries of the entry ring.
pub mod Bytes
pub mod Stream
pub mod Copy
pub mod Entries
pub mod Valid
use shmfd.Prelude.{
  ℕ, suc, zero, ◌+◌, ◌-◌, ◌*◌, ◌/◌, ◌%◌, ◌^◌, bit_and, ◌==◌, ltb, if◌then◌else◌, Bool, Run, done,
  panic, ◌>>=◌, List, [], ◌∷◌,
}
use shmfd.Prelude.Bytes.{set_byte, get_byte}
use shmfd.Prelude.Words.{wrapping_add, wrapping_sub, add64}
use shmfd.Snapshot.Layout.{
  HeadPage, HeadCache, PageSlice, WriteHead, Snapshot, page_word, update, sequence_count,
  data_count,
}

-- `idx_at`: the page, the word in the page and the shift of a stream offset.
unfoldable pub idx_at : WriteHead → ℕ → ℕ × ℕ × ℕ
idx_at head idx =
    let i = bit_and idx head.cache.page_mask in
    (i / 8 / data_count, i / 8 % data_count, 8 * (i % 8))

-- `write_at`
unfoldable pub write_at : WriteHead → ℕ → ℕ → Run WriteHead
unfolding idx_at
write_at head idx byte =
    let (page, word, shift) = idx_at head idx in
    page_word head.data_pages page word >>= λ a.
    done (record head { words = update head.words a (set_byte (head.words a) shift byte) })

-- `read_at`
unfoldable pub read_at : WriteHead → ℕ → Run ℕ
unfolding idx_at
read_at head idx =
    let (page, word, shift) = idx_at head idx in
    page_word head.data_pages page word >>= λ a. done (get_byte (head.words a) shift)

-- The loop `for (&b, idx) in data.iter().zip(n..) { write_at(idx, b); n = n.wrapping_add(1) }`. The
-- range steps past the offset before the body runs, and overflows at the last `u64`.
unfoldable pub write_from : WriteHead → ℕ → ℕ → List ℕ → Run (WriteHead × ℕ)
write_from head n idx [] = done (head, n)
write_from head n idx (b ∷ rest) = do
  next ← add64 idx 1
  head' ← write_at head idx b
  write_from head' (wrapping_add n 1) next rest

-- `copy_from_slice`
unfoldable pub copy_from_slice : WriteHead → List ℕ → Run (WriteHead × ℕ)
unfolding write_from
copy_from_slice head bytes = do
  (head', n) ← write_from head head.cache.page_write_offset head.cache.page_write_offset bytes
  let count = wrapping_sub n head'.cache.page_write_offset
  done (record head' { cache = record (head'.cache) { page_write_offset = n } }, count)

-- The loop of `read` from the stream offset `snapshot.offset + i`, with `left` bytes left of
-- `snapshot.length`, over the bytes of `into` that follow.
unfoldable pub read_from : WriteHead → ℕ → ℕ → ℕ → List ℕ → Run (List ℕ)
read_from head offset i left [] = done []
read_from head offset i zero (b ∷ into) = done (b ∷ into)
read_from head offset i (suc left) (b ∷ into) = do
  b' ← read_at head (wrapping_add offset i)
  rest ← read_from head offset (i + 1) left into
  done (b' ∷ rest)

-- `read`
unfoldable pub read : WriteHead → Snapshot → List ℕ → Run (List ℕ)
unfolding read_from
read head snapshot into = read_from head snapshot.offset 0 snapshot.length into

-- `get_entry_atomic`: the address of the two words of an entry.
unfoldable pub get_entry_atomic : WriteHead → ℕ → Run ℕ
get_entry_atomic head idx =
    let i = bit_and idx head.cache.entry_mask in
    page_word head.sequence (i / sequence_count) (2 * (i % sequence_count))

-- `invalidate_at`
unfoldable pub invalidate_at : WriteHead → ℕ → Run (WriteHead × ℕ)
unfolding get_entry_atomic
invalidate_at head idx = get_entry_atomic head idx >>= λ a.
    done (record head { words = update head.words (a + 1) 0 }, head.words (a + 1))

-- `insert_at`
unfoldable pub insert_at : WriteHead → ℕ → Snapshot → Run WriteHead
unfolding get_entry_atomic
insert_at head idx snap = get_entry_atomic head idx >>= λ a.
    done (record head { words = update (update head.words a snap.offset) (a + 1) snap.length })

-- `entry_at_relaxed`
unfoldable pub entry_at_relaxed : WriteHead → ℕ → Run Snapshot
unfolding get_entry_atomic
entry_at_relaxed head idx = get_entry_atomic head idx >>= λ a.
    done (record { offset = head.words a; length = head.words (a + 1) })

-- The entry at position `idx` of the pages of the entry ring, in iteration order.
abbrev pub entry_address : WriteHead → ℕ → ℕ
entry_address head idx = head.sequence.start * data_count + 2 * idx

-- The loop of `iter_valid`, with `left` entries left from `idx` on. `insert_one` of the collector
-- takes its state, and returns whether the entry stays valid.
module _ {S : Type 0} (insert_one : S → Snapshot → S × Bool) (max : ℕ) where
  unfoldable pub iter_from : ℕ → ℕ → S → WriteHead → S × WriteHead
  iter_from zero idx s head = (s, head)
  iter_from (suc left) idx s head =
      let a = entry_address head idx in
      let length = head.words (a + 1) in
      let skip = iter_from left (idx + 1) s head in
      let (s', keep) = insert_one s (record { offset = head.words a; length = length }) in
      let kept = iter_from left (idx + 1) s' head in
      let dropped =
        iter_from left (idx + 1) s' (record head { words = update head.words (a + 1) 0 }) in
      if ltb max idx
      then (s, head)
      else if length == 0
      then skip
      else if keep
      then kept
      else dropped

-- `iter_valid`
unfoldable pub iter_valid : {S : Type 0} → (S → Snapshot → S × Bool) → S → WriteHead → S × WriteHead
unfolding iter_from
iter_valid insert_one s head =
    iter_from insert_one head.meta.entry_mask (sequence_count * head.sequence.len) 0 s head
