-- ===== src/Snapshot/Crash/Stores.antt =====
-- The stores of a commit of shm-snapshot/src/writer.rs leave all of the head alone but the words,
-- its read and write offsets, and the write offset of the head page.
use shmfd.Prelude.{ℕ, ◌+◌, ◌≡◌, done}
use shmfd.Snapshot.Layout.{WriteHead, update}
use shmfd.Snapshot.Ring.{write_at, get_entry_atomic, invalidate_at}
use shmfd.Snapshot.Ring.Bytes.{WordsFit, IsConfigured, put_byte, byte_address, write_at_lem}
use shmfd.Snapshot.Ring.Entries.{entry_word, get_entry_atomic_lem, invalidate_at_lem}

-- What the stores change of a head.
pub record Memory : Type 0 where
  pub words : ℕ → ℕ
  pub entry_read : ℕ
  pub page_read : ℕ
  pub page_write : ℕ
  pub stored_write : ℕ

abbrev pub on : WriteHead → Memory → WriteHead
on h m = record h {
  words = m.words;
  cache = record (h.cache) {
    entry_read_offset = m.entry_read;
    page_read_offset = m.page_read;
    page_write_offset = m.page_write;
  };
  meta = record (h.meta) { page_write_offset = m.stored_write };
}

abbrev pub memory_of : WriteHead → Memory
memory_of h = record {
  words = h.words;
  entry_read = h.cache.entry_read_offset;
  page_read = h.cache.page_read_offset;
  page_write = h.cache.page_write_offset;
  stored_write = h.meta.page_write_offset;
}

pub on-IsConfigured :
    {h : WriteHead} (m : Memory) → IsConfigured h → WordsFit m.words → IsConfigured (on h m)
on-IsConfigured m v fit = record {
  entry_power = v.entry_power;
  data_power = v.data_power;
  entries_fit = v.entries_fit;
  data_fits = v.data_fits;
  apart = v.apart;
  tail_apart = v.tail_apart;
  words_fit = fit;
}

module _ {h : WriteHead} (m : Memory) (v : IsConfigured h) (fit : WordsFit m.words) where
  -- Where a store of an entry or of a byte leads, whichever result it is given.
  pub entry_address-on : (idx a : ℕ) → get_entry_atomic (on h m) idx ≡ done a → a ≡ entry_word h idx
  entry_address-on idx a e =
      let found : get_entry_atomic (on h m) idx ≡ done (entry_word h idx) =
        get_entry_atomic_lem idx (on-IsConfigured m v fit) in
      cc

  pub write_at-on :
      (idx b : ℕ) (g : WriteHead)
      → write_at (on h m) idx b ≡ done g
      → g ≡ on h (record m { words = put_byte m.words (byte_address h idx) b })
  write_at-on idx b g e =
      let found : write_at (on h m) idx b
          ≡ done (on h (record m { words = put_byte m.words (byte_address h idx) b })) =
        write_at_lem idx (on-IsConfigured m v fit) b in
      cc

  pub invalidate_at-on :
      (idx length' : ℕ) (g : WriteHead)
      → invalidate_at (on h m) idx ≡ done (g, length')
      → g ≡ on h (record m { words = update m.words (entry_word h idx + 1) 0 })
  invalidate_at-on idx length' g e =
      let found : invalidate_at (on h m) idx
          ≡ done (
            on h (record m { words = update m.words (entry_word h idx + 1) 0 }),
            m.words (entry_word h idx + 1),
          ) =
        invalidate_at_lem idx (on-IsConfigured m v fit) in
      cc
