-- ===== src/Snapshot/Config.antt =====
-- shm-snapshot/src/writer.rs, `impl Head`: mapping a file, its layout, and the configuration that
-- a file records. Plain `+`, `-` and `>>` panic where they overflow, as under overflow checks.
pub mod Powers
pub mod Configure
use shmfd.Prelude.{
  ℕ, zero, suc, ◌+◌, ◌-◌, ◌*◌, ◌/◌, ◌%◌, ◌^◌, min, ◌==◌, ltb, leb, if◌then◌else◌, Bool, Run, done,
  panic, ◌>>=◌, ◌>>◌, assert, Option, none, some,
}
use shmfd.Prelude.Words.{add64, sub64, mul64, next_power_of_two}
use shmfd.Snapshot.Layout.{
  HeadPage, HeadCache, new_cache, PageSlice, no_pages, WriteHead, ConfigureFile, is_initialized,
  magic_version, page_size, sequence_count, data_count,
}

-- `map_all_raw`: the two overlapping slices of the pages after the head page.
unfoldable pub map_all_raw : ℕ → Option (PageSlice × PageSlice)
map_all_raw len =
    if ltb len page_size
    then none
    else let tail_len = len - page_size in
      some
        (record { start = 0; len = tail_len / 4096 }, record { start = 0; len = tail_len / 4096 })

-- `FALLBACK_HEAD`
abbrev pub fallback_head : HeadPage
fallback_head = record {
  version = magic_version;
  entry_mask = 0;
  page_mask = 0;
  page_write_offset = 0;
}

-- `from_map`, over a file of `len` bytes with its head page and words.
unfoldable pub from_map : ℕ → HeadPage → (ℕ → ℕ) → WriteHead
unfolding map_all_raw
from_map len meta words = elim (map_all_raw len) [
  | some (sequence, data_pages) ↦ record {
    cache = new_cache;
    meta = meta;
    words = words;
    sequence = sequence;
    data_pages = data_pages;
    tail = no_pages;
  }
  | none ↦ record {
    cache = new_cache;
    meta = fallback_head;
    words = words;
    sequence = no_pages;
    data_pages = no_pages;
    tail = no_pages;
  }
]

-- `leading_zeros` of a 64-bit value, from its length in bits.
unfoldable pub bit_length : ℕ → ℕ → ℕ
bit_length zero value = 0
bit_length (suc rounds) value =
    let rest = bit_length rounds (value / 2) in if value == 0 then 0 else suc rest

unfoldable pub leading_zeros : ℕ → ℕ
unfolding bit_length
leading_zeros value = 64 - bit_length 64 value

-- `fitting_power_of_two`; a shift by 64 overflows.
unfoldable pub fitting_power_of_two : ℕ → Run ℕ
unfolding leading_zeros
fitting_power_of_two value =
    let shift = leading_zeros value in if ltb shift 64 then done (2 ^ 63 / 2 ^ shift) else panic

-- Pages that `n` items take, `per_page` to a page.
unfoldable pub pages_for : ℕ → ℕ → ℕ
pages_for n per_page = n / per_page + (if n % per_page == 0 then 0 else 1)

-- `discover`
unfoldable pub discover : WriteHead → Run ConfigureFile
discover head = do
  assert (ltb head.meta.entry_mask (2 ^ 64 - 1))
  assert (ltb head.meta.page_mask (2 ^ 64 - 1))
  sequence ← add64 head.meta.entry_mask 1
  let psequence = pages_for sequence sequence_count
  pages ← sub64 head.data_pages.len psequence
  data_space ← mul64 pages 4096
  available_entries ← fitting_power_of_two sequence
  available_data ← fitting_power_of_two data_space
  recorded ← add64 head.meta.page_mask 1
  done (record {
    entries = available_entries;
    data_size = min available_data recorded;
    initial_offset = head.meta.page_write_offset;
    layout_version = head.meta.version;
  })

-- `pre_configure_entries`, `pre_configure_pages` and `pre_configure_write`
unfoldable pub assert_power_of_two : ℕ → Run (Unit {0})
assert_power_of_two n = next_power_of_two n >>= λ p. assert (p == n)

unfoldable pub pre_configure_entries : WriteHead → ℕ → Run WriteHead
unfolding assert_power_of_two
pre_configure_entries head num = do
  assert_power_of_two num
  done (record head { cache = record (head.cache) { entry_mask = num - 1 } })

unfoldable pub pre_configure_pages : WriteHead → ℕ → Run WriteHead
unfolding assert_power_of_two
pre_configure_pages head num = do
  assert_power_of_two num
  done (record head { cache = record (head.cache) { page_mask = num - 1 } })

unfoldable pub pre_configure_write : WriteHead → ℕ → WriteHead
pre_configure_write head offset = record head {
  cache = record (head.cache) { page_write_offset = offset };
}

-- `configure_pages`: the entry ring takes the first pages of its slice; the data ring and the tail
-- are the pages of the data slice behind them.
unfoldable pub configure_pages : WriteHead → Run WriteHead
configure_pages head = do
  entries ← add64 head.cache.entry_mask 1
  sequence ← next_power_of_two entries
  bytes ← add64 head.cache.page_mask 1
  data_bytes ← next_power_of_two bytes
  let psequence = pages_for sequence sequence_count
  let pdata = pages_for data_bytes 4096
  assert (leb psequence head.sequence.len)
  assert (leb psequence head.data_pages.len)
  assert (leb pdata (head.data_pages.len - psequence))
  done (record head {
    sequence = record (head.sequence) { len = psequence };
    data_pages = record { start = head.data_pages.start + psequence; len = pdata };
    tail = record {
      start = head.data_pages.start + psequence + pdata;
      len = head.data_pages.len - psequence - pdata;
    };
    meta = record {
      version = magic_version;
      entry_mask = head.cache.entry_mask;
      page_mask = head.cache.page_mask;
      page_write_offset = head.cache.page_write_offset;
    };
  })

-- `configure_head`
unfoldable pub configure_head : WriteHead → ConfigureFile → Run WriteHead
unfolding assert_power_of_two
configure_head head cfg = do
  assert_power_of_two cfg.entries
  assert_power_of_two cfg.data_size
  assert (is_initialized cfg)
  with_entries ← pre_configure_entries head cfg.entries
  with_pages ← pre_configure_pages with_entries cfg.data_size
  configure_pages (pre_configure_write with_pages cfg.initial_offset)
