-- ===== src/Snapshot/Layout.antt =====
-- shm-snapshot/src/writer.rs: the types of the mapped file, and a writer's view of it.
-- The file is a head page and, after it, the words that `words` numbers from 0. The pages of the
-- entry ring, of the data ring and of the tail are ranges of 512 words each, which `PageSlice`
-- gives by its first page: slices of one file may overlap, as they do before `configure_pages`.
use shmfd.Prelude.{ℕ, ◌+◌, ◌*◌, ◌==◌, if◌then◌else◌, Bool, Run, done, panic, ltb}

-- `HeadPage`
pub record HeadPage : Type 0 where
  pub version : ℕ
  pub entry_mask : ℕ
  pub page_mask : ℕ
  pub page_write_offset : ℕ

-- `HeadCache`
pub record HeadCache : Type 0 where
  pub entry_mask : ℕ
  pub entry_read_offset : ℕ
  pub entry_write_offset : ℕ
  pub page_mask : ℕ
  pub page_write_offset : ℕ
  pub page_read_offset : ℕ

-- `HeadCache::new`
abbrev pub new_cache : HeadCache
new_cache = record {
  entry_mask = 0;
  entry_read_offset = 0;
  entry_write_offset = 0;
  page_mask = 0;
  page_write_offset = 0;
  page_read_offset = 0;
}

-- `HeadPage::PAGE_SZ`, and the sizes of `SequencePage` and `DataPage` in bytes.
abbrev pub page_size : ℕ
page_size = 4096

-- `SequencePage::DATA_COUNT`: entries of two words in a page.
abbrev pub sequence_count : ℕ
sequence_count = 256

-- `DataPage::DATA_COUNT`: words in a page.
abbrev pub data_count : ℕ
data_count = 512

-- `&[SequencePage]` or `&[DataPage]`
pub record PageSlice : Type 0 where
  pub start : ℕ
  pub len : ℕ

abbrev pub no_pages : PageSlice
no_pages = record { start = 0; len = 0 }

-- `WriteHead`
pub record WriteHead : Type 0 where
  pub cache : HeadCache
  pub meta : HeadPage
  pub words : ℕ → ℕ
  pub sequence : PageSlice
  pub data_pages : PageSlice
  pub tail : PageSlice

-- `Snapshot`
pub record Snapshot : Type 0 where
  pub offset : ℕ
  pub length : ℕ

-- `ConfigureFile`
pub record ConfigureFile : Type 0 where
  pub entries : ℕ
  pub data_size : ℕ
  pub initial_offset : ℕ
  pub layout_version : ℕ

-- `ConfigureFile::default`
abbrev pub default_configuration : ConfigureFile
default_configuration = record {
  entries = 0;
  data_size = 0;
  initial_offset = 0;
  layout_version = 0;
}

-- `ConfigureFile::MAGIC_VERSION`
abbrev pub magic_version : ℕ
magic_version = 0x96c2_a6f4_b685_19b3

-- `ConfigureFile::is_initialized`
unfoldable pub is_initialized : ConfigureFile → Bool
is_initialized cfg = cfg.layout_version == magic_version

-- `ConfigureFile::or_insert_with`
unfoldable pub or_insert_with : ConfigureFile → (ConfigureFile → ConfigureFile) → ConfigureFile
unfolding is_initialized
or_insert_with cfg replace =
    if is_initialized cfg then cfg else record (replace cfg) { layout_version = magic_version }

-- The address of word `i` of page `page` in a slice; indexing past the slice panics.
unfoldable pub page_word : PageSlice → ℕ → ℕ → Run ℕ
page_word pages page i =
    if ltb page pages.len then done ((pages.start + page) * data_count + i) else panic

-- A store into a word of the file.
abbrev pub update : (ℕ → ℕ) → ℕ → ℕ → ℕ → ℕ
update words a v x = if x == a then v else words x
