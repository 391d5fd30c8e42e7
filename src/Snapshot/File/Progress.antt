-- ===== src/Snapshot/File/Progress.antt =====
-- How far a configured writer has come, and the file that is mapped anew from it: shm-snapshot/src/lib.rs
-- and shm-snapshot/src/writer.rs.
use shmfd.Prelude.{ℕ, ◌-◌, ◌≤◌, ◌≡◌, le→not-ltb}
use shmfd.Snapshot.Layout.{HeadPage, WriteHead, ConfigureFile, magic_version}
use shmfd.Snapshot.Config.{from_map}
use shmfd.Snapshot.Config.Configure.{configured}

-- What of a writer changes by commits.
pub record Progress : Type 0 where
  pub words : ℕ → ℕ
  pub entry_read : ℕ
  pub entry_write : ℕ
  pub page_read : ℕ
  pub offset : ℕ

-- The writer on the mapping `m`, configured by `cfg`, that has come so far.
abbrev pub serving : WriteHead → ConfigureFile → Progress → WriteHead
serving m cfg p = record (configured m cfg) {
  words = p.words;
  cache = record {
    entry_mask = cfg.entries - 1;
    entry_read_offset = p.entry_read;
    entry_write_offset = p.entry_write;
    page_mask = cfg.data_size - 1;
    page_write_offset = p.offset;
    page_read_offset = p.page_read;
  };
  meta = record {
    version = magic_version;
    entry_mask = cfg.entries - 1;
    page_mask = cfg.data_size - 1;
    page_write_offset = p.offset;
  };
}

-- The file of a head, mapped anew.
abbrev pub remapped : WriteHead → WriteHead → WriteHead
remapped m h = record m { meta = h.meta; words = h.words }

-- `from_map` on the file of a writer gives what `remapped` says, if the file has a head page.
pub from_map-remapped :
    (len : ℕ) (meta : HeadPage) (words : ℕ → ℕ) (h : WriteHead)
    → 4096 ≤ len
    → from_map len h.meta h.words ≡ remapped (from_map len meta words) h
unfolding from_map
from_map-remapped len meta words h le = rw (le→not-ltb len 4096 le, from_map)

-- The configuration that a reader recovers.
abbrev pub recovered : ConfigureFile → Progress → ConfigureFile
recovered cfg p = record cfg { initial_offset = p.offset }
