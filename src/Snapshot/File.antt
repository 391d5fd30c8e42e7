-- ===== src/Snapshot/File.antt =====
-- shm-snapshot/src/lib.rs: `File`, `FileDiscovery` and `Writer`, over the heads of
-- shm-snapshot/src/writer.rs. A file that is mapped a second time, by `alternate_head`, shares its
-- head page and words with the first: what the second stores is found in the first.
pub mod Progress
pub mod Restore
pub mod Retain
pub mod Runs
use shmfd.Prelude.{ℕ, ◌*◌, Bool, Run, done, panic, ◌>>=◌, Option, none, some, List, if◌then◌else◌}
use shmfd.Snapshot.Layout.{
  HeadPage, PageSlice, WriteHead, Snapshot, ConfigureFile, is_initialized, data_count,
}
use shmfd.Snapshot.Ring.{iter_valid, read}
use shmfd.Snapshot.Config.{discover, configure_head}

-- `FileDiscovery`
pub record FileDiscovery : Type 0 where
  pub file : WriteHead
  pub configuration : ConfigureFile

-- `File::recover`: the configuration that it writes to its argument, and its result.
unfoldable pub recover : WriteHead → Run (ConfigureFile × Option FileDiscovery)
recover file = do
  cfg ← discover file
  done
      (cfg, if is_initialized cfg then some (record { file = file; configuration = cfg }) else none)

-- What the head of a file sees of the stores of another head on it.
abbrev pub see : WriteHead → WriteHead → WriteHead
see head other = record head { meta = other.meta; words = other.words }

-- `Head::valid_in_head` and `Head::retain_in_head`, with the collectors that they build.
unfoldable pub valid_in_head : {V : Type 0} → (V → Snapshot → V) → V → WriteHead → V × WriteHead
valid_in_head extend into head = iter_valid (λ v s. (extend v s, Bool.true)) into head

unfoldable pub retain_in_head : (Snapshot → Bool) → WriteHead → WriteHead
retain_in_head contains head = (iter_valid (λ (u : Unit {0}) s. (u, contains s)) tt head).1

-- `Head::valid_at`
unfoldable pub valid_at :
    {V : Type 0} → (V → Snapshot → V) → V → WriteHead → ConfigureFile → Run (V × WriteHead)
valid_at extend into head cfg = do
  alternate ← configure_head head cfg
  let (found, after) = valid_in_head extend into alternate
  done (found, see head after)

-- `Head::retain_at`
unfoldable pub retain_at : (Snapshot → Bool) → WriteHead → ConfigureFile → Run WriteHead
retain_at contains head cfg = do
  alternate ← configure_head head cfg
  done (see head (retain_in_head contains alternate))

-- `Head::read_at`
unfoldable pub read_at_configuration :
    WriteHead → Snapshot → List ℕ → ConfigureFile → Run (List ℕ × WriteHead)
read_at_configuration head snapshot into cfg = do
  alternate ← configure_head head cfg
  bytes ← read alternate snapshot into
  done (bytes, see head alternate)

-- `FileDiscovery::valid`, `FileDiscovery::retain` and `FileDiscovery::read`, with the file after
-- them.
unfoldable pub valid :
    {V : Type 0} → FileDiscovery → (V → Snapshot → V) → V → Run (V × FileDiscovery)
valid d extend into = do
  (found, file) ← valid_at extend into d.file d.configuration
  done (found, record d { file = file })

unfoldable pub retain : FileDiscovery → (Snapshot → Bool) → Run FileDiscovery
retain d contains = do
  file ← retain_at contains d.file d.configuration
  done (record d { file = file })

unfoldable pub read_discovered : FileDiscovery → Snapshot → List ℕ → Run (List ℕ × FileDiscovery)
read_discovered d snapshot into = do
  (bytes, file) ← read_at_configuration d.file snapshot into d.configuration
  done (bytes, record d { file = file })

-- `File::configure`
unfoldable pub configure : WriteHead → ConfigureFile → Run WriteHead
configure file cfg = configure_head file cfg

-- `Writer::tail`: the address of the first word and the number of words.
unfoldable pub tail : WriteHead → ℕ × ℕ
tail head = (head.tail.start * data_count, data_count * head.tail.len)
