-- ===== src/State/Area.antt =====
-- shm-state/src/area.rs and mmap.rs, `Shm::stat` of shm-fd/src/op.rs, and `Ring::new` of
-- shm-state/src/ring.rs: mapping a file. The functions of the tables are those of the operating system;
-- what the mapped memory holds is an argument, too.
pub mod Whole
use shmfd.Prelude.{
  ℕ, ◌*◌, ◌/◌, ◌%◌, ◌^◌, bit_or, ◌==◌, ltb, if◌then◌else◌, Bool, true, false, Run, done, panic,
  ◌>>=◌, ◌>>◌, assert, Result, ok, err,
}
use shmfd.Fd.Text.{ℤ, pos, negsuc}
use shmfd.State.Ring.{MapError, map_error, RingMapped, layout_for}

-- `ShmVTable`: `fstat` gives its answer and the size of the file.
pub record ShmVTable : Type 0 where
  pub fstat : ℤ → ℤ × ℤ
  pub errno : ℤ

-- `ShmError`
pub data ShmError : Type 0 where
  shm_error : ℤ → ShmError

-- `Shm::stat`, of which only the size is used.
unfoldable pub stat : ShmVTable → ℤ → Result ℤ ShmError
stat shm fd = elim (shm.fstat fd).0 [
  | negsuc n ↦ err (shm_error shm.errno)
  | pos n ↦ ok (shm.fstat fd).1
]

-- `AreaFd`
pub record AreaFd : Type 0 where
  pub fd : ℤ
  pub len : ℕ

-- `AreaFd::new`
unfoldable pub area_new : ℤ → ShmVTable → Result AreaFd MapError
unfolding stat
area_new fd shm = elim (stat shm fd) [
  | err e ↦ err (map_error 11)
  | ok st_size ↦ elim st_size [
    | negsuc n ↦ err (map_error 11)
    | pos n ↦ ok (record { fd = fd; len = n })
  ]
]

-- `VTable`: addresses and error numbers are natural numbers, and `memory` gives the words from an address on.
pub record VTable : Type 0 where
  pub mmap : ℕ → ℕ → ℤ → ℕ
  pub errno : ℕ
  pub prot_read : ℕ
  pub prot_write : ℕ
  pub map_failed : ℕ
  pub memory : ℕ → ℕ → ℕ

-- `MappedFd`
pub record MappedFd : Type 0 where
  pub area : AreaFd
  pub words : ℕ → ℕ
  pub count : ℕ

-- `Mapper::mmap_shared`: the words of the mapping and their number.
unfoldable pub mmap_shared : VTable → ℤ → ℕ → Run (Result ((ℕ → ℕ) × ℕ) MapError)
mmap_shared v file len =
    let ptr = v.mmap len (bit_or v.prot_read v.prot_write) file in
    let mapped : Run (Result ((ℕ → ℕ) × ℕ) MapError) =
      assert (ptr % 4 == 0) >> done (ok (v.memory ptr, len / 4)) in
    if ptr == v.map_failed then done (err (map_error v.errno)) else mapped

-- `MappedFd::new`
unfoldable pub mapped_new : VTable → AreaFd → Run (Result MappedFd MapError)
unfolding mmap_shared
mapped_new v area = mmap_shared v area.fd area.len >>= λ mapping. elim mapping [
  | err e ↦ done (err e)
  | ok found ↦ done (ok (record { area = area; words = found.0; count = found.1 }))
]

-- `Ring::new`
unfoldable pub ring_new : VTable → AreaFd → ℕ → Run (Result RingMapped MapError)
unfolding mapped_new
ring_new v area nr_descriptors = elim (layout_for area.len nr_descriptors) [
  | err e ↦ done (err e)
  | ok layout ↦ mapped_new v area >>= λ mapping. elim mapping [
    | err e ↦ done (err e)
    | ok mapped ↦ done (
        ok (record {
          words = mapped.words;
          len = mapped.count;
          position = 0;
          generation = 0;
          layout = layout;
        }))
  ]
]
