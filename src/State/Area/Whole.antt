-- ===== src/State/Area/Whole.antt =====
-- `Ring::new` of shm-state/src/ring.rs and `RingMapped::wrap`: a ring over the whole of a file.
use shmfd.Prelude.{
  ℕ, ◌*◌, ◌/◌, ◌%◌, ◌≡◌, ◌≢◌, refl, arith, bit_or, ne→not-==, eq→==, done, Result, ok, err,
}
use shmfd.State.Ring.{MapError, Layout, layout_for, wrap}
use shmfd.State.Area.{VTable, AreaFd, mmap_shared, mapped_new, ring_new}

-- The address at which a file is mapped.
abbrev pub address : VTable → AreaFd → ℕ
address v area = v.mmap area.len (bit_or v.prot_read v.prot_write) area.fd

layout_for-whole : (len nr : ℕ) → layout_for (4 * (len / 4)) nr ≡ layout_for len nr
unfolding layout_for
layout_for-whole len nr = let e : 4 * (len / 4) / 4 ≡ len / 4 = omega arith in rw e

mapped_new_lem :
    (v : VTable) (area : AreaFd)
    → address v area ≢ v.map_failed
    → address v area % 4 ≡ 0
    → mapped_new v area
      ≡ done (ok (record { area = area; words = v.memory (address v area); count = area.len / 4 }))
unfolding mapped_new mmap_shared
mapped_new_lem v area mapped aligned =
    rw (ne→not-== (address v area) v.map_failed mapped, eq→== (address v area % 4) 0 aligned)

finish :
    (v : VTable) (area : AreaFd) (nr : ℕ) (l : Result Layout MapError)
    → layout_for area.len nr ≡ l
    → mapped_new v area
      ≡ done (ok (record { area = area; words = v.memory (address v area); count = area.len / 4 }))
    → ring_new v area nr ≡ done (wrap (v.memory (address v area)) (area.len / 4) nr)
unfolding ring_new wrap
finish v area nr (ok layout) is m = rw (ring_new, is, m, wrap, layout_for-whole area.len nr, is)
finish v area nr (err e) is m = rw (ring_new, is, wrap, layout_for-whole area.len nr, is)

-- Where the system maps the file, at an aligned address, `Ring::new` gives what `wrap` gives of the file's
-- whole words, an error of the layout included.
pub ring_new-wrap :
    (v : VTable) (area : AreaFd) (nr : ℕ)
    → address v area ≢ v.map_failed
    → address v area % 4 ≡ 0
    → ring_new v area nr ≡ done (wrap (v.memory (address v area)) (area.len / 4) nr)
ring_new-wrap v area nr mapped aligned =
    finish v area nr (layout_for area.len nr) refl (mapped_new_lem v area mapped aligned)
