-- ===== src/State/Ring.antt =====
-- shm-state/src/ring.rs: the ring of transaction descriptors over a mapping of `u32` words.
pub mod Marks
pub mod Restore
pub mod Recombine
pub mod Push
pub mod Invalidate
use shmfd.Prelude.{
  ℕ, zero, suc, ◌+◌, ◌-◌, ◌*◌, ◌/◌, ◌%◌, ◌^◌, max, bit_and, bit_or, ◌==◌, ltb, leb, not, ◌&&◌,
  if◌then◌else◌, Bool, true, false, Run, done, panic, ◌>>=◌, ◌>>◌, assert, Option, none, some,
  Result, ok, err,
}
use shmfd.Prelude.Words.{is_power_of_two}

-- `Layout`
pub record Layout : Type 0 where
  pub index_descriptors : ℕ
  pub index_descriptors_mask : ℕ
  pub tail : ℕ

-- `RingMapped`: the words of the mapping and their number, and what the owner keeps.
pub record RingMapped : Type 0 where
  pub words : ℕ → ℕ
  pub len : ℕ
  pub position : ℕ
  pub generation : ℕ
  pub layout : Layout

-- `Descriptor`
pub record Descriptor : Type 0 where
  pub payload : ℕ
  pub start : ℕ
  pub finish : ℕ

-- `MapError`
pub data MapError : Type 0 where
  map_error : ℕ → MapError

abbrev pub set_word : (ℕ → ℕ) → ℕ → ℕ → ℕ → ℕ
set_word words a v x = if x == a then v else words x

-- `layout_for`, of `len` bytes; the product fits a `usize`.
unfoldable pub layout_for : ℕ → ℕ → Result Layout MapError
layout_for len nr_descriptors =
    let usable = len / 4 in
    let elements = nr_descriptors * 8 in
    if not (is_power_of_two nr_descriptors)
    then err (map_error 11)
    else if leb (2 ^ 64) elements
    then err (map_error 11)
    else if ltb usable 64
    then err (map_error 11)
    else if ltb (usable - 64) elements
    then err (map_error 11)
    else ok (record {
      index_descriptors = 64;
      index_descriptors_mask = nr_descriptors - 1;
      tail = usable - 64 - elements;
    })

-- `wrap`, of a mapping of `len` words.
unfoldable pub wrap : (ℕ → ℕ) → ℕ → ℕ → Result RingMapped MapError
wrap words len nr_descriptors = elim (layout_for (4 * len) nr_descriptors) [
  | ok layout ↦
      ok (record { words = words; len = len; position = 0; generation = 0; layout = layout })
  | err e ↦ err e
]

-- `&self.descriptors()[index]`: the address of the eight words of a descriptor. Slicing the mapping
-- past its end panics, and so does an index past the last whole descriptor.
unfoldable pub descriptor : RingMapped → ℕ → Run ℕ
descriptor r index = do
  assert (leb r.layout.index_descriptors r.len)
  assert (ltb index ((r.len - r.layout.index_descriptors) / 8))
  done (r.layout.index_descriptors + 8 * index)

-- `recombine_u64` of the two words at an address.
unfoldable pub recombine_u64 : (ℕ → ℕ) → ℕ → ℕ
recombine_u64 words a = bit_or (words (a + 1) * 2 ^ 32) (words a)

-- The loop of `restore` with `left` descriptors left from `index` on: the position and the largest
-- mark so far.
unfoldable pub restore_from : RingMapped → ℕ → ℕ → ℕ → ℕ → Run (ℕ × ℕ)
restore_from r zero index position max_ts = done (position, max_ts)
restore_from r (suc left) index position max_ts = do
  a ← descriptor r index
  let ts = recombine_u64 r.words a
  let newer = not (bit_and ts 1 == 0) && ltb max_ts ts
  restore_from r left (index + 1) (if newer then index else position) (if newer then ts else max_ts)

-- `restore`
unfoldable pub restore : RingMapped → Run (Option Descriptor × RingMapped)
restore r = do
  (position, max_ts) ← restore_from r (r.layout.index_descriptors_mask + 1) 0 r.position 0
  let moved = record r { position = position }
  elim (ltb 0 max_ts) [
    | true ↦ do
      target ← descriptor moved position
      done (
        some (record {
          payload = recombine_u64 r.words (target + 2);
          start = recombine_u64 r.words (target + 4);
          finish = recombine_u64 r.words (target + 6);
        }),
        record moved { generation = max_ts / 2 ^ 32 },
      )
    | false ↦ done (none, moved)
  ]

-- `invalidate_inner`: the old and the new mark.
unfoldable pub invalidate_inner : RingMapped → ℕ → Run (RingMapped × ℕ × ℕ)
invalidate_inner r idx = do
  target ← descriptor r (bit_and idx r.layout.index_descriptors_mask)
  let old_mark = r.words target
  let new_mark = (bit_or old_mark 1 + 1) % 2 ^ 32
  let marked = record r { words = set_word r.words target new_mark }
  elim (ltb new_mark old_mark) [
    | true ↦ do
      let new_gen = marked.words target + 1
      assert (ltb new_gen (2 ^ 32))
      done (record marked { generation = max r.generation new_gen }, old_mark, new_mark)
    | false ↦ done (marked, old_mark, new_mark)
  ]

-- `split_u64`, stored to the two words at an address.
abbrev pub store_u64 : (ℕ → ℕ) → ℕ → ℕ → ℕ → ℕ
store_u64 words a v = set_word (set_word words a (v % 2 ^ 32)) (a + 1) (v / 2 ^ 32 % 2 ^ 32)

-- `push`: the index of the descriptor.
unfoldable pub push : RingMapped → Descriptor → Run (ℕ × RingMapped)
push r d = do
  (invalid, _, new_mark) ← invalidate_inner r r.position
  target ← descriptor invalid (bit_and r.position r.layout.index_descriptors_mask)
  let with_payload = store_u64 invalid.words (target + 2) d.payload
  let with_start = store_u64 with_payload (target + 4) d.start
  let with_end = store_u64 with_start (target + 6) d.finish
  done (
    r.position,
    record invalid {
      words = set_word with_end target (bit_or new_mark 1);
      position = (r.position + 1) % 2 ^ 32;
    },
  )

-- `invalidate`: whether the descriptor was valid before.
unfoldable pub invalidate : RingMapped → ℕ → Run (Bool × RingMapped)
invalidate r idx = do
  (r', old_mark, new_mark) ← invalidate_inner r idx
  done (not (bit_and old_mark 1 == 0), r')
