-- ===== src/State/Seq.antt =====
-- shm-state/src/seq.rs: a value of bytes kept in the tail of a ring's mapping, and named by the
-- payload of a descriptor. `u32::from_ne_bytes` is that of a little-endian machine.
pub mod Layout
pub mod Data
pub mod Stored
pub mod RoundTrip
pub mod Wrap
use shmfd.Prelude.{
  ℕ, zero, suc, ◌+◌, ◌-◌, ◌*◌, ◌/◌, ◌%◌, ◌^◌, bit_and, bit_or, ◌==◌, ltb, leb, not, if◌then◌else◌,
  Bool, true, false, Run, done, panic, ◌>>=◌, ◌>>◌, assert, Option, none, some, Result, ok, err,
  List, [], ◌∷◌, ◌++◌, length, take,
}
use shmfd.Prelude.Words.{is_power_of_two, add64}
use shmfd.State.Ring
use shmfd.State.Ring.{RingMapped, Descriptor, set_word}

-- `SeqError`
pub data SeqError : Type 0 where
  invalid_layout : SeqError
  unfitting_layout : SeqError
  bad_architecture_layout : SeqError
  no_snapshot : SeqError
  capacity_overflow : SeqError

-- `Layout`
pub record SeqLayout : Type 0 where
  pub data_offset : ℕ
  pub buffer_mask : ℕ
  pub tail : ℕ

-- `SeqInner`
pub record SeqInner : Type 0 where
  pub ring : RingMapped
  pub layout : SeqLayout
  pub begin : ℕ
  pub len : ℕ
  pub descriptor : ℕ

-- `SeqInner::layout_for`
unfoldable pub seq_layout_for : ℕ → ℕ → Result SeqLayout SeqError
seq_layout_for cnt buffer =
    if not (is_power_of_two buffer)
    then err invalid_layout
    else if ltb buffer 4
    then err invalid_layout
    else if leb (2 ^ 32) (buffer - 1)
    then err bad_architecture_layout
    else if ltb cnt 64
    then err unfitting_layout
    else if ltb (cnt - 64) (buffer / 4)
    then err unfitting_layout
    else ok
        (record { data_offset = cnt - 64; buffer_mask = buffer - 1; tail = cnt - 64 - buffer / 4 })

-- `SeqInner::wrap`; slicing off the tail of the ring panics if the mapping is shorter.
unfoldable pub seq_wrap : RingMapped → ℕ → Run (Result SeqInner SeqError)
seq_wrap ring buffer = do
  assert (leb ring.layout.tail ring.len)
  elim (seq_layout_for ring.layout.tail buffer) [
    | ok layout ↦
        done (ok (record { ring = ring; layout = layout; begin = 0; len = 0; descriptor = 0 }))
    | err e ↦ done (err e)
  ]

-- `SeqInner::restore`
unfoldable pub seq_restore : SeqInner → Run (Result ℕ SeqError × SeqInner)
seq_restore s = do
  (found, ring) ← Ring.restore s.ring
  elim found [
    | none ↦ done (err no_snapshot, record s { ring = ring })
    | some last ↦
        let len = last.payload % 2 ^ 32 in
        if ltb (s.layout.buffer_mask / 2) len
        then done (err invalid_layout, record s { ring = ring })
        else done (ok len, record s { ring = ring; begin = last.payload / 2 ^ 32; len = len })
  ]

-- `&self.ring.tail()[self.layout.data_offset..]`: the address of its first word, and its length.
unfoldable pub data_slice : SeqInner → Run (ℕ × ℕ)
data_slice s = do
  assert (leb s.ring.layout.tail s.ring.len)
  assert (leb s.layout.data_offset s.ring.layout.tail)
  done (s.layout.data_offset, s.ring.layout.tail - s.layout.data_offset)

-- `u32::from_ne_bytes` and `to_ne_bytes`
abbrev pub from_ne_bytes : ℕ → ℕ → ℕ → ℕ → ℕ
from_ne_bytes a b c d = a + 256 * b + 65536 * c + 16777216 * d

abbrev pub to_ne_bytes : ℕ → List ℕ
to_ne_bytes w = w % 256 ∷ w / 256 % 256 ∷ w / 65536 % 256 ∷ w / 16777216 % 256 ∷ []

-- The word of the data that holds a stream position.
unfoldable pub data_word : ℕ → ℕ → ℕ → ℕ → Run ℕ
data_word base count mask pos =
    let k = bit_and pos mask / 4 in if ltb k count then done (base + k) else panic

-- The loop of `set` over the chunks of four bytes from a position on, and the store of the
-- remainder, filled up with zeros.
module _ (base count mask : ℕ) where
  unfoldable pub set_from : (ℕ → ℕ) → ℕ → List ℕ → Run (ℕ → ℕ)
  set_from words pos [] = done words
  set_from words pos (a ∷ []) =
      data_word base count mask pos >>= λ t. done (set_word words t (from_ne_bytes a 0 0 0))
  set_from words pos (a ∷ b ∷ []) =
      data_word base count mask pos >>= λ t. done (set_word words t (from_ne_bytes a b 0 0))
  set_from words pos (a ∷ b ∷ c ∷ []) =
      data_word base count mask pos >>= λ t. done (set_word words t (from_ne_bytes a b c 0))
  set_from words pos (a ∷ b ∷ c ∷ d ∷ rest) = do
    t ← data_word base count mask pos
    next ← add64 pos 4
    set_from (set_word words t (from_ne_bytes a b c d)) next rest

-- `SeqInner::set`
unfoldable pub set : SeqInner → List ℕ → Run (Result (Unit {0}) SeqError × SeqInner)
set s bytes =
    let store = (do
      (base, count) ← data_slice s
      words ← set_from base count s.layout.buffer_mask s.ring.words s.begin bytes
      let offset_len = bit_or (s.begin * 2 ^ 32 % 2 ^ 64) (length bytes)
      (new_idx, ring) ←
          Ring.push (record (s.ring) { words = words })
            (record { payload = offset_len; start = 0; finish = s.layout.tail })
      let stored = record s { ring = ring; len = length bytes; descriptor = new_idx }
      elim (new_idx == s.descriptor) [
        | true ↦ done (ok tt, stored)
        | false ↦ do
          (was_valid, ring') ← Ring.invalidate ring s.descriptor
          done (ok tt, record stored { ring = ring' })
      ]) in
    if leb (2 ^ 32) (length bytes)
    then done (err invalid_layout, s)
    else if ltb (s.layout.buffer_mask / 2) (length bytes)
    then done (err invalid_layout, s)
    else store

-- The loop of `get` from `start` on, over what is left of the buffer, and its copy of the last
-- bytes: these go to the remainder of the buffer, the bytes behind its last whole chunk of four.
module _ (s : SeqInner) (base count : ℕ) where
  unfoldable pub finish_get : ℕ → List ℕ → Run (List ℕ)
  finish_get start into =
      if ltb start s.len
      then (do
        pos ← add64 s.begin start
        t ← data_word base count s.layout.buffer_mask pos
        let tail_len = length into % 4
        done (take (length into - tail_len) into ++ take tail_len (to_ne_bytes (s.ring.words t))))
      else done into

  unfoldable pub get_from : ℕ → List ℕ → Run (List ℕ)
  get_from start (a ∷ b ∷ c ∷ d ∷ rest) =
      let chunk = (do
        pos ← add64 s.begin start
        t ← data_word base count s.layout.buffer_mask pos
        after ← get_from (start + 4) rest
        done (to_ne_bytes (s.ring.words t) ++ after)) in
      if ltb 4 (s.len - start) then chunk else finish_get start (a ∷ b ∷ c ∷ d ∷ rest)
  get_from start into = finish_get start into

-- `SeqInner::get`
unfoldable pub get : SeqInner → List ℕ → Run (Result ℕ SeqError × List ℕ)
get s into = do
  (base, count) ← data_slice s
  bytes ← get_from s base count 0 into
  done (ok s.len, bytes)
