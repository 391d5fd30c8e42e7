-- ===== src/State/Seq/Stored.antt =====
-- A well-formed sequence, and the words that `set` leaves in it, shm-state/src/seq.rs.
use shmfd.Prelude.{
  ℕ, ◌+◌, ◌-◌, ◌*◌, ◌/◌, ◌%◌, ◌^◌, ◌≤◌, ◌<◌, ◌≡◌, ◌≢◌, sym, ap, ◌∙◌, arith, bit_or, ◌==◌, done,
  false, ok, List, length, le→not-ltb, le→leb, lt→not-leb, inr,
}
use shmfd.Prelude.Bits.{zero-bit_or}
use shmfd.Prelude.Words.{IsPowerOfTwo}
use shmfd.Snapshot.Ring.Stream.{AllBytes}
use shmfd.State.Ring.{recombine_u64, RingMapped, Descriptor}
use shmfd.State.Ring.Marks.{IsRing, slot, slot_address, slot-le}
use shmfd.State.Ring.Restore.{IsActive, mark}
use shmfd.State.Ring.Push.{
  pushed_words, Pushed, push-Pushed, elsewhere, pushed-IsRing, restore-reopened,
}
use shmfd.State.Ring.Recombine.{IsDescriptor}
use shmfd.State.Ring.Invalidate.{Invalidates}
use shmfd.State.Seq.{SeqInner, seq_restore, data_slice, set, get, set_from}
use shmfd.State.Seq.Data.{fill, fill-below, fill-fit, set_from-fill, get_from-fill}

-- A sequence as `wrap` makes it, whose data lie behind the descriptors of the ring.
pub record IsSeq (s : SeqInner) : Type 0 where
  pub ring : IsRing s.ring
  pub power : IsPowerOfTwo (s.layout.buffer_mask + 1)
  pub mask_lt : s.layout.buffer_mask < 2 ^ 32
  pub at_start : s.begin ≡ 0
  pub data_end : s.layout.data_offset + 64 ≡ s.ring.layout.tail
  pub buffer : s.layout.tail ≤ s.layout.data_offset
  pub inside : s.ring.layout.tail ≤ s.ring.len
  pub len_lt : s.ring.len < 2 ^ 62
  pub apart : 64 + 8 * (s.ring.layout.index_descriptors_mask + 1) ≤ s.layout.data_offset

-- A value that `set` takes: at most half the buffer, and at most the 256 bytes of the data.
pub record Fits (s : SeqInner) (bs : List ℕ) : Type 0 where
  pub half : length bs ≤ s.layout.buffer_mask / 2
  pub room : length bs ≤ 256
  pub bytes : AllBytes bs

module _ {s : SeqInner} (v : IsSeq s) (bs : List ℕ) (f : Fits s bs) where
  abbrev filled : RingMapped
  filled = record (s.ring) { words = fill s.ring.words s.layout.data_offset bs }

  abbrev named : Descriptor
  named = record { payload = length bs; start = 0; finish = s.layout.tail }

  pub filled-IsRing : IsRing filled
  filled-IsRing = record {
    first = v.ring.first;
    power = v.ring.power;
    fits = v.ring.fits;
    words_fit = fill-fit s.ring.words s.layout.data_offset bs v.ring.words_fit f.bytes;
  }

  data_slice_lem :
      (words : ℕ → ℕ) (p g b l d : ℕ)
      → data_slice (record {
        ring = record (s.ring) { words = words; position = p; generation = g };
        layout = s.layout;
        begin = b;
        len = l;
        descriptor = d;
      })
        ≡ done (s.layout.data_offset, 64)
  unfolding data_slice
  data_slice_lem words p g b l d =
      let count : s.ring.layout.tail - s.layout.data_offset ≡ 64 = omega (arith, v.data_end) in
      rw (
        le→leb s.ring.layout.tail s.ring.len v.inside,
        le→leb s.layout.data_offset s.ring.layout.tail (omega (arith, v.data_end)),
        count,
      )

  -- The sequence after `set` is of this form.
  abbrev pub stored : (ℕ → ℕ) → ℕ → ℕ → ℕ → ℕ → SeqInner
  stored words p g b d = record {
    ring = record (s.ring) { words = words; position = p; generation = g };
    layout = s.layout;
    begin = b;
    len = length bs;
    descriptor = d;
  }

  abbrev Holds : (ℕ → ℕ) → Type 0
  Holds words =
      (x : ℕ) → s.layout.data_offset ≤ x → words x ≡ fill s.ring.words s.layout.data_offset bs x

  pub get-stored :
      (words : ℕ → ℕ) (p g b d : ℕ) (into : List ℕ)
      → b ≡ 0
      → Holds words
      → length into ≡ length bs
      → length bs % 4 ≢ 0
      → get (stored words p g b d) into ≡ done (ok (length bs), bs)
  unfolding get
  get-stored words p g b d into zero_begin same e ne =
      let base : s.layout.data_offset + 0 ≡ s.layout.data_offset = omega arith in
      let read =
        get_from-fill (stored words p g b d) s.layout.data_offset 64 v.power zero_begin v.mask_lt 0
          bs into s.ring.words e ne (omega arith) (omega (arith, f.half)) (omega (arith, f.room))
          f.bytes (rw base same) in
      rw (data_slice_lem words p g b (length bs) d, read)

  -- The push of `set`.
  pub pushed : Pushed filled-IsRing named
  pushed = push-Pushed filled-IsRing named

  payload_lem : bit_or (s.begin * 2 ^ 32 % 2 ^ 64) (length bs) ≡ length bs
  payload_lem =
      let none_left : s.begin * 2 ^ 32 % 2 ^ 64 ≡ 0 = omega (arith, v.at_start) in
      rw none_left (zero-bit_or (length bs))

  pub words_after : ℕ → ℕ
  words_after = pushed_words filled-IsRing named

  pub words_after-Holds : Holds words_after
  unfolding words_after
  words_after-Holds x le =
      elsewhere filled-IsRing named x
        (inr (omega (arith, slot-le filled-IsRing s.ring.position, v.apart)))

  store_lem :
      set_from s.layout.data_offset 64 s.layout.buffer_mask s.ring.words s.begin bs
      ≡ done filled.words
  store_lem =
      let base : s.layout.data_offset + 0 ≡ s.layout.data_offset = omega arith in
      let stores =
        set_from-fill s.layout.data_offset 64 s.layout.buffer_mask v.power s.ring.words 0 bs
          (omega (arith, f.half)) (omega (arith, f.room)) v.mask_lt in
      rw v.at_start (stores ∙ ap (λ t. done (fill s.ring.words t bs)) base)

  -- The ring after the push.
  abbrev pub ring_after : RingMapped
  ring_after = record filled {
    words = words_after;
    generation = pushed.generation;
    position = (s.ring.position + 1) % 2 ^ 32;
  }

  pub set-same :
      s.ring.position ≡ s.descriptor
      → set s bs
        ≡ done (
          ok tt,
          stored words_after
              ((s.ring.position + 1) % 2 ^ 32)
              pushed.generation
              s.begin
              s.ring.position,
        )
  unfolding set words_after
  set-same same =
      rw
        (
          data_slice_lem s.ring.words s.ring.position s.ring.generation s.begin s.len s.descriptor,
          store_lem,
          payload_lem,
          pushed.returns,
          lt→not-leb (2 ^ 32) (length bs) (omega (arith, f.room)),
          le→not-ltb (s.layout.buffer_mask / 2) (length bs) f.half,
        )
        (ground (arith, same))

  pub set-other :
      s.ring.position ≢ s.descriptor
      → (i : Invalidates ring_after s.descriptor)
      → set s bs
        ≡ done (
          ok tt,
          stored i.after.words
              ((s.ring.position + 1) % 2 ^ 32)
              i.after.generation
              s.begin
              s.ring.position,
        )
  unfolding set words_after
  set-other other i =
      let differ : (s.ring.position == s.descriptor) ≡ false = ground (arith, other) in
      rw
        (
          data_slice_lem s.ring.words s.ring.position s.ring.generation s.begin s.len s.descriptor,
          store_lem,
          payload_lem,
          pushed.returns,
          lt→not-leb (2 ^ 32) (length bs) (omega (arith, f.room)),
          le→not-ltb (s.layout.buffer_mask / 2) (length bs) f.half,
        )
        (ground (arith, differ, i.returns, i.same_owner))

  pub ring_after-IsRing : IsRing ring_after
  unfolding words_after
  ring_after-IsRing =
      pushed-IsRing filled-IsRing named ((s.ring.position + 1) % 2 ^ 32) pushed.generation

  untouched : (a : ℕ) → a < s.layout.data_offset → filled.words a ≡ s.ring.words a
  untouched a lt = fill-below s.ring.words s.layout.data_offset bs a lt

  mark_untouched :
      (j : ℕ) → j ≤ s.ring.layout.index_descriptors_mask → mark filled.words j ≡ mark s.ring.words j
  unfolding recombine_u64
  mark_untouched j le =
      let low = untouched (slot_address j) (omega (arith, v.apart)) in
      let high = untouched (slot_address j + 1) (omega (arith, v.apart)) in rw (low, high)

  -- Reopening a stored sequence finds the value, if only the pushed descriptor is active.
  pub restore-stored :
      (p g b l d : ℕ)
      → ((j : ℕ)
          → j ≤ s.ring.layout.index_descriptors_mask
          → j ≢ slot s.ring s.ring.position
          → ¬ (IsActive s.ring.words j))
      → (g' : ℕ) × (seq_restore (record (stored words_after p g b d) { len = l })
          ≡ done (ok (length bs), stored words_after (slot s.ring s.ring.position) g' 0 d))
  unfolding seq_restore words_after
  restore-stored p g b l d others =
      let found = restore-reopened filled-IsRing named p g is_named inactive in
      let len_kept : length bs % 2 ^ 32 ≡ length bs = omega (arith, f.room) in
      let no_begin : length bs / 2 ^ 32 ≡ 0 = omega (arith, f.room) in
      (
        mark (pushed_words filled-IsRing named) (slot filled s.ring.position) / 2 ^ 32,
        rw (found, len_kept, le→not-ltb (s.layout.buffer_mask / 2) (length bs) f.half, no_begin),
      )
    where
      is_named : IsDescriptor named
      is_named = record {
        payload_lt = omega (arith, f.room);
        start_lt = omega arith;
        finish_lt = omega (arith, v.buffer, v.data_end, v.inside, v.len_lt);
      }

      inactive :
          (j : ℕ)
          → j ≤ s.ring.layout.index_descriptors_mask
          → j ≢ slot s.ring s.ring.position
          → ¬ (IsActive filled.words j)
      inactive j le ne act = others j le ne (ap (λ t. t % 2) (sym (mark_untouched j le)) ∙ act)

  pub stored-IsSeq :
      (words : ℕ → ℕ) (p g b d : ℕ)
      → IsRing (stored words p g b d).ring
      → b ≡ 0
      → IsSeq (stored words p g b d)
  stored-IsSeq words p g b d r e = record {
    ring = r;
    power = v.power;
    mask_lt = v.mask_lt;
    at_start = e;
    data_end = v.data_end;
    buffer = v.buffer;
    inside = v.inside;
    len_lt = v.len_lt;
    apart = v.apart;
  }
