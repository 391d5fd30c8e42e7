-- ===== src/State/Seq/RoundTrip.antt =====
-- What `set` stores, `get` reads, and a `restore` of a sequence opened anew finds,
-- shm-state/src/seq.rs.
use native.Mathlib.Decide.{ℕ_discrete}
use shmfd.Prelude.{
  ℕ, ◌+◌, ◌-◌, ◌%◌, ◌^◌, ◌≤◌, ◌≡◌, ◌≢◌, refl, subst, ◌∙◌, arith, done, ok, List, [], ◌∷◌, length,
  le→leb,
}
use shmfd.State.Ring.Marks.{IsRing, slot, slot-le}
use shmfd.State.Ring.Restore.{IsActive}
use shmfd.State.Ring.Invalidate.{invalidate-Invalidates}
use shmfd.State.Seq.{SeqInner, seq_restore, data_slice, set, get, finish_get, get_from}
use shmfd.State.Seq.Data.{data_word_lem}
use shmfd.State.Seq.Stored.{
  IsSeq, Fits, stored, stored-IsSeq, pushed, words_after, ring_after, ring_after-IsRing, set-same,
  set-other, get-stored, words_after-Holds, restore-stored,
}

-- The sequence that `set` leaves, from which `get` reads the value.
record Leaves (s : SeqInner) (bs : List ℕ) : Type 0 where
  after : SeqInner
  returns : set s bs ≡ done (ok tt, after)
  seq : IsSeq after
  read :
      (into : List ℕ)
      → length into ≡ length bs
      → length bs % 4 ≢ 0
      → get after into ≡ done (ok (length bs), bs)

set-Leaves : (s : SeqInner) (bs : List ℕ) → IsSeq s → Fits s bs → Leaves s bs
set-Leaves s bs v f = elim (ℕ_discrete s.ring.position s.descriptor) [
  | yes same ↦
      let p = (s.ring.position + 1) % 2 ^ 32 in
      let g = (pushed v bs f).generation in
      record {
        after = stored v bs f (words_after v bs f) p g s.begin s.ring.position;
        returns = set-same v bs f same;
        seq =
            stored-IsSeq v bs f (words_after v bs f) p g s.begin s.ring.position
              (ring_after-IsRing v bs f) v.at_start;
        read = λ into.
            get-stored v bs f (words_after v bs f) p g s.begin s.ring.position into v.at_start
              (words_after-Holds v bs f);
      }
  | no other ↦
      let p = (s.ring.position + 1) % 2 ^ 32 in
      let i = invalidate-Invalidates (ring_after v bs f) s.descriptor (ring_after-IsRing v bs f) in
      record {
        after = stored v bs f i.after.words p i.after.generation s.begin s.ring.position;
        returns = set-other v bs f other i;
        seq =
            stored-IsSeq v bs f i.after.words p i.after.generation s.begin s.ring.position
              (subst IsRing i.same_owner i.ring) v.at_start;
        read = λ into.
            get-stored v bs f i.after.words p i.after.generation s.begin s.ring.position into
              v.at_start
              (λ x le.
                i.elsewhere x
                  (omega (arith, slot-le (ring_after-IsRing v bs f) s.descriptor, v.apart))
                ∙ words_after-Holds v bs f x le);
      }
]

-- What `set` does to a sequence, and a `get` after it into a buffer.
pub record Sets (s : SeqInner) (bs into : List ℕ) : Type 0 where
  pub after : SeqInner
  pub returns : set s bs ≡ done (ok tt, after)
  pub seq : IsSeq after
  pub read : get after into ≡ done (ok (length bs), bs)

-- On a well-formed sequence, `set` of a value of at most half the buffer mask and at most 256 bytes,
-- whose length is no multiple of four, succeeds and leaves a well-formed sequence, and a `get` into a
-- buffer of that length gives the length and the bytes of the value.
pub set-Sets :
    (s : SeqInner) (bs into : List ℕ)
    → IsSeq s
    → Fits s bs
    → length bs % 4 ≢ 0
    → length into ≡ length bs
    → Sets s bs into
set-Sets s bs into v f ne e =
    let left = set-Leaves s bs v f in
    record {
      after = left.after;
      returns = left.returns;
      seq = left.seq;
      read = left.read into e ne;
    }

-- What a sequence opened anew on the same mapping restores after `set`.
pub record SetRestores (s : SeqInner) (bs into : List ℕ) : Type 0 where
  pub after : SeqInner
  pub returns : set s bs ≡ done (ok tt, after)
  pub restores :
      (p g b l d : ℕ)
      → (found : SeqInner) × (seq_restore (record after {
        ring = record (after.ring) { position = p; generation = g };
        begin = b;
        len = l;
        descriptor = d;
      })
          ≡ done (ok (length bs), found))
        × (get found into ≡ done (ok (length bs), bs))

-- After the first `set` of a value of at most half the buffer mask and at most 256 bytes, whose length
-- is no multiple of four, on a well-formed sequence whose ring has no active descriptor but possibly
-- the one at its position, a sequence opened anew on the same mapping restores the length of the
-- value, and a `get` into a buffer of that length gives the value.
pub set-SetRestores :
    (s : SeqInner) (bs into : List ℕ)
    → IsSeq s
    → Fits s bs
    → length bs % 4 ≢ 0
    → length into ≡ length bs
    → s.ring.position ≡ s.descriptor
    → ((j : ℕ)
        → j ≤ s.ring.layout.index_descriptors_mask
        → j ≢ slot s.ring s.ring.position
        → ¬ (IsActive s.ring.words j))
    → SetRestores s bs into
set-SetRestores s bs into v f ne e same others = record {
  after =
      stored v bs f (words_after v bs f) ((s.ring.position + 1) % 2 ^ 32) (pushed v bs f).generation
        s.begin s.ring.position;
  returns = set-same v bs f same;
  restores = λ p g b l d.
      let r = restore-stored v bs f p g b l d others in
      (
        stored v bs f (words_after v bs f) (slot s.ring s.ring.position) r.0 0 d,
        r.1,
        get-stored v bs f (words_after v bs f) (slot s.ring s.ring.position) r.0 0 d into refl
            (words_after-Holds v bs f) e ne,
      );
}

-- On a well-formed sequence with a buffer of at least four bytes and a value of four, `get` into four bytes
-- reads nothing: it answers 4, and the four bytes are as they were.
pub get_four :
    (s : SeqInner) (into : List ℕ)
    → IsSeq s
    → s.len ≡ 4
    → 3 ≤ s.layout.buffer_mask
    → length into ≡ 4
    → get s into ≡ done (ok 4, into)
unfolding get get_from finish_get data_slice
get_four s (x ∷ y ∷ z ∷ w ∷ []) v four mask e =
    let count : s.ring.layout.tail - s.layout.data_offset ≡ 64 = omega (arith, v.data_end) in
    let start : s.begin + 0 ≡ 0 = omega (arith, v.at_start) in
    let word =
      data_word_lem s.layout.data_offset 64 s.layout.buffer_mask v.power 0 (omega arith)
        (omega arith) in
    rw (
      le→leb s.ring.layout.tail s.ring.len v.inside,
      le→leb s.layout.data_offset s.ring.layout.tail (omega (arith, v.data_end)),
      four,
      start,
      count,
      word,
    )
get_four s [] v four mask e = absurd (omega arith)
get_four s into v four mask e = absurd (omega arith)
