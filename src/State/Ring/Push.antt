-- ===== src/State/Ring/Push.antt =====
-- `push` and `invalidate` of shm-state/src/ring.rs, and what a later `restore` makes of them.
use shmfd.Prelude.{
  ℕ, ◌+◌, ◌*◌, ◌/◌, ◌%◌, ◌^◌, ◌≤◌, ◌<◌, ◌≡◌, ◌≢◌, ◌⊎◌, refl, sym, subst, ap, ap₂, ◌∙◌, arith,
  bit_or, done, some,
}
use native.Mathlib.Decide.{ℕ_discrete}
use shmfd.State.Ring.{RingMapped, Descriptor, set_word, store_u64, recombine_u64, push, restore}
use shmfd.State.Ring.Marks.{
  IsRing, slot, slot_address, slot-le, descriptor_lem, index_lem, bit_or-one, next_mark, target,
  marked_words, invalidate_inner-Marked,
}
use shmfd.State.Ring.Restore.{
  mark, IsActive, descriptor_at, Restored, nothing, newest, restore-Restored,
}
use shmfd.State.Ring.Recombine.{
  recombine_u64_lem, recombined, set_word-fit, store_u64-fit, IsDescriptor,
}

module _ {r : RingMapped} (v : IsRing r) (d : Descriptor) where
  abbrev place : ℕ
  place = target v r.position

  abbrev pub pushed_words : ℕ → ℕ
  pushed_words =
      set_word
        (store_u64
          (store_u64 (store_u64 (marked_words v r.position) (place + 2) d.payload) (place + 4)
            d.start)
          (place + 6) d.finish)
        place (next_mark (r.words place) + 1)

  pub record Pushed : Type 0 where
    pub generation : ℕ
    pub returns :
        push r d
        ≡ done (
          r.position,
          record r {
            words = pushed_words;
            generation = generation;
            position = (r.position + 1) % 2 ^ 32;
          },
        )

  marked-IsRing : (g : ℕ) → IsRing (record r { words = marked_words v r.position; generation = g })
  marked-IsRing g = record {
    first = v.first;
    power = v.power;
    fits = v.fits;
    words_fit = set_word-fit r.words place (next_mark (r.words place)) v.words_fit (omega arith);
  }

  pub push-Pushed : Pushed
  unfolding push
  push-Pushed =
      let m = invalidate_inner-Marked v r.position in
      let even : bit_or (next_mark (r.words place)) 1 ≡ next_mark (r.words place) + 1 =
        bit_or-one (next_mark (r.words place)) ∙ omega arith in
      record {
        generation = m.generation;
        returns = rw (
          m.returns,
          index_lem v r.position,
          descriptor_lem (marked-IsRing m.generation) (slot r r.position) (slot-le v r.position),
          even,
        );
      }

  pub pushed-IsRing :
      (p g : ℕ) → IsRing (record r { words = pushed_words; position = p; generation = g })
  pushed-IsRing p g = record {
    first = v.first;
    power = v.power;
    fits = v.fits;
    words_fit =
        set_word-fit _ place (next_mark (r.words place) + 1)
          (store_u64-fit _ (place + 6) d.finish (
            store_u64-fit _ (place + 4) d.start
              (store_u64-fit _ (place + 2) d.payload (marked-IsRing 0).words_fit)))
          (omega arith);
  }

  -- The mark of the pushed slot is odd, and the marks of the others are as they were.
  pub pushed-IsActive : IsActive pushed_words (slot r r.position)
  pushed-IsActive =
      omega (
        arith,
        recombine_u64_lem pushed_words place ((pushed-IsRing 0 0).words_fit place),
        at_place,
      )
    where
      at_place : pushed_words place ≡ next_mark (r.words place) + 1
      at_place = ground arith

  pub elsewhere : (a : ℕ) → (a < place) ⊎ (place + 8 ≤ a) → pushed_words a ≡ r.words a
  elsewhere a out = ground (arith, out)

  recombine_elsewhere :
      (j k : ℕ)
      → j ≢ slot r r.position
      → k < 7
      → recombine_u64 pushed_words (slot_address j + k) ≡ recombine_u64 r.words (slot_address j + k)
  unfolding recombine_u64
  recombine_elsewhere j k ne lt =
      ap₂ bit_or (ap (λ (t : ℕ). t * 2 ^ 32) (elsewhere (slot_address j + k + 1) (omega arith)))
        (elsewhere (slot_address j + k) (omega arith))

  pub mark_elsewhere : (j : ℕ) → j ≢ slot r r.position → mark pushed_words j ≡ mark r.words j
  mark_elsewhere j ne =
      let e : slot_address j + 0 ≡ slot_address j = omega arith in
      subst (λ a. recombine_u64 pushed_words a ≡ recombine_u64 r.words a) e
        (recombine_elsewhere j 0 ne (omega arith))

  pub descriptor_elsewhere :
      (j : ℕ) → j ≢ slot r r.position → descriptor_at pushed_words j ≡ descriptor_at r.words j
  descriptor_elsewhere j ne = λ i. record {
    payload = recombine_elsewhere j 2 ne (omega arith) i;
    start = recombine_elsewhere j 4 ne (omega arith) i;
    finish = recombine_elsewhere j 6 ne (omega arith) i;
  }

  -- The second word of a mark is never written.
  pub mark-pushed :
      mark pushed_words (slot r r.position)
      ≡ r.words (place + 1) * 2 ^ 32 + next_mark (r.words place) + 1
  mark-pushed =
      omega (
        arith,
        recombine_u64_lem pushed_words place ((pushed-IsRing 0 0).words_fit place),
        low,
        high,
      )
    where
      low : pushed_words place ≡ next_mark (r.words place) + 1
      low = ground arith

      high : pushed_words (place + 1) ≡ r.words (place + 1)
      high = ground arith

  pub descriptor_at-pushed : IsDescriptor d → descriptor_at pushed_words (slot r r.position) ≡ d
  descriptor_at-pushed w = λ i. record {
    payload =
        recombined pushed_words (place + 2) d.payload (ground arith) (ground arith) w.payload_lt i;
    start = recombined pushed_words (place + 4) d.start (ground arith) (ground arith) w.start_lt i;
    finish =
        recombined pushed_words (place + 6) d.finish (ground arith) (ground arith) w.finish_lt i;
  }

  -- The slots but the pushed one are owned by the producer.
  abbrev pub OthersInactive : Type 0
  OthersInactive =
      (j : ℕ) → j ≤ r.layout.index_descriptors_mask → j ≢ slot r r.position → ¬ (IsActive r.words j)

  abbrev pub reopened : ℕ → ℕ → RingMapped
  reopened p g = record r { words = pushed_words; position = p; generation = g }

  pub restore-reopened :
      (p g : ℕ)
      → IsDescriptor d
      → OthersInactive
      → restore (reopened p g)
        ≡ done
            (some d, reopened (slot r r.position) (mark pushed_words (slot r r.position) / 2 ^ 32))
  restore-reopened p g w others = go (restore-Restored (reopened p g) (pushed-IsRing p g))
    where
      only :
          (i : ℕ)
          → i ≤ r.layout.index_descriptors_mask
          → IsActive pushed_words i
          → i ≡ slot r r.position
      only i le act = elim (ℕ_discrete i (slot r r.position)) [
        | yes same ↦ same
        | no ne ↦ absurd (others i le ne (ap (λ (t : ℕ). t % 2) (sym (mark_elsewhere i ne)) ∙ act))
      ]

      go :
          Restored (reopened p g)
          → restore (reopened p g)
            ≡ done (
              some d,
              reopened (slot r r.position) (mark pushed_words (slot r r.position) / 2 ^ 32),
            )
      go (nothing none_active e) =
          absurd (none_active (slot r r.position) (slot-le v r.position) pushed-IsActive)
      go (newest i le act best first e) =
          e
          ∙ ap
              (λ (k : ℕ).
                done
                  (some (descriptor_at pushed_words k), reopened k (mark pushed_words k / 2 ^ 32)))
              (only i le act)
          ∙ ap
              (λ (x : Descriptor). done (
                some x,
                reopened (slot r r.position) (mark pushed_words (slot r r.position) / 2 ^ 32),
              ))
              (descriptor_at-pushed w)

-- A push on a ring whose other slots are inactive, and what a restore finds afterwards, in a ring
-- opened anew on the same mapping.
pub record PushRestores (r : RingMapped) (d : Descriptor) : Type 0 where
  pub after : RingMapped
  pub returns : push r d ≡ done (r.position, after)
  pub advanced : after.position ≡ (r.position + 1) % 2 ^ 32
  pub ring : IsRing after
  pub restores :
      (p g : ℕ)
      → (g' : ℕ) × (restore (record after { position = p; generation = g })
          ≡ done (some d, record after { position = slot r r.position; generation = g' }))

-- On a well-formed ring whose other slots are inactive, a push of a descriptor of 64-bit fields returns
-- the position, advances it modulo 2 ^ 32 and leaves a well-formed ring; a ring opened anew on the same
-- words restores the pushed descriptor, and its position is the slot of the push.
pub push-PushRestores :
    (r : RingMapped) (d : Descriptor)
    → IsRing r
    → IsDescriptor d
    → ((j : ℕ)
        → j ≤ r.layout.index_descriptors_mask
        → j ≢ slot r r.position
        → ¬ (IsActive r.words j))
    → PushRestores r d
push-PushRestores r d v w others =
    let pushed = push-Pushed v d in
    record {
      after = record r {
        words = pushed_words v d;
        generation = pushed.generation;
        position = (r.position + 1) % 2 ^ 32;
      };
      returns = pushed.returns;
      advanced = refl;
      ring = pushed-IsRing v d ((r.position + 1) % 2 ^ 32) pushed.generation;
      restores = λ p g.
          (mark (pushed_words v d) (slot r r.position) / 2 ^ 32, restore-reopened v d p g w others);
    }
