-- ===== src/State/Ring/Invalidate.antt =====
-- `invalidate` of shm-state/src/ring.rs; and the order in which `restore` sees pushed descriptors.
use shmfd.Prelude.{
  ℕ, ◌+◌, ◌-◌, ◌/◌, ◌%◌, ◌^◌, ◌≤◌, ◌≡◌, ◌≢◌, ◌⊎◌, ◌↔◌, refl, sym, ap, ◌∙◌, arith, bit_and, ◌==◌,
  not, Bool, true, done, inl, inr, some,
}
use native.Mathlib.Nat.{mod-eq_of_lt}
use native.Mathlib.Decide.{ℕ_discrete}
use shmfd.State.Ring.{RingMapped, Descriptor, push, invalidate, restore}
use shmfd.State.Ring.Marks.{
  IsRing, wrapped, slot, slot_address, bit_and-one, next_mark, marked_words,
  invalidate_inner-Marked,
}
use shmfd.State.Ring.Restore.{
  mark, IsActive, descriptor_at, Restored, nothing, newest, restore-Restored,
}
use shmfd.State.Ring.Push.{
  pushed_words, push-Pushed, pushed-IsRing, mark_elsewhere, descriptor_elsewhere, mark-pushed,
  descriptor_at-pushed, elsewhere,
}
use shmfd.State.Ring.Recombine.{IsDescriptor, set_word-fit, recombine_u64_lem}

-- What `invalidate` leaves of a slot: its answer says whether the slot was active, the slot is active
-- no more, no other word has changed, the owner keeps its position and its layout, and the ring is well
-- formed.
pub record Invalidates (r : RingMapped) (idx : ℕ) : Type 0 where
  pub was_valid : Bool
  pub after : RingMapped
  pub returns : invalidate r idx ≡ done (was_valid, after)
  pub answer : (was_valid ≡ true) ↔ IsActive r.words (slot r idx)
  pub inactive : ¬ (IsActive after.words (slot r idx))
  pub elsewhere : (a : ℕ) → a ≢ slot_address (slot r idx) → after.words a ≡ r.words a
  pub ring : IsRing after
  pub same_owner : after ≡ record r { words = after.words; generation = after.generation }

-- `invalidate` returns for every index of a well-formed ring: it answers whether the slot was active,
-- leaves the slot inactive, changes no word but the first of the slot's mark, keeps the position and
-- the layout, and leaves a well-formed ring.
pub invalidate-Invalidates : (r : RingMapped) (idx : ℕ) → IsRing r → Invalidates r idx
unfolding invalidate
invalidate-Invalidates r idx v =
    let m = invalidate_inner-Marked v idx in
    let t = slot_address (slot r idx) in
    let words' = marked_words v idx in
    let old = recombine_u64_lem r.words t (v.words_fit t) in
    let bit = bit_and-one (r.words t) in
    let here : words' t ≡ next_mark (r.words t) = ground arith in
    let new = recombine_u64_lem words' t (omega (arith, here)) in
    record {
      was_valid = not (bit_and (r.words t) 1 == 0);
      after = record r { words = words'; generation = m.generation };
      returns = rw m.returns;
      answer = (λ h. ground (arith, h, old, bit), λ h. ground (arith, h, old, bit));
      inactive = λ h. omega (arith, h, new, here);
      elsewhere = λ a ne. ground (arith, ne);
      ring = record {
        first = v.first;
        power = v.power;
        fits = v.fits;
        words_fit = set_word-fit r.words t (next_mark (r.words t)) v.words_fit (omega arith);
      };
      same_owner = refl;
    }

-- Two pushes on a ring opened on a mapping of zeros with more than one slot.
module _ (words : ℕ → ℕ) (len nr : ℕ) (zeros : (a : ℕ) → words a ≡ 0)
    (v : IsRing (wrapped words len nr)) (several : 2 ≤ nr) (d e : Descriptor)
    (w : IsDescriptor d) where
  first : RingMapped
  first = record (wrapped words len nr) {
    words = pushed_words v d;
    generation = (push-Pushed v d).generation;
    position = 1;
  }

  first-IsRing : IsRing first
  unfolding first
  first-IsRing = pushed-IsRing v d 1 (push-Pushed v d).generation

  zero_slot : 0 % (nr - 1 + 1) ≡ 0
  zero_slot = omega arith

  one_slot : 1 % (nr - 1 + 1) ≡ 1
  one_slot = mod-eq_of_lt {n = 1} {m = nr - 1 + 1} (omega arith)

  abbrev last_words : ℕ → ℕ
  last_words = pushed_words first-IsRing e

  mark_zero : mark last_words (0 % (nr - 1 + 1)) ≡ 3
  unfolding first
  mark_zero =
      mark_elsewhere first-IsRing e (0 % (nr - 1 + 1)) (omega (arith, zero_slot, one_slot))
      ∙ mark-pushed v d
      ∙ omega (
        arith,
        zeros (slot_address (0 % (nr - 1 + 1))),
        zeros (slot_address (0 % (nr - 1 + 1)) + 1),
      )

  mark_one : mark last_words (1 % (nr - 1 + 1)) ≡ 3
  unfolding first
  mark_one =
      let a = slot_address (1 % (nr - 1 + 1)) in
      mark-pushed first-IsRing e
      ∙ omega (
        arith,
        elsewhere v d a (inr (omega (arith, zero_slot, one_slot))),
        elsewhere v d (a + 1) (inr (omega (arith, zero_slot, one_slot))),
        zeros a,
        zeros (a + 1),
      )

  -- A slot that is neither of the first two is inactive.
  active_slots : (i : ℕ) → IsActive last_words i → (i ≡ 0) ⊎ (i ≡ 1)
  unfolding first
  active_slots i act = elim (ℕ_discrete i 0) [
    | yes same ↦ inl same
    | no ne ↦ elim (ℕ_discrete i 1) [
      | yes same ↦ inr same
      | no ne' ↦ absurd (
          omega (
            arith,
            act,
            mark_elsewhere first-IsRing e i (omega (arith, one_slot)),
            mark_elsewhere v d i (omega (arith, zero_slot)),
            recombine_u64_lem words (slot_address i) (v.words_fit (slot_address i)),
            zeros (slot_address i),
            zeros (slot_address i + 1),
          ))
    ]
  ]

  abbrev second : RingMapped
  second = record first {
    words = last_words;
    generation = (push-Pushed first-IsRing e).generation;
    position = 2;
  }

  zero_slot_descriptor : descriptor_at last_words 0 ≡ d
  unfolding first
  zero_slot_descriptor =
      descriptor_elsewhere first-IsRing e 0 (omega (arith, one_slot))
      ∙ ap (descriptor_at (pushed_words v d)) (sym zero_slot)
      ∙ descriptor_at-pushed v d w

  restore-second :
      (p g : ℕ)
      → (g' : ℕ) × (restore (record second { position = p; generation = g })
          ≡ done (some d, record second { position = 0; generation = g' }))
  unfolding first
  restore-second p g = go (
      restore-Restored (record second { position = p; generation = g })
        (pushed-IsRing first-IsRing e p g))
    where
      zero_mark : mark last_words 0 ≡ 3
      zero_mark = ap (mark last_words) (sym zero_slot) ∙ mark_zero

      one_mark : mark last_words 1 ≡ 3
      one_mark = ap (mark last_words) (sym one_slot) ∙ mark_one

      Answer : Type 0
      Answer =
          (g' : ℕ) × (restore (record second { position = p; generation = g })
            ≡ done (some d, record second { position = 0; generation = g' }))

      at_zero :
          (i : ℕ)
          → i ≡ 0
          → restore (record second { position = p; generation = g })
            ≡ done (
              some (descriptor_at last_words i),
              record second { position = i; generation = mark last_words i / 2 ^ 32 },
            )
          → Answer
      at_zero i same found = (
        mark last_words 0 / 2 ^ 32,
        found
            ∙ ap
                (λ (k : ℕ). done (
                  some (descriptor_at last_words k),
                  record second { position = k; generation = mark last_words k / 2 ^ 32 },
                ))
                same
            ∙ ap
                (λ (x : Descriptor).
                  done (
                    some x,
                    record second { position = 0; generation = mark last_words 0 / 2 ^ 32 },
                  ))
                zero_slot_descriptor,
      )

      go : Restored (record second { position = p; generation = g }) → Answer
      go (nothing none_active found) =
          absurd (none_active 0 (omega arith) (omega (arith, zero_mark)))
      go (newest i le act best earlier found) = elim (active_slots i act) [
        | inl same ↦ at_zero i same found
        | inr same ↦ absurd (
            omega (
              arith,
              earlier 0 (omega arith) (omega (arith, zero_mark)),
              zero_mark,
              one_mark,
              ap (mark last_words) same,
            ))
      ]

-- Restoring does not find the last of two pushed descriptors: on a mapping of zeros with more than
-- one slot, two pushes return the indices 0 and 1, and a ring opened anew on the words after them
-- restores the first of the two descriptors, if its fields are of 64 bits.
pub restore-push-push :
    (words : ℕ → ℕ) (len nr : ℕ) (d e : Descriptor)
    → ((a : ℕ) → words a ≡ 0)
    → IsRing (wrapped words len nr)
    → 2 ≤ nr
    → IsDescriptor d
    → (one two : RingMapped) × (push (wrapped words len nr) d ≡ done (0, one))
      × (push one e ≡ done (1, two))
      × ((p g : ℕ)
          → (g' : ℕ) × (restore (record two { position = p; generation = g })
              ≡ done (some d, record two { position = 0; generation = g' })))
unfolding first
restore-push-push words len nr d e zeros v several w = (
  first words len nr zeros v several d e w,
  second words len nr zeros v several d e w,
  (push-Pushed v d).returns,
  (push-Pushed (first-IsRing words len nr zeros v several d e w) e).returns,
  restore-second words len nr zeros v several d e w,
)
