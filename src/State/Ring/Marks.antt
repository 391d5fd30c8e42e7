-- ===== src/State/Ring/Marks.antt =====
-- Marks of descriptors, shm-state/src/ring.rs: when the ring is well formed, and what `push` and
-- `invalidate` do to the words of the mapping.
use shmfd.Prelude.{
  ℕ, zero, suc, ◌+◌, ◌-◌, ◌*◌, ◌/◌, ◌%◌, ◌^◌, ◌≤◌, ◌<◌, ◌≡◌, refl, sym, ap, ◌∙◌, arith, max,
  bit_and, bit_or, ltb, if◌then◌else◌, Run, done, Bool-cases, subst, inl, inr, lt→ltb, le→leb, ok,
}
use shmfd.Prelude.Bits.{bit_or_split, bit_or-zero, bit_and-ones}
use shmfd.Prelude.Words.{
  IsPowerOfTwo, IsPowerOfTwo-pos, is_power_of_two, is_power_of_two-IsPowerOfTwo, bit_and-mask_suc,
}
use shmfd.State.Ring.{RingMapped, set_word, layout_for, wrap, descriptor, invalidate_inner}

bit_or-one_bit : (b : ℕ) → b < 2 → bit_or b 1 ≡ 1
bit_or-one_bit zero h = refl
bit_or-one_bit (suc zero) h = refl
bit_or-one_bit (suc (suc b)) h = absurd (omega arith)

pub bit_or-one : (x : ℕ) → bit_or x 1 ≡ x / 2 * 2 + 1
bit_or-one x =
    ground (arith, bit_or_split 1 (x / 2) (x % 2) 0 1, bit_or-zero (x / 2), bit_or-one_bit (x % 2))

pub bit_and-one : (x : ℕ) → bit_and x 1 ≡ x % 2
bit_and-one x = bit_and-ones 1 x ∙ refl

-- A ring as `wrap` makes it, over words of 32 bits.
pub record IsRing (r : RingMapped) : Type 0 where
  pub first : r.layout.index_descriptors ≡ 64
  pub power : IsPowerOfTwo (r.layout.index_descriptors_mask + 1)
  pub fits : 64 + 8 * (r.layout.index_descriptors_mask + 1) ≤ r.len
  pub words_fit : (a : ℕ) → r.words a < 2 ^ 32

-- The slot and the address of an index of the ring.
abbrev pub slot : RingMapped → ℕ → ℕ
slot r idx = idx % (r.layout.index_descriptors_mask + 1)

abbrev pub slot_address : ℕ → ℕ
slot_address i = 64 + 8 * i

-- The ring that `wrap` makes.
abbrev pub wrapped : (ℕ → ℕ) → ℕ → ℕ → RingMapped
wrapped words len nr = record {
  words = words;
  len = len;
  position = 0;
  generation = 0;
  layout = record {
    index_descriptors = 64;
    index_descriptors_mask = nr - 1;
    tail = 4 * len / 4 - 64 - nr * 8;
  };
}

-- The ring that `wrap` makes of a mapping of 32-bit words is well formed: the number of descriptors is a
-- power of two, and they lie in the mapping behind its first 64 words.
pub wrap-IsRing :
    (words : ℕ → ℕ) (len nr : ℕ) {r : RingMapped}
    → ((a : ℕ) → words a < 2 ^ 32)
    → wrap words len nr ≡ ok r
    → IsRing r
unfolding wrap layout_for
wrap-IsRing words len nr {r} fit e = elim (Bool-cases (is_power_of_two nr)) [
  | inr bad ↦ absurd (ground (arith, e, bad))
  | inl good ↦
      let p = is_power_of_two-IsPowerOfTwo nr good in
      let pos = IsPowerOfTwo-pos p in
      let same : nr - 1 + 1 ≡ nr = omega (arith, pos) in
      let room : (64 + 8 * nr ≤ len) × (r ≡ wrapped words len nr) = ground (arith, good, pos) in
      subst (λ k. IsRing k) (sym room.1)
        (record {
          first = refl;
          power = rw same p;
          fits = omega (arith, room.0, same);
          words_fit = fit;
        })
]

module _ {r : RingMapped} (v : IsRing r) where
  pub descriptor_lem :
      (i : ℕ) → i ≤ r.layout.index_descriptors_mask → descriptor r i ≡ done (slot_address i)
  unfolding descriptor
  descriptor_lem i h = rw (
    v.first,
    le→leb 64 r.len (omega (arith, v.fits)),
    lt→ltb i ((r.len - 64) / 8) (omega (arith, v.fits)),
  )

  pub index_lem : (idx : ℕ) → bit_and idx r.layout.index_descriptors_mask ≡ slot r idx
  index_lem idx = bit_and-mask_suc idx r.layout.index_descriptors_mask v.power

  pub slot-le : (idx : ℕ) → slot r idx ≤ r.layout.index_descriptors_mask
  slot-le idx = omega (arith, IsPowerOfTwo-pos v.power)

-- `invalidate_inner` leaves a mark whose lowest bit is 0: an even mark stands for a descriptor that
-- the producer owns.
abbrev pub next_mark : ℕ → ℕ
next_mark old = (old / 2 * 2 + 2) % 2 ^ 32

module _ {r : RingMapped} (v : IsRing r) (idx : ℕ) where
  abbrev pub target : ℕ
  target = slot_address (slot r idx)

  abbrev pub marked_words : ℕ → ℕ
  marked_words = set_word r.words target (next_mark (r.words target))

  pub record Marked (result : Run (RingMapped × ℕ × ℕ)) : Type 0 where
    pub generation : ℕ
    pub returns :
        result
        ≡ done (
          record r { words = marked_words; generation = generation },
          r.words target,
          next_mark (r.words target),
        )

  pub invalidate_inner-Marked : Marked (invalidate_inner r idx)
  unfolding invalidate_inner
  invalidate_inner-Marked =
      let old = r.words target in
      let new = next_mark old in
      let found : descriptor r (bit_and idx r.layout.index_descriptors_mask) ≡ done target =
        ap (descriptor r) (index_lem v idx) ∙ descriptor_lem v (slot r idx) (slot-le v idx) in
      record {
        generation = if ltb new old then max r.generation (new + 1) else r.generation;
        returns = ground (arith, found, bit_or-one old, v.words_fit target);
      }
