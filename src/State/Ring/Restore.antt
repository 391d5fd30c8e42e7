-- ===== src/State/Ring/Restore.antt =====
-- `restore` of shm-state/src/ring.rs: which descriptor it finds.
use native.Mathlib.Decide.{dec_lt}
use shmfd.Prelude.{
  ℕ, zero, suc, ◌+◌, ◌/◌, ◌%◌, ◌^◌, ◌≤◌, ◌<◌, ◌≡◌, refl, sym, subst, ap, ◌∙◌, arith, bit_and, ◌==◌,
  ltb, not, done, Bool-cases, inl, inr, some, none, ◌&&◌,
}
use shmfd.State.Ring.{RingMapped, Descriptor, recombine_u64, descriptor, restore_from, restore}
use shmfd.State.Ring.Marks.{IsRing, slot_address, descriptor_lem, bit_and-one}

-- The mark of a slot; it is active if its lowest bit is set.
abbrev pub mark : (ℕ → ℕ) → ℕ → ℕ
mark words i = recombine_u64 words (slot_address i)

abbrev pub IsActive : (ℕ → ℕ) → ℕ → Type 0
IsActive words i = mark words i % 2 ≡ 1

-- The descriptor of a slot.
abbrev pub descriptor_at : (ℕ → ℕ) → ℕ → Descriptor
descriptor_at words i = record {
  payload = recombine_u64 words (slot_address i + 2);
  start = recombine_u64 words (slot_address i + 4);
  finish = recombine_u64 words (slot_address i + 6);
}

-- The scan of the slots from `index` up to `end` was started with the mark `old` at hand: it ended
-- with the mark `new`, at `position`.
data Scan (words : ℕ → ℕ) (index end old position new : ℕ) (start : ℕ) : Type 0 where
  kept :
      position ≡ start
      → new ≡ old
      → ((j : ℕ) → index ≤ j → j < end → IsActive words j → mark words j ≤ old)
      → Scan words index end old position new start
  found :
      index ≤ position
      → position < end
      → IsActive words position
      → mark words position ≡ new
      → old < new
      → ((j : ℕ) → index ≤ j → j < end → IsActive words j → mark words j ≤ new)
      → ((j : ℕ) → index ≤ j → j < position → IsActive words j → mark words j < new)
      → Scan words index end old position new start

record Scanned (r : RingMapped) (left index start old : ℕ) : Type 0 where
  position : ℕ
  new : ℕ
  returns : restore_from r left index start old ≡ done (position, new)
  scan : Scan r.words index (index + left) old position new start

-- A fact about every slot from `index` on, from that about `index` and about those behind it.
from_index :
    (P : ℕ → Type 0) (index : ℕ)
    → P index
    → ((j : ℕ) → index + 1 ≤ j → P j)
    → (j : ℕ) → index ≤ j
    → P j
from_index P index here later j le = elim (dec_lt index j) [
  | yes p ↦ later j (omega arith)
  | no p ↦ let e : index ≡ j = omega arith in subst P e here
]

-- A slot that is not newer is passed over.
skip :
    {words : ℕ → ℕ} (index end old position new start : ℕ)
    → (IsActive words index → mark words index ≤ old)
    → Scan words (index + 1) end old position new start
    → Scan words index end old position new start
skip {words} index end old position new start here (kept p m below) = kept p m (
    from_index (λ j. j < end → IsActive words j → mark words j ≤ old) index (λ lt act. here act)
      below)
skip {words} index end old position new start here (found lo hi act m newer below earlier) =
    found (omega arith) hi act m newer
      (from_index (λ j. j < end → IsActive words j → mark words j ≤ new) index
        (λ lt a. omega (arith, here a)) below)
      (from_index (λ j. j < position → IsActive words j → mark words j < new) index
        (λ lt a. omega (arith, here a)) earlier)

-- A slot that is newer is taken, and the scan goes on from it.
take_over :
    {words : ℕ → ℕ} (index end old position new start : ℕ)
    → index < end
    → IsActive words index
    → old < mark words index
    → Scan words (index + 1) end (mark words index) position new index
    → Scan words index end old position new start
take_over {words} index end old position new start lt act newer (kept p m below) =
    found (omega arith) (omega arith) (subst (IsActive words) (sym p) act)
      (ap (mark words) p ∙ sym m) (omega arith)
      (from_index (λ j. j < end → IsActive words j → mark words j ≤ new) index (λ l a. omega arith)
        (λ j le l a. omega (arith, below j le l a)))
      (λ j le l a. absurd (omega arith))
take_over {words} index end old position new start lt act newer
      (found lo hi a m more below earlier) =
    found (omega arith) hi a m (omega arith)
      (from_index (λ j. j < end → IsActive words j → mark words j ≤ new) index (λ l b. omega arith)
        below)
      (from_index (λ j. j < position → IsActive words j → mark words j < new) index
        (λ l b. omega arith) earlier)

module _ {r : RingMapped} (v : IsRing r) where
  restore_from-Scanned :
      (left index start old : ℕ)
      → index + left ≤ r.layout.index_descriptors_mask + 1
      → Scanned r left index start old
  unfolding restore_from
  restore_from-Scanned zero index start old h = record {
    position = start;
    new = old;
    returns = refl;
    scan = kept refl refl (λ j le lt. absurd (omega arith));
  }
  restore_from-Scanned (suc left) index start old h =
      let ts = mark r.words index in
      let slot_found = descriptor_lem v index (omega arith) in
      let same_end : index + 1 + left ≡ index + suc left = omega arith in
      elim (Bool-cases (not (bit_and ts 1 == 0) && ltb old ts)) [
        | inl newer ↦
            let rest = restore_from-Scanned left (index + 1) index ts (omega arith) in
            let facts : (ts % 2 ≡ 1) × (old < ts) = ground (arith, newer, bit_and-one ts) in
            record {
              position = rest.position;
              new = rest.new;
              returns = rw (slot_found, newer) rest.returns;
              scan =
                  take_over index (index + suc left) old rest.position rest.new start (omega arith)
                    facts.0 facts.1
                    (subst (λ end. Scan r.words (index + 1) end ts rest.position rest.new index)
                      same_end rest.scan);
            }
        | inr older ↦
            let rest = restore_from-Scanned left (index + 1) start old (omega arith) in
            record {
              position = rest.position;
              new = rest.new;
              returns = rw (slot_found, older) rest.returns;
              scan =
                  skip index (index + suc left) old rest.position rest.new start
                    (λ act. ground (arith, older, bit_and-one ts))
                    (subst (λ end. Scan r.words (index + 1) end old rest.position rest.new start)
                      same_end rest.scan);
            }
      ]

-- What `restore` gives: nothing, and the ring as it was, if no slot is active; otherwise the
-- descriptor of an active slot whose mark no active slot exceeds, the first such slot. The position
-- is then that slot, and the generation the high half of its mark.
pub data Restored (r : RingMapped) : Type 0 where
  nothing :
      ((j : ℕ) → j ≤ r.layout.index_descriptors_mask → ¬ (IsActive r.words j))
      → restore r ≡ done (none, r)
      → Restored r
  newest :
      (i : ℕ)
      → i ≤ r.layout.index_descriptors_mask
      → IsActive r.words i
      → ((j : ℕ)
          → j ≤ r.layout.index_descriptors_mask
          → IsActive r.words j
          → mark r.words j ≤ mark r.words i)
      → ((j : ℕ) → j < i → IsActive r.words j → mark r.words j < mark r.words i)
      → restore r
        ≡ done (
          some (descriptor_at r.words i),
          record r { position = i; generation = mark r.words i / 2 ^ 32 },
        )
      → Restored r

restore-Scan :
    (r : RingMapped)
    → IsRing r
    → (position new : ℕ)
    → restore_from r (r.layout.index_descriptors_mask + 1) 0 r.position 0 ≡ done (position, new)
    → Scan r.words 0 (0 + (r.layout.index_descriptors_mask + 1)) 0 position new r.position
    → Restored r
unfolding restore
restore-Scan r v position new e (kept p m below) =
    nothing
      (λ j le act.
        absurd
          (omega (arith, below j (omega arith) (omega arith) act, act, mod-zero (mark r.words j))))
      (rw (e, p, m))
  where
    mod-zero : (n : ℕ) → n ≤ 0 → n % 2 ≡ 0
    mod-zero n h = omega arith
restore-Scan r v position new e (found lo hi act m more below earlier) =
    newest position (omega arith) act
      (λ j le a. omega (arith, below j (omega arith) (omega arith) a))
      (λ j lt a. omega (arith, earlier j (omega arith) lt a)) (ground (arith, e, moved, m))
  where
    moved : descriptor (record r { position = position }) position ≡ done (slot_address position)
    moved =
        descriptor_lem {r = record r { position = position }}
          (record { first = v.first; power = v.power; fits = v.fits; words_fit = v.words_fit })
          position (omega arith)

-- `restore` returns on every well-formed ring: nothing, and the ring as it was, if no slot is active;
-- otherwise the descriptor of the active slot with the largest mark, the first of them, with the
-- position at that slot and the generation at the high half of its mark.
pub restore-Restored : (r : RingMapped) → IsRing r → Restored r
restore-Restored r v =
    let s =
      restore_from-Scanned v (r.layout.index_descriptors_mask + 1) 0 r.position 0 (omega arith) in
    restore-Scan r v s.position s.new s.returns s.scan
