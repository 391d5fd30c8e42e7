-- ===== src/Snapshot/Ring/Valid.antt =====
-- `iter_valid` of shm-snapshot/src/writer.rs: which entries it visits, and what a collector that
-- keeps them and one that drops some leave.
use shmfd.Prelude.{
  ℕ, zero, suc, ◌+◌, ◌-◌, ◌*◌, ◌≤◌, ◌<◌, ◌≡◌, ◌≢◌, refl, ap, ◌∙◌, arith, ◌==◌, ltb, if◌then◌else◌,
  Bool, true, Bool-cases, List, [], ◌∷◌, ◌++◌, select, min, inl, inr, sym, eq→==, ne→not-==,
}
use mathlib.Core.List.{append-nil, append_assoc}
use shmfd.Snapshot.Layout.{WriteHead, Snapshot, update}
use shmfd.Snapshot.Ring.Entries.{update-outside}
use shmfd.Snapshot.Ring.{iter_from, iter_valid, entry_address}

-- The entries with a length among the `n` from `idx` on, in the pages from `start` on.
module _ (start : ℕ) where
  unfoldable pub live : (ℕ → ℕ) → ℕ → ℕ → List Snapshot
  live words zero idx = []
  live words (suc n) idx =
      let rest = live words n (idx + 1) in
      let a = start * 512 + 2 * idx in
      if words (a + 1) == 0
      then rest
      else record { offset = words a; length = words (a + 1) } ∷ rest

  pub live-agree :
      (words words' : ℕ → ℕ) (n idx : ℕ)
      → ((a : ℕ) → start * 512 + 2 * idx ≤ a → words a ≡ words' a)
      → live words n idx ≡ live words' n idx
  unfolding live
  live-agree words words' zero idx same = refl
  live-agree words words' (suc n) idx same = rw (
    same (start * 512 + 2 * idx) (omega arith),
    same (start * 512 + 2 * idx + 1) (omega arith),
    live-agree words words' n (idx + 1) (λ a h. same a (omega arith)),
  )

-- The collector of `Head::valid_in_head`, over a list.
abbrev pub extend : List Snapshot → Snapshot → List Snapshot × Bool
extend into s = (into ++ (s ∷ []), true)

-- The collector of `Head::retain_in_head`.
abbrev pub retain_by : (Snapshot → Bool) → Unit {0} → Snapshot → Unit {0} × Bool
retain_by contains u s = (u, contains s)

unfoldable pub visited : ℕ → ℕ → ℕ → ℕ
visited max left idx = min left (max + 1 - idx)

visited-suc :
    (max left idx : ℕ) → idx ≤ max → visited max (suc left) idx ≡ suc (visited max left (idx + 1))
unfolding visited
visited-suc max left idx h = omega arith

visited_past : (max left idx : ℕ) → max < idx → visited max left idx ≡ 0
unfolding visited
visited_past max left idx h = omega arith

visited-zero : (max idx : ℕ) → visited max 0 idx ≡ 0
unfolding visited
visited-zero max idx = omega arith

abbrev entry_at : WriteHead → ℕ → Snapshot
entry_at h idx = record {
  offset = h.words (entry_address h idx);
  length = h.words (entry_address h idx + 1);
}

iter_from-extend :
    (max left idx : ℕ) (into : List Snapshot) (h : WriteHead)
    → iter_from extend max left idx into h
      ≡ (into ++ live h.sequence.start h.words (visited max left idx) idx, h)
unfolding iter_from live
iter_from-extend max zero idx into h = rw (visited-zero, append-nil)
iter_from-extend max (suc left) idx into h = elim (Bool-cases (ltb max idx)) [
  | inl past ↦ rw (past, visited_past max (suc left) idx (ground arith), append-nil)
  | inr here ↦ elim (Bool-cases (h.words (entry_address h idx + 1) == 0)) [
    | inl dead ↦
        rw (here, visited-suc max left idx (ground arith), dead)
          (iter_from-extend max left (idx + 1) into h)
    | inr alive ↦
        rw (here, visited-suc max left idx (ground arith), alive)
          (iter_from-extend max left (idx + 1) (into ++ (entry_at h idx ∷ [])) h
            ∙ ap (λ (l : List Snapshot). (l, h))
                (append_assoc into (entry_at h idx ∷ [])
                  (live h.sequence.start h.words (visited max left (idx + 1)) (idx + 1))))
  ]
]

-- What a retaining iteration leaves: it writes no word before its first entry, and the entries with
-- a length are those that it was told to keep.
record Retained (contains : Snapshot → Bool) (max left idx : ℕ) (h : WriteHead) : Type 0 where
  words : ℕ → ℕ
  returns : iter_from (retain_by contains) max left idx tt h ≡ (tt, record h { words = words })
  before : (a : ℕ) → a < h.sequence.start * 512 + 2 * idx → words a ≡ h.words a
  after : (a : ℕ) → h.sequence.start * 512 + 2 * (idx + left) ≤ a → words a ≡ h.words a
  kept :
      live h.sequence.start words (visited max left idx) idx
      ≡ select contains (live h.sequence.start h.words (visited max left idx) idx)

module _ (contains : Snapshot → Bool) (max : ℕ) where
  iter_from-Retained : (left idx : ℕ) (h : WriteHead) → Retained contains max left idx h
  unfolding iter_from live select
  iter_from-Retained zero idx h = record {
    words = h.words;
    returns = refl;
    before = λ a lt. refl;
    after = λ a le. refl;
    kept = rw visited-zero;
  }
  iter_from-Retained (suc left) idx h = elim (Bool-cases (ltb max idx)) [
    | inl past ↦ record {
      words = h.words;
      returns = rw past;
      before = λ a lt. refl;
      after = λ a le. refl;
      kept = rw (visited_past max (suc left) idx (ground arith));
    }
    | inr here ↦
        let count = visited-suc max left idx (ground arith) in
        let a = entry_address h idx in
        let same = iter_from-Retained left (idx + 1) h in
        elim (Bool-cases (h.words (a + 1) == 0)) [
          | inl dead ↦ record {
            words = same.words;
            returns = rw (here, dead) same.returns;
            before = λ x lt. same.before x (omega arith);
            after = λ x le. same.after x (omega arith);
            kept = rw (count, same.before (a + 1) (omega arith), dead) same.kept;
          }
          | inr alive ↦ elim (Bool-cases (contains (entry_at h idx))) [
            | inl keep ↦ record {
              words = same.words;
              returns = rw (here, alive, keep) same.returns;
              before = λ x lt. same.before x (omega arith);
              after = λ x le. same.after x (omega arith);
              kept = rw (
                count,
                same.before (a + 1) (omega arith),
                same.before a (omega arith),
                alive,
                keep,
                same.kept,
              );
            }
            | inr drop ↦
                let cleared = update h.words (a + 1) 0 in
                let rest = iter_from-Retained left (idx + 1) (record h { words = cleared }) in
                let gone : rest.words (a + 1) ≡ 0 =
                  rest.before (a + 1) (omega arith) ∙ ground arith in
                let dead : (rest.words (a + 1) == 0) ≡ true = eq→== (rest.words (a + 1)) 0 gone in
                record {
                  words = rest.words;
                  returns = rw (here, alive, drop) rest.returns;
                  before = λ x lt. rest.before x (omega arith) ∙ ground arith;
                  after = λ x le. rest.after x (omega arith) ∙ ground arith;
                  kept =
                      rw
                        (
                          count,
                          dead,
                          alive,
                          drop,
                          live-agree h.sequence.start h.words cleared (visited max left (idx + 1))
                              (idx + 1)
                              (λ x le. sym (update-outside h.words (a + 1) 0 x (omega arith))),
                        )
                        rest.kept;
                }
          ]
        ]
  ]

-- The valid entries of a head, in iteration order.
abbrev pub valid_entries : WriteHead → List Snapshot
valid_entries h =
    live h.sequence.start h.words (visited h.meta.entry_mask (256 * h.sequence.len) 0) 0

-- Iterating with a collector that keeps every entry finds, on every head, the valid entries in their
-- order, behind what was collected before, and leaves the head as it was.
pub iter_valid-extend :
    (into : List Snapshot) (h : WriteHead) → iter_valid extend into h ≡ (into ++ valid_entries h, h)
unfolding iter_valid
iter_valid-extend into h = iter_from-extend h.meta.entry_mask (256 * h.sequence.len) 0 into h

-- A head after a retaining iteration.
pub record Retains (contains : Snapshot → Bool) (h : WriteHead) : Type 0 where
  pub words : ℕ → ℕ
  pub returns : iter_valid (retain_by contains) tt h ≡ (tt, record h { words = words })
  pub kept : valid_entries (record h { words = words }) ≡ select contains (valid_entries h)
  pub below : (a : ℕ) → a < h.sequence.start * 512 → words a ≡ h.words a
  pub above : (a : ℕ) → (h.sequence.start + h.sequence.len) * 512 ≤ a → words a ≡ h.words a

-- Iterating with a collector that keeps some entries returns on every head; it leaves valid exactly the
-- entries that were valid and that it keeps, in their order, and changes no word outside the pages of
-- the entry ring.
pub iter_valid-Retains : (contains : Snapshot → Bool) (h : WriteHead) → Retains contains h
unfolding iter_valid
iter_valid-Retains contains h =
    let r = iter_from-Retained contains h.meta.entry_mask (256 * h.sequence.len) 0 h in
    record {
      words = r.words;
      returns = r.returns;
      kept = r.kept;
      below = λ a lt. r.before a (omega arith);
      above = λ a le. r.after a (omega arith);
    }

-- An entry with a length, among the visited ones, is listed.
pub live-holds :
    (start : ℕ) (words : ℕ → ℕ) (n idx k : ℕ)
    → k < n
    → words (start * 512 + 2 * (idx + k) + 1) ≢ 0
    → (front back : List Snapshot) × (live start words n idx
        ≡ front
          ++ (record {
            offset = words (start * 512 + 2 * (idx + k));
            length = words (start * 512 + 2 * (idx + k) + 1);
          }
              ∷ back))
unfolding live
live-holds start words zero idx k lt ne = absurd (omega arith)
live-holds start words (suc n) idx zero lt ne =
    let here : idx + 0 ≡ idx = omega arith in
    let ne' = rw here at ne in
    (
      [],
      live start words n (idx + 1),
      rw (here, ne→not-== (words (start * 512 + 2 * idx + 1)) 0 ne'),
    )
live-holds start words (suc n) idx (suc k) lt ne =
    let next : idx + suc k ≡ idx + 1 + k = omega arith in
    let (front, back, e) = live-holds start words n (idx + 1) k (omega arith) (rw next at ne) in
    elim (Bool-cases (words (start * 512 + 2 * idx + 1) == 0)) [
      | inl dead ↦ (front, back, rw (dead, next) e)
      | inr alive ↦ (
        record {
          offset = words (start * 512 + 2 * idx);
          length = words (start * 512 + 2 * idx + 1);
        }
            ∷ front,
        back,
        rw (alive, next, e),
      )
    ]

pub lt-visited : (max left k : ℕ) → k < left → k ≤ max → k < visited max left 0
unfolding visited
lt-visited max left k h le = omega arith
