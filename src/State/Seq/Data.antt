-- ===== src/State/Seq/Data.antt =====
-- The words that `set` stores and `get` reads, shm-state/src/seq.rs.
use shmfd.Prelude.{
  ℕ, ◌+◌, ◌-◌, ◌*◌, ◌/◌, ◌%◌, ◌^◌, ◌≤◌, ◌<◌, ◌≡◌, ◌≢◌, refl, sym, ap, ◌∙◌, arith, bit_and, done,
  List, [], ◌∷◌, ◌++◌, length, lt→ltb,
}
use native.Mathlib.Nat.{mod-eq_of_lt}
use shmfd.Prelude.Words.{IsPowerOfTwo, bit_and-mask_suc}
use shmfd.Snapshot.Ring.Stream.{AllBytes}
use shmfd.State.Ring.{set_word}
use shmfd.State.Seq.{
  SeqInner, from_ne_bytes, to_ne_bytes, data_word, set_from, finish_get, get_from,
}

-- The words with the bytes stored from word `a` on, four to a word, the last filled up with zeros.
unfoldable pub fill : (ℕ → ℕ) → ℕ → List ℕ → ℕ → ℕ
fill words t [] = words
fill words t (a ∷ []) = set_word words t (from_ne_bytes a 0 0 0)
fill words t (a ∷ b ∷ []) = set_word words t (from_ne_bytes a b 0 0)
fill words t (a ∷ b ∷ c ∷ []) = set_word words t (from_ne_bytes a b c 0)
fill words t (a ∷ b ∷ c ∷ d ∷ rest) = fill (set_word words t (from_ne_bytes a b c d)) (t + 1) rest

pub fill-below : (words : ℕ → ℕ) (t : ℕ) (bs : List ℕ) (x : ℕ) → x < t → fill words t bs x ≡ words x
unfolding fill
fill-below words t [] x lt = refl
fill-below words t (a ∷ []) x lt = ground arith
fill-below words t (a ∷ b ∷ []) x lt = ground arith
fill-below words t (a ∷ b ∷ c ∷ []) x lt = ground arith
fill-below words t (a ∷ b ∷ c ∷ d ∷ rest) x lt =
    fill-below (set_word words t (from_ne_bytes a b c d)) (t + 1) rest x (omega arith)
    ∙ ground arith

pub fill-above :
    (words : ℕ → ℕ) (t : ℕ) (bs : List ℕ) (x : ℕ)
    → 4 * t + length bs ≤ 4 * x
    → fill words t bs x ≡ words x
unfolding fill
fill-above words t [] x lt = refl
fill-above words t (a ∷ []) x lt = ground arith
fill-above words t (a ∷ b ∷ []) x lt = ground arith
fill-above words t (a ∷ b ∷ c ∷ []) x lt = ground arith
fill-above words t (a ∷ b ∷ c ∷ d ∷ rest) x lt =
    fill-above (set_word words t (from_ne_bytes a b c d)) (t + 1) rest x (omega arith)
    ∙ ground arith

pub fill-fit :
    (words : ℕ → ℕ) (t : ℕ) (bs : List ℕ)
    → ((x : ℕ) → words x < 2 ^ 32)
    → AllBytes bs
    → (x : ℕ) → fill words t bs x < 2 ^ 32
unfolding fill
fill-fit words t [] fit all x = fit x
fill-fit words t (a ∷ []) fit all x = ground (arith, fit x)
fill-fit words t (a ∷ b ∷ []) fit all x = ground (arith, fit x)
fill-fit words t (a ∷ b ∷ c ∷ []) fit all x = ground (arith, fit x)
fill-fit words t (a ∷ b ∷ c ∷ d ∷ rest) fit all x =
    fill-fit (set_word words t (from_ne_bytes a b c d)) (t + 1) rest (λ y. ground (arith, fit y))
      all.1.1.1.1 x

to_ne_bytes-from_ne_bytes :
    (a b c d : ℕ)
    → a < 256
    → b < 256
    → c < 256
    → d < 256
    → to_ne_bytes (from_ne_bytes a b c d) ≡ a ∷ b ∷ c ∷ d ∷ []
to_ne_bytes-from_ne_bytes a b c d la lb lc ld =
    let w = from_ne_bytes a b c d in
    let e0 : w % 256 ≡ a = omega arith in
    let e1 : w / 256 % 256 ≡ b = omega arith in
    let e2 : w / 65536 % 256 ≡ c = omega arith in
    let e3 : w / 16777216 % 256 ≡ d = omega arith in rw (e0, e1, e2, e3) refl

-- Positions below the mask are not wrapped.
module _ (base count mask : ℕ) (power : IsPowerOfTwo (mask + 1)) where
  pub data_word_lem :
      (k : ℕ) → 4 * k ≤ mask → k < count → data_word base count mask (4 * k) ≡ done (base + k)
  unfolding data_word
  data_word_lem k le lt =
      let e : bit_and (4 * k) mask ≡ 4 * k =
        bit_and-mask_suc (4 * k) mask power
        ∙ mod-eq_of_lt {n = 4 * k} {m = mask + 1} (omega arith) in
      let quarter : 4 * k / 4 ≡ k = omega arith in rw (e, quarter, lt→ltb k count lt)

  pub set_from-fill :
      (words : ℕ → ℕ) (k : ℕ) (bs : List ℕ)
      → 4 * k + length bs ≤ mask + 1
      → 4 * k + length bs ≤ 4 * count
      → mask < 2 ^ 32
      → set_from base count mask words (4 * k) bs ≡ done (fill words (base + k) bs)
  unfolding set_from fill
  set_from-fill words k [] le room small = refl
  set_from-fill words k (a ∷ []) le room small = rw (data_word_lem k (omega arith) (omega arith))
  set_from-fill words k (a ∷ b ∷ []) le room small =
      rw (data_word_lem k (omega arith) (omega arith))
  set_from-fill words k (a ∷ b ∷ c ∷ []) le room small =
      rw (data_word_lem k (omega arith) (omega arith))
  set_from-fill words k (a ∷ b ∷ c ∷ d ∷ rest) le room small =
      let next : 4 * k + 4 ≡ 4 * (k + 1) = omega arith in
      let address : base + (k + 1) ≡ base + k + 1 = omega arith in
      rw
        (
          data_word_lem k (omega arith) (omega arith),
          lt→ltb (4 * k + 4) (2 ^ 64) (omega arith),
          next,
        )
        (set_from-fill (set_word words (base + k) (from_ne_bytes a b c d)) (k + 1) rest
            (omega arith) (omega arith) small
          ∙ ap (λ (t : ℕ). done (fill (set_word words (base + k) (from_ne_bytes a b c d)) t rest))
              address)

-- Reading back, four bytes at a time, a value whose length is no multiple of four.
module _ (s : SeqInner) (base count : ℕ) (power : IsPowerOfTwo (s.layout.buffer_mask + 1))
    (at_start : s.begin ≡ 0) (small : s.layout.buffer_mask < 2 ^ 32) where
  word_at :
      (k : ℕ)
      → 4 * k ≤ s.layout.buffer_mask
      → k < count
      → data_word base count s.layout.buffer_mask (s.begin + 4 * k) ≡ done (base + k)
  word_at k le lt =
      let e : s.begin + 4 * k ≡ 4 * k = omega arith in
      rw e (data_word_lem base count s.layout.buffer_mask power k le lt)

  -- The last chunk, of one to three bytes.
  finish_get-fill :
      (k : ℕ) (bs into : List ℕ) (words : ℕ → ℕ)
      → length into ≡ length bs
      → length bs < 4
      → length bs ≢ 0
      → 4 * k + length bs ≡ s.len
      → s.len ≤ s.layout.buffer_mask + 1
      → s.len ≤ 4 * count
      → AllBytes bs
      → s.ring.words (base + k) ≡ fill words (base + k) bs (base + k)
      → finish_get s base count (4 * k) into ≡ done bs
  unfolding finish_get fill
  finish_get-fill k [] into words e lt ne l le room all same = absurd (ne refl)
  finish_get-fill k (a ∷ []) (x ∷ []) words e lt ne l le room all same =
      ground (arith, word_at k (omega arith) (omega arith), same)
  finish_get-fill k (a ∷ b ∷ []) (x ∷ y ∷ []) words e lt ne l le room all same =
      ground (arith, word_at k (omega arith) (omega arith), same)
  finish_get-fill k (a ∷ b ∷ c ∷ []) (x ∷ y ∷ z ∷ []) words e lt ne l le room all same =
      ground (arith, word_at k (omega arith) (omega arith), same)
  finish_get-fill k (a ∷ b ∷ c ∷ d ∷ rest) into words e lt ne l le room all same =
      absurd (omega arith)
  finish_get-fill k bs into words e lt ne l le room all same = absurd (omega arith)

  pub get_from-fill :
      (k : ℕ) (bs into : List ℕ) (words : ℕ → ℕ)
      → length into ≡ length bs
      → length bs % 4 ≢ 0
      → 4 * k + length bs ≡ s.len
      → s.len ≤ s.layout.buffer_mask + 1
      → s.len ≤ 4 * count
      → AllBytes bs
      → ((x : ℕ) → base + k ≤ x → s.ring.words x ≡ fill words (base + k) bs x)
      → get_from s base count (4 * k) into ≡ done bs
  unfolding get_from
  get_from-fill k [] into words e ne l le room all same = absurd (ne refl)
  get_from-fill k (a ∷ []) (x ∷ []) words e ne l le room all same =
      finish_get-fill k (a ∷ []) (x ∷ []) words e (omega arith) (omega arith) l le room all
        (same (base + k) (omega arith))
  get_from-fill k (a ∷ b ∷ []) (x ∷ y ∷ []) words e ne l le room all same =
      finish_get-fill k (a ∷ b ∷ []) (x ∷ y ∷ []) words e (omega arith) (omega arith) l le room all
        (same (base + k) (omega arith))
  get_from-fill k (a ∷ b ∷ c ∷ []) (x ∷ y ∷ z ∷ []) words e ne l le room all same =
      finish_get-fill k (a ∷ b ∷ c ∷ []) (x ∷ y ∷ z ∷ []) words e (omega arith) (omega arith) l le
        room all (same (base + k) (omega arith))
  get_from-fill k (a ∷ b ∷ c ∷ d ∷ rest) (x ∷ y ∷ z ∷ w ∷ into) words e ne l le room all same =
      let stored : s.ring.words (base + k) ≡ from_ne_bytes a b c d =
        same (base + k) (omega arith)
        ∙ unfold fill in
          (fill-below words' (base + k + 1) rest (base + k) (omega arith) ∙ ground arith) in
      let address : base + (k + 1) ≡ base + k + 1 = omega arith in
      let later : (x : ℕ)
          → base + (k + 1) ≤ x
          → s.ring.words x ≡ fill words' (base + (k + 1)) rest x =
        λ x h. same x (omega arith) ∙ unfold fill in ap (λ t. fill words' t rest x) (sym address) in
      let further =
        get_from-fill (k + 1) rest into words' (omega arith) (omega arith) (omega arith) le room
          all.1.1.1.1 later in
      let next : 4 * k + 4 ≡ 4 * (k + 1) = omega arith in
      rw
        (
          lt→ltb 4 (s.len - 4 * k) (omega arith),
          lt→ltb (s.begin + 4 * k) (2 ^ 64) (omega arith),
          word_at k (omega arith) (omega arith),
          next,
          further,
          stored,
        )
        (ap (λ (ws : List ℕ). done (ws ++ rest))
          (to_ne_bytes-from_ne_bytes a b c d all.0 all.1.0 all.1.1.0 all.1.1.1.0))
    where
      words' : ℕ → ℕ
      words' = set_word words (base + k) (from_ne_bytes a b c d)
  get_from-fill k bs into words e ne l le room all same = absurd (omega arith)
