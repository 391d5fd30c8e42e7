-- ===== src/Snapshot/Ring/Stream.antt =====
-- Runs of bytes in a ring, by stream offset: what the loops of `copy_from_slice` and `read` of
-- shm-snapshot/src/writer.rs come to.
use shmfd.Prelude.Bytes.{get_byte}
use shmfd.Prelude.{
  take, min, ℕ, zero, suc, ◌+◌, ◌-◌, ◌*◌, ◌/◌, ◌%◌, ◌≤◌, ◌<◌, ◌≡◌, ◌≢◌, ◌⊎◌, refl, ap, ap₂, ◌∙◌,
  arith, List, [], ◌∷◌, length, inl, inr, sym,
}
use native.Mathlib.Nat.{mod-lt, mod-add-mod, mod-eq_of_lt, mod-eq-sub-mod}
use native.Mathlib.Decide.{dec_lt}
use shmfd.Snapshot.Ring.Bytes.{WordsFit, byte_at, put_byte, byte_at-put_byte, put_byte-WordsFit}

abbrev pub AllBytes : List ℕ → Type 0
AllBytes [] = Unit
AllBytes (b ∷ bs) = (b < 256) × AllBytes bs

-- A ring of `m` bytes from the address `base` on: a store of bytes from a stream offset on, and the
-- `n` bytes from one on.
module _ (base m : ℕ) where
  unfoldable pub put_bytes : (ℕ → ℕ) → ℕ → List ℕ → ℕ → ℕ
  put_bytes words o [] = words
  put_bytes words o (b ∷ bs) = put_bytes (put_byte words (base + o % m) b) (o + 1) bs

  unfoldable pub bytes_at : (ℕ → ℕ) → ℕ → ℕ → List ℕ
  bytes_at words o zero = []
  bytes_at words o (suc n) = byte_at words (base + o % m) ∷ bytes_at words (o + 1) n

  next_address : (o i : ℕ) → base + (o + suc i) % m ≡ base + (o + 1 + i) % m
  next_address o i = let e : o + suc i ≡ o + 1 + i = omega arith in ap (λ (t : ℕ). base + t % m) e

  pub put_bytes-WordsFit :
      (words : ℕ → ℕ) (o : ℕ) (bs : List ℕ)
      → WordsFit words
      → AllBytes bs
      → WordsFit (put_bytes words o bs)
  unfolding put_bytes
  put_bytes-WordsFit words o [] fit all = fit
  put_bytes-WordsFit words o (b ∷ bs) fit all =
      put_bytes-WordsFit (put_byte words (base + o % m) b) (o + 1) bs
        (put_byte-WordsFit (base + o % m) b fit all.0) all.1

  -- An address that the run does not meet keeps its byte.
  pub put_bytes-frame :
      (words : ℕ → ℕ) (o : ℕ) (bs : List ℕ) (x : ℕ)
      → WordsFit words
      → AllBytes bs
      → ((i : ℕ) → i < length bs → base + (o + i) % m ≢ x)
      → byte_at (put_bytes words o bs) x ≡ byte_at words x
  unfolding put_bytes
  put_bytes-frame words o [] x fit all away = refl
  put_bytes-frame words o (b ∷ bs) x fit all away =
      put_bytes-frame (put_byte words (base + o % m) b) (o + 1) bs x
        (put_byte-WordsFit (base + o % m) b fit all.0) all.1
        (λ i h e. away (suc i) (omega arith) (next_address o i ∙ e))
      ∙ ground (arith, byte_at-put_byte words (base + o % m) b x fit, away 0, here)
    where
      here : base + (o + 0) % m ≡ base + o % m
      here = let e : o + 0 ≡ o = omega arith in ap (λ (t : ℕ). base + t % m) e

  -- A word that holds no byte of the ring keeps its value.
  pub put_bytes-outside :
      (words : ℕ → ℕ) (o : ℕ) (bs : List ℕ) (a : ℕ)
      → 0 < m
      → (8 * a + 8 ≤ base) ⊎ (base + m ≤ 8 * a)
      → put_bytes words o bs a ≡ words a
  unfolding put_bytes
  put_bytes-outside words o [] a pos out = refl
  put_bytes-outside words o (b ∷ bs) a pos out =
      put_bytes-outside (put_byte words (base + o % m) b) (o + 1) bs a pos out
      ∙ ground (arith, elsewhere)
    where
      elsewhere : a ≢ (base + o % m) / 8
      elsewhere = elim out [ inl h ↦ omega arith | inr h ↦ omega (arith, mod-lt o pos) ]

  -- Fewer than `m` steps round the ring do not come back.
  pub step_ne : (o d : ℕ) → 0 < d → d < m → (o + d) % m ≢ o % m
  step_ne o d pos h = elim (dec_lt (o % m + d) m) [
    | yes p ↦ omega (arith, folded, mod-eq_of_lt p)
    | no p ↦ omega (
      arith,
      folded,
      mod-lt o {m = m} (omega arith),
      mod-eq-sub-mod {n = o % m + d} {m = m} (omega arith),
      mod-eq_of_lt {n = o % m + d - m} {m = m} (omega (arith, mod-lt o {m = m} (omega arith))),
    )
  ]
    where
      folded : (o + d) % m ≡ (o % m + d) % m
      folded = sym (mod-add-mod o m d)

  -- A run no longer than the ring is read back as it was written.
  pub bytes_at-put_bytes :
      (words : ℕ → ℕ) (o : ℕ) (bs : List ℕ)
      → WordsFit words
      → AllBytes bs
      → length bs ≤ m
      → bytes_at (put_bytes words o bs) o (length bs) ≡ bs
  unfolding put_bytes bytes_at
  bytes_at-put_bytes words o [] fit all h = refl
  bytes_at-put_bytes words o (b ∷ bs) fit all h =
      ap₂ ◌∷◌
        (put_bytes-frame words' (o + 1) bs (base + o % m) fit' all.1 away
          ∙ ground (arith, byte_at-put_byte words (base + o % m) b (base + o % m) fit))
        (bytes_at-put_bytes words' (o + 1) bs fit' all.1 (omega arith))
    where
      words' : ℕ → ℕ
      words' = put_byte words (base + o % m) b

      fit' : WordsFit words'
      fit' = put_byte-WordsFit (base + o % m) b fit all.0

      away : (i : ℕ) → i < length bs → base + (o + 1 + i) % m ≢ base + o % m
      away i lt e =
          step_ne o (suc i) (omega arith) (omega arith) (omega (arith, next_address o i, e))

  -- Reading sees only the words that hold bytes of the ring.
  pub bytes_at-agree :
      (words words' : ℕ → ℕ) (o n : ℕ)
      → ((a : ℕ) → base ≤ 8 * a + 7 → words a ≡ words' a)
      → bytes_at words o n ≡ bytes_at words' o n
  unfolding bytes_at
  bytes_at-agree words words' o zero same = refl
  bytes_at-agree words words' o (suc n) same =
      ap₂ ◌∷◌
        (ap (λ (t : ℕ). get_byte t (8 * ((base + o % m) % 8)))
          (same ((base + o % m) / 8) (omega arith)))
        (bytes_at-agree words words' (o + 1) n same)

  pub bytes_at-min :
      (words : ℕ → ℕ) (o k n : ℕ) → bytes_at words o (min k n) ≡ take n (bytes_at words o k)
  unfolding bytes_at
  bytes_at-min words o zero zero = refl
  bytes_at-min words o zero (suc n) = let e : min 0 (suc n) ≡ 0 = omega arith in rw e
  bytes_at-min words o (suc k) zero = let e : min (suc k) 0 ≡ 0 = omega arith in rw e
  bytes_at-min words o (suc k) (suc n) =
      let e : min (suc k) (suc n) ≡ suc (min k n) = omega arith in
      rw (e, bytes_at-min words (o + 1) k n)
