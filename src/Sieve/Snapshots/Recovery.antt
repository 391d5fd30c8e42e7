-- ===== src/Sieve/Snapshots/Recovery.antt =====
-- `restore_from` of examples/primes-snapshot/src/main.rs: the number that a round has recorded, and what
-- it keeps and clears of the tail.
use native.Mathlib.Nat.{pow-suc, div-div-eq-div-mul}
use shmfd.Prelude.{
  ℕ, zero, suc, ◌+◌, ◌*◌, ◌/◌, ◌%◌, ◌^◌, ◌≤◌, ◌<◌, ◌≡◌, inl, inr, refl, sym, ap, ◌∙◌, arith,
  Bool-cases, true, done, ◌>>=◌, some, List, [], ◌∷◌, ◌++◌, length,
}
use shmfd.Snapshot.Layout.{WriteHead, Snapshot}
use shmfd.Sieve.Primes.{is_prime, primes_below}
use shmfd.Sieve.Snapshots.{words_from, be_bytes, from_be_bytes, recorded_total, split_tail}
use shmfd.Sieve.Snapshots.Tail.{words_from-snoc}
use shmfd.Sieve.Snapshots.Candidates.{prime_count, Lists}

-- Eight digits of a number, read behind what stands before them.
from_be_bytes-be_bytes_lem : (k n : ℕ) → from_be_bytes (n / 256 ^ k) (be_bytes k n) ≡ n
unfolding from_be_bytes be_bytes
from_be_bytes-be_bytes_lem zero n = omega arith
from_be_bytes-be_bytes_lem (suc k) n =
    let q = n / 256 ^ k in
    let shifted : n / 256 ^ suc k ≡ q / 256 =
      ap (λ (p : ℕ). n / p) (pow-suc 256 k) ∙ sym (div-div-eq-div-mul n (256 ^ k) 256) in
    let joined : n / 256 ^ suc k * 256 + q % 256 ≡ q = omega (arith, shifted) in
    ap (λ (acc : ℕ). from_be_bytes acc (be_bytes k n)) joined ∙ from_be_bytes-be_bytes_lem k n

pub from_be_bytes-be_bytes : (n : ℕ) → n < 2 ^ 64 → from_be_bytes 0 (be_bytes 8 n) ≡ n
from_be_bytes-be_bytes n lt =
    let none_before : 0 ≡ n / 256 ^ 8 = omega (arith, lt) in
    ap (λ (acc : ℕ). from_be_bytes acc (be_bytes 8 n)) none_before ∙ from_be_bytes-be_bytes_lem 8 n

-- The number at the end of a list, 0 for none.
abbrev last_of : List ℕ → ℕ
last_of [] = 0
last_of (x ∷ []) = x
last_of (x ∷ y ∷ xs) = last_of (y ∷ xs)

last_of-snoc : (xs : List ℕ) (x : ℕ) → last_of (xs ++ (x ∷ [])) ≡ x
last_of-snoc [] x = refl
last_of-snoc (y ∷ []) x = refl
last_of-snoc (y ∷ z ∷ xs) x = last_of-snoc (z ∷ xs) x

-- The largest prime number of a list that has one.
pub largest-prime :
    (n k : ℕ)
    → prime_count n ≡ suc k
    → (p : ℕ) × (primes_below n ≡ primes_below p ++ (p ∷ [])) × (is_prime p ≡ true)
unfolding primes_below
largest-prime zero k counted = absurd (omega arith)
largest-prime (suc n) k counted = elim (Bool-cases (is_prime n)) [
  | inl prime ↦ (n, rw (primes_below, prime) refl, prime)
  | inr other ↦
      let same : primes_below (suc n) ≡ primes_below n = rw (primes_below, other) refl in
      let (p, split, prime) = largest-prime n k (sym (ap length same) ∙ counted) in
      (p, same ∙ split, prime)
]

-- The last word of a list of words.
pub last_of-words_from :
    (words : ℕ → ℕ) (a k : ℕ) (xs : List ℕ) (p : ℕ)
    → words_from words a (suc k) ≡ xs ++ (p ∷ [])
    → words (a + k) ≡ p
last_of-words_from words a k xs p same =
    let e : suc k ≡ k + 1 = omega arith in
    sym (last_of-snoc (words_from words a k) (words (a + k)))
    ∙ ap last_of (sym (words_from-snoc words a k))
    ∙ ap (λ (n : ℕ). last_of (words_from words a n)) (sym e)
    ∙ ap last_of same
    ∙ last_of-snoc xs p

-- What `restore_from` makes of the recorded number of the prime numbers below `n`.
pub record Recovers (writer : WriteHead) (snapshot : Snapshot) (n : ℕ) : Type 0 where
  pub prime_last : ℕ
  pub words : ℕ → ℕ
  pub returns :
      (recorded_total writer (some snapshot) >>= λ total. split_tail writer total)
      ≡ done (
        record { prime_total = prime_count n; prime_last = prime_last },
        record writer { words = words },
      )
  pub last : primes_below n ≡ primes_below prime_last ++ (prime_last ∷ [])
  pub prime : is_prime prime_last ≡ true
  pub lists : Lists writer.tail words n
  pub cleared :
      (x : ℕ)
      → writer.tail.start * 512 + prime_count n ≤ x
      → x < writer.tail.start * 512 + writer.tail.len * 512
      → words x ≡ 0
  pub outside : (x : ℕ) → x < writer.tail.start * 512 → words x ≡ writer.words x
