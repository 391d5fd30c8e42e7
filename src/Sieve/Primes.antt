-- ===== src/Sieve/Primes.antt =====
-- What the sieves of examples/primes/src/main.rs and examples/primes-snapshot/src/main.rs are to find:
-- the prime numbers, by a search of all divisors.
use native.Mathlib.Nat.{
  dvd_trans, dvd_of_mod-eq-zero, mod-eq-zero_of_dvd, div-add-mod, mul-le-mul_left, mul-mod_left,
}
use native.Mathlib.Decide.{ℕ_discrete, dec_lt}
use shmfd.Prelude.{
  ℕ, zero, suc, ◌*◌, ◌/◌, ◌%◌, ◌≤◌, ◌<◌, ◌≡◌, ◌≢◌, ◌⊎◌, inl, inr, refl, sym, ap, subst, arith, ◌==◌,
  leb, le→leb, ◌&&◌, not, if◌then◌else◌, Bool, true, false, List, [], ◌∷◌, ◌++◌,
}

-- A divisor of `n` from 2 on and below `k`.
unfoldable pub has_divisor : ℕ → ℕ → Bool
has_divisor zero n = false
has_divisor (suc k) n =
    let lower = has_divisor k n in if leb 2 k && (n % k == 0) then true else lower

unfoldable pub is_prime : ℕ → Bool
unfolding has_divisor
is_prime n = leb 2 n && not (has_divisor n n)

-- The prime numbers below a number, in order.
unfoldable pub primes_below : ℕ → List ℕ
primes_below zero = []
primes_below (suc n) = let lower = primes_below n in if is_prime n then lower ++ (n ∷ []) else lower

abbrev pub NoDivisor : ℕ → ℕ → Type 0
NoDivisor k n = (d : ℕ) → 2 ≤ d → d < k → n % d ≢ 0

has_divisor-step :
    (k n : ℕ) → has_divisor (suc k) n ≡ false → (has_divisor k n ≡ false) × ((2 ≤ k) → n % k ≢ 0)
unfolding has_divisor
has_divisor-step k n h = ground arith

pub prime-ge : (n : ℕ) → is_prime n ≡ true → 2 ≤ n
unfolding is_prime
prime-ge n h = ground arith

pub has_divisor-false : (k n : ℕ) → has_divisor k n ≡ false → NoDivisor k n
unfolding has_divisor
has_divisor-false zero n h d ge lt = absurd (omega arith)
has_divisor-false (suc k) n h d ge lt =
    let (lower, last) = has_divisor-step k n h in
    elim (ℕ_discrete d k) [
      | yes e ↦ subst (λ (x : ℕ). n % x ≢ 0) (sym e) (last (omega (arith, e, ge)))
      | no ne ↦ has_divisor-false k n lower d ge (omega (arith, ne, lt))
    ]

pub NoDivisor-false : (k n : ℕ) → NoDivisor k n → has_divisor k n ≡ false
unfolding has_divisor
NoDivisor-false zero n h = refl
NoDivisor-false (suc k) n h =
    ground (arith, NoDivisor-false k n (λ d ge lt. h d ge (omega arith)), h k)

-- The least divisor from 2 on.
pub least_divisor :
    (k n : ℕ) → NoDivisor k n ⊎ ((d : ℕ) × (2 ≤ d) × (d < k) × (n % d ≡ 0) × NoDivisor d n)
least_divisor zero n = inl (λ d ge lt. absurd (omega arith))
least_divisor (suc k) n = elim (least_divisor k n) [
  | inr (d, ge, lt, divides, least) ↦ inr (d, ge, omega (arith, lt), divides, least)
  | inl none_below ↦ elim (dec_lt k 2) [
    | yes small ↦ inl (λ d ge lt. absurd (omega arith))
    | no big ↦ elim (ℕ_discrete (n % k) 0) [
      | yes divides ↦ inr (k, omega (arith, big), omega arith, divides, none_below)
      | no rest ↦ inl (λ d ge lt. elim (ℕ_discrete d k) [
        | yes e ↦ subst (λ (x : ℕ). n % x ≢ 0) (sym e) rest
        | no ne ↦ none_below d ge (omega (arith, ne, lt))
      ])
    ]
  ]
]

-- The least divisor is a prime number.
pub least-is_prime : (d n : ℕ) → 2 ≤ d → n % d ≡ 0 → NoDivisor d n → is_prime d ≡ true
unfolding is_prime
least-is_prime d n ge divides least =
    let none_in : NoDivisor d d = λ e ge_e lt_e e_divides. least e ge_e lt_e (
      mod-eq-zero_of_dvd e {n = n} (
        dvd_trans e (dvd_of_mod-eq-zero e {n = d} e_divides)
          (dvd_of_mod-eq-zero d {n = n} divides))) in
    rw (le→leb 2 d ge, NoDivisor-false d d none_in) refl

-- Its square is no larger than the number, if this is no prime number.
pub least-square : (d n : ℕ) → 2 ≤ d → d < n → n % d ≡ 0 → NoDivisor d n → d * d ≤ n
least-square d n ge lt divides least =
    let q = n / d in
    let whole : d * q ≡ n = omega (arith, div-add-mod n d, divides) in
    elim (dec_lt q d) [
      | no big ↦
          let up : d * d ≤ d * q = mul-le-mul_left d (omega (arith, big)) in
          omega (arith, up, whole)
      | yes small ↦
          let q_divides : n % q ≡ 0 = subst (λ (x : ℕ). x % q ≡ 0) whole (mul-mod_left d q) in
          let ne₀ : q ≢ 0 = λ e. omega (arith, ap (λ (x : ℕ). d * x) e, whole, lt) in
          let ne₁ : q ≢ 1 = λ e. omega (arith, ap (λ (x : ℕ). d * x) e, whole, lt) in
          absurd (least q (omega (arith, ne₀, ne₁)) small q_divides)
    ]
