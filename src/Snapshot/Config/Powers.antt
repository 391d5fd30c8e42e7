-- ===== src/Snapshot/Config/Powers.antt =====
-- `fitting_power_of_two` of shm-snapshot/src/writer.rs: the largest power of two that is not above
-- a value; and the pages that a number of items takes.
use native.Mathlib.Nat.{pow-suc, one-le-pow, pow-le-pow_right, mul-div_cancel}
use native.Mathlib.Decide.{dec_lt}
use shmfd.Prelude.{
  ℕ, zero, suc, ◌+◌, ◌-◌, ◌*◌, ◌/◌, ◌^◌, ◌≤◌, ◌<◌, ◌≡◌, refl, sym, ap, ◌∙◌, arith, done, lt→ltb,
}
use shmfd.Prelude.Words.{IsPowerOfTwo}
use shmfd.Snapshot.Config.{bit_length, leading_zeros, fitting_power_of_two, pages_for}

-- The highest set bit of a value that is not 0.
record HighestBit (rounds value : ℕ) : Type 0 where
  bit : ℕ
  length_eq : bit_length rounds value ≡ suc bit
  below : 2 ^ bit ≤ value
  above : value < 2 ^ suc bit
  bit_lt : bit < rounds

bit_length-zero : (rounds : ℕ) → bit_length rounds 0 ≡ 0
unfolding bit_length
bit_length-zero zero = refl
bit_length-zero (suc rounds) = refl

bit_length-HighestBit :
    (rounds value : ℕ) → value < 2 ^ rounds → 0 < value → HighestBit rounds value
unfolding bit_length
bit_length-HighestBit zero value h pos = absurd (omega arith)
bit_length-HighestBit (suc rounds) zero h pos = elim pos [ ]
bit_length-HighestBit (suc rounds) (suc zero) h pos = record {
  bit = 0;
  length_eq = ap suc (bit_length-zero rounds);
  below = omega arith;
  above = omega arith;
  bit_lt = omega arith;
}
bit_length-HighestBit (suc rounds) (suc (suc v)) h pos =
    let half =
      bit_length-HighestBit rounds (suc (suc v) / 2) (omega (arith, pow-suc 2 rounds))
        (omega arith) in
    record {
      bit = suc half.bit;
      length_eq = ground (arith, half.length_eq);
      below = omega (arith, half.below, pow-suc 2 half.bit);
      above = omega (arith, half.above, pow-suc 2 (suc half.bit));
      bit_lt = omega (arith, half.bit_lt);
    }

two_pow_add : (a b : ℕ) → 2 ^ (a + b) ≡ 2 ^ a * 2 ^ b
two_pow_add zero b = let e : 0 + b ≡ b = omega arith in rw e (omega arith)
two_pow_add (suc a) b =
    let e : suc a + b ≡ suc (a + b) = omega arith in
    rw e (
      omega (
        arith,
        pow-suc 2 (a + b),
        pow-suc 2 a,
        ap (λ (t : ℕ). 2 * t) (two_pow_add a b),
        ap (λ (t : ℕ). t * 2 ^ b) (pow-suc 2 a),
      ))

-- The power of two that fits a value.
pub record LargestPower (value : ℕ) : Type 0 where
  pub power : ℕ
  pub returns : fitting_power_of_two value ≡ done power
  pub is_power : IsPowerOfTwo power
  pub below : power ≤ value
  pub above : value < 2 * power

-- `fitting_power_of_two` returns on every `u64` but 0: the power of two with `p ≤ value < 2 * p`.
pub fitting_power_of_two-LargestPower :
    (value : ℕ) → 0 < value → value < 2 ^ 64 → LargestPower value
unfolding fitting_power_of_two leading_zeros
fitting_power_of_two-LargestPower value pos h =
    let b = bit_length-HighestBit 64 value h pos in
    let small : 64 - suc b.bit < 64 = omega arith in
    let split : b.bit + (64 - suc b.bit) ≡ 63 = omega (arith, b.bit_lt) in
    let whole : 2 ^ 63 ≡ 2 ^ b.bit * 2 ^ (64 - suc b.bit) =
      ap (λ (t : ℕ). 2 ^ t) (sym split) ∙ two_pow_add b.bit (64 - suc b.bit) in
    let quotient : 2 ^ 63 / 2 ^ (64 - suc b.bit) ≡ 2 ^ b.bit =
      ap (λ (t : ℕ). t / 2 ^ (64 - suc b.bit)) whole
      ∙ mul-div_cancel (2 ^ b.bit) (one-le-pow (64 - suc b.bit) 2 (omega arith)) in
    record {
      power = 2 ^ b.bit;
      returns = rw (b.length_eq, lt→ltb (64 - suc b.bit) 64 small) (ap done quotient);
      is_power = record { exponent = b.bit; is_power = refl; small = b.bit_lt };
      below = b.below;
      above = omega (arith, b.above, pow-suc 2 b.bit);
    }

-- Of two powers of two, one that is below twice the other is at most the other.
pub power_le : {m n : ℕ} → IsPowerOfTwo m → IsPowerOfTwo n → m < 2 * n → m ≤ n
power_le {m} {n} a b h = elim (dec_lt b.exponent a.exponent) [
  | yes p ↦ absurd (
      omega (
        arith,
        a.is_power,
        b.is_power,
        pow-suc 2 b.exponent,
        pow-le-pow_right {n = 2} (omega arith) {i = suc b.exponent} {j = a.exponent} p,
      ))
  | no p ↦ omega (
    arith,
    a.is_power,
    b.is_power,
    pow-le-pow_right {n = 2} (omega arith) {i = a.exponent} {j = b.exponent} (omega arith),
  )
]

pub pages_for-fits : (n per_page : ℕ) → 0 < per_page → n ≤ per_page * pages_for n per_page
unfolding pages_for
pages_for-fits n per_page pos = grind arith
