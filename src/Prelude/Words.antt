-- ===== src/Prelude/Words.antt =====
-- Machine words: arithmetic of `u64`, and powers of two.
use Prim.Native.Nat.{ℕ, zero, suc, ◌+◌, ◌-◌, ◌*◌, ◌%◌, ◌^◌, ◌≤◌, ◌<◌, bit_and}
use mathlib.Core.Path.{◌≡◌, refl, ap, subst, ◌∙◌}
use mathlib.Core.Logic.{inl, inr}
use mathlib.Core.Bool.{Bool, true, false}
use native.Mathlib.Nat.{pow-suc, one-le-pow, pow-le-pow_right}
use native.Mathlib.Omega.{arith}
use shmfd.Prelude.Tests.{ltb, leb, ◌==◌, ==→eq, if◌then◌else◌, Bool-cases, lt→not-leb}
use shmfd.Prelude.Panic.{Run, done, panic, starved}
use shmfd.Prelude.Bits.{bit_and-ones}

-- `u64::wrapping_add`
abbrev pub wrapping_add : ℕ → ℕ → ℕ
wrapping_add a b = (a + b) % 2 ^ 64

-- `u64::wrapping_sub`
abbrev pub wrapping_sub : ℕ → ℕ → ℕ
wrapping_sub a b = (a + 2 ^ 64 - b) % 2 ^ 64

-- `a + b`, `a - b` and `a * b` on `u64` and `usize`, with overflow checks.
abbrev pub add64 : ℕ → ℕ → Run ℕ
add64 a b = if ltb (a + b) (2 ^ 64) then done (a + b) else panic

abbrev pub sub64 : ℕ → ℕ → Run ℕ
sub64 a b = if leb b a then done (a - b) else panic

abbrev pub mul64 : ℕ → ℕ → Run ℕ
mul64 a b = if ltb (a * b) (2 ^ 64) then done (a * b) else panic

power_from : ℕ → ℕ → ℕ → Run ℕ
power_from zero p n = panic
power_from (suc rounds) p n =
    let rest = power_from rounds (2 * p) n in if leb n p then done p else rest

-- `u64::next_power_of_two`, with overflow checks.
unfoldable pub next_power_of_two : ℕ → Run ℕ
unfolding power_from
next_power_of_two n = power_from 64 1 n

-- `u64::is_power_of_two`
unfoldable pub is_power_of_two : ℕ → Bool
unfolding next_power_of_two
is_power_of_two n = elim (next_power_of_two n) [ done p ↦ p == n | _ ↦ false ]

-- A power of two that a `u64` can hold.
pub record IsPowerOfTwo (n : ℕ) : Type 0 where
  pub exponent : ℕ
  pub is_power : n ≡ 2 ^ exponent
  pub small : exponent < 64

power_from_sound :
    (rounds p n r : ℕ)
    → power_from rounds p n ≡ done r
    → (i : ℕ) × (r ≡ p * 2 ^ i) × (i < rounds) × (n ≤ r)
unfolding power_from
power_from_sound zero p n r h = cc
power_from_sound (suc rounds) p n r h = elim (Bool-cases (leb n p)) [
  | inl here ↦ (0, ground arith, omega arith, ground arith)
  | inr more ↦
      let (i, e, lt, le) = power_from_sound rounds (2 * p) n r (rw more at h) in
      (suc i, omega (arith, e, ap (λ (t : ℕ). p * t) (pow-suc 2 i)), omega arith, le)
]

power_from-exact :
    (rounds p i : ℕ) → 0 < p → i < rounds → power_from rounds p (p * 2 ^ i) ≡ done (p * 2 ^ i)
unfolding power_from
power_from-exact zero p i pos h = absurd (omega arith)
power_from-exact (suc rounds) p zero pos h = ground arith
power_from-exact (suc rounds) p (suc i) pos h =
    rw (lt→not-leb (p * 2 ^ suc i) p below, doubled)
      (power_from-exact rounds (2 * p) i (omega arith) (omega arith))
  where
    doubled : p * 2 ^ suc i ≡ 2 * p * 2 ^ i
    doubled = omega (arith, ap (λ (t : ℕ). p * t) (pow-suc 2 i))

    at_least : p ≤ p * 2 ^ i
    at_least = grind (arith, one-le-pow i 2)

    below : p < p * 2 ^ suc i
    below = omega (arith, doubled, at_least)

-- What an assertion `n.next_power_of_two() == n` establishes, and when it passes.
pub next_power_of_two_sound : (n p : ℕ) → next_power_of_two n ≡ done p → IsPowerOfTwo p × (n ≤ p)
unfolding next_power_of_two
next_power_of_two_sound n p h =
    let (i, e, lt, le) = power_from_sound 64 1 n p h in
    (record { exponent = i; is_power = omega (arith, e); small = lt }, le)

pub next_power_of_two-exact : {n : ℕ} → IsPowerOfTwo n → next_power_of_two n ≡ done n
unfolding next_power_of_two
next_power_of_two-exact {n} h =
    let e : n ≡ 1 * 2 ^ h.exponent = omega (arith, h.is_power) in
    rw e (power_from-exact 64 1 h.exponent (omega arith) h.small)

pub is_power_of_two-IsPowerOfTwo : (n : ℕ) → is_power_of_two n ≡ true → IsPowerOfTwo n
unfolding is_power_of_two
is_power_of_two-IsPowerOfTwo n h = go (next_power_of_two n) refl h
  where
    go :
        (r : Run ℕ)
        → next_power_of_two n ≡ r
        → elim r [ done p ↦ p == n | _ ↦ false ] ≡ true
        → IsPowerOfTwo n
    go (done p) e t =
        let same : p ≡ n = ==→eq p n t in
        subst (λ m. IsPowerOfTwo m) same (next_power_of_two_sound n p e).0
    go panic e t = cc
    go starved e t = cc

pub IsPowerOfTwo-pos : {n : ℕ} → IsPowerOfTwo n → 0 < n
IsPowerOfTwo-pos h = omega (arith, h.is_power, one-le-pow h.exponent 2)

pub IsPowerOfTwo-lt : {n : ℕ} → IsPowerOfTwo n → n ≤ 2 ^ 63
IsPowerOfTwo-lt h = omega (
  arith,
  h.is_power,
  pow-le-pow_right {n = 2} (omega arith) {i = h.exponent} {j = 63} (omega (arith, h.small)),
)

-- A mask one below a power of two is the remainder by that power.
pub bit_and-mask : (x : ℕ) {n : ℕ} → IsPowerOfTwo n → bit_and x (n - 1) ≡ x % n
bit_and-mask x h = rw (h.is_power, bit_and-ones)

pub bit_and-mask_suc : (x m : ℕ) → IsPowerOfTwo (m + 1) → bit_and x m ≡ x % (m + 1)
bit_and-mask_suc x m p =
    let e : m ≡ m + 1 - 1 = omega arith in ap (λ (t : ℕ). bit_and x t) e ∙ bit_and-mask x p
