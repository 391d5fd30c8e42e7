-- ===== src/Sieve/Sqrt.antt =====
-- `upper_int_sqrt` of examples/primes/src/main.rs and examples/primes-snapshot/src/main.rs.
use native.Mathlib.Decide.{dec_lt}
use shmfd.Prelude.{
  ℕ, zero, suc, ◌+◌, ◌-◌, ◌*◌, ◌/◌, ◌^◌, ◌≤◌, ◌<◌, ◌≡◌, ◌⊎◌, inl, inr, refl, ◌∙◌, arith, ◌==◌, ltb,
  lt→ltb, ltb→lt, le→not-ltb, ne→not-==, ==→eq, ==-false→ne, Bool-cases, true, false, done, panic,
}
use shmfd.Prelude.Words.{mul64}
use shmfd.Sieve.{sqrt_from, upper_int_sqrt}

-- The least number from 1 on whose square is no smaller.
pub record CeilSqrt (num r : ℕ) : Type 0 where
  pub positive : 0 < r
  pub enough : num ≤ r * r
  pub least : (m : ℕ) → 0 < m → m < r → m * m < num

square_mono : (a b : ℕ) → a ≤ b → a * a ≤ b * b
square_mono a b h = grind arith

square_bound : (m : ℕ) → m < 2 ^ 32 → m * m < 2 ^ 64
square_bound m h = let e = square_mono m (2 ^ 32 - 1) (omega arith) in omega (arith, e)

double_square : (m : ℕ) → 2 ≤ m → 2 * m ≤ m * m
double_square m h = grind arith

-- Where the middle of a range is small.
abbrev IsLow : ℕ → ℕ → ℕ → Type 0
IsLow num l r = (r ≤ 2 ^ 32) ⊎ ((l ≡ 0) × (r ≡ num + 1) × (num + 1 < 2 ^ 33))

-- The upper half of a range is small too, since its start is less than the root.
upper-IsLow :
    (num l r : ℕ)
    → IsLow num l r
    → ltb ((l + (r - l) / 2) * (l + (r - l) / 2)) num ≡ true
    → IsLow num (l + (r - l) / 2) r
upper-IsLow num l r (inl s) less = inl s
upper-IsLow num l r (inr s) less =
    let m = l + (r - l) / 2 in
    let lt = ltb→lt (m * m) num less in
    elim (dec_lt m 2) [
      | yes tiny ↦ inl (omega (arith, tiny, s))
      | no big ↦ absurd (omega (arith, s, lt, double_square m (omega (arith, big))))
    ]

-- One round: the range is halved.
sqrt_from-suc :
    (fuel num l r : ℕ)
    → (l == r - 1) ≡ false
    → l + (r - l) / 2 < 2 ^ 32
    → sqrt_from (suc fuel) num l r ≡ elim (ltb ((l + (r - l) / 2) * (l + (r - l) / 2)) num) [
      | true ↦ sqrt_from fuel num (l + (r - l) / 2) r
      | false ↦ sqrt_from fuel num l (l + (r - l) / 2)
    ]
unfolding sqrt_from
sqrt_from-suc fuel num l r apart small =
    let m = l + (r - l) / 2 in
    let square : mul64 m m ≡ done (m * m) =
      rw (lt→ltb (m * m) (2 ^ 64) (square_bound m small)) refl in
    rw (sqrt_from, apart, square) refl

sqrt_from-CeilSqrt :
    (fuel num l r : ℕ)
    → l < r
    → r - l < fuel
    → ((m : ℕ) → 0 < m → m ≤ l → m * m < num)
    → num ≤ r * r
    → IsLow num l r
    → (root : ℕ) × (sqrt_from fuel num l r ≡ done root) × CeilSqrt num root
unfolding sqrt_from
sqrt_from-CeilSqrt zero num l r lt enough_fuel below above small = absurd (omega arith)
sqrt_from-CeilSqrt (suc fuel) num l r lt enough_fuel below above small =
    elim (Bool-cases (l == r - 1)) [
      | inl met ↦ (
        r,
        rw (sqrt_from, met) refl,
        record {
          positive = omega arith;
          enough = above;
          least = λ m pos_m lt_m. below m pos_m (omega (arith, ==→eq l (r - 1) met));
        },
      )
      | inr apart ↦
          let ne = ==-false→ne l (r - 1) apart in
          let m = l + (r - l) / 2 in
          let small_m : m < 2 ^ 32 = elim small [
            | inl s ↦ omega (arith, ne)
            | inr s ↦ omega (arith, ne, s)
          ] in
          let round = sqrt_from-suc fuel num l r apart small_m in
          elim (Bool-cases (ltb (m * m) num)) [
            | inl less ↦
                let (root, e, c) =
                  sqrt_from-CeilSqrt fuel num m r (omega (arith, ne)) (omega (arith, ne))
                    (λ k pos_k le.
                      let up = square_mono k m le in omega (arith, up, ltb→lt (m * m) num less))
                    above (upper-IsLow num l r small less) in
                (root, round ∙ rw less e, c)
            | inr more ↦
                let (root, e, c) =
                  sqrt_from-CeilSqrt fuel num l m (omega (arith, ne)) (omega (arith, ne)) below
                    (ground (arith, more)) (inl (omega (arith, small_m))) in
                (root, round ∙ rw more e, c)
          ]
    ]

mul64_over : (a b : ℕ) → 2 ^ 64 ≤ a * b → mul64 a b ≡ panic
mul64_over a b h = rw (le→not-ltb (a * b) (2 ^ 64) h) refl

-- From 2 ^ 33 - 1 on, the first square overflows.
sqrt_from_over : (fuel num : ℕ) → 2 ^ 33 ≤ num + 1 → sqrt_from (suc fuel) num 0 (num + 1) ≡ panic
unfolding sqrt_from
sqrt_from_over fuel num h =
    let m = 0 + (num + 1 - 0) / 2 in
    let big : 2 ^ 32 * 2 ^ 32 ≤ m * m = square_mono (2 ^ 32) m (omega arith) in
    rw (sqrt_from, ne→not-== 0 (num + 1 - 1) (λ e. omega (arith, e, h)), mul64_over m m big) refl

-- `upper_int_sqrt` of a number below 2 ^ 33 - 1 returns the least number from 1 on whose square is not
-- smaller; of every greater number it panics on an overflow.
pub upper_int_sqrt-CeilSqrt :
    (num : ℕ)
    → ((num < 2 ^ 33 - 1) × ((root : ℕ) × (upper_int_sqrt num ≡ done root) × CeilSqrt num root))
      ⊎ ((2 ^ 33 - 1 ≤ num) × (upper_int_sqrt num ≡ panic))
unfolding upper_int_sqrt
upper_int_sqrt-CeilSqrt num = elim (dec_lt num (2 ^ 33 - 1)) [
  | yes below ↦
      let (root, e, c) =
        sqrt_from-CeilSqrt (suc (num + 1)) num 0 (num + 1) (omega arith) (omega arith)
          (λ m pos_m le. absurd (omega arith)) (grind arith)
          (inr (refl, refl, omega (arith, below))) in
      inl
        (below, (root, rw (upper_int_sqrt, lt→ltb (num + 1) (2 ^ 64) (omega (arith, below))) e, c))
  | no above ↦ inr (
    omega (arith, above),
    elim (Bool-cases (ltb (num + 1) (2 ^ 64))) [
      | inl fits ↦ rw (upper_int_sqrt, fits) (sqrt_from_over (num + 1) num (omega (arith, above)))
      | inr over ↦ rw (upper_int_sqrt, over) refl
    ],
  )
]
