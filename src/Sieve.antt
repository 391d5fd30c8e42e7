-- ===== src/Sieve.antt =====
-- The prime sieves of the examples: `upper_int_sqrt` and `check_prime`, which examples/primes/src/main.rs
-- and examples/primes-snapshot/src/main.rs share.
pub mod Sqrt
pub mod Primes
pub mod Check
pub mod Snapshots
pub mod Chunk
pub mod Tests
use shmfd.Prelude.{
  ℕ, zero, suc, ◌+◌, ◌-◌, ◌*◌, ◌/◌, ◌%◌, ◌==◌, ltb, if◌then◌else◌, Bool, true, false, Run, done,
  panic, starved, ◌>>=◌, List, [], ◌∷◌,
}
use shmfd.Prelude.Words.{add64, mul64}

-- The loop of `upper_int_sqrt`. Its range halves, so that its length is fuel enough.
unfoldable pub sqrt_from : ℕ → ℕ → ℕ → ℕ → Run ℕ
sqrt_from zero num l r = starved
sqrt_from (suc fuel) num l r = elim (l == r - 1) [
  | true ↦ done r
  | false ↦ do
    let m = l + (r - l) / 2
    square ← mul64 m m
    elim (ltb square num) [ true ↦ sqrt_from fuel num m r | false ↦ sqrt_from fuel num l m ]
]

-- `upper_int_sqrt`
unfoldable pub upper_int_sqrt : ℕ → Run ℕ
unfolding sqrt_from
upper_int_sqrt num = add64 num 1 >>= λ r. sqrt_from (suc r) num 0 r

-- The loop of `check_prime`; a remainder by zero panics.
unfoldable pub check_from : ℕ → ℕ → List ℕ → Run Bool
check_from bound num [] = done true
check_from bound num (p ∷ primes) = elim (ltb bound p) [
  | true ↦ done true
  | false ↦ elim p [
    | zero ↦ panic
    | suc n ↦ elim (num % suc n == 0) [ true ↦ done false | false ↦ check_from bound num primes ]
  ]
]

-- `check_prime`
unfoldable pub check_prime : ℕ → List ℕ → Run Bool
unfolding upper_int_sqrt check_from
check_prime num primes = upper_int_sqrt num >>= λ bound. check_from bound num primes
