-- ===== src/Sieve/Tests.antt =====
-- Runs of the sieves on small numbers.
use shmfd.Prelude.{ℕ, ◌-◌, ◌^◌, ◌≤◌, ◌<◌, ◌≡◌, ◌⊎◌, refl, arith, true, done, panic, ◌*◌}
use shmfd.Snapshot.Write.{PreparedTransaction}
use shmfd.Snapshot.Layout.{WriteHead, Snapshot, update}
use shmfd.Snapshot.Tests.{writer}
use shmfd.Sieve.{upper_int_sqrt, check_prime}
use shmfd.Sieve.Sqrt.{CeilSqrt, upper_int_sqrt-CeilSqrt}
use shmfd.Sieve.Primes.{has_divisor, is_prime, primes_below}
use shmfd.Sieve.Check.{check_prime-is_prime, check_prime-again}

upper_int_sqrt-CeilSqrt_example :
    ((10 < 2 ^ 33 - 1) × ((root : ℕ) × (upper_int_sqrt 10 ≡ done root) × CeilSqrt 10 root))
    ⊎ ((2 ^ 33 - 1 ≤ 10) × (upper_int_sqrt 10 ≡ panic))
upper_int_sqrt-CeilSqrt_example = upper_int_sqrt-CeilSqrt 10

check_prime-is_prime_example : check_prime 9 (primes_below 9) ≡ done (is_prime 9)
check_prime-is_prime_example = check_prime-is_prime 9 (omega arith) (omega arith)

seven-is_prime : is_prime 7 ≡ true
unfolding is_prime has_divisor
seven-is_prime = refl

check_prime-again_example : check_prime 7 (primes_below 8) ≡ done true
check_prime-again_example = check_prime-again 7 (omega arith) (omega arith) seven-is_prime

-- The tail has the words 2 and 3; the numbers from 4 to 7 are tried.
abbrev two_primes : ℕ → ℕ
two_primes = update (update writer.words 1024 2) 1025 3

abbrev sieve : PreparedTransaction
sieve = record {
  offset = 0;
  length = 8;
  head = record writer { words = two_primes };
  tail = writer.tail;
}

-- A snapshot of the number 2, two prime numbers in the tail, and a number behind them that no
-- snapshot records.
abbrev restarted : WriteHead
restarted = record writer { words = update (update two_primes 1026 9) 512 (2 * 2 ^ 56) }

abbrev counted_two : Snapshot
counted_two = record { offset = 0; length = 8 }
