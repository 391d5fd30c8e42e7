-- ===== src/Sieve/Chunk/Tests.antt =====
-- The sieve of examples/primes/src/main.rs on a small file: blank, and with the prime numbers below 8.
use shmfd.Prelude.{ℕ, refl, arith, inr}
use shmfd.Snapshot.Layout.{update}
use shmfd.Sieve.Primes.{has_divisor, is_prime, primes_below}
use shmfd.Sieve.Chunk.Fills.{Fills, run_chunk-Fills}

abbrev four_primes : ℕ → ℕ
four_primes = update (update (update (update (λ x. 0) 0 2) 1 3) 2 5) 3 7

-- The same file from its beginning.
blank-Fills : Fills 20 (λ x. 0) 6 4
unfolding primes_below is_prime has_divisor
blank-Fills =
    run_chunk-Fills 20 (λ x. 0) 6 4 20
      (inr (refl, record { empty = refl; stop = refl; room = omega arith })) (omega arith)
      (omega arith) (omega arith)
