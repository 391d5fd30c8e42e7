-- ===== src/Sieve/Chunk.antt =====
-- examples/primes/src/main.rs: a sieve that keeps its prime numbers in the whole of a shared memory file,
-- and adds a chunk of them at each start. A slice of `u64`s is its words from 0 on, and their number.
pub mod Slots
pub mod Fills
pub mod Tests
use shmfd.Prelude.{
  ℕ, zero, suc, ◌+◌, ◌-◌, min, ◌==◌, ltb, leb, if◌then◌else◌, Bool, true, false, Run, done, panic,
  starved, ◌>>=◌, ◌>>◌, assert, List,
}
use shmfd.Prelude.Words.{add64}
use shmfd.Snapshot.Layout.{update}
use shmfd.Sieve.{check_prime}
use shmfd.Sieve.Snapshots.{words_from, nonzero_from}

-- `values[i]`, `values[i] = v` and `&values[..i]`: an index out of bounds panics.
unfoldable pub value_at : (ℕ → ℕ) → ℕ → ℕ → Run ℕ
value_at values len i = if ltb i len then done (values i) else panic

unfoldable pub set_value : (ℕ → ℕ) → ℕ → ℕ → ℕ → Run (ℕ → ℕ)
set_value values len i v = if ltb i len then done (update values i v) else panic

unfoldable pub values_before : (ℕ → ℕ) → ℕ → ℕ → Run (List ℕ)
values_before values len i = if leb i len then done (words_from values 0 i) else panic

-- The inner loop of `run_main_routine`: the first candidate that passes. The range `num..` has no end,
-- and steps past a candidate, which may overflow, before the body runs.
unfoldable pub next_prime : ℕ → List ℕ → ℕ → Run ℕ
next_prime zero primes candidate = starved
next_prime (suc fuel) primes candidate = do
  next ← add64 candidate 1
  prime ← check_prime candidate primes
  elim prime [ true ↦ done candidate | false ↦ next_prime fuel primes next ]

-- The outer loop, over the `count` slots from `slot` on, each of whose searches gets the fuel.
unfoldable pub fill_slots : ℕ → ℕ → ℕ → ℕ → (ℕ → ℕ) → ℕ → Run (ℕ → ℕ)
unfolding value_at set_value values_before next_prime
fill_slots fuel zero slot num values len = done values
fill_slots fuel (suc count) slot num values len = do
  primes ← values_before values len slot
  candidate ← next_prime fuel primes num
  values' ← set_value values len slot candidate
  num' ← add64 candidate 1
  fill_slots fuel count (slot + 1) num' values' len

-- The first two prime numbers go into an empty file.
unfoldable pub fill_values : Bool → (ℕ → ℕ) → ℕ → Run (ℕ → ℕ)
unfolding set_value
fill_values true values len = set_value values len 0 2 >>= λ values'. set_value values' len 1 3
fill_values false values len = done values

unfoldable pub first_values : (ℕ → ℕ) → ℕ → Run (ℕ → ℕ)
unfolding value_at fill_values
first_values values len = value_at values len 0 >>= λ first. fill_values (first == 0) values len

-- `run_main_routine` on values of which `pos` in front are not zero.
unfoldable pub run_from : ℕ → ℕ → (ℕ → ℕ) → ℕ → Run (ℕ → ℕ)
unfolding fill_slots
run_from fuel pos values len = do
  assert (ltb 0 pos)
  let end = min (pos + 100000) len
  num ← add64 (values (pos - 1)) 1
  if leb end pos then done values else fill_slots fuel (end - pos) pos num values len

-- `run_main_routine`: the values that it leaves.
unfoldable pub run_chunk : ℕ → (ℕ → ℕ) → ℕ → Run (ℕ → ℕ)
unfolding first_values run_from
run_chunk fuel values len = do
  values' ← first_values values len
  run_from fuel (nonzero_from values' 0 len) values' len
