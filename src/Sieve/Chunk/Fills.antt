-- ===== src/Sieve/Chunk/Fills.antt =====
-- `run_main_routine` of examples/primes/src/main.rs: a start fills a chunk of the file with the next prime
-- numbers.
use shmfd.Prelude.{
  ℕ, suc, ◌+◌, ◌-◌, ◌^◌, ◌≤◌, ◌<◌, ◌≡◌, ◌⊎◌, inl, inr, refl, sym, ap, ◌∙◌, subst, arith, min,
  lt→ltb, lt→not-leb, ne→not-==, eq→==, ◌==◌, Bool, true, done, length,
}
use native.Mathlib.Decide.{dec_lt}
use shmfd.Snapshot.Layout.{update}
use shmfd.Snapshot.Ring.Entries.{update-outside}
use shmfd.Sieve.Primes.{has_divisor, is_prime, primes_below, prime-ge}
use shmfd.Sieve.Check.{All, All-primes_below}
use shmfd.Sieve.Snapshots.{words_from, nonzero_from}
use shmfd.Sieve.Snapshots.Tail.{nonzero_from-count}
use shmfd.Sieve.Snapshots.Candidates.{prime_count, prime_count-suc-prime}
use shmfd.Sieve.Snapshots.Routine.{words_from-All}
use shmfd.Sieve.Snapshots.Recovery.{largest-prime, last_of-words_from}
use shmfd.Sieve.Chunk.{
  value_at, set_value, fill_values, first_values, fill_slots, run_from, run_chunk,
}
use shmfd.Sieve.Chunk.Slots.{fill_slots-Filled, prime_count-le}

-- Where a chunk that begins behind `pos` values ends.
abbrev pub chunk_end : ℕ → ℕ → ℕ
chunk_end pos len = min (pos + 100000) len

-- The file begins with the prime numbers below `num`, of which there are some, and then has a zero.
pub record IsStarted (values : ℕ → ℕ) (len num : ℕ) : Type 0 where
  pub some_prime : 0 < prime_count num
  pub lists : words_from values 0 (prime_count num) ≡ primes_below num
  pub stop : values (prime_count num) ≡ 0
  pub room : prime_count num < len

-- What a start leaves: the prime numbers below `bound` in the slots before the end of the chunk, and
-- the rest of the file as it was.
pub record Fills (fuel : ℕ) (values : ℕ → ℕ) (len num : ℕ) : Type 0 where
  pub filled : ℕ → ℕ
  pub bound : ℕ
  pub returns : run_chunk fuel values len ≡ done filled
  pub counted : prime_count bound ≡ chunk_end (prime_count num) len
  pub lists : words_from filled 0 (chunk_end (prime_count num) len) ≡ primes_below bound
  pub outside : (x : ℕ) → chunk_end (prime_count num) len ≤ x → filled x ≡ values x

full :
    (values : ℕ → ℕ) (len num : ℕ)
    → IsStarted values len num
    → (x : ℕ) → x < prime_count num
    → 2 ≤ values x
full values len num v x lt =
    words_from-All (λ p. 2 ≤ p) values 0 (prime_count num)
      (subst (All (λ p. 2 ≤ p)) (sym v.lists) (All-primes_below (λ p. 2 ≤ p) num (λ p ge lt'. ge)))
      x (omega arith) (omega (arith, lt))

counted :
    (values : ℕ → ℕ) (len num : ℕ)
    → IsStarted values len num
    → nonzero_from values 0 len ≡ prime_count num
counted values len num v =
    let e : prime_count num ≡ 0 + prime_count num = omega arith in
    nonzero_from-count values 0 (prime_count num) len v.room
      (λ x ge lt z. omega (arith, full values len num v x (omega (arith, lt)), z))
      (ap values (sym e) ∙ v.stop)

first_values-fill_values :
    (values : ℕ → ℕ) (len : ℕ)
    → 0 < len
    → first_values values len ≡ fill_values (values 0 == 0) values len
unfolding first_values value_at
first_values-fill_values values len lt = rw (first_values, value_at, lt→ltb 0 len lt) refl

first_values-same :
    (values : ℕ → ℕ) (len num : ℕ)
    → IsStarted values len num
    → first_values values len ≡ done values
unfolding fill_values
first_values-same values len num v =
    first_values-fill_values values len (omega (arith, v.room))
    ∙ ap (λ (b : Bool). fill_values b values len)
        (ne→not-== (values 0) 0 (λ z. omega (arith, z, full values len num v 0 v.some_prime)))

-- A file that begins with a zero.
pub record IsBlank (values : ℕ → ℕ) (len : ℕ) : Type 0 where
  pub empty : values 0 ≡ 0
  pub stop : values 2 ≡ 0
  pub room : 2 < len

abbrev two_primes : (ℕ → ℕ) → ℕ → ℕ
two_primes values = update (update values 0 2) 1 3

first_values-blank :
    (values : ℕ → ℕ) (len : ℕ)
    → IsBlank values len
    → first_values values len ≡ done (two_primes values)
unfolding fill_values set_value
first_values-blank values len b =
    first_values-fill_values values len (omega (arith, b.room))
    ∙ ap (λ (t : Bool). fill_values t values len) (eq→== (values 0) 0 b.empty)
    ∙ rw
        (
          fill_values,
          set_value,
          lt→ltb 0 len (omega (arith, b.room)),
          lt→ltb 1 len (omega (arith, b.room)),
        )
        refl

two_primes-IsStarted :
    (values : ℕ → ℕ) (len : ℕ) → IsBlank values len → IsStarted (two_primes values) len 4
unfolding primes_below is_prime has_divisor words_from
two_primes-IsStarted values len b = record {
  some_prime = omega arith;
  lists = refl;
  stop = b.stop;
  room = b.room;
}

-- The last of the values, and the list below the number after it.
largest :
    (values : ℕ → ℕ) (len num : ℕ)
    → IsStarted values len num
    → (p : ℕ) × (values (prime_count num - 1) ≡ p)
      × (is_prime p ≡ true)
      × (primes_below (p + 1) ≡ primes_below num)
largest values len num v =
    let k = prime_count num - 1 in
    let at : prime_count num ≡ suc k = omega (arith, v.some_prime) in
    let (p, split, prime) = largest-prime num k at in
    let e : k ≡ 0 + k = omega arith in
    (
      p,
      ap values e
          ∙ last_of-words_from values 0 k (primes_below p) p
              (ap (λ (n : ℕ). words_from values 0 n) (sym at) ∙ v.lists ∙ split),
      prime,
      prime_count-suc-prime p prime ∙ sym split,
    )

-- A limit with more prime numbers below it is larger.
below_limit : (n limit : ℕ) → prime_count n < prime_count limit → n ≤ limit
below_limit n limit more = elim (dec_lt limit n) [
  | no h ↦ omega (arith, h)
  | yes lt ↦
      let e : limit + (n - limit) ≡ n = omega (arith, lt) in
      absurd
        (omega (arith, prime_count-le (n - limit) limit, ap (λ (m : ℕ). prime_count m) e, more))
]

run_from-fill_slots :
    (fuel pos : ℕ) (values : ℕ → ℕ) (len p : ℕ)
    → 0 < pos
    → pos < len
    → values (pos - 1) ≡ p
    → p + 1 < 2 ^ 64
    → run_from fuel pos values len
      ≡ fill_slots fuel (chunk_end pos len - pos) pos (p + 1) values len
unfolding run_from
run_from-fill_slots fuel pos values len p some lt last small =
    rw
      (
        run_from,
        lt→ltb 0 pos some,
        last,
        lt→ltb (p + 1) (2 ^ 64) small,
        lt→not-leb (min (pos + 100000) len) pos (omega (arith, lt)),
      )
      refl

-- The chunk, once the first values are there.
filled_from :
    (fuel : ℕ) (values : ℕ → ℕ) (len num limit : ℕ)
    → IsStarted values len num
    → limit ≤ 2 ^ 33 - 1
    → limit ≤ fuel
    → chunk_end (prime_count num) len ≤ prime_count limit
    → (filled : ℕ → ℕ) × (bound : ℕ) × (run_from fuel (prime_count num) values len ≡ done filled)
      × (prime_count bound ≡ chunk_end (prime_count num) len)
      × (words_from filled 0 (chunk_end (prime_count num) len) ≡ primes_below bound)
      × ((x : ℕ) → chunk_end (prime_count num) len ≤ x → filled x ≡ values x)
filled_from fuel values len num limit v small enough more =
    let pos = prime_count num in
    let (p, last, prime, same) = largest values len num v in
    let behind : pos < chunk_end pos len = omega (arith, v.room) in
    let e : pos + (chunk_end pos len - pos) ≡ chunk_end pos len = omega (arith, behind) in
    let le : p + 1 ≤ limit =
      below_limit (p + 1) limit (omega (arith, ap length same, behind, more)) in
    let f =
      fill_slots-Filled fuel (chunk_end pos len - pos) pos (p + 1) values len limit
        (sym (ap length same)) (omega (arith, prime-ge p prime)) le small enough
        (omega (arith, e, more)) (omega (arith, e)) (v.lists ∙ sym same) in
    (
      f.filled,
      f.bound,
      run_from-fill_slots fuel pos values len p v.some_prime v.room last (omega (arith, le, small))
          ∙ f.returns,
      f.counted ∙ e,
      ap (λ (n : ℕ). words_from f.filled 0 n) (sym e) ∙ f.lists,
      λ x ge. f.outside x (inr (omega (arith, e, ge))),
    )

run_chunk-run_from :
    (fuel : ℕ) (values values' : ℕ → ℕ) (len pos : ℕ)
    → first_values values len ≡ done values'
    → nonzero_from values' 0 len ≡ pos
    → run_chunk fuel values len ≡ run_from fuel pos values' len
unfolding run_chunk
run_chunk-run_from fuel values values' len pos first at = rw (run_chunk, first, at) refl

two_slots : (num len : ℕ) → num ≡ 4 → 2 < len → 2 ≤ chunk_end (prime_count num) len
two_slots num len four lt = omega (arith, lt)

pub run_chunk-Fills :
    (fuel : ℕ) (values : ℕ → ℕ) (len num limit : ℕ)
    → IsStarted values len num ⊎ ((num ≡ 4) × IsBlank values len)
    → limit ≤ 2 ^ 33 - 1
    → limit ≤ fuel
    → chunk_end (prime_count num) len ≤ prime_count limit
    → Fills fuel values len num
run_chunk-Fills fuel values len num limit (inl v) small enough more =
    let (filled, bound, returns, at, lists, outside) =
      filled_from fuel values len num limit v small enough more in
    record {
      filled = filled;
      bound = bound;
      returns =
          run_chunk-run_from fuel values values len (prime_count num)
            (first_values-same values len num v) (counted values len num v)
          ∙ returns;
      counted = at;
      lists = lists;
      outside = outside;
    }
run_chunk-Fills fuel values len num limit (inr (four, b)) small enough more =
    let v =
      subst (IsStarted (two_primes values) len) (sym four) (two_primes-IsStarted values len b) in
    let (filled, bound, returns, at, lists, outside) =
      filled_from fuel (two_primes values) len num limit v small enough more in
    let two : 2 ≤ chunk_end (prime_count num) len = two_slots num len four b.room in
    record {
      filled = filled;
      bound = bound;
      returns =
          run_chunk-run_from fuel values (two_primes values) len (prime_count num)
            (first_values-blank values len b) (counted (two_primes values) len num v)
          ∙ returns;
      counted = at;
      lists = lists;
      outside = λ x ge.
          outside x ge
          ∙ update-outside (update values 0 2) 1 3 x (omega (arith, ge, two))
          ∙ update-outside values 0 2 x (omega (arith, ge, two));
    }
