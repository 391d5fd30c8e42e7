-- ===== src/Sieve/Chunk/Slots.antt =====
-- The loops of `run_main_routine` in examples/primes/src/main.rs: each search finds the next prime number,
-- and each slot gets one.
use shmfd.Prelude.{
  ℕ, zero, suc, ◌+◌, ◌-◌, ◌^◌, ◌≤◌, ◌<◌, ◌≡◌, ◌⊎◌, inl, inr, refl, sym, ap, ◌∙◌, arith, lt→ltb,
  le→leb, Bool-cases, true, done, List, [], ◌∷◌, ◌++◌, length, length-append,
}
use native.Mathlib.Decide.{dec_lt}
use shmfd.Snapshot.Layout.{update}
use shmfd.Snapshot.Ring.Entries.{update-outside}
use shmfd.Sieve.Primes.{is_prime, primes_below}
use shmfd.Sieve.Check.{check_prime-is_prime}
use shmfd.Sieve.Snapshots.{words_from}
use shmfd.Sieve.Snapshots.Tail.{words_from-update}
use shmfd.Sieve.Snapshots.Candidates.{prime_count, prime_count-suc-prime, primes_below-suc-other}
use shmfd.Sieve.Chunk.{set_value, values_before, next_prime, fill_slots}

-- More prime numbers below `c + d` than below `c`: one lies between.
pub prime_between :
    (d c : ℕ)
    → prime_count c < prime_count (c + d)
    → (q : ℕ) × (c ≤ q) × (q < c + d) × (is_prime q ≡ true)
prime_between zero c more =
    let e : c + 0 ≡ c = omega arith in absurd (omega (arith, more, ap (λ (n : ℕ). prime_count n) e))
prime_between (suc d) c more = elim (Bool-cases (is_prime (c + d))) [
  | inl prime ↦ (c + d, omega arith, omega arith, prime)
  | inr other ↦
      let e : c + suc d ≡ c + d + 1 = omega arith in
      let same : prime_count (c + suc d) ≡ prime_count (c + d) =
        ap (λ (n : ℕ). prime_count n) e ∙ ap length (primes_below-suc-other (c + d) other) in
      let (q, ge, lt, prime) = prime_between d c (omega (arith, more, same)) in
      (q, ge, omega (arith, lt), prime)
]

pub prime_count-le : (d c : ℕ) → prime_count c ≤ prime_count (c + d)
prime_count-le zero c =
    let e : c + 0 ≡ c = omega arith in omega (arith, ap (λ (n : ℕ). prime_count n) e)
prime_count-le (suc d) c =
    let e : c + suc d ≡ c + d + 1 = omega arith in
    let whole = ap (λ (n : ℕ). prime_count n) e in
    elim (Bool-cases (is_prime (c + d))) [
      | inl prime ↦ omega (
        arith,
        prime_count-le d c,
        whole,
        ap length (prime_count-suc-prime (c + d) prime),
        length-append (primes_below (c + d)) ((c + d) ∷ []),
      )
      | inr other ↦
          omega (arith, prime_count-le d c, whole, ap length (primes_below-suc-other (c + d) other))
    ]

-- The search from `num` on stops at the first prime number.
pub next_prime_lem :
    (fuel num q : ℕ)
    → 2 ≤ num
    → num ≤ q
    → q < 2 ^ 33 - 1
    → is_prime q ≡ true
    → q < num + fuel
    → (p : ℕ) × (num ≤ p)
      × (p ≤ q)
      × (is_prime p ≡ true)
      × (primes_below p ≡ primes_below num)
      × (next_prime fuel (primes_below num) num ≡ done p)
unfolding next_prime
next_prime_lem zero num q ge le small prime enough = absurd (omega (arith, enough, le))
next_prime_lem (suc fuel) num q ge le small prime enough =
    let checked = check_prime-is_prime num ge (omega (arith, le, small)) in
    let stepped = lt→ltb (num + 1) (2 ^ 64) (omega (arith, le, small)) in
    elim (Bool-cases (is_prime num)) [
      | inl found ↦
          (num, omega arith, le, found, refl, rw (next_prime, stepped, checked, found) refl)
      | inr other ↦
          let same = primes_below-suc-other num other in
          let further : num < q = elim (dec_lt num q) [
            | yes lt ↦ lt
            | no h ↦
                let e : num ≡ q = omega (arith, h, le) in
                let both : is_prime num ≡ is_prime q = ap is_prime e in absurd cc
          ] in
          let (p, ge_p, le_p, prime_p, same_p, returns) =
            next_prime_lem fuel (num + 1) q (omega (arith, ge)) (omega (arith, further)) small prime
              (omega (arith, enough)) in
          (
            p,
            omega (arith, ge_p),
            le_p,
            prime_p,
            same_p ∙ same,
            rw (next_prime, stepped, checked, other)
                (ap (λ (l : List ℕ). next_prime fuel l (num + 1)) (sym same) ∙ returns),
          )
    ]

words_from-set :
    (values : ℕ → ℕ) (n v : ℕ)
    → words_from (update values n v) 0 (n + 1) ≡ words_from values 0 n ++ (v ∷ [])
words_from-set values n v =
    let e : n ≡ 0 + n = omega arith in
    ap (λ (k : ℕ). words_from (update values k v) 0 (n + 1)) e ∙ words_from-update values 0 n v

-- What the outer loop leaves: one more prime number in each slot, the next ones in order.
pub record Filled (fuel count slot num : ℕ) (values : ℕ → ℕ) (len limit : ℕ) : Type 0 where
  pub filled : ℕ → ℕ
  pub bound : ℕ
  pub returns : fill_slots fuel count slot num values len ≡ done filled
  pub below : bound ≤ limit
  pub counted : prime_count bound ≡ slot + count
  pub lists : words_from filled 0 (slot + count) ≡ primes_below bound
  pub outside : (x : ℕ) → (x < slot) ⊎ (slot + count ≤ x) → filled x ≡ values x

fill_slots-step :
    (fuel count slot num p : ℕ) (values : ℕ → ℕ) (len : ℕ) (primes : List ℕ)
    → slot < len
    → p < 2 ^ 33 - 1
    → words_from values 0 slot ≡ primes
    → next_prime fuel primes num ≡ done p
    → fill_slots fuel (suc count) slot num values len
      ≡ fill_slots fuel count (slot + 1) (p + 1) (update values slot p) len
unfolding fill_slots set_value values_before
fill_slots-step fuel count slot num p values len primes lt small lists found =
    rw
      (
        fill_slots,
        le→leb slot len (omega (arith, lt)),
        lists,
        found,
        lt→ltb slot len lt,
        lt→ltb (p + 1) (2 ^ 64) (omega (arith, small)),
      )
      refl

pub fill_slots-Filled :
    (fuel count slot num : ℕ) (values : ℕ → ℕ) (len limit : ℕ)
    → slot ≡ prime_count num
    → 2 ≤ num
    → num ≤ limit
    → limit ≤ 2 ^ 33 - 1
    → limit ≤ fuel
    → slot + count ≤ prime_count limit
    → slot + count ≤ len
    → words_from values 0 slot ≡ primes_below num
    → Filled fuel count slot num values len limit
unfolding fill_slots
fill_slots-Filled fuel zero slot num values len limit at ge le small enough more room lists =
    let e : slot ≡ slot + 0 = omega arith in
    record {
      filled = values;
      bound = num;
      returns = refl;
      below = le;
      counted = sym at ∙ e;
      lists = ap (λ (n : ℕ). words_from values 0 n) (sym e) ∙ lists;
      outside = λ x o. refl;
    }
fill_slots-Filled fuel (suc count) slot num values len limit at ge le small enough more room lists =
    let e : num + (limit - num) ≡ limit = omega (arith, le) in
    let (q, ge_q, lt_q, prime_q) =
      prime_between (limit - num) num (omega (arith, more, at, ap (λ (n : ℕ). prime_count n) e)) in
    let (p, ge_p, le_p, prime_p, same_p, found) =
      next_prime_lem fuel num q ge ge_q (omega (arith, lt_q, e, small)) prime_q
        (omega (arith, lt_q, e, enough)) in
    let small_p : p < 2 ^ 33 - 1 = omega (arith, le_p, lt_q, e, small) in
    let next : primes_below (p + 1) ≡ primes_below num ++ (p ∷ []) =
      prime_count-suc-prime p prime_p ∙ ap (λ (l : List ℕ). l ++ (p ∷ [])) same_p in
    let counted : prime_count (p + 1) ≡ slot + 1 =
      ap length next ∙ omega (arith, at, length-append (primes_below num) (p ∷ [])) in
    let rest =
      fill_slots-Filled fuel count (slot + 1) (p + 1) (update values slot p) len limit (sym counted)
        (omega (arith, ge, ge_p)) (omega (arith, le_p, lt_q, e)) small enough (omega (arith, more))
        (omega (arith, room))
        (words_from-set values slot p ∙ ap (λ (l : List ℕ). l ++ (p ∷ [])) lists ∙ sym next) in
    let e' : slot + 1 + count ≡ slot + suc count = omega arith in
    record {
      filled = rest.filled;
      bound = rest.bound;
      returns =
          fill_slots-step fuel count slot num p values len (primes_below num) (omega (arith, room))
            small_p lists found
          ∙ rest.returns;
      below = rest.below;
      counted = rest.counted ∙ e';
      lists = ap (λ (n : ℕ). words_from rest.filled 0 n) (sym e') ∙ rest.lists;
      outside = λ x o.
          rest.outside x
            (elim o [ inl h ↦ inl (omega (arith, h)) | inr h ↦ inr (omega (arith, h)) ])
          ∙ update-outside values slot p x (omega (arith, o));
    }
