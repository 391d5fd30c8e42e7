-- ===== src/Sieve/Check.antt =====
-- `check_prime` of examples/primes/src/main.rs and examples/primes-snapshot/src/main.rs finds the prime
-- numbers, if it is given all the smaller ones.
use native.Mathlib.Decide.{ℕ_discrete, dec_lt}
use native.Mathlib.Nat.{mul-le-mul}
use shmfd.Prelude.{
  ℕ, zero, suc, ◌+◌, ◌-◌, ◌*◌, ◌%◌, ◌^◌, ◌≤◌, ◌<◌, ◌≡◌, ◌≢◌, inl, inr, refl, ap, subst, arith, ◌==◌,
  ltb, le→leb, le→not-ltb, lt→ltb, eq→==, ne→not-==, Bool-cases, true, false, done, List, [], ◌∷◌,
  ◌++◌,
}
use shmfd.Sieve.{check_from, check_prime}
use shmfd.Sieve.Sqrt.{CeilSqrt, upper_int_sqrt-CeilSqrt}
use shmfd.Sieve.Primes.{
  is_prime, primes_below, has_divisor, has_divisor-false, NoDivisor, NoDivisor-false, least_divisor,
  least-is_prime, least-square, prime-ge,
}

abbrev pub All : (ℕ → Type 0) → List ℕ → Type 0
All P [] = Unit
All P (x ∷ xs) = P x × All P xs

All-append : (P : ℕ → Type 0) (xs ys : List ℕ) → All P xs → All P ys → All P (xs ++ ys)
All-append P [] ys hx hy = hy
All-append P (x ∷ xs) ys hx hy = (hx.0, All-append P xs ys hx.1 hy)

append-cons :
    (xs : List ℕ) (x : ℕ) (ys zs : List ℕ) → (xs ++ (x ∷ ys)) ++ zs ≡ xs ++ (x ∷ (ys ++ zs))
append-cons [] x ys zs = refl
append-cons (y ∷ xs) x ys zs = ap (λ (t : List ℕ). y ∷ t) (append-cons xs x ys zs)

-- What holds of every prime number below `k` holds of the list of them.
pub All-primes_below :
    (P : ℕ → Type 0) (k : ℕ) → ((p : ℕ) → 2 ≤ p → p < k → P p) → All P (primes_below k)
unfolding primes_below is_prime
All-primes_below P zero all = tt
All-primes_below P (suc k) all =
    let lower = All-primes_below P k (λ p ge lt. all p ge (omega arith)) in
    elim (Bool-cases (is_prime k)) [
      | inl prime ↦
          rw (primes_below, prime)
            (All-append P (primes_below k) (k ∷ []) lower
              (all k (prime-ge k prime) (omega arith), tt))
      | inr other ↦ rw (primes_below, other) lower
    ]

-- The list below a number begins with the list below a smaller prime number, and that number.
pub primes_below-split :
    (d k : ℕ)
    → is_prime d ≡ true
    → d < k
    → (rest : List ℕ) × (primes_below k ≡ primes_below d ++ (d ∷ rest))
unfolding primes_below
primes_below-split d zero prime lt = absurd (omega arith)
primes_below-split d (suc k) prime lt = elim (ℕ_discrete d k) [
  | yes e ↦ (
    [],
    subst (λ (x : ℕ). primes_below (suc x) ≡ primes_below d ++ (d ∷ [])) e
        (rw (primes_below, prime) refl),
  )
  | no ne ↦
      let (rest, same) = primes_below-split d k prime (omega (arith, ne)) in
      elim (Bool-cases (is_prime k)) [
        | inl also ↦ (
          rest ++ (k ∷ []),
          rw (primes_below, also, same) (append-cons (primes_below d) d rest (k ∷ [])),
        )
        | inr other ↦ (rest, rw (primes_below, other) same)
      ]
]

-- No number of the list divides.
check_from-true :
    (bound num : ℕ) (primes : List ℕ)
    → All (λ p. (0 < p) × (num % p ≢ 0)) primes
    → check_from bound num primes ≡ done true
unfolding check_from
check_from-true bound num [] all = refl
check_from-true bound num (zero ∷ primes) all = absurd (omega (arith, all.0))
check_from-true bound num (suc n ∷ primes) all = elim (Bool-cases (ltb bound (suc n))) [
  | inl past ↦ rw (check_from, past) refl
  | inr within ↦
      rw (check_from, within, ne→not-== (num % suc n) 0 all.0.1)
        (check_from-true bound num primes all.1)
]

-- A number within the bound divides, and none before it is past the bound.
check_from-false :
    (bound num d : ℕ) (before rest : List ℕ)
    → All (λ p. (0 < p) × (p ≤ bound)) before
    → 0 < d
    → d ≤ bound
    → num % d ≡ 0
    → check_from bound num (before ++ (d ∷ rest)) ≡ done false
unfolding check_from
check_from-false bound num zero [] rest all pos_d le divides = absurd (omega arith)
check_from-false bound num (suc d) [] rest all pos_d le divides =
    rw (check_from, le→not-ltb bound (suc d) le, eq→== (num % suc d) 0 divides) refl
check_from-false bound num d (zero ∷ before) rest all pos_d le divides =
    absurd (omega (arith, all.0))
check_from-false bound num d (suc n ∷ before) rest all pos_d le divides =
    elim (Bool-cases (num % suc n == 0)) [
      | inl found ↦ rw (check_from, le→not-ltb bound (suc n) all.0.1, found) refl
      | inr other ↦
          rw (check_from, le→not-ltb bound (suc n) all.0.1, other)
            (check_from-false bound num d before rest all.1 pos_d le divides)
    ]

root_le : (d num bound : ℕ) → CeilSqrt num bound → d * d ≤ num → d ≤ bound
root_le d num bound ceil le = elim (dec_lt bound d) [
  | no h ↦ omega (arith, h)
  | yes h ↦
      let up : (bound + 1) * (bound + 1) ≤ d * d =
        mul-le-mul (omega (arith, h)) (omega (arith, h)) in
      absurd (grind (arith, up, le, ceil.enough))
]

composite : (num d : ℕ) → 2 ≤ d → d < num → num % d ≡ 0 → has_divisor num num ≡ true
composite num d ge lt divides = elim (Bool-cases (has_divisor num num)) [
  | inl found ↦ found
  | inr none_in ↦ absurd (has_divisor-false num num none_in d ge lt divides)
]

-- Of a number from 2 to 2 ^ 33 - 2, with the prime numbers below it in order, `check_prime` tells
-- whether it is a prime number.
pub check_prime-is_prime :
    (num : ℕ)
    → 2 ≤ num
    → num < 2 ^ 33 - 1
    → check_prime num (primes_below num) ≡ done (is_prime num)
unfolding check_prime is_prime
check_prime-is_prime num ge lt = elim (upper_int_sqrt-CeilSqrt num) [
  | inr over ↦ absurd (omega (arith, over.0, lt))
  | inl (below, (bound, root, ceil)) ↦ elim (least_divisor num num) [
    | inl none_in ↦
        rw
          (
            check_prime,
            root,
            check_from-true bound num (primes_below num) (
                All-primes_below (λ p. (0 < p) × (num % p ≢ 0)) num
                  (λ p ge_p lt_p. (omega (arith, ge_p), none_in p ge_p lt_p))),
            is_prime,
            le→leb 2 num ge,
            NoDivisor-false num num none_in,
          )
          refl
    | inr (d, ge_d, lt_d, divides, least) ↦
        let prime = least-is_prime d num ge_d divides least in
        let (rest, split) = primes_below-split d num prime lt_d in
        let le = root_le d num bound ceil (least-square d num ge_d lt_d divides least) in
        rw
          (
            check_prime,
            root,
            split,
            check_from-false bound num d (primes_below d) rest
                (All-primes_below (λ p. (0 < p) × (p ≤ bound)) d
                  (λ p ge_p lt_p. (omega (arith, ge_p), omega (arith, lt_p, le))))
                (omega (arith, ge_d)) le divides,
            is_prime,
            composite num d ge_d lt_d divides,
          )
          (rw (le→leb 2 num ge) refl)
  ]
]

-- The square root bound of a prime number from 3 on is below it.
bound_below : (p bound : ℕ) → 3 ≤ p → CeilSqrt p bound → bound < p
bound_below p bound ge ceil = elim (dec_lt bound p) [
  | yes lt ↦ lt
  | no h ↦
      let short = ceil.least (p - 1) (omega (arith, ge)) (omega (arith, h, ge)) in
      let up : 2 * (p - 1) ≤ (p - 1) * (p - 1) = mul-le-mul (omega (arith, ge)) (omega arith) in
      absurd (omega (arith, short, up, ge))
]

-- The search ends at a number past the bound, and none before it divides.
check_from-past :
    (bound num p : ℕ) (before rest : List ℕ)
    → All (λ q. (0 < q) × (num % q ≢ 0)) before
    → bound < p
    → check_from bound num (before ++ (p ∷ rest)) ≡ done true
unfolding check_from
check_from-past bound num p [] rest all past = rw (check_from, lt→ltb bound p past) refl
check_from-past bound num p (zero ∷ before) rest all past = absurd (omega (arith, all.0))
check_from-past bound num p (suc n ∷ before) rest all past = elim (Bool-cases (ltb bound (suc n))) [
  | inl over ↦ rw (check_from, over) refl
  | inr within ↦
      rw (check_from, within, ne→not-== (num % suc n) 0 all.0.1)
        (check_from-past bound num p before rest all.1 past)
]

is_prime-NoDivisor : (p : ℕ) → is_prime p ≡ true → NoDivisor p p
unfolding is_prime
is_prime-NoDivisor p h = has_divisor-false p p (ground (arith, h))

-- A prime number from 3 to 2 ^ 33 - 2 is found again although it stands in the list already: the search
-- stops before it.
pub check_prime-again :
    (p : ℕ)
    → 3 ≤ p
    → p < 2 ^ 33 - 1
    → is_prime p ≡ true
    → check_prime p (primes_below (p + 1)) ≡ done true
unfolding check_prime primes_below
check_prime-again p ge lt prime = elim (upper_int_sqrt-CeilSqrt p) [
  | inr over ↦ absurd (omega (arith, over.0, lt))
  | inl (below, (bound, root, ceil)) ↦
      let e : p + 1 ≡ suc p = omega arith in
      rw (check_prime, root, e, primes_below, prime)
        (check_from-past bound p p (primes_below p) []
          (All-primes_below (λ q. (0 < q) × (p % q ≢ 0)) p
            (λ q ge_q lt_q. (omega (arith, ge_q), is_prime-NoDivisor p prime q ge_q lt_q)))
          (bound_below p bound ge ceil))
]
