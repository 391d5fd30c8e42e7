-- ===== src/Sieve/Snapshots/Candidates.antt =====
-- The loop of `run_main_routine` in examples/primes-snapshot/src/main.rs adds the prime numbers among
-- its candidates to the tail.
use shmfd.Prelude.{
  ℕ, zero, suc, ◌+◌, ◌-◌, ◌*◌, ◌^◌, ◌≤◌, ◌<◌, ◌≡◌, ◌⊎◌, inl, inr, refl, sym, ap, ◌∙◌, arith,
  Bool-cases, true, false, done, List, [], ◌∷◌, ◌++◌, length, length-append,
}
use shmfd.Snapshot.Layout.{PageSlice, WriteHead, update}
use shmfd.Snapshot.Ring.Entries.{update-outside, update-WordsFit}
use shmfd.Snapshot.Ring.Bytes.{WordsFit}
use shmfd.Sieve.{check_prime}
use shmfd.Sieve.Primes.{is_prime, primes_below}
use shmfd.Sieve.Check.{check_prime-is_prime}
use shmfd.Sieve.Snapshots.{words_from, values_to, try_candidates}
use shmfd.Sieve.Snapshots.Tail.{words_from-update, store-done, values_to-done}

-- How many prime numbers lie below a number.
abbrev pub prime_count : ℕ → ℕ
prime_count n = length (primes_below n)

pub prime_count-suc-prime :
    (n : ℕ) → is_prime n ≡ true → primes_below (n + 1) ≡ primes_below n ++ (n ∷ [])
unfolding primes_below
prime_count-suc-prime n prime =
    let e : n + 1 ≡ suc n = omega arith in rw (e, primes_below, prime) refl

pub primes_below-suc-other : (n : ℕ) → is_prime n ≡ false → primes_below (n + 1) ≡ primes_below n
unfolding primes_below
primes_below-suc-other n other =
    let e : n + 1 ≡ suc n = omega arith in rw (e, primes_below, other) refl

-- The tail begins with the prime numbers below a number.
abbrev pub Lists : PageSlice → (ℕ → ℕ) → ℕ → Type 0
Lists tail words n = words_from words (tail.start * 512) (prime_count n) ≡ primes_below n

-- One round of the loop, on a prime number and on another one.
module _ (tail : PageSlice) (count candidate pos : ℕ) (head : WriteHead) (values : List ℕ) where
  try_candidates-true :
      values_to head tail pos ≡ done values
      → check_prime candidate values ≡ done true
      → pos < tail.len * 512
      → try_candidates tail (suc count) candidate pos head
        ≡ try_candidates tail count
            (candidate + 1)
            (pos + 1)
            (record head { words = update head.words (tail.start * 512 + pos) candidate })
  unfolding try_candidates
  try_candidates-true seen checked room =
      rw (try_candidates, seen, checked, store-done head tail pos candidate room) refl

  try_candidates-false :
      values_to head tail pos ≡ done values
      → check_prime candidate values ≡ done false
      → try_candidates tail (suc count) candidate pos head
        ≡ try_candidates tail count (candidate + 1) pos head
  unfolding try_candidates
  try_candidates-false seen checked = rw (try_candidates, seen, checked) refl

-- The loop has returned at `end`, behind the prime numbers below it, and stored only between the
-- position where it began and the one where it returned.
pub record Tried (tail : PageSlice) (count candidate pos end : ℕ) (head : WriteHead) : Type 0 where
  pub words : ℕ → ℕ
  pub returns :
      try_candidates tail count candidate pos head
      ≡ done (prime_count end, record head { words = words })
  pub lists : Lists tail words end
  pub more : prime_count end ≤ pos + count
  pub grows : pos ≤ prime_count end
  pub outside :
      (a : ℕ)
      → (a < tail.start * 512 + pos) ⊎ (tail.start * 512 + prime_count end ≤ a)
      → words a ≡ head.words a
  pub fit : WordsFit head.words → WordsFit words

pub try_candidates-Tried :
    (tail : PageSlice) (count candidate pos end : ℕ) (head : WriteHead)
    → candidate + count ≡ end
    → pos ≡ prime_count candidate
    → 2 ≤ candidate
    → end ≤ 2 ^ 33 - 1
    → pos + count ≤ tail.len * 512
    → words_from head.words (tail.start * 512) pos ≡ primes_below candidate
    → Tried tail count candidate pos end head
unfolding try_candidates
try_candidates-Tried tail zero candidate pos end head stop at ge le room lists =
    let e : candidate ≡ end = omega (arith, stop) in
    let at_end : pos ≡ prime_count end = at ∙ ap (λ (n : ℕ). prime_count n) e in
    record {
      words = head.words;
      returns = ap (λ (n : ℕ). done (n, head)) at_end;
      lists =
          ap (λ (n : ℕ). words_from head.words (tail.start * 512) n) (sym at_end)
          ∙ lists
          ∙ ap primes_below e;
      more = omega (arith, at_end);
      grows = omega (arith, at_end);
      outside = λ a o. refl;
      fit = λ f. f;
    }
try_candidates-Tried tail (suc count) candidate pos end head stop at ge le room lists =
    let seen = values_to-done head tail pos (omega arith) ∙ ap done lists in
    let checked = check_prime-is_prime candidate ge (omega (arith, stop, le)) in
    elim (Bool-cases (is_prime candidate)) [
      | inl prime ↦
          let next = prime_count-suc-prime candidate prime in
          let words' = update head.words (tail.start * 512 + pos) candidate in
          let rest =
            try_candidates-Tried tail count (candidate + 1) (pos + 1) end
              (record head { words = words' }) (omega (arith, stop))
              (omega (
                arith,
                at,
                ap length next,
                length-append (primes_below candidate) (candidate ∷ []),
              ))
              (omega (arith, ge)) le (omega (arith, room))
              (words_from-update head.words (tail.start * 512) pos candidate
                ∙ ap (λ (xs : List ℕ). xs ++ (candidate ∷ [])) lists
                ∙ sym next) in
          record {
            words = rest.words;
            returns =
                try_candidates-true tail count candidate pos head (primes_below candidate) seen
                  (checked ∙ ap done prime) (omega (arith, room))
                ∙ rest.returns;
            lists = rest.lists;
            more = omega (arith, rest.more);
            grows = omega (arith, rest.grows);
            outside = λ a o.
                rest.outside a (elim o [ inl h ↦ inl (omega (arith, h)) | inr h ↦ inr h ])
                ∙ update-outside head.words (tail.start * 512 + pos) candidate a
                    (omega (arith, o, rest.grows));
            fit = λ f.
                rest.fit
                  (update-WordsFit (tail.start * 512 + pos) candidate f (omega (arith, stop, le)));
          }
      | inr other ↦
          let next = primes_below-suc-other candidate other in
          let rest =
            try_candidates-Tried tail count (candidate + 1) pos end head (omega (arith, stop))
              (at ∙ ap length (sym next)) (omega (arith, ge)) le (omega (arith, room))
              (lists ∙ sym next) in
          record {
            words = rest.words;
            returns =
                try_candidates-false tail count candidate pos head (primes_below candidate) seen
                  (checked ∙ ap done other)
                ∙ rest.returns;
            lists = rest.lists;
            more = omega (arith, rest.more);
            grows = rest.grows;
            outside = rest.outside;
            fit = rest.fit;
          }
    ]
