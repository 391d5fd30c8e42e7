-- ===== src/Sieve/Snapshots/Routine.antt =====
-- `run_main_routine` of examples/primes-snapshot/src/main.rs, from the tail that one round leaves to the
-- next one.
use shmfd.Prelude.{
  ℕ, zero, suc, ◌+◌, ◌-◌, ◌*◌, ◌^◌, ◌≤◌, ◌<◌, ◌≡◌, refl, sym, subst, arith, done, some, length,
}
use native.Mathlib.Decide.{ℕ_discrete}
use shmfd.Snapshot.Layout.{WriteHead}
use shmfd.Snapshot.Ring.Stream.{put_bytes, bytes_at}
use shmfd.Snapshot.Ring.Copy.{data_base, data_len}
use shmfd.Snapshot.Write.{PreparedTransaction}
use shmfd.Snapshot.Write.Replace.{IsPrepared}
use shmfd.Sieve.Check.{All}
use shmfd.Sieve.Snapshots.{words_from, be_bytes, run_main_routine}
use shmfd.Sieve.Snapshots.Candidates.{prime_count, Lists, Tried, try_candidates-Tried}

-- What holds of the words of a list holds of each word.
pub words_from-All :
    (P : ℕ → Type 0) (words : ℕ → ℕ) (a n : ℕ)
    → All P (words_from words a n)
    → (x : ℕ) → a ≤ x
    → x < a + n
    → P (words x)
unfolding words_from
words_from-All P words a zero all x ge lt = absurd (omega arith)
words_from-All P words a (suc n) all x ge lt = elim (ℕ_discrete x a) [
  | yes e ↦ subst (λ (y : ℕ). P (words y)) (sym e) all.0
  | no ne ↦ words_from-All P words (a + 1) n all.1 x (omega (arith, ne, ge)) (omega (arith, lt))
]

-- A transaction whose tail holds the prime numbers below `start` and then a zero, with room for those up to
-- `end`.
pub record IsSieve (tx : PreparedTransaction) (start end : ℕ) : Type 0 where
  pub prepared : IsPrepared tx
  pub same_tail : tx.tail ≡ tx.head.tail
  pub counter : 8 ≤ tx.length
  pub lists : Lists tx.tail tx.head.words start
  pub stop : tx.head.words (tx.tail.start * 512 + prime_count start) ≡ 0
  pub started : 3 ≤ start
  pub ordered : start ≤ end
  pub small : end ≤ 2 ^ 33 - 1
  pub room : prime_count start + (end - start) < tx.tail.len * 512

-- What the routine leaves: the number of prime numbers below `end` in the bytes of the transaction, and
-- those numbers in the tail.
pub record Sieved (tx : PreparedTransaction) (start end : ℕ) : Type 0 where
  pub words : ℕ → ℕ
  pub returns :
      run_main_routine tx start end
      ≡ done (
        some (record {
          prime_total = prime_count end;
          prime_last = tx.head.words (tx.tail.start * 512 + prime_count end);
        }),
        record (tx.head) { words = words },
      )
  pub lists : Lists tx.tail words end
  pub recorded :
      bytes_at (data_base tx.head) (data_len tx.head) words tx.offset 8
      ≡ be_bytes 8 (prime_count end)

module _ (tx : PreparedTransaction) (start end : ℕ) (v : IsSieve tx start end) where
  abbrev base : ℕ
  base = tx.tail.start * 512

  tried : Tried tx.tail (end - start) start (prime_count start) end tx.head
  tried =
      try_candidates-Tried tx.tail (end - start) start (prime_count start) end tx.head
        (omega (arith, v.ordered)) refl (omega (arith, v.started)) v.small (omega (arith, v.room))
        v.lists

  -- The head after the loop.
  abbrev extended : WriteHead
  extended = record (tx.head) { words = tried.words }

  abbrev recorded_words : ℕ → ℕ
  recorded_words =
      put_bytes (data_base tx.head) (data_len tx.head) tried.words tx.offset
        (be_bytes 8 (prime_count end))
