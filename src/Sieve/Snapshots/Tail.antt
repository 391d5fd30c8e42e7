-- ===== src/Sieve/Snapshots/Tail.antt =====
-- The words of the tail as a list, for examples/primes-snapshot/src/main.rs.
use shmfd.Prelude.{
  ℕ, zero, suc, ◌+◌, ◌*◌, ◌≤◌, ◌<◌, ◌≡◌, ◌≢◌, refl, ap, ap₂, ◌∙◌, subst, arith, lt→ltb, le→leb,
  ne→not-==, eq→==, done, List, [], ◌∷◌, ◌++◌,
}
use shmfd.Snapshot.Layout.{PageSlice, WriteHead, update}
use shmfd.Snapshot.Ring.Entries.{update-outside}
use shmfd.Sieve.Snapshots.{words_from, values_to, tail_word, load, store, nonzero_from}

pub words_from-agree :
    (words words' : ℕ → ℕ) (a n : ℕ)
    → ((x : ℕ) → a ≤ x → x < a + n → words x ≡ words' x)
    → words_from words a n ≡ words_from words' a n
unfolding words_from
words_from-agree words words' a zero same = refl
words_from-agree words words' a (suc n) same = ap₂ ◌∷◌ (same a (omega arith) (omega arith)) (
    words_from-agree words words' (a + 1) n
      (λ x ge lt. same x (omega (arith, ge)) (omega (arith, lt))))

pub words_from-snoc :
    (words : ℕ → ℕ) (a n : ℕ)
    → words_from words a (n + 1) ≡ words_from words a n ++ (words (a + n) ∷ [])
unfolding words_from
words_from-snoc words a zero = let e : a + 0 ≡ a = omega arith in rw e refl
words_from-snoc words a (suc n) =
    let e : suc n + 1 ≡ suc (n + 1) = omega arith in
    let e' : a + suc n ≡ a + 1 + n = omega arith in rw (e, words_from-snoc words (a + 1) n, e') refl

-- A store behind a list of words adds one word to it.
pub words_from-update :
    (words : ℕ → ℕ) (a n v : ℕ)
    → words_from (update words (a + n) v) a (n + 1) ≡ words_from words a n ++ (v ∷ [])
words_from-update words a n v =
    words_from-snoc (update words (a + n) v) a n
    ∙ ap₂ (λ (xs : List ℕ) (x : ℕ). xs ++ (x ∷ []))
        (words_from-agree (update words (a + n) v) words a n
          (λ x ge lt. update-outside words (a + n) v x (omega (arith, lt))))
        (ground arith)

pub store-done :
    (head : WriteHead) (tail : PageSlice) (i v : ℕ)
    → i < tail.len * 512
    → store head tail i v
      ≡ done (record head { words = update head.words (tail.start * 512 + i) v })
unfolding store tail_word
store-done head tail i v lt = rw (store, lt→ltb i (tail.len * 512) lt) refl

pub load-done :
    (head : WriteHead) (tail : PageSlice) (i : ℕ)
    → i < tail.len * 512
    → load head tail i ≡ done (head.words (tail.start * 512 + i))
unfolding load tail_word
load-done head tail i lt = rw (load, lt→ltb i (tail.len * 512) lt) refl

pub values_to-done :
    (head : WriteHead) (tail : PageSlice) (pos : ℕ)
    → pos ≤ tail.len * 512
    → values_to head tail pos ≡ done (words_from head.words (tail.start * 512) pos)
unfolding values_to
values_to-done head tail pos le = rw (le→leb pos (tail.len * 512) le) refl

-- Words that are not zero, and a zero behind them.
pub nonzero_from-count :
    (words : ℕ → ℕ) (a n left : ℕ)
    → n < left
    → ((x : ℕ) → a ≤ x → x < a + n → words x ≢ 0)
    → words (a + n) ≡ 0
    → nonzero_from words a left ≡ n
unfolding nonzero_from
nonzero_from-count words a n zero lt full stop = absurd (omega arith)
nonzero_from-count words a zero (suc left) lt full stop =
    let e : a + 0 ≡ a = omega arith in
    rw (nonzero_from, eq→== (words a) 0 (subst (λ (x : ℕ). words x ≡ 0) e stop)) refl
nonzero_from-count words a (suc n) (suc left) lt full stop =
    let e : a + suc n ≡ a + 1 + n = omega arith in
    rw (nonzero_from, ne→not-== (words a) 0 (full a (omega arith) (omega arith)))
      (ap suc (
        nonzero_from-count words (a + 1) n left (omega arith)
          (λ x ge lt'. full x (omega (arith, ge)) (omega (arith, lt')))
          (subst (λ (x : ℕ). words x ≡ 0) e stop)))
