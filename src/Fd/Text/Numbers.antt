-- ===== src/Fd/Text/Numbers.antt =====
-- Printing and parsing of numbers in the environment, shm-fd/src/listenfd.rs.
use native.Mathlib.Nat.{pow-suc}
use shmfd.Prelude.{
  ℕ, zero, suc, ◌+◌, ◌-◌, ◌*◌, ◌/◌, ◌%◌, ◌^◌, ◌<◌, ◌≡◌, ◌≢◌, refl, ap, ◌∙◌, arith, ltb, leb, ◌&&◌,
  Bool-cases, inl, inr, some, [], ◌∷◌, ◌++◌, lt→ltb, ltb→lt,
}
use shmfd.Fd.Text.{Text, pos, parse_digits, parse_unsigned, parse_i32, in_i32, decimal, to_string}

-- Digits behind others.
parse_digits-++ :
    (n m d : ℕ) (t : Text)
    → d < 10
    → parse_digits n t ≡ some m
    → parse_digits n (t ++ ((48 + d) ∷ [])) ≡ some (10 * m + d)
unfolding parse_digits
parse_digits-++ n m d [] lt e = ground (arith, e)
parse_digits-++ n m d (c ∷ t) lt e = elim (Bool-cases (leb 48 c && leb c 57)) [
  | inl digit ↦ rw digit (parse_digits-++ (10 * n + (c - 48)) m d t lt (rw digit at e))
  | inr bad ↦ let never = rw bad at e in absurd cc
]

one_digit : (n : ℕ) → n < 10 → parse_digits 0 ((48 + n) ∷ []) ≡ some n
unfolding parse_digits
one_digit n lt = ground arith

-- The digits of a number parse to it.
parse_digits-decimal :
    (left n : ℕ) → n < 10 ^ suc left → parse_digits 0 (decimal (suc left) n) ≡ some n
unfolding decimal
parse_digits-decimal zero n lt = let small = lt→ltb n 10 lt in rw small (one_digit n lt)
parse_digits-decimal (suc left) n lt = elim (Bool-cases (ltb n 10)) [
  | inl small ↦ rw small (one_digit n (ltb→lt n 10 small))
  | inr large ↦
      let front = parse_digits-decimal left (n / 10) (omega (arith, lt, pow-suc 10 (suc left))) in
      let last =
        parse_digits-++ 0 (n / 10) (n % 10) (decimal (suc left) (n / 10)) (omega arith) front in
      let whole : 10 * (n / 10) + n % 10 ≡ n = omega arith in rw large (last ∙ ap some whole)
]

snoc-nonempty : (t : Text) (d : ℕ) → t ++ (d ∷ []) ≢ []
snoc-nonempty [] d = λ e. absurd cc
snoc-nonempty (c ∷ t) d = λ e. absurd cc

decimal-nonempty : (left n : ℕ) → decimal (suc left) n ≢ []
unfolding decimal
decimal-nonempty left n = elim (Bool-cases (ltb n 10)) [
  | inl small ↦ λ e. let never = rw small at e in absurd cc
  | inr large ↦ λ e. snoc-nonempty (decimal left (n / 10)) (48 + n % 10) (rw large at e)
]

parse_i32_digits :
    (t : Text) (n : ℕ)
    → t ≢ []
    → parse_digits 0 t ≡ some n
    → n < 2 ^ 31
    → parse_i32 t ≡ some (pos n)
unfolding parse_i32 parse_unsigned parse_digits in_i32
parse_i32_digits [] n ne e lt = absurd (ne refl)
parse_i32_digits (c ∷ t) n ne e lt = ground (arith, e)

-- A number that an `i32` holds and that is not negative is parsed as it was printed.
pub parse_i32-to_string : (n : ℕ) → n < 2 ^ 31 → parse_i32 (to_string (pos n)) ≡ some (pos n)
unfolding to_string
parse_i32-to_string n lt =
    parse_i32_digits (decimal 10 n) n (decimal-nonempty 9 n)
      (parse_digits-decimal 9 n (omega arith)) lt
