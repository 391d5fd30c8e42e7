-- ===== src/Fd/Listen/Position.antt =====
-- Positions of names in `ListenFd::names`, and numbers of descriptors that do not overflow, for
-- shm-fd/src/listenfd.rs and shm-fd/src/lib.rs.
use shmfd.Prelude.{
  ℕ, ◌+◌, ◌%◌, ◌^◌, ◌<◌, ◌≡◌, ◌⊎◌, refl, ap, arith, lt→ltb, eq→==, Bool-cases, true, inl, inr, done,
  Option, none, some, List, [], ◌∷◌, ◌++◌, length,
}
use shmfd.Fd.Text.{Text, pos, ◌+ℤ◌, in_i32, add_i32, as_i32, text_eq}
use shmfd.Fd.Text.Names.{NoColon}
use shmfd.Fd.Listen.{position, shm_shared_fd}

pub text_eq_refl : (t : Text) → text_eq t t ≡ true
unfolding text_eq
text_eq_refl [] = refl
text_eq_refl (c ∷ t) = rw (eq→== c c refl, text_eq_refl t)

abbrev pub or_zero : Option ℕ → ℕ
or_zero none = 0
or_zero (some n) = n

pub some-inj : {a b : ℕ} → some a ≡ some b → a ≡ b
some-inj e = ap or_zero e

pub Option-cases : (o : Option ℕ) → (o ≡ none) ⊎ ((k : ℕ) × (o ≡ some k))
Option-cases none = inl refl
Option-cases (some k) = inr (k, refl)

pub position_nil : (name : Text) → position name [] ≡ none
unfolding position
position_nil name = refl

pub position-++ :
    (name : Text) (names : List Text)
    → position name names ≡ none
    → position name (names ++ (name ∷ [])) ≡ some (length names)
unfolding position
position-++ name [] e = rw (text_eq_refl name)
position-++ name (n ∷ names) e = elim (Bool-cases (text_eq n name)) [
  | inl same ↦ let never = rw same at e in absurd cc
  | inr other ↦ elim (Option-cases (position name names)) [
    | inl absent ↦ rw (other, position-++ name names absent)
    | inr (k, found) ↦ let never = rw (other, found) at e in absurd cc
  ]
]

pub position-bound :
    (name : Text) (names : List Text) {k : ℕ} → position name names ≡ some k → k < length names
unfolding position
position-bound name [] e = absurd cc
position-bound name (n ∷ names) e = elim (Bool-cases (text_eq n name)) [
  | inl same ↦ let first = rw same at e in omega (arith, some-inj first)
  | inr other ↦ elim (Option-cases (position name names)) [
    | inl absent ↦ let never = rw (other, absent) at e in absurd cc
    | inr (j, found) ↦
        let next = rw (other, found) at e in
        omega (arith, some-inj next, position-bound name names found)
  ]
]

-- Sums of the small numbers of file descriptors do not overflow.
pub add_i32_small : (a b : ℕ) → a + b < 2 ^ 31 → add_i32 (pos a) (pos b) ≡ done (pos (a + b))
unfolding add_i32 in_i32 ◌+ℤ◌
add_i32_small a b lt = rw (lt→ltb (a + b) (2 ^ 31) lt)

pub as_i32_small : (n : ℕ) → n < 2 ^ 31 → as_i32 n ≡ pos n
unfolding as_i32
as_i32_small n lt = let whole : n % 2 ^ 32 ≡ n = omega arith in rw (whole, lt→ltb n (2 ^ 31) lt)

pub shm_shared_fd-NoColon : NoColon shm_shared_fd
shm_shared_fd-NoColon = refl
