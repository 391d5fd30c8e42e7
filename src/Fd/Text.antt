-- ===== src/Fd/Text.antt =====
-- The texts of environment variables in shm-fd/src/listenfd.rs: what `split`, `join`, `parse` and
-- `to_string` of the standard library do with them. A text is the list of its characters' codes.
pub mod Numbers
pub mod Names
use shmfd.Prelude.{
  ℕ, zero, suc, ◌+◌, ◌-◌, ◌*◌, ◌/◌, ◌%◌, ◌^◌, ◌==◌, ltb, leb, not, ◌&&◌, if◌then◌else◌, Bool, true,
  false, Run, done, panic, Option, none, some, List, [], ◌∷◌, ◌++◌,
}

-- Integers over the native numbers: `negsuc n` is `-(n + 1)`.
pub data ℤ : Type 0 where
  pos : ℕ → ℤ
  negsuc : ℕ → ℤ

infixl 6 ◌+ℤ◌
unfoldable pub ◌+ℤ◌ : ℤ → ℤ → ℤ
pos a +ℤ pos b = pos (a + b)
pos a +ℤ negsuc b = if ltb b a then pos (a - suc b) else negsuc (b - a)
negsuc a +ℤ pos b = if ltb a b then pos (b - suc a) else negsuc (a - b)
negsuc a +ℤ negsuc b = negsuc (suc (a + b))

-- The values of `i32`, sums of them with overflow checks, and the cast from `usize`.
unfoldable pub in_i32 : ℤ → Bool
in_i32 (pos a) = ltb a (2 ^ 31)
in_i32 (negsuc a) = ltb a (2 ^ 31)

unfoldable pub add_i32 : ℤ → ℤ → Run ℤ
unfolding in_i32 ◌+ℤ◌
add_i32 a b = if in_i32 (a +ℤ b) then done (a +ℤ b) else panic

unfoldable pub as_i32 : ℕ → ℤ
as_i32 n = let m = n % 2 ^ 32 in if ltb m (2 ^ 31) then pos m else negsuc (2 ^ 32 - suc m)

abbrev pub same_i32 : ℤ → ℤ → Bool
same_i32 (pos a) (pos b) = a == b
same_i32 (negsuc a) (negsuc b) = a == b
same_i32 a b = false

abbrev pub Text : Type 0
Text = List ℕ

unfoldable pub text_eq : Text → Text → Bool
text_eq [] [] = true
text_eq (a ∷ s) (b ∷ t) = (a == b) && text_eq s t
text_eq s t = false

-- `str::parse` to `i32`, as far as it says whether there is a value: an optional sign, and at least one
-- digit.
unfoldable pub parse_digits : ℕ → Text → Option ℕ
parse_digits n [] = some n
parse_digits n (c ∷ rest) =
    let further = parse_digits (10 * n + (c - 48)) rest in
    if leb 48 c && leb c 57 then further else none

unfoldable pub parse_unsigned : Text → Option ℕ
unfolding parse_digits
parse_unsigned [] = none
parse_unsigned (c ∷ rest) = parse_digits 0 (c ∷ rest)

unfoldable pub negate : ℕ → ℤ
negate zero = pos 0
negate (suc n) = negsuc n

abbrev pub checked_i32 : (ℕ → ℤ) → Option ℕ → Option ℤ
checked_i32 sign none = none
checked_i32 sign (some n) = if in_i32 (sign n) then some (sign n) else none

unfoldable pub parse_i32 : Text → Option ℤ
unfolding parse_unsigned in_i32 negate
parse_i32 [] = none
parse_i32 (c ∷ rest) =
    if c == 45
    then checked_i32 negate (parse_unsigned rest)
    else if c == 43
    then checked_i32 pos (parse_unsigned rest)
    else checked_i32 pos (parse_unsigned (c ∷ rest))

-- `to_string` of an `i32`, whose absolute value has at most ten digits.
unfoldable pub decimal : ℕ → ℕ → Text
decimal zero n = []
decimal (suc left) n =
    let front = decimal left (n / 10) in
    if ltb n 10 then (48 + n) ∷ [] else front ++ ((48 + n % 10) ∷ [])

unfoldable pub to_string : ℤ → Text
unfolding decimal
to_string (pos n) = decimal 10 n
to_string (negsuc n) = 45 ∷ decimal 10 (suc n)

-- `split(":")`
unfoldable pub split : Text → List Text
split [] = [] ∷ []
split (c ∷ rest) =
    let further = split rest in
    if c == 58 then [] ∷ further else elim further [ w ∷ ws ↦ (c ∷ w) ∷ ws | [] ↦ (c ∷ []) ∷ [] ]

-- `join(":")`
unfoldable pub join : List Text → Text
join [] = []
join (w ∷ []) = w
join (w ∷ v ∷ ws) = w ++ (58 ∷ join (v ∷ ws))
