-- ===== src/Prelude/Bytes.antt =====
-- The bytes of a 64-bit word, written and read by masks and shifts.
use native.Mathlib.Nat.{pow-suc, one-le-pow, pow-le-pow_right, div-div-eq-div-mul}
use native.Mathlib.Numerals.{towards_suc}
use Prim.Native.Nat.{ℕ, zero, suc, ◌+◌, ◌-◌, ◌*◌, ◌/◌, ◌%◌, ◌^◌, ◌<◌, bit_and, bit_or}
use mathlib.Core.Path.{◌≡◌, refl, sym, ap, ◌∙◌}
use native.Mathlib.Omega.{arith}
use shmfd.Prelude.Tests.{◌==◌, if◌then◌else◌}
use shmfd.Prelude.Bits.{
  bit_and-zero, zero-bit_or, bit_or-zero, bit_and_split, bit_or_split, bit_and-ones,
  bit_and-ones_of_lt,
}

-- `old & !(0xff << shift) | byte << shift`
unfoldable pub set_byte : ℕ → ℕ → ℕ → ℕ
set_byte old shift byte = bit_or (bit_and old (2 ^ 64 - 1 - 0xff * 2 ^ shift)) (byte * 2 ^ shift)

-- `(old >> shift) & 0xff`
unfoldable pub get_byte : ℕ → ℕ → ℕ
get_byte old shift = bit_and (old / 2 ^ shift) 0xff

-- The digit of a number at base 256, and the number with another digit there.
digit : ℕ → ℕ → ℕ
digit zero w = w % 256
digit (suc j) w = digit j (w / 256)

put : ℕ → ℕ → ℕ → ℕ
put zero b w = w / 256 * 256 + b
put (suc o) b w = put o b (w / 256) * 256 + w % 256

digit-put : (j o b w : ℕ) → b < 256 → digit j (put o b w) ≡ (if o == j then b else digit j w)
unfolding digit put
digit-put zero zero b w h = omega arith
digit-put zero (suc o) b w h = ground arith
digit-put (suc j) zero b w h =
    let e : (w / 256 * 256 + b) / 256 ≡ w / 256 = omega arith in ground (arith, ap (digit j) e)
digit-put (suc j) (suc o) b w h =
    let e : (put o b (w / 256) * 256 + w % 256) / 256 ≡ put o b (w / 256) = omega arith in
    ground (arith, ap (digit j) e, digit-put j o b (w / 256) h)

two_pow_bytes : (n : ℕ) → 2 ^ (8 * n) ≡ 256 ^ n
two_pow_bytes zero = refl
two_pow_bytes (suc n) =
    ap (λ (t : ℕ). 2 ^ t) step ∙ simp towards_suc (omega (arith, two_pow_bytes n, pow-suc 256 n))
  where
    step : 8 * suc n ≡ 8 * n + 8
    step = omega arith

-- What `get_byte` reads is a digit.
get_byte-eq-digit : (j w : ℕ) → get_byte w (8 * j) ≡ digit j w
unfolding get_byte digit
get_byte-eq-digit zero w = bit_and-ones 8 (w / 1) ∙ omega arith
get_byte-eq-digit (suc j) w = ap (λ (t : ℕ). bit_and t 0xff) shifted ∙ get_byte-eq-digit j (w / 256)
  where
    shifted : w / 2 ^ (8 * suc j) ≡ w / 256 / 2 ^ (8 * j)
    shifted =
        rw (two_pow_bytes, two_pow_bytes)
          (ap (λ (t : ℕ). w / t) (omega (arith, pow-suc 256 j))
            ∙ sym (div-div-eq-div-mul w 256 (256 ^ j)))

-- The mask clears a digit.
clear_digit :
    (n o w : ℕ) → o < n → w < 256 ^ n → bit_and w (256 ^ n - 1 - 0xff * 256 ^ o) ≡ put o 0 w
unfolding put
clear_digit zero o w h lt = absurd (omega arith)
clear_digit (suc n) zero w h lt = ground (
  arith,
  pow-suc 256 n,
  one-le-pow n 256,
  two_pow_bytes n,
  bit_and_split 8 (w / 256) (w % 256) (256 ^ n - 1) 0,
  bit_and-zero (w % 256),
  bit_and-ones_of_lt (8 * n) (w / 256),
)
clear_digit (suc n) (suc o) w h lt = ground (
  arith,
  pow-suc 256 n,
  pow-suc 256 o,
  pow-le-pow_right {n = 256} (omega arith) {i = suc o} {j = n} (omega arith),
  bit_and_split 8 (w / 256) (w % 256) (256 ^ n - 1 - 0xff * 256 ^ o) 255,
  bit_and-ones_of_lt 8 (w % 256),
  clear_digit n o (w / 256),
)

-- Or-ing a byte into a cleared digit puts it there.
or_digit : (o b w : ℕ) → b < 256 → bit_or (put o 0 w) (b * 256 ^ o) ≡ put o b w
unfolding put
or_digit zero b w h =
    ground (arith, bit_or_split 8 (w / 256) 0 0 b, bit_or-zero (w / 256), zero-bit_or b)
or_digit (suc o) b w h = ground (
  arith,
  ap (λ (t : ℕ). b * t) (pow-suc 256 o),
  bit_or_split 8 (put o 0 (w / 256)) (w % 256) (b * 256 ^ o) 0,
  bit_or-zero (w % 256),
  or_digit o b (w / 256),
)

put-lt : (n o b w : ℕ) → o < n → b < 256 → w < 256 ^ n → put o b w < 256 ^ n
unfolding put
put-lt zero o b w h hb lt = absurd (omega arith)
put-lt (suc n) zero b w h hb lt = omega (arith, pow-suc 256 n)
put-lt (suc n) (suc o) b w h hb lt =
    omega
      (arith, pow-suc 256 n, put-lt n o b (w / 256) (omega arith) hb (omega (arith, pow-suc 256 n)))

set_byte-eq-put : (o b w : ℕ) → o < 8 → b < 256 → w < 2 ^ 64 → set_byte w (8 * o) b ≡ put o b w
unfolding set_byte
set_byte-eq-put o b w h hb lt = rw (two_pow_bytes, clear_digit 8 o w h lt) (or_digit o b w hb)

-- A byte of a word after a write of one of its bytes.
pub get_byte-set_byte :
    (o j b w : ℕ)
    → o < 8
    → b < 256
    → w < 2 ^ 64
    → get_byte (set_byte w (8 * o) b) (8 * j) ≡ (if o == j then b else get_byte w (8 * j))
get_byte-set_byte o j b w h hb lt =
    rw (set_byte-eq-put o b w h hb lt, get_byte-eq-digit j (put o b w), get_byte-eq-digit j w)
      (digit-put j o b w hb)

pub set_byte-lt : (o b w : ℕ) → o < 8 → b < 256 → w < 2 ^ 64 → set_byte w (8 * o) b < 2 ^ 64
set_byte-lt o b w h hb lt = rw (set_byte-eq-put o b w h hb lt) (put-lt 8 o b w h hb lt)

pub get_byte-lt : (w s : ℕ) → get_byte w s < 256
unfolding get_byte
get_byte-lt w s = omega (arith, bit_and-ones 8 (w / 2 ^ s))
