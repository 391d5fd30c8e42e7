-- ===== src/State/Ring/Recombine.antt =====
-- The two halves of the `u64`s that shm-state/src/ring.rs stores, and descriptors whose fields fit them.
use shmfd.Prelude.{ℕ, ◌+◌, ◌*◌, ◌/◌, ◌%◌, ◌^◌, ◌<◌, ◌≡◌, arith}
use shmfd.Prelude.Bits.{bit_or_split, bit_or-zero, zero-bit_or}
use shmfd.State.Ring.{Descriptor, set_word, store_u64, recombine_u64}

-- The words of `u64`s in two halves.
pub recombine_u64_lem :
    (words : ℕ → ℕ) (a : ℕ)
    → words a < 2 ^ 32
    → recombine_u64 words a ≡ words (a + 1) * 2 ^ 32 + words a
unfolding recombine_u64
recombine_u64_lem words a h = ground (
  arith,
  bit_or_split 32 (words (a + 1)) 0 0 (words a),
  bit_or-zero (words (a + 1)),
  zero-bit_or (words a),
)

pub recombined :
    (words : ℕ → ℕ) (a n : ℕ)
    → words a ≡ n % 2 ^ 32
    → words (a + 1) ≡ n / 2 ^ 32 % 2 ^ 32
    → n < 2 ^ 64
    → recombine_u64 words a ≡ n
recombined words a n low high h = omega (arith, recombine_u64_lem words a (omega arith))

pub set_word-fit :
    (words : ℕ → ℕ) (a n : ℕ)
    → ((x : ℕ) → words x < 2 ^ 32)
    → n < 2 ^ 32
    → (x : ℕ) → set_word words a n x < 2 ^ 32
set_word-fit words a n fit h x = ground (arith, fit x)

pub store_u64-fit :
    (words : ℕ → ℕ) (a n : ℕ)
    → ((x : ℕ) → words x < 2 ^ 32)
    → (x : ℕ) → store_u64 words a n x < 2 ^ 32
store_u64-fit words a n fit x = ground (arith, fit x)

-- A descriptor of 64-bit fields.
pub record IsDescriptor (d : Descriptor) : Type 0 where
  pub payload_lt : d.payload < 2 ^ 64
  pub start_lt : d.start < 2 ^ 64
  pub finish_lt : d.finish < 2 ^ 64
