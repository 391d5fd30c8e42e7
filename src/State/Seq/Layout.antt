-- ===== src/State/Seq/Layout.antt =====
-- The layout of a sequence in its ring, shm-state/src/seq.rs.
use shmfd.Prelude.{ℕ, ◌+◌, ◌/◌, ◌^◌, ◌≤◌, ◌≡◌, arith, Bool-cases, inl, inr, ok}
use shmfd.Prelude.Words.{IsPowerOfTwo, is_power_of_two, is_power_of_two-IsPowerOfTwo}
use shmfd.State.Seq.{SeqLayout, seq_layout_for}

-- A layout that was accepted: the data are the last 64 words of `cnt`, the buffer has from 4 to 2 ^ 32
-- bytes, one more than its mask, and a quarter as many words fit between the tail and the data.
pub seq_layout_for-ok :
    (cnt buffer : ℕ) {l : SeqLayout}
    → seq_layout_for cnt buffer ≡ ok l
    → (l.data_offset + 64 ≡ cnt)
      × (l.buffer_mask + 1 ≡ buffer)
      × (4 ≤ buffer)
      × (buffer ≤ 2 ^ 32)
      × (l.tail + buffer / 4 ≡ l.data_offset)
unfolding seq_layout_for
seq_layout_for-ok cnt buffer e = ground (arith, e)

pub seq_layout_for-power :
    (cnt buffer : ℕ) {l : SeqLayout} → seq_layout_for cnt buffer ≡ ok l → IsPowerOfTwo buffer
unfolding seq_layout_for
seq_layout_for-power cnt buffer e = elim (Bool-cases (is_power_of_two buffer)) [
  | inl good ↦ is_power_of_two-IsPowerOfTwo buffer good
  | inr bad ↦ absurd (ground (arith, e, bad))
]
