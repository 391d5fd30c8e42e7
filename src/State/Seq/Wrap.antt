-- ===== src/State/Seq/Wrap.antt =====
-- `wrap` of shm-state/src/seq.rs, and when the sequence that it makes is well formed.
use native.Mathlib.Decide.{dec_lt}
use shmfd.State.Seq.Layout.{seq_layout_for-ok, seq_layout_for-power}
use shmfd.Prelude.{
  ℕ, ◌+◌, ◌*◌, ◌^◌, ◌≤◌, ◌<◌, ◌≡◌, refl, sym, subst, arith, done, Result, ok, err, lt→not-leb,
}
use shmfd.Prelude.Words.{IsPowerOfTwo}
use shmfd.State.Ring.{RingMapped}
use shmfd.State.Ring.Marks.{IsRing}
use shmfd.State.Seq.{SeqError, SeqLayout, SeqInner, seq_layout_for, seq_wrap}
use shmfd.State.Seq.Stored.{IsSeq}

wrapped-IsSeq :
    (ring : RingMapped) (buffer : ℕ) {s : SeqInner} (l : Result SeqLayout SeqError)
    → IsRing ring
    → ring.len < 2 ^ 62
    → 64 + 8 * (ring.layout.index_descriptors_mask + 1) + 64 ≤ ring.layout.tail
    → ring.layout.tail ≤ ring.len
    → seq_layout_for ring.layout.tail buffer ≡ l
    → seq_wrap ring buffer ≡ done (ok s)
    → IsSeq s
unfolding seq_wrap
wrapped-IsSeq ring buffer {s} (err e) v small apart inside is e_wrap =
    absurd (ground (arith, is, e_wrap, inside))
wrapped-IsSeq ring buffer {s} (ok l) v small apart inside is e_wrap =
    let facts = seq_layout_for-ok ring.layout.tail buffer is in
    let made : s ≡ record { ring = ring; layout = l; begin = 0; len = 0; descriptor = 0 } =
      ground (arith, is, e_wrap, inside) in
    subst (λ t. IsSeq t) (sym made)
      (record {
        ring = v;
        power =
            subst (λ n. IsPowerOfTwo n) (sym facts.1)
              (seq_layout_for-power ring.layout.tail buffer is);
        mask_lt = omega (arith, facts.1, facts.3, facts.2);
        at_start = refl;
        data_end = facts.0;
        buffer = omega (arith, facts.4);
        inside = inside;
        len_lt = small;
        apart = omega (arith, facts.0);
      })

-- The sequence that `wrap` makes over a well-formed ring of fewer than 2 ^ 62 words is well formed, if its
-- data begin behind the descriptors.
pub seq_wrap-IsSeq :
    (ring : RingMapped) (buffer : ℕ) {s : SeqInner}
    → IsRing ring
    → ring.len < 2 ^ 62
    → 64 + 8 * (ring.layout.index_descriptors_mask + 1) + 64 ≤ ring.layout.tail
    → seq_wrap ring buffer ≡ done (ok s)
    → IsSeq s
unfolding seq_wrap
seq_wrap-IsSeq ring buffer {s} v small apart e = elim (dec_lt ring.len ring.layout.tail) [
  | yes short ↦ absurd (ground (arith, e, lt→not-leb ring.layout.tail ring.len short))
  | no inside ↦
      wrapped-IsSeq ring buffer (seq_layout_for ring.layout.tail buffer) v small apart
        (omega (arith, inside)) refl e
]
