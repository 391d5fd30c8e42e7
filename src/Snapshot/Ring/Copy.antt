-- ===== src/Snapshot/Ring/Copy.antt =====
-- `copy_from_slice` and `read` of shm-snapshot/src/writer.rs on a configured head.
use native.Mathlib.Nat.{mod-eq_of_lt}
use shmfd.Prelude.{
  ℕ, zero, suc, ◌+◌, ◌*◌, ◌^◌, ◌≤◌, ◌<◌, ◌≡◌, refl, ap, ◌∙◌, arith, min, done, lt→ltb, List, [],
  ◌∷◌, ◌++◌, length, drop,
}
use shmfd.Prelude.Words.{wrapping_sub}
use shmfd.Snapshot.Layout.{WriteHead}
use shmfd.Snapshot.Ring.{write_from, copy_from_slice, read_from}
use shmfd.Snapshot.Ring.Bytes.{
  WordsFit, IsConfigured, put_byte, byte_address, read_at_lem, write_at_lem, put_byte-WordsFit,
}
use shmfd.Snapshot.Ring.Stream.{AllBytes, put_bytes, bytes_at}

pub words-IsConfigured :
    {h : WriteHead} (words : ℕ → ℕ)
    → WordsFit words
    → IsConfigured h
    → IsConfigured (record h { words = words })
words-IsConfigured words fit v = record {
  entry_power = v.entry_power;
  data_power = v.data_power;
  entries_fit = v.entries_fit;
  data_fits = v.data_fits;
  apart = v.apart;
  tail_apart = v.tail_apart;
  words_fit = fit;
}

-- The ring of data bytes of a head.
abbrev pub data_base : WriteHead → ℕ
data_base h = h.data_pages.start * 4096

abbrev pub data_len : WriteHead → ℕ
data_len h = h.cache.page_mask + 1

pub write_from_lem :
    (bs : List ℕ) (h : WriteHead) (o : ℕ)
    → IsConfigured h
    → AllBytes bs
    → o + length bs < 2 ^ 64
    → write_from h o o bs
      ≡ done (record h { words = put_bytes (data_base h) (data_len h) h.words o bs }, o + length bs)
unfolding write_from put_bytes
write_from_lem [] h o v all fits = ap (λ (n : ℕ). done (h, n)) (omega arith)
write_from_lem (b ∷ bs) h o v all fits =
    rw
      (
        lt→ltb (o + 1) (2 ^ 64) (omega arith),
        write_at_lem o v b,
        mod-eq_of_lt {n = o + 1} {m = 2 ^ 64} (omega arith),
      )
      (write_from_lem bs (record h { words = stored }) (o + 1)
          (words-IsConfigured stored (put_byte-WordsFit (byte_address h o) b v.words_fit all.0) v)
          all.1 (omega arith)
        ∙ ap
            (λ (n : ℕ).
              done (record h { words = put_bytes (data_base h) (data_len h) stored (o + 1) bs }, n))
            (omega arith))
  where
    stored : ℕ → ℕ
    stored = put_byte h.words (byte_address h o) b

-- On a well-formed head, the loop of `read` fills the buffer with the bytes of the data ring from its
-- offset on, as many as are left of the snapshot, and leaves the rest of the buffer alone, as long as
-- the stream does not pass the last `u64`.
pub read_from_lem :
    (h : WriteHead) (o i left : ℕ) (into : List ℕ)
    → IsConfigured h
    → o + i + left ≤ 2 ^ 64
    → read_from h o i left into
      ≡ done (
          bytes_at (data_base h) (data_len h) h.words (o + i) (min left (length into))
          ++ drop left into)
unfolding read_from bytes_at
read_from_lem h o i zero [] v fits = refl
read_from_lem h o i zero (b ∷ into) v fits =
    let e : min 0 (suc (length into)) ≡ 0 = omega arith in rw e
read_from_lem h o i (suc left) [] v fits = let e : min (suc left) 0 ≡ 0 = omega arith in rw e
read_from_lem h o i (suc left) (b ∷ into) v fits =
    let counted : min (suc left) (suc (length into)) ≡ suc (min left (length into)) = omega arith in
    let next : o + (i + 1) ≡ o + i + 1 = omega arith in
    rw (
      mod-eq_of_lt {n = o + i} {m = 2 ^ 64} (omega arith),
      read_at_lem (o + i) v,
      read_from_lem h o (i + 1) left into v (omega arith),
      counted,
      next,
    )

-- On a well-formed head, `copy_from_slice` stores the bytes round the data ring from the write offset on,
-- advances the offset by their number and returns that number, if the new offset is a `u64`.
pub copy_from_slice_lem :
    (bs : List ℕ) (h : WriteHead)
    → IsConfigured h
    → AllBytes bs
    → h.cache.page_write_offset + length bs < 2 ^ 64
    → copy_from_slice h bs
      ≡ done (
        record h {
          words = put_bytes (data_base h) (data_len h) h.words h.cache.page_write_offset bs;
          cache = record (h.cache) { page_write_offset = h.cache.page_write_offset + length bs };
        },
        length bs,
      )
unfolding copy_from_slice
copy_from_slice_lem bs h v all fits =
    let count : wrapping_sub (h.cache.page_write_offset + length bs) h.cache.page_write_offset
        ≡ length bs =
      omega arith in
    rw (write_from_lem bs h h.cache.page_write_offset v all fits, count)
