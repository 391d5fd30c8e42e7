-- ===== src/Snapshot/Write/Replace.antt =====
-- `PreparedTransaction::replace` of shm-snapshot/src/writer.rs: new bytes for a transaction that is not
-- yet committed.
use native.Mathlib.Decide.{dec_lt}
use shmfd.Prelude.{
  ℕ, ◌+◌, ◌-◌, ◌%◌, ◌^◌, ◌≤◌, ◌<◌, ◌≡◌, ◌↔◌, ap, ◌∙◌, arith, done, panic, List, length, le→leb,
  lt→not-leb,
}
use shmfd.Snapshot.Ring.Bytes.{IsConfigured, byte_at, byte_address}
use shmfd.Snapshot.Ring.Stream.{
  AllBytes, put_bytes, bytes_at, put_bytes-frame, bytes_at-put_bytes, step_ne,
}
use shmfd.Snapshot.Ring.Copy.{data_base, data_len, write_from_lem}
use shmfd.Snapshot.Write.{PreparedTransaction, replace}

-- A transaction whose bytes lie once in the data ring.
pub record IsPrepared (tx : PreparedTransaction) : Type 0 where
  pub configured : IsConfigured tx.head
  pub once : tx.length ≤ tx.head.cache.page_mask + 1
  pub in_stream : tx.offset + tx.length < 2 ^ 64

-- What `replace` does to a transaction.
pub record Replaces (tx : PreparedTransaction) (bs : List ℕ) : Type 0 where
  pub words : ℕ → ℕ
  pub returns : replace tx bs ≡ done (record tx { head = record (tx.head) { words = words } })
  pub replaced : bytes_at (data_base tx.head) (data_len tx.head) words tx.offset (length bs) ≡ bs
  pub kept :
      (i : ℕ)
      → length bs ≤ i
      → i < tx.length
      → byte_at words (byte_address tx.head (tx.offset + i))
        ≡ byte_at tx.head.words (byte_address tx.head (tx.offset + i))

-- On a transaction whose bytes lie once in the data ring of a well-formed head, `replace` by no more
-- bytes than the transaction has returns: the first bytes of the transaction are then the new ones, the
-- others are as they were, and of the head only words have changed.
pub replace-Replaces :
    (tx : PreparedTransaction) (bs : List ℕ)
    → IsPrepared tx
    → AllBytes bs
    → length bs ≤ tx.length
    → Replaces tx bs
unfolding replace
replace-Replaces tx bs v all le = record {
  words = put_bytes (data_base tx.head) (data_len tx.head) tx.head.words tx.offset bs;
  returns = rw (
    le→leb (length bs) tx.length le,
    write_from_lem bs tx.head tx.offset v.configured all (omega (arith, v.in_stream)),
  );
  replaced =
      bytes_at-put_bytes (data_base tx.head) (data_len tx.head) tx.head.words tx.offset bs
        v.configured.words_fit all (omega (arith, v.once));
  kept = λ i ge lt.
      put_bytes-frame (data_base tx.head) (data_len tx.head) tx.head.words tx.offset bs
        (byte_address tx.head (tx.offset + i)) v.configured.words_fit all
        (λ j j_lt e.
          let same : tx.offset + j + (i - j) ≡ tx.offset + i = omega arith in
          step_ne (data_base tx.head) (data_len tx.head) (tx.offset + j) (i - j) (omega arith)
            (omega (arith, v.once)) (ap (λ (t : ℕ). t % data_len tx.head) same ∙ omega (arith, e)));
}

-- On such a transaction, `replace` returns exactly if it is given no more bytes than the transaction has;
-- otherwise its assertion panics.
pub replace_iff :
    (tx : PreparedTransaction) (bs : List ℕ)
    → IsPrepared tx
    → AllBytes bs
    → (((tx' : PreparedTransaction) × (replace tx bs ≡ done tx')) ↔ (length bs ≤ tx.length))
      × ((replace tx bs ≡ panic) ↔ (tx.length < length bs))
unfolding replace
replace_iff tx bs v all = elim (dec_lt tx.length (length bs)) [
  | yes long ↦
      let refused : replace tx bs ≡ panic = rw (lt→not-leb (length bs) tx.length long) in
      (
        (λ (tx', r). absurd (ground (arith, r, refused)), λ le. absurd (omega arith)),
        (λ r. long, λ l. refused),
      )
  | no short ↦
      let r = replace-Replaces tx bs v all (omega (arith, short)) in
      (
        (
          λ t. omega (arith, short),
          λ le. (record tx { head = record (tx.head) { words = r.words } }, r.returns),
        ),
        (λ e. absurd (ground (arith, e, r.returns)), λ l. absurd (omega (arith, short))),
      )
]
