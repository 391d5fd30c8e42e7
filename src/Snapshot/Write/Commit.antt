-- ===== src/Snapshot/Write/Commit.antt =====
-- `Head::write_with` of shm-snapshot/src/writer.rs, and `Writer::commit` of shm-snapshot/src/lib.rs:
-- what a transaction stores, and what of it is read back.
use shmfd.Prelude.{
  ℕ, ◌+◌, ◌*◌, ◌^◌, ◌≤◌, ◌<◌, ◌≡◌, ap, ◌∙◌, arith, leb, Run, done, inr, ◌>>=◌, Bool, true, false,
  Option, some, none, List, ◌++◌, length, lt→ltb, le→leb, take, drop,
}
use shmfd.Prelude.Words.{wrapping_sub}
use shmfd.Snapshot.Layout.{WriteHead, Snapshot, update}
use shmfd.Snapshot.Ring.{read}
use shmfd.Snapshot.Ring.Bytes.{IsConfigured}
use shmfd.Snapshot.Ring.Stream.{
  AllBytes, put_bytes, bytes_at, put_bytes-WordsFit, put_bytes-outside, bytes_at-put_bytes,
  bytes_at-agree, bytes_at-min,
}
use shmfd.Snapshot.Ring.Copy.{data_base, data_len, copy_from_slice_lem, read_from_lem}
use shmfd.Snapshot.Ring.Entries.{
  entry_word, entry_word_bounds, insert_at_lem, entry_at_relaxed_lem, update-WordsFit,
  update-outside,
}
use shmfd.Snapshot.Write.{
  PreparedTransaction, new_write_offset, entry_copy_from_slice, commit_entry, write_with, commit,
  snapshot_at,
}
use shmfd.Snapshot.Write.Invalidate.{HeadsInvalidated, invalidate_heads_to-HeadsInvalidated}

-- A writer between calls: its offsets are `u64`s.
pub record IsWriter (h : WriteHead) : Type 0 where
  pub configured : IsConfigured h
  pub entry_write_lt : h.cache.entry_write_offset < 2 ^ 64
  pub entry_read_lt : h.cache.entry_read_offset < 2 ^ 64

-- What `write_with` accepts, short of the last `u64` of the stream.
pub record IsWritable (h : WriteHead) (bs : List ℕ) : Type 0 where
  pub all_bytes : AllBytes bs
  pub fits : length bs ≤ h.cache.page_mask
  pub in_stream : h.cache.page_write_offset + length bs < 2 ^ 64

module _ (h : WriteHead) (bs : List ℕ) (v : IsWriter h) (w : IsWritable h bs) where
  abbrev pub end_offset : ℕ
  end_offset = h.cache.page_write_offset + length bs

  pub invalidated : HeadsInvalidated h end_offset
  invalidated =
      invalidate_heads_to-HeadsInvalidated h end_offset v.configured v.entry_write_lt
        v.entry_read_lt

  new_write_offset-some : new_write_offset h (length bs) ≡ some end_offset
  unfolding new_write_offset
  new_write_offset-some =
      rw
        (
          lt→ltb (length bs) (2 ^ 64) (omega (arith, w.in_stream)),
          le→leb (length bs) h.cache.page_mask w.fits,
        )
        (ap some (omega (arith, w.in_stream)))

  -- The head that the closure is given.
  abbrev pub prepared : WriteHead
  prepared = record h {
    words = put_bytes (data_base h) (data_len h) invalidated.words h.cache.page_write_offset bs;
    cache = record (h.cache) {
      entry_read_offset = invalidated.entry;
      page_read_offset = invalidated.bytes;
      page_write_offset = end_offset;
    };
  }

  abbrev pub transaction : PreparedTransaction
  transaction = record {
    offset = h.cache.page_write_offset;
    length = length bs;
    head = prepared;
    tail = h.tail;
  }

  -- The rest of `write_with` once the closure has answered.
  abbrev pub finish : {S : Type 0} → Bool × S × WriteHead → Run (Option ℕ × S × WriteHead)
  finish answer = elim answer.0 [
    | true ↦
        commit_entry (record {
          index = h.cache.entry_write_offset;
          offset = h.cache.page_write_offset;
          length = length bs;
          head = answer.2;
        })
        >>= λ (committed, index). done (some index, answer.1, committed)
    | false ↦ done (none, answer.1, answer.2)
  ]

  -- The head once old entries are out of the way.
  abbrev cleared : WriteHead
  cleared = record h {
    words = invalidated.words;
    cache = record (h.cache) {
      entry_read_offset = invalidated.entry;
      page_read_offset = invalidated.bytes;
    };
  }

  pub cleared-IsConfigured : IsConfigured cleared
  cleared-IsConfigured = record {
    entry_power = v.configured.entry_power;
    data_power = v.configured.data_power;
    entries_fit = v.configured.entries_fit;
    data_fits = v.configured.data_fits;
    apart = v.configured.apart;
    tail_apart = v.configured.tail_apart;
    words_fit = invalidated.fit;
  }

  entry_copy_from_slice-prepared :
      entry_copy_from_slice
        (record {
          index = h.cache.entry_write_offset;
          offset = h.cache.page_write_offset;
          length = 0;
          head = cleared;
        })
        bs
      ≡ done (record {
        index = h.cache.entry_write_offset;
        offset = h.cache.page_write_offset;
        length = length bs;
        head = prepared;
      })
  unfolding entry_copy_from_slice
  entry_copy_from_slice-prepared =
      let counted : 0 + length bs ≡ length bs = omega arith in
      rw (
        copy_from_slice_lem bs cleared cleared-IsConfigured w.all_bytes w.in_stream,
        lt→ltb (0 + length bs) (2 ^ 64) (omega (arith, w.in_stream)),
        counted,
      )

  pub write_with_lem :
      {S : Type 0} (f : S → PreparedTransaction → Run (Bool × S × WriteHead)) (s : S)
      → write_with h bs f s ≡ (f s transaction >>= finish)
  unfolding write_with
  write_with_lem f s =
      rw (new_write_offset-some, write_with, invalidated.returns, entry_copy_from_slice-prepared)

  prepared-IsConfigured : IsConfigured prepared
  prepared-IsConfigured = record {
    entry_power = v.configured.entry_power;
    data_power = v.configured.data_power;
    entries_fit = v.configured.entries_fit;
    data_fits = v.configured.data_fits;
    apart = v.configured.apart;
    tail_apart = v.configured.tail_apart;
    words_fit =
        put_bytes-WordsFit (data_base h) (data_len h) invalidated.words h.cache.page_write_offset bs
          invalidated.fit w.all_bytes;
  }

  -- The writer after the transaction is committed.
  abbrev pub slot : ℕ
  slot = entry_word h h.cache.entry_write_offset

  abbrev pub committed : WriteHead
  committed = record prepared {
    words = update (update prepared.words slot h.cache.page_write_offset) (slot + 1) (length bs);
    meta = record (h.meta) { page_write_offset = end_offset };
  }

  abbrev pub taken : Snapshot
  taken = record { offset = h.cache.page_write_offset; length = length bs }

  stored-IsConfigured :
      IsConfigured (record prepared { meta = record (h.meta) { page_write_offset = end_offset } })
  stored-IsConfigured = record {
    entry_power = v.configured.entry_power;
    data_power = v.configured.data_power;
    entries_fit = v.configured.entries_fit;
    data_fits = v.configured.data_fits;
    apart = v.configured.apart;
    tail_apart = v.configured.tail_apart;
    words_fit = prepared-IsConfigured.words_fit;
  }

  pub commit_entry_lem :
      commit_entry (record {
        index = h.cache.entry_write_offset;
        offset = h.cache.page_write_offset;
        length = length bs;
        head = prepared;
      })
      ≡ done (committed, h.cache.entry_write_offset)
  unfolding commit_entry
  commit_entry_lem =
      let reserved : leb (length bs) (wrapping_sub end_offset h.cache.page_write_offset) ≡ true =
        le→leb (length bs) (wrapping_sub end_offset h.cache.page_write_offset)
          (omega (arith, w.in_stream)) in
      rw (reserved, insert_at_lem h.cache.entry_write_offset stored-IsConfigured taken)

  pub commit_lem : commit h bs ≡ done (some h.cache.entry_write_offset, committed)
  unfolding commit
  commit_lem = rw (write_with_lem, commit_entry_lem)

  pub committed-IsConfigured : IsConfigured committed
  committed-IsConfigured = record {
    entry_power = v.configured.entry_power;
    data_power = v.configured.data_power;
    entries_fit = v.configured.entries_fit;
    data_fits = v.configured.data_fits;
    apart = v.configured.apart;
    tail_apart = v.configured.tail_apart;
    words_fit =
        update-WordsFit (slot + 1) (length bs)
          (update-WordsFit slot h.cache.page_write_offset prepared-IsConfigured.words_fit
            (omega (arith, w.in_stream)))
          (omega (arith, w.in_stream));
  }

  pub snapshot_at-committed : snapshot_at committed h.cache.entry_write_offset ≡ done taken
  unfolding snapshot_at
  snapshot_at-committed =
      entry_at_relaxed_lem h.cache.entry_write_offset committed-IsConfigured ∙ ground arith

  -- Past the pages of the entry ring the commit changes no word but by the copy.
  committed-words :
      (a : ℕ) → (h.sequence.start + h.sequence.len) * 512 ≤ a → committed.words a ≡ prepared.words a
  committed-words a out =
      let bounds = entry_word_bounds h.cache.entry_write_offset v.configured in
      update-outside (update prepared.words slot h.cache.page_write_offset) (slot + 1) (length bs) a
        (omega (arith, bounds))
      ∙ update-outside prepared.words slot h.cache.page_write_offset a (omega (arith, bounds))

  -- The bytes of the data ring where the transaction was written.
  pub bytes_at-committed :
      bytes_at (data_base h) (data_len h) committed.words h.cache.page_write_offset (length bs) ≡ bs
  bytes_at-committed =
      bytes_at-agree (data_base h) (data_len h) committed.words prepared.words
        h.cache.page_write_offset (length bs)
        (λ a out. committed-words a (omega (arith, v.configured.apart)))
      ∙ bytes_at-put_bytes (data_base h) (data_len h) invalidated.words h.cache.page_write_offset bs
          invalidated.fit w.all_bytes (omega (arith, w.fits))

  pub read-committed :
      (into : List ℕ)
      → read committed taken into ≡ done (take (length into) bs ++ drop (length bs) into)
  unfolding read
  read-committed into =
      let start : h.cache.page_write_offset + 0 ≡ h.cache.page_write_offset = omega arith in
      rw (
        read_from_lem committed h.cache.page_write_offset 0 (length bs) into committed-IsConfigured
            (omega (arith, w.in_stream)),
        start,
        bytes_at-min (data_base h) (data_len h) committed.words h.cache.page_write_offset
            (length bs) (length into),
        bytes_at-committed,
      )

  pub tail-committed : (a : ℕ) → h.tail.start * 512 ≤ a → committed.words a ≡ h.words a
  tail-committed a out =
      committed-words a (omega (arith, v.configured.apart, v.configured.tail_apart))
      ∙ put_bytes-outside (data_base h) (data_len h) invalidated.words h.cache.page_write_offset bs
          a (omega arith) (inr (omega (arith, v.configured.data_fits, v.configured.tail_apart)))
      ∙ invalidated.outside a (inr (omega (arith, v.configured.apart, v.configured.tail_apart)))
