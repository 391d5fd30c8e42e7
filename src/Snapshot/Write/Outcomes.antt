-- ===== src/Snapshot/Write/Outcomes.antt =====
-- What `write_with` of shm-snapshot/src/writer.rs and `Writer::commit` of shm-snapshot/src/lib.rs
-- promise on each outcome, and which entry they use.
use native.Mathlib.Decide.{dec_lt}
use shmfd.Prelude.{
  ◌↔◌, ℕ, ◌+◌, ◌*◌, ◌^◌, ◌≤◌, ◌<◌, ◌≡◌, sym, refl, ap, ◌∙◌, arith, Run, done, Bool, true, false,
  Option, some, none, List, ◌++◌, length, take, drop,
}
use shmfd.Snapshot.Layout.{WriteHead}
use shmfd.Snapshot.Ring.{read}
use shmfd.Snapshot.Ring.Stream.{AllBytes}
use shmfd.Snapshot.Write.{
  PreparedTransaction, new_write_offset, write_with, commit, commit_with, run_captured, snapshot_at,
}
use shmfd.Snapshot.Write.Commit.{
  IsWriter, IsWritable, invalidated, prepared, transaction, committed, write_with_lem,
  commit_entry_lem, commit_lem, snapshot_at-committed, read-committed, tail-committed,
  committed-IsConfigured,
}

-- What a commit promises: it returns the entry's index, the snapshot is found at that index, a read
-- of it fills a buffer with the committed bytes, the write offset is recorded in the head page, no
-- word of the tail has changed, and the writer can go on, at the same entry.
pub record Commits (h : WriteHead) (bs : List ℕ) : Type 0 where
  pub head : WriteHead
  pub returns : commit h bs ≡ done (some h.cache.entry_write_offset, head)
  pub found :
      snapshot_at head h.cache.entry_write_offset
      ≡ done (record { offset = h.cache.page_write_offset; length = length bs })
  pub reads :
      (into : List ℕ)
      → read head (record { offset = h.cache.page_write_offset; length = length bs }) into
        ≡ done (take (length into) bs ++ drop (length bs) into)
  pub recorded : head.meta.page_write_offset ≡ h.cache.page_write_offset + length bs
  pub advanced : head.cache.page_write_offset ≡ h.cache.page_write_offset + length bs
  pub tail_kept : (a : ℕ) → h.tail.start * 512 ≤ a → head.words a ≡ h.words a
  pub writer : IsWriter head
  pub slot_kept : head.cache.entry_write_offset ≡ h.cache.entry_write_offset
  pub mask_kept : head.cache.page_mask ≡ h.cache.page_mask

-- On a writer in order, a commit of bytes that fit the data ring, and whose end is in the stream,
-- succeeds: the snapshot is found at the returned index and reads back as those bytes, the head page
-- records the write offset, the tail is as it was, and the writer stays in order.
pub commit-Commits : (h : WriteHead) (bs : List ℕ) → IsWriter h → IsWritable h bs → Commits h bs
commit-Commits h bs v w = record {
  head = committed h bs v w;
  returns = commit_lem h bs v w;
  found = snapshot_at-committed h bs v w;
  reads = read-committed h bs v w;
  recorded = refl;
  advanced = refl;
  tail_kept = tail-committed h bs v w;
  writer = record {
    configured = committed-IsConfigured h bs v w;
    entry_write_lt = v.entry_write_lt;
    entry_read_lt = (invalidated h bs v w).entry_lt;
  };
  slot_kept = refl;
  mask_kept = refl;
}

write_with_too_long :
    {S : Type 0} (h : WriteHead) (bs : List ℕ)
    (f : S → PreparedTransaction → Run (Bool × S × WriteHead)) (s : S)
    → h.cache.page_mask < length bs
    → write_with h bs f s ≡ done (none, s, h)
unfolding write_with new_write_offset
write_with_too_long h bs f s long = ground (arith, long)

-- On a writer in order, a commit of bytes whose end is in the stream is refused exactly if they are
-- more than the page mask; otherwise it succeeds.
pub commit_refused_iff :
    (h : WriteHead) (bs : List ℕ)
    → IsWriter h
    → AllBytes bs
    → h.cache.page_write_offset + length bs < 2 ^ 64
    → (((h' : WriteHead) × (commit h bs ≡ done (none, h'))) ↔ (h.cache.page_mask < length bs))
      × (((index : ℕ) × (h' : WriteHead) × (commit h bs ≡ done (some index, h')))
          ↔ (length bs ≤ h.cache.page_mask))
unfolding commit
commit_refused_iff h bs v all room = elim (dec_lt h.cache.page_mask (length bs)) [
  | yes long ↦
      let refused =
        write_with_too_long h bs (λ (s : Unit {0}) tx. done (true, s, tx.head)) tt long in
      let none_taken : commit h bs ≡ done (none, h) = rw refused in
      (
        (λ r. long, λ l. (h, none_taken)),
        (λ (i, h', r). absurd (ground (arith, r, none_taken)), λ le. absurd (omega arith)),
      )
  | no short ↦
      let w : IsWritable h bs = record {
        all_bytes = all;
        fits = omega (arith, short);
        in_stream = room;
      } in
      let taken = commit-Commits h bs v w in
      (
        (λ (h', r). absurd (ground (arith, r, taken.returns)), λ l. absurd (omega (arith, short))),
        (λ r. omega (arith, short), λ le. (h.cache.entry_write_offset, taken.head, taken.returns)),
      )
]

-- On a writer in order, with bytes that fit, a closure of `write_with` that answers no and keeps the head
-- it is given leaves no entry: the result is an error, and the head is the one that the closure was
-- given, the bytes of the transaction already in the data ring.
pub write_with_declined :
    {S : Type 0} (h : WriteHead) (bs : List ℕ)
    (f : S → PreparedTransaction → Run (Bool × S × WriteHead)) (s s' : S) (v : IsWriter h)
    (w : IsWritable h bs)
    → f s (transaction h bs v w) ≡ done (false, s', prepared h bs v w)
    → write_with h bs f s ≡ done (none, s', prepared h bs v w)
write_with_declined h bs f s s' v w e = rw (write_with_lem h bs v w f s, e)

-- The entry write offset never moves: on a writer in order, two commits of bytes that fit return the same
-- index, and the snapshot found at it is then the second.
pub commit-commit_same_slot :
    (h : WriteHead) (bs bs' : List ℕ)
    → IsWriter h
    → IsWritable h bs
    → AllBytes bs'
    → length bs' ≤ h.cache.page_mask
    → h.cache.page_write_offset + length bs + length bs' < 2 ^ 64
    → (first second : WriteHead) × (commit h bs ≡ done (some h.cache.entry_write_offset, first))
      × (commit first bs' ≡ done (some h.cache.entry_write_offset, second))
      × (snapshot_at second h.cache.entry_write_offset
          ≡ done (record { offset = h.cache.page_write_offset + length bs; length = length bs' }))
commit-commit_same_slot h bs bs' v w all fits room =
    let one = commit-Commits h bs v w in
    let w' : IsWritable one.head bs' = record {
      all_bytes = all;
      fits = omega (arith, one.mask_kept);
      in_stream = omega (arith, one.advanced);
    } in
    let two = commit-Commits one.head bs' one.writer w' in
    (
      one.head,
      two.head,
      one.returns,
      two.returns ∙ ap (λ (i : ℕ). done (some i, two.head)) one.slot_kept,
      ap (λ (i : ℕ). snapshot_at two.head i) (sym one.slot_kept)
          ∙ two.found
          ∙ ap (λ (o : ℕ). done (record { offset = o; length = length bs' })) one.advanced,
    )

-- `commit_with` on a writer in order, of bytes that fit, with a closure that keeps the head that it
-- is given: an answer is returned with the entry's index, and the entry is committed; without an
-- answer the result is an error, and no entry is written.
pub commit_with-outcomes :
    {T : Type 0} (h : WriteHead) (bs : List ℕ)
    (fn : PreparedTransaction → Run (Option T × WriteHead)) (answer : Option T) (v : IsWriter h)
    (w : IsWritable h bs)
    → fn (transaction h bs v w) ≡ done (answer, prepared h bs v w)
    → commit_with h bs fn ≡ elim answer [
      | some val ↦ done (some (h.cache.entry_write_offset, val), committed h bs v w)
      | none ↦ done (none, prepared h bs v w)
    ]
unfolding commit_with run_captured
commit_with-outcomes h bs fn (some val) v w e =
    rw (write_with_lem h bs v w, e, commit_entry_lem h bs v w)
commit_with-outcomes h bs fn none v w e = rw (write_with_lem h bs v w, e)
