-- ===== src/Snapshot/Write.antt =====
-- shm-snapshot/src/writer.rs: `Entry`, `PreparedTransaction` and `Head::write_with`; and the
-- commits of `Writer` in shm-snapshot/src/lib.rs.
pub mod Invalidate
pub mod Commit
pub mod Outcomes
pub mod Replace
use shmfd.Prelude.{
  ℕ, zero, suc, ◌+◌, ◌-◌, ◌%◌, ◌^◌, ◌==◌, ltb, leb, if◌then◌else◌, Bool, true, false, Run, done,
  panic, starved, ◌>>=◌, ◌>>◌, assert, expect, Option, none, some, List, [], ◌∷◌, length,
}
use shmfd.Prelude.Words.{wrapping_add, wrapping_sub, add64}
use shmfd.Snapshot.Layout.{HeadPage, HeadCache, WriteHead, PageSlice, Snapshot}
use shmfd.Snapshot.Ring.{write_from, copy_from_slice, invalidate_at, insert_at, entry_at_relaxed}

-- `Entry`
pub record Entry : Type 0 where
  pub index : ℕ
  pub offset : ℕ
  pub length : ℕ
  pub head : WriteHead

-- `PreparedTransaction`
pub record PreparedTransaction : Type 0 where
  pub offset : ℕ
  pub length : ℕ
  pub head : WriteHead
  pub tail : PageSlice

-- `WriteHead::entry`
unfoldable pub entry : WriteHead → Entry
entry head = record {
  head = head;
  length = 0;
  index = head.cache.entry_write_offset;
  offset = head.cache.page_write_offset;
}

-- `new_write_offset`
unfoldable pub new_write_offset : WriteHead → ℕ → Option ℕ
new_write_offset head n =
    if ltb n (2 ^ 64)
    then (if leb n head.cache.page_mask
        then some (wrapping_add head.cache.page_write_offset n)
        else none)
    else none

-- The loop of `invalidate_heads_to`: the head, and the read offsets of entries and data.
unfoldable pub invalidate_from : ℕ → WriteHead → ℕ → ℕ → ℕ → Run (WriteHead × ℕ × ℕ)
invalidate_from zero head end entry bytes = starved
invalidate_from (suc fuel) head end entry bytes =
    let more = invalidate_at head entry >>= λ (head', length).
    invalidate_from fuel head' end (wrapping_add entry 1) (wrapping_add bytes length) in
    if leb end bytes
    then done (head, entry, bytes)
    else if entry == head.cache.entry_write_offset
    then done (head, entry, end)
    else more

-- `invalidate_heads_to`. The loop meets the entry write offset after at most as many rounds as it
-- is ahead of the entry read offset, round the ring of `u64`.
unfoldable pub invalidate_heads_to : WriteHead → ℕ → Run WriteHead
unfolding invalidate_from
invalidate_heads_to head end =
    let ahead = wrapping_sub head.cache.entry_write_offset head.cache.entry_read_offset in
    invalidate_from (suc ahead) head end head.cache.entry_read_offset head.cache.page_read_offset
    >>= λ (head', entry, bytes). done (record head' {
      cache = record (head'.cache) { entry_read_offset = entry; page_read_offset = bytes };
    })

-- `Entry::copy_from_slice`
unfoldable pub entry_copy_from_slice : Entry → List ℕ → Run Entry
entry_copy_from_slice e bytes = do
  (head, count) ← copy_from_slice e.head bytes
  length ← add64 e.length count
  done (record e { head = head; length = length })

-- `Entry::commit`, its debug assertion included.
unfoldable pub commit_entry : Entry → Run (WriteHead × ℕ)
commit_entry e = do
  let end = e.head.cache.page_write_offset
  let stored = record (e.head) { meta = record (e.head.meta) { page_write_offset = end } }
  assert (leb e.length (wrapping_sub end e.offset))
  head ← insert_at stored e.index (record { offset = e.offset; length = e.length })
  done (head, e.index)

-- `PreparedTransaction::replace`
unfoldable pub replace : PreparedTransaction → List ℕ → Run PreparedTransaction
replace tx bytes = do
  assert (leb (length bytes) tx.length)
  (head, n) ← write_from tx.head tx.offset tx.offset bytes
  done (record tx { head = head })

-- `Head::write_with`. The closure takes what it captures and the transaction, and hands back both
-- with its answer; `none` is `Err(())`.
unfoldable pub write_with :
    {S : Type 0}
    → WriteHead
    → List ℕ
    → (S → PreparedTransaction → Run (Bool × S × WriteHead))
    → S
    → Run (Option ℕ × S × WriteHead)
unfolding entry
write_with head bytes intermediate s = elim (new_write_offset head (length bytes)) [
  | none ↦ done (none, s, head)
  | some end ↦ do
    invalidated ← invalidate_heads_to head end
    e ← entry_copy_from_slice (record (entry head) { head = invalidated }) bytes
    (keep, s', head') ←
        intermediate s
          (record { offset = e.offset; length = e.length; tail = e.head.tail; head = e.head })
    elim keep [
      | true ↦ do
        (committed, index) ← commit_entry (record e { head = head' })
        done (some index, s', committed)
      | false ↦ done (none, s', head')
    ]
]

-- `Writer::commit`, whose closure is `|_tx| true`.
unfoldable pub commit : WriteHead → List ℕ → Run (Option ℕ × WriteHead)
unfolding write_with
commit head bytes = do
  (result, s, head') ← write_with head bytes (λ (s : Unit {0}) tx. done (true, s, tx.head)) tt
  done (result, head')

-- What the closure of `commit_with` captures: the caller's closure until it is taken, and a result.
pub record Captured (T : Type 0) : Type 0 where
  pub dropped : Option (PreparedTransaction → Run (Option T × WriteHead))
  pub result : Option T

unfoldable pub run_captured :
    {T : Type 0} → Captured T → PreparedTransaction → Run (Bool × Captured T × WriteHead)
run_captured c tx = elim c.dropped [
  | none ↦ done (false, c, tx.head)
  | some fn ↦ do
    (answer, head) ← fn tx
    elim answer [
      | some val ↦ done (true, record { dropped = none; result = some val }, head)
      | none ↦ done (false, record c { dropped = none }, head)
    ]
]

-- `Writer::commit_with`
unfoldable pub commit_with :
    {T : Type 0}
    → WriteHead
    → List ℕ
    → (PreparedTransaction → Run (Option T × WriteHead))
    → Run (Option (ℕ × T) × WriteHead)
unfolding write_with run_captured
commit_with head bytes fn = do
  (result, c, head') ←
      write_with head bytes run_captured (record { dropped = some fn; result = none })
  elim result [
    | some index ↦ expect c.result >>= λ val. done (some (index, val), head')
    | none ↦ done (none, head')
  ]

-- `Writer::snapshot_at`
unfoldable pub snapshot_at : WriteHead → ℕ → Run Snapshot
snapshot_at head index = entry_at_relaxed head index
