-- ===== src/Sieve/Snapshots.antt =====
-- examples/primes-snapshot/src/main.rs: a sieve that keeps its prime numbers in the tail of a snapshot
-- file, and their number in the snapshots.
pub mod Tail
pub mod Candidates
pub mod Routine
pub mod Recovery
use shmfd.Prelude.{
  ℕ, zero, suc, ◌+◌, ◌-◌, ◌*◌, ◌/◌, ◌%◌, ◌^◌, ◌==◌, ltb, leb, if◌then◌else◌, Bool, true, false, Run,
  done, panic, starved, ◌>>=◌, ◌>>◌, assert, Option, none, some, List, [], ◌∷◌,
}
use shmfd.Prelude.Words.{add64}
use shmfd.Snapshot.Layout.{PageSlice, WriteHead, Snapshot, ConfigureFile, or_insert_with, update}
use shmfd.Snapshot.Ring.{read}
use shmfd.Snapshot.Write.{PreparedTransaction, replace, commit_with}
use shmfd.Snapshot.File.{FileDiscovery, recover, valid, configure}
use shmfd.Sieve.{check_prime}

-- `State`
pub record State : Type 0 where
  pub prime_total : ℕ
  pub prime_last : ℕ

-- A word of the tail: its address; an index past its end panics.
unfoldable pub tail_word : PageSlice → ℕ → Run ℕ
tail_word tail i = if ltb i (tail.len * 512) then done (tail.start * 512 + i) else panic

unfoldable pub load : WriteHead → PageSlice → ℕ → Run ℕ
unfolding tail_word
load head tail i = tail_word tail i >>= λ a. done (head.words a)

unfoldable pub store : WriteHead → PageSlice → ℕ → ℕ → Run WriteHead
unfolding tail_word
store head tail i v = tail_word tail i >>= λ a. done (record head { words = update head.words a v })

-- How many words from an address on are not zero, of at most `left`.
unfoldable pub nonzero_from : (ℕ → ℕ) → ℕ → ℕ → ℕ
nonzero_from words a zero = 0
nonzero_from words a (suc left) = elim (words a == 0) [
  | true ↦ 0
  | false ↦ suc (nonzero_from words (a + 1) left)
]

-- The `n` words from an address on.
unfoldable pub words_from : (ℕ → ℕ) → ℕ → ℕ → List ℕ
words_from words a zero = []
words_from words a (suc n) = words a ∷ words_from words (a + 1) n

-- `&values[..pos]`
unfoldable pub values_to : WriteHead → PageSlice → ℕ → Run (List ℕ)
unfolding words_from
values_to head tail pos =
    if leb pos (tail.len * 512) then done (words_from head.words (tail.start * 512) pos) else panic

-- The loop of `run_main_routine` over `count` candidates.
unfoldable pub try_candidates : PageSlice → ℕ → ℕ → ℕ → WriteHead → Run (ℕ × WriteHead)
unfolding values_to store
try_candidates tail zero candidate pos head = done (pos, head)
try_candidates tail (suc count) candidate pos head = do
  values ← values_to head tail pos
  prime ← check_prime candidate values
  elim prime [
    | true ↦ do
      head' ← store head tail pos candidate
      try_candidates tail count (candidate + 1) (pos + 1) head'
    | false ↦ try_candidates tail count (candidate + 1) pos head
  ]

-- `u64::to_be_bytes` and `u64::from_be_bytes`: the last `k` of eight bytes.
unfoldable pub be_bytes : ℕ → ℕ → List ℕ
be_bytes zero n = []
be_bytes (suc k) n = n / 256 ^ k % 256 ∷ be_bytes k n

unfoldable pub from_be_bytes : ℕ → List ℕ → ℕ
from_be_bytes acc [] = acc
from_be_bytes acc (b ∷ bs) = from_be_bytes (acc * 256 + b) bs

-- The first two prime numbers go into an empty tail.
unfoldable pub fill_empty : Bool → WriteHead → PageSlice → Run WriteHead
unfolding store
fill_empty true head tail = store head tail 0 2 >>= λ head'. store head' tail 1 3
fill_empty false head tail = done head

unfoldable pub start_values : WriteHead → PageSlice → Run WriteHead
unfolding load fill_empty
start_values head tail = load head tail 0 >>= λ first. fill_empty (first == 0) head tail

-- The end of `run_main_routine`: the number of values goes into the transaction.
unfoldable pub finish_routine : PreparedTransaction → ℕ × WriteHead → Run (Option State × WriteHead)
unfolding be_bytes load
finish_routine tx (pos, head) = do
  tx' ← replace (record tx { head = head }) (be_bytes 8 pos)
  last ← load tx'.head tx.tail pos
  done (some (record { prime_total = pos; prime_last = last }), tx'.head)

-- `run_main_routine` from the position of the first empty word on, and whether the tail is full.
unfoldable pub search_primes :
    PreparedTransaction → ℕ → ℕ → WriteHead → ℕ → Bool → Run (Option State × WriteHead)
unfolding try_candidates finish_routine
search_primes tx start end head pos true = done (none, head)
search_primes tx start end head pos false =
    try_candidates tx.tail (end - start) start pos head >>= λ found. finish_routine tx found

-- `run_main_routine` on the candidates from `start` to before `end`.
unfoldable pub run_main_routine : PreparedTransaction → ℕ → ℕ → Run (Option State × WriteHead)
unfolding start_values search_primes
run_main_routine tx start end = do
  head ← start_values tx.head tx.tail
  let pos = nonzero_from head.words (tx.tail.start * 512) (tx.tail.len * 512)
  assert (ltb 0 pos)
  search_primes tx start end head pos (leb (tx.tail.len * 512) pos)

-- One round of the loop of `main`, on the chunk from `start` to before `end`: `none` leaves the loop.
-- The iterator works out the end of the chunk after this one, which may overflow, before the round.
unfoldable pub round : ℕ → WriteHead → State → ℕ → ℕ → Run (Option State × WriteHead)
unfolding be_bytes run_main_routine
round limit head state start end = do
  new_end ← add64 end 100000
  elim (ltb limit state.prime_total) [
    | true ↦ done (none, head)
    | false ↦ do
      (result, head') ← commit_with head (be_bytes 8 end) (λ tx. run_main_routine tx start end)
      elim result [
        | none ↦ done (none, head')
        | some (index, new_state) ↦ done (some new_state, head')
      ]
  ]

-- `max_by_key` of the snapshot found so far and one more: of equal offsets the later one.
unfoldable pub later : Option Snapshot → Snapshot → Option Snapshot
later none snapshot = some snapshot
later (some best) snapshot = if ltb snapshot.offset best.offset then some best else some snapshot

-- The latest valid snapshot of a file, and the file after the search.
unfoldable pub latest_snapshot : WriteHead → Run (ConfigureFile × Option Snapshot × WriteHead)
latest_snapshot file = do
  (config, recovery) ← recover file
  elim recovery [
    | none ↦ done (config, none, file)
    | some mapping ↦ do (found, after) ← valid mapping later none; done (config, found, after.file)
  ]

-- The number of prime numbers that a snapshot records.
unfoldable pub recorded_total : WriteHead → Option Snapshot → Run ℕ
recorded_total writer none = done 0
recorded_total writer (some snapshot) =
    read writer snapshot (be_bytes 8 0) >>= λ buffer. done (from_be_bytes 0 buffer)

-- Zeros from an address on.
unfoldable pub clear_from : (ℕ → ℕ) → ℕ → ℕ → ℕ → ℕ
clear_from words a zero = words
clear_from words a (suc n) = clear_from (update words a 0) (a + 1) n

-- What the recorded number leaves of the tail: `split_at` panics past its end.
unfoldable pub split_tail : WriteHead → ℕ → Run (State × WriteHead)
unfolding clear_from
split_tail writer zero = done (record { prime_total = 0; prime_last = 2 }, writer)
split_tail writer (suc n) =
    let base = writer.tail.start * 512 in
    let count = writer.tail.len * 512 in
    if leb (suc n) count
    then done (
      record { prime_total = suc n; prime_last = writer.words (base + n) },
      record writer { words = clear_from writer.words (base + suc n) (count - suc n) },
    )
    else panic

-- `restore_from` on the mapped file.
unfoldable pub restore_from : WriteHead → Run (WriteHead × State)
unfolding latest_snapshot recorded_total split_tail
restore_from file = do
  (config, latest, file') ← latest_snapshot file
  let config' = or_insert_with config (λ cfg. record cfg { entries = 256; data_size = 2048 })
  writer ← configure file' config'
  total ← recorded_total writer latest
  (state, writer') ← split_tail writer total
  done (writer', state)
