-- ===== src/Snapshot/Ring/Entries.antt =====
-- The entry ring of a configured head: `invalidate_at`, `insert_at` and `entry_at_relaxed` of
-- shm-snapshot/src/writer.rs.
use shmfd.Prelude.{ℕ, ◌+◌, ◌*◌, ◌/◌, ◌%◌, ◌^◌, ◌≤◌, ◌<◌, ◌≡◌, ◌≢◌, ◌⊎◌, ap, arith, done, lt→ltb}
use shmfd.Prelude.Words.{bit_and-mask_suc, IsPowerOfTwo-pos}
use shmfd.Snapshot.Layout.{WriteHead, Snapshot, page_word, update}
use shmfd.Snapshot.Ring.{
  get_entry_atomic, invalidate_at, insert_at, entry_at_relaxed, entry_address,
}
use shmfd.Snapshot.Ring.Bytes.{WordsFit, IsConfigured}

-- The first word of the entry that a stream index names.
abbrev pub entry_word : WriteHead → ℕ → ℕ
entry_word h idx = entry_address h (idx % (h.cache.entry_mask + 1))

-- A word of the file outside the pages of the entry ring.
abbrev pub IsOutsideEntries : WriteHead → ℕ → Type 0
IsOutsideEntries h a =
    (a < h.sequence.start * 512) ⊎ ((h.sequence.start + h.sequence.len) * 512 ≤ a)

module _ {h : WriteHead} (idx : ℕ) (v : IsConfigured h) where
  in_entries : idx % (h.cache.entry_mask + 1) < 256 * h.sequence.len
  in_entries = omega (arith, v.entries_fit, IsPowerOfTwo-pos v.entry_power)

  pub get_entry_atomic_lem : get_entry_atomic h idx ≡ done (entry_word h idx)
  unfolding get_entry_atomic page_word
  get_entry_atomic_lem =
      rw
        (
          bit_and-mask_suc idx h.cache.entry_mask v.entry_power,
          lt→ltb (idx % (h.cache.entry_mask + 1) / 256) h.sequence.len (omega (arith, in_entries)),
        )
        (ap done (omega arith))

  -- Both words of an entry lie in the pages of the entry ring.
  pub entry_word_bounds :
      (h.sequence.start * 512 ≤ entry_word h idx)
      × (entry_word h idx + 1 < (h.sequence.start + h.sequence.len) * 512)
  entry_word_bounds = omega (arith, in_entries)

  pub invalidate_at_lem :
      invalidate_at h idx
      ≡ done (
        record h { words = update h.words (entry_word h idx + 1) 0 },
        h.words (entry_word h idx + 1),
      )
  unfolding invalidate_at
  invalidate_at_lem = rw get_entry_atomic_lem

  pub insert_at_lem :
      (s : Snapshot)
      → insert_at h idx s
        ≡ done (record h {
          words =
              update (update h.words (entry_word h idx) s.offset) (entry_word h idx + 1) s.length;
        })
  unfolding insert_at
  insert_at_lem s = rw get_entry_atomic_lem

  pub entry_at_relaxed_lem :
      entry_at_relaxed h idx
      ≡ done
          (record { offset = h.words (entry_word h idx); length = h.words (entry_word h idx + 1) })
  unfolding entry_at_relaxed
  entry_at_relaxed_lem = rw get_entry_atomic_lem

pub update-WordsFit :
    {words : ℕ → ℕ} (a n : ℕ) → WordsFit words → n < 2 ^ 64 → WordsFit (update words a n)
update-WordsFit a n fit h x = ground (arith, fit x)

pub update-outside : (words : ℕ → ℕ) (a n x : ℕ) → x ≢ a → update words a n x ≡ words x
update-outside words a n x h = ground arith
