-- ===== src/Snapshot/Write/Invalidate.antt =====
-- `invalidate_heads_to` of shm-snapshot/src/writer.rs: how far its loop goes, and what it changes.
use shmfd.Prelude.{
  ℕ, zero, suc, ◌+◌, ◌^◌, ◌≤◌, ◌<◌, ◌≡◌, refl, ◌∙◌, arith, ◌==◌, leb, Run, done, Bool-cases, inl,
  inr, leb→le, ==-false→ne,
}
use shmfd.Prelude.Words.{wrapping_add, wrapping_sub}
use shmfd.Snapshot.Layout.{WriteHead, update}
use shmfd.Snapshot.Ring.Bytes.{WordsFit, IsConfigured}
use shmfd.Snapshot.Ring.Copy.{words-IsConfigured}
use shmfd.Snapshot.Ring.Entries.{
  entry_word, IsOutsideEntries, entry_word_bounds, invalidate_at_lem, update-WordsFit,
  update-outside,
}
use shmfd.Snapshot.Write.{invalidate_from, invalidate_heads_to}

-- The loop returned, with the stream offset at or past `end`, and wrote only words of entries.
pub record Invalidated (h : WriteHead) (end : ℕ) (result : Run (WriteHead × ℕ × ℕ)) : Type 0 where
  pub words : ℕ → ℕ
  pub entry : ℕ
  pub bytes : ℕ
  pub returns : result ≡ done (record h { words = words }, entry, bytes)
  pub reached : end ≤ bytes
  pub entry_lt : entry < 2 ^ 64
  pub outside : (a : ℕ) → IsOutsideEntries h a → words a ≡ h.words a
  pub fit : WordsFit words

stopped :
    (h : WriteHead) (end entry bytes : ℕ) {result : Run (WriteHead × ℕ × ℕ)}
    → IsConfigured h
    → end ≤ bytes
    → entry < 2 ^ 64
    → result ≡ done (h, entry, bytes)
    → Invalidated h end result
stopped h end entry bytes v le lt e = record {
  words = h.words;
  entry = entry;
  bytes = bytes;
  returns = e;
  reached = le;
  entry_lt = lt;
  outside = λ a o. refl;
  fit = v.words_fit;
}

pub invalidate_from-Invalidated :
    (fuel : ℕ) (h : WriteHead) (end entry bytes : ℕ)
    → IsConfigured h
    → h.cache.entry_write_offset < 2 ^ 64
    → entry < 2 ^ 64
    → wrapping_sub h.cache.entry_write_offset entry < fuel
    → Invalidated h end (invalidate_from fuel h end entry bytes)
unfolding invalidate_from
invalidate_from-Invalidated zero h end entry bytes v w e enough = absurd (omega arith)
invalidate_from-Invalidated (suc fuel) h end entry bytes v w e enough =
    elim (Bool-cases (leb end bytes)) [
      | inl past ↦ stopped h end entry bytes v (leb→le end bytes past) e (rw past)
      | inr before ↦ elim (Bool-cases (entry == h.cache.entry_write_offset)) [
        | inl caught ↦ stopped h end entry end v (omega arith) e (rw (before, caught))
        | inr more ↦
            let words' : ℕ → ℕ = update h.words (entry_word h entry + 1) 0 in
            let rest =
              invalidate_from-Invalidated fuel (record h { words = words' }) end
                (wrapping_add entry 1) (wrapping_add bytes (h.words (entry_word h entry + 1)))
                (words-IsConfigured words'
                  (update-WordsFit (entry_word h entry + 1) 0 v.words_fit (omega arith)) v)
                w (omega arith)
                (omega (arith, ==-false→ne entry h.cache.entry_write_offset more)) in
            record {
              words = rest.words;
              entry = rest.entry;
              bytes = rest.bytes;
              returns = rw (before, more, invalidate_at_lem entry v) rest.returns;
              reached = rest.reached;
              entry_lt = rest.entry_lt;
              outside = λ a o.
                  rest.outside a o
                  ∙ update-outside h.words (entry_word h entry + 1) 0 a
                      (omega (arith, entry_word_bounds entry v));
              fit = rest.fit;
            }
      ]
    ]

-- What `invalidate_heads_to` leaves.
pub record HeadsInvalidated (h : WriteHead) (end : ℕ) : Type 0 where
  pub words : ℕ → ℕ
  pub entry : ℕ
  pub bytes : ℕ
  pub returns :
      invalidate_heads_to h end
      ≡ done (record h {
        words = words;
        cache = record (h.cache) { entry_read_offset = entry; page_read_offset = bytes };
      })
  pub reached : end ≤ bytes
  pub entry_lt : entry < 2 ^ 64
  pub outside : (a : ℕ) → IsOutsideEntries h a → words a ≡ h.words a
  pub fit : WordsFit words

-- On a well-formed head whose entry offsets are `u64`s, `invalidate_heads_to` returns for every end
-- offset: its loop needs no more rounds than the entry
-- write offset is ahead of the entry read offset. The data read offset is then at or past the end,
-- and no word outside the pages of the entry ring has changed.
pub invalidate_heads_to-HeadsInvalidated :
    (h : WriteHead) (end : ℕ)
    → IsConfigured h
    → h.cache.entry_write_offset < 2 ^ 64
    → h.cache.entry_read_offset < 2 ^ 64
    → HeadsInvalidated h end
unfolding invalidate_heads_to
invalidate_heads_to-HeadsInvalidated h end v w r =
    let loop =
      invalidate_from-Invalidated
        (suc (wrapping_sub h.cache.entry_write_offset h.cache.entry_read_offset)) h end
        h.cache.entry_read_offset h.cache.page_read_offset v w r (omega arith) in
    record {
      words = loop.words;
      entry = loop.entry;
      bytes = loop.bytes;
      returns = rw loop.returns;
      reached = loop.reached;
      entry_lt = loop.entry_lt;
      outside = loop.outside;
      fit = loop.fit;
    }
