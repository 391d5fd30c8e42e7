-- ===== src/Snapshot/Crash/Runs.antt =====
-- The stores of a commit run to its end: `Writer::commit` of shm-snapshot/src/lib.rs and the stores
-- of `Head::write_with` in shm-snapshot/src/writer.rs, one after the other.
use shmfd.Prelude.{
  ℕ, zero, suc, ◌+◌, ◌≡◌, >>=-eq-done, refl, sym, ◌∙◌, subst, arith, ◌==◌, leb, Bool-cases, inl,
  inr, leb→le, leb-false→lt, ==→eq, ==-false→ne, Run, done, List, [], ◌∷◌, length,
}
use shmfd.Prelude.Words.{wrapping_add, wrapping_sub}
use shmfd.Snapshot.Layout.{WriteHead, update}
use shmfd.Snapshot.Ring.{invalidate_at, get_entry_atomic}
use shmfd.Snapshot.Ring.Bytes.{
  IsConfigured, put_byte, byte_address, put_byte-WordsFit, write_at_lem,
}
use shmfd.Snapshot.Ring.Stream.{AllBytes, put_bytes}
use shmfd.Snapshot.Ring.Copy.{data_base, data_len, words-IsConfigured}
use shmfd.Snapshot.Ring.Entries.{
  entry_word, get_entry_atomic_lem, invalidate_at_lem, update-WordsFit,
}
use shmfd.Snapshot.Write.{invalidate_from, invalidate_heads_to}
use shmfd.Snapshot.Write.Commit.{
  IsWriter, IsWritable, committed, prepared, cleared-IsConfigured, end_offset, invalidated,
}
use shmfd.Snapshot.Crash.{
  Stage, invalidating, copying, published, offset_stored, length_stored, reached, caught_up,
  invalidate, copy, publish, store_offset, store_length, Reach, here, next, start,
}

-- The loop of `invalidate_heads_to` is left with `result`.
abbrev leaves : WriteHead → List ℕ → WriteHead × ℕ × ℕ → WriteHead × Stage
leaves h bs result = (
  record (result.0) {
    cache = record (result.0.cache) { entry_read_offset = result.1; page_read_offset = result.2 };
  },
  copying h.cache.page_write_offset bs,
)

module _ {h : WriteHead} {bs : List ℕ} {s : WriteHead × Stage} where
  pub copy-Reach :
      (rest : List ℕ) (g : WriteHead) (idx : ℕ)
      → IsConfigured g
      → AllBytes rest
      → Reach h bs s (g, copying idx rest)
      → Reach h bs s (
        record g { words = put_bytes (data_base g) (data_len g) g.words idx rest },
        copying (idx + length rest) [],
      )
  unfolding put_bytes
  copy-Reach [] g idx c all r = let e : idx + 0 ≡ idx = omega arith in rw e r
  copy-Reach (b ∷ rest) g idx c all r =
      let e : idx + length (b ∷ rest) ≡ idx + 1 + length rest = omega arith in
      rw e (
        copy-Reach rest (record g { words = put_byte g.words (byte_address g idx) b }) (idx + 1)
          (words-IsConfigured (put_byte g.words (byte_address g idx) b)
            (put_byte-WordsFit (byte_address g idx) b c.words_fit all.0) c)
          all.1 (next r (copy g _ idx b rest (write_at_lem idx c b))))

  leave :
      {m : Run (WriteHead × ℕ × ℕ)} (a b : WriteHead × ℕ × ℕ)
      → m ≡ done a
      → m ≡ done b
      → Reach h bs s (leaves h bs a)
      → Reach h bs s (leaves h bs b)
  leave a b ea eb r = let e : a ≡ b = cc in subst (λ x. Reach h bs s (leaves h bs x)) e r

  pub invalidate-Reach :
      (fuel : ℕ) (g : WriteHead) (entry bytes : ℕ) (result : WriteHead × ℕ × ℕ)
      → IsConfigured g
      → g.cache.entry_write_offset ≡ h.cache.entry_write_offset
      → invalidate_from fuel g (h.cache.page_write_offset + length bs) entry bytes ≡ done result
      → Reach h bs s (g, invalidating entry bytes)
      → Reach h bs s (leaves h bs result)
  unfolding invalidate_from
  invalidate-Reach zero g entry bytes result c w e r = absurd cc
  invalidate-Reach (suc fuel) g entry bytes result c w e r =
      elim (Bool-cases (leb (h.cache.page_write_offset + length bs) bytes)) [
        | inl past ↦
            leave (g, entry, bytes) result (rw past refl) e
              (next r (reached g entry bytes (leb→le _ _ past)))
        | inr before ↦ elim (Bool-cases (entry == g.cache.entry_write_offset)) [
          | inl caught ↦
              leave (g, entry, h.cache.page_write_offset + length bs) result
                (rw (before, caught) refl) e
                (next r (caught_up g entry bytes (leb-false→lt _ _ before) (==→eq _ _ caught ∙ w)))
          | inr more ↦
              let words' : ℕ → ℕ = update g.words (entry_word g entry + 1) 0 in
              let found : invalidate_at g entry
                  ≡ done (record g { words = words' }, g.words (entry_word g entry + 1)) =
                invalidate_at_lem entry c in
              invalidate-Reach fuel (record g { words = words' }) (wrapping_add entry 1)
                (wrapping_add bytes (g.words (entry_word g entry + 1))) result
                (words-IsConfigured words'
                  (update-WordsFit (entry_word g entry + 1) 0 c.words_fit (omega arith)) c)
                w (sym (rw (before, more, found) refl) ∙ e)
                (next r (
                  invalidate g _ entry bytes _ (leb-false→lt _ _ before)
                    (λ q. ==-false→ne _ _ more (q ∙ sym w)) found))
        ]
      ]

module _ (h : WriteHead) (bs : List ℕ) (v : IsWriter h) (w : IsWritable h bs) where
  abbrev cleared : WriteHead
  cleared = record h {
    words = (invalidated h bs v w).words;
    cache = record (h.cache) {
      entry_read_offset = (invalidated h bs v w).entry;
      page_read_offset = (invalidated h bs v w).bytes;
    };
  }

  cleared-Reach : Reach h bs (start h) (cleared, copying h.cache.page_write_offset bs)
  unfolding invalidate_heads_to
  cleared-Reach =
      let ahead = wrapping_sub h.cache.entry_write_offset h.cache.entry_read_offset in
      let returns = (invalidated h bs v w).returns in
      let (result, e, kept) =
        >>=-eq-done
          (invalidate_from (suc ahead) h (end_offset h bs v w) h.cache.entry_read_offset
            h.cache.page_read_offset)
          _ returns in
      let same : (leaves h bs result).0 ≡ cleared = cc in
      subst (λ (t : WriteHead). Reach h bs (start h) (t, copying h.cache.page_write_offset bs)) same
        (invalidate-Reach (suc ahead) h h.cache.entry_read_offset h.cache.page_read_offset result
          v.configured refl e here)

  -- The head before the two stores of the entry.
  abbrev pub stored : WriteHead
  stored = record (prepared h bs v w) {
    meta = record (h.meta) { page_write_offset = end_offset h bs v w };
  }

  stored-entry :
      (words : ℕ → ℕ)
      → get_entry_atomic (record stored { words = words }) h.cache.entry_write_offset
        ≡ done (entry_word h h.cache.entry_write_offset)
  unfolding get_entry_atomic
  stored-entry words = get_entry_atomic_lem h.cache.entry_write_offset v.configured

  pub published-Reach : Reach h bs (start h) (stored, published)
  published-Reach =
      next
        (copy-Reach bs cleared h.cache.page_write_offset (cleared-IsConfigured h bs v w) w.all_bytes
          cleared-Reach)
        (publish _ (end_offset h bs v w))

  pub offset_stored-Reach : Reach h bs (start h) (
    record stored {
      words =
          update stored.words (entry_word h h.cache.entry_write_offset) h.cache.page_write_offset;
    },
    offset_stored,
  )
  offset_stored-Reach = next published-Reach (store_offset stored _ (stored-entry stored.words))

  pub committed-Reach : Reach h bs (start h) (committed h bs v w, length_stored)
  committed-Reach = next offset_stored-Reach (store_length _ _ (stored-entry _))
