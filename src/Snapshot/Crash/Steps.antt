-- ===== src/Snapshot/Crash/Steps.antt =====
-- Each store of a commit of shm-snapshot/src/writer.rs keeps what `Holding` says of its stage.
use shmfd.Prelude.{
  ℕ, ◌+◌, ◌*◌, ◌%◌, ◌^◌, ◌≤◌, ◌<◌, ◌≡◌, ◌≢◌, inl, inr, refl, sym, ap, ◌∙◌, arith, done, List, [],
  ◌∷◌, ◌++◌, length, length-append, subst, ◌/◌,
}
use mathlib.Core.List.{append-nil}
use native.Mathlib.Decide.{ℕ_discrete}
use shmfd.Snapshot.Layout.{WriteHead, update}
use shmfd.Snapshot.Ring.{write_at, get_entry_atomic, invalidate_at, entry_address}
use shmfd.Snapshot.Ring.Bytes.{put_byte, byte_address, put_byte-WordsFit}
use shmfd.Snapshot.Ring.Stream.{AllBytes}
use shmfd.Snapshot.Ring.Copy.{data_base, data_len}
use shmfd.Snapshot.Ring.Entries.{entry_word, entry_word_bounds, update-WordsFit, update-outside}
use shmfd.Snapshot.Write.Commit.{IsWriter, IsWritable}
use shmfd.Snapshot.Crash.{
  Stage, invalidating, copying, published, offset_stored, length_stored, Step, reached, caught_up,
  invalidate, copy, publish, store_offset, store_length, Reach, here, next, start,
}
use shmfd.Snapshot.Crash.Stores.{entry_address-on, write_at-on, invalidate_at-on}
use shmfd.Snapshot.Crash.Holding.{
  IsOldEntry, position, Holding, start-Holding, put_bytes-snoc, AllBytes-middle, append-cons,
  IsOldEntry-agree, update-IsOldEntry,
}

module _ (h : WriteHead) (bs : List ℕ) (v : IsWriter h) (w : IsWritable h bs) where
  invalidate-Holding :
      (g g' : WriteHead) (entry bytes entry' bytes' length' : ℕ)
      → entry' < 2 ^ 64
      → invalidate_at g entry ≡ done (g', length')
      → Holding h bs g (invalidating entry bytes)
      → Holding h bs g' (invalidating entry' bytes')
  invalidate-Holding g g' entry bytes entry' bytes' length' lt e s = record {
    memory = record (s.memory) { words = update s.memory.words (slot + 1) 0 };
    same =
        invalidate_at-on s.memory v.configured s.fit entry length' g'
          (sym (ap (λ (t : WriteHead). invalidate_at t entry) s.same) ∙ e);
    fit = update-WordsFit (slot + 1) 0 s.fit (omega arith);
    copied = s.copied;
    progress = (s.progress.0, lt);
    outside = λ a o.
        update-outside s.memory.words (slot + 1) 0 a (omega (arith, o, bounds)) ∙ s.outside a o;
    listed = λ i lt.
        update-IsOldEntry h s.memory.words i (entry % (h.cache.entry_mask + 1)) (s.listed i lt);
  }
    where
      slot : ℕ
      slot = entry_word h entry

      bounds :
          (h.sequence.start * 512 ≤ entry_word h entry)
          × (entry_word h entry + 1 < (h.sequence.start + h.sequence.len) * 512)
      bounds = entry_word_bounds entry v.configured

  copy-Holding :
      (g g' : WriteHead) (idx b : ℕ) (rest : List ℕ)
      → write_at g idx b ≡ done g'
      → Holding h bs g (copying idx (b ∷ rest))
      → Holding h bs g' (copying (idx + 1) rest)
  copy-Holding g g' idx b rest e s = record {
    memory = record (s.memory) { words = put_byte s.memory.words (byte_address h idx) b };
    same =
        write_at-on s.memory v.configured s.fit idx b g'
          (sym (ap (λ (t : WriteHead). write_at t idx b) s.same) ∙ e);
    fit = put_byte-WordsFit (byte_address h idx) b s.fit byte;
    copied = s.copied ++ (b ∷ []);
    progress = (
      append-cons s.copied b rest ∙ s.progress.0,
      omega (arith, s.progress.1, length-append s.copied (b ∷ [])),
    );
    outside = λ a o.
        rw
          (
            put_bytes-snoc (data_base h) (data_len h) h.words h.cache.page_write_offset s.copied b,
            sym s.progress.1,
          )
          (ground (arith, s.outside a o));
    listed = λ i lt.
        IsOldEntry-agree h s.memory.words (put_byte s.memory.words (byte_address h idx) b) i
          (update-outside s.memory.words (byte_address h idx / 8) _ (entry_address h i)
            (omega (arith, lt, v.configured.apart)))
          (update-outside s.memory.words (byte_address h idx / 8) _ (entry_address h i + 1)
            (omega (arith, lt, v.configured.apart)))
          (s.listed i lt);
  }
    where
      byte : b < 256
      byte = AllBytes-middle s.copied b rest (subst AllBytes (sym s.progress.0) w.all_bytes)

  -- A new value of a word of the entry that the commit writes leaves the other entries alone.
  others :
      (words : ℕ → ℕ) (k n i : ℕ)
      → k ≤ 1
      → i ≢ position h
      → IsOldEntry h words i
      → IsOldEntry h (update words (entry_word h h.cache.entry_write_offset + k) n) i
  others words k n i le ne =
      IsOldEntry-agree h words (update words (entry_word h h.cache.entry_write_offset + k) n) i
        (update-outside words (entry_word h h.cache.entry_write_offset + k) n (entry_address h i)
          (omega (arith, le, ne)))
        (update-outside words (entry_word h h.cache.entry_write_offset + k) n
          (entry_address h i + 1) (omega (arith, le, ne)))

  slot_bounds :
      (h.sequence.start * 512 ≤ entry_word h h.cache.entry_write_offset)
      × (entry_word h h.cache.entry_write_offset + 1 < (h.sequence.start + h.sequence.len) * 512)
  slot_bounds = entry_word_bounds h.cache.entry_write_offset v.configured

  offset-Holding :
      (g : WriteHead) (a : ℕ)
      → get_entry_atomic g h.cache.entry_write_offset ≡ done a
      → Holding h bs g published
      → Holding h bs (record g { words = update g.words a h.cache.page_write_offset }) offset_stored
  offset-Holding g a e s = record {
    memory = record (s.memory) { words = update s.memory.words slot h.cache.page_write_offset };
    same = rw (s.same, found) refl;
    fit = update-WordsFit slot h.cache.page_write_offset s.fit (omega (arith, w.in_stream));
    copied = s.copied;
    progress = s.progress;
    outside = λ x o.
        update-outside s.memory.words slot h.cache.page_write_offset x
          (omega (arith, o, slot_bounds))
        ∙ s.outside x o;
    listed = λ i lt. elim (ℕ_discrete i (position h)) [
      | yes e ↦ inl (
        e,
        rw e (ground arith),
        elim (s.listed i lt).1 [ inl k ↦ inl (stays i ∙ k) | inr k ↦ inr (stays i ∙ k) ],
      )
      | no ne ↦ inr (
        ne,
        subst (λ (t : ℕ). IsOldEntry h (update s.memory.words t h.cache.page_write_offset) i)
            (omega arith)
            (others s.memory.words 0 h.cache.page_write_offset i (omega arith) ne (s.listed i lt)),
      )
    ];
  }
    where
      slot : ℕ
      slot = entry_word h h.cache.entry_write_offset

      found : a ≡ slot
      found =
          entry_address-on s.memory v.configured s.fit h.cache.entry_write_offset a
            (sym (ap (λ (t : WriteHead). get_entry_atomic t h.cache.entry_write_offset) s.same) ∙ e)

      stays :
          (i : ℕ)
          → update s.memory.words slot h.cache.page_write_offset (entry_address h i + 1)
            ≡ s.memory.words (entry_address h i + 1)
      stays i =
          update-outside s.memory.words slot h.cache.page_write_offset (entry_address h i + 1)
            (omega arith)

  length-Holding :
      (g : WriteHead) (a : ℕ)
      → get_entry_atomic g h.cache.entry_write_offset ≡ done a
      → Holding h bs g offset_stored
      → Holding h bs (record g { words = update g.words (a + 1) (length bs) }) length_stored
  length-Holding g a e s = record {
    memory = record (s.memory) { words = update s.memory.words (slot + 1) (length bs) };
    same = rw (s.same, found) refl;
    fit = update-WordsFit (slot + 1) (length bs) s.fit (omega (arith, w.in_stream));
    copied = s.copied;
    progress = s.progress;
    outside = λ x o.
        update-outside s.memory.words (slot + 1) (length bs) x (omega (arith, o, slot_bounds))
        ∙ s.outside x o;
    listed = λ i lt. elim (s.listed i lt) [
      | inl at ↦ inl (
        at.0,
        update-outside s.memory.words (slot + 1) (length bs) (entry_address h i) (omega arith)
            ∙ at.1,
        rw (at.0) (ground arith),
      )
      | inr other ↦
          inr (other.0, others s.memory.words 1 (length bs) i (omega arith) other.0 other.1)
    ];
  }
    where
      slot : ℕ
      slot = entry_word h h.cache.entry_write_offset

      found : a ≡ slot
      found =
          entry_address-on s.memory v.configured s.fit h.cache.entry_write_offset a
            (sym (ap (λ (t : WriteHead). get_entry_atomic t h.cache.entry_write_offset) s.same) ∙ e)

  -- The loop of `invalidate_heads_to` is left, and its read offsets are stored.
  copying-Holding :
      (g : WriteHead) (entry bytes bytes' : ℕ)
      → Holding h bs g (invalidating entry bytes)
      → Holding h bs
          (record g {
            cache = record (g.cache) { entry_read_offset = entry; page_read_offset = bytes' };
          })
          (copying h.cache.page_write_offset bs)
  copying-Holding g entry bytes bytes' s = record {
    memory = record (s.memory) { entry_read = entry; page_read = bytes' };
    same = rw (s.same) refl;
    fit = s.fit;
    copied = s.copied;
    progress = (rw (s.progress.0) refl, rw (s.progress.0) (omega arith));
    outside = s.outside;
    listed = s.listed;
  }

  publish-Holding :
      (g : WriteHead) (idx : ℕ)
      → Holding h bs g (copying idx [])
      → Holding h bs
          (record g {
            cache = record (g.cache) { page_write_offset = idx };
            meta = record (g.meta) { page_write_offset = idx };
          })
          published
  publish-Holding g idx s = record {
    memory = record (s.memory) { page_write = idx; stored_write = idx };
    same = rw (s.same) refl;
    fit = s.fit;
    copied = s.copied;
    progress = sym (append-nil s.copied) ∙ s.progress.0;
    outside = s.outside;
    listed = s.listed;
  }

  Step-Holding :
      {g g' : WriteHead} {stage stage' : Stage}
      → Step h bs (g, stage) (g', stage')
      → Holding h bs g stage
      → Holding h bs g' stage'
  Step-Holding (reached g entry bytes le) s = copying-Holding g entry bytes bytes s
  Step-Holding (caught_up g entry bytes lt e) s = copying-Holding g entry bytes _ s
  Step-Holding (invalidate g g' entry bytes n lt ne e) s =
      invalidate-Holding g g' entry bytes _ _ n (omega arith) e s
  Step-Holding (copy g g' idx b rest e) s = copy-Holding g g' idx b rest e s
  Step-Holding (publish g idx) s = publish-Holding g idx s
  Step-Holding (store_offset g a e) s = offset-Holding g a e s
  Step-Holding (store_length g a e) s = length-Holding g a e s

  pub Reach-Holding : {t : WriteHead × Stage} → Reach h bs (start h) t → Holding h bs t.0 t.1
  Reach-Holding here = start-Holding h bs v
  Reach-Holding (next r st) = Step-Holding st (Reach-Holding r)
