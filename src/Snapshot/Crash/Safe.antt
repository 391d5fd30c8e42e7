-- ===== src/Snapshot/Crash/Safe.antt =====
-- What a reader of the shared file finds between two stores of a commit of shm-snapshot/src/writer.rs:
-- `entry_at_relaxed` and `read` on the states of an unfinished `Writer::commit`.
use shmfd.Prelude.{
  ◌-◌, ℕ, zero, suc, ◌+◌, ◌%◌, ◌^◌, ◌≤◌, ◌<◌, ◌≡◌, ◌≢◌, ◌⊎◌, inl, inr, refl, sym, ap, ap₂, ◌∙◌,
  subst, arith, done, List, [], ◌∷◌, ◌++◌, length, take, drop, length-append,
}
use mathlib.Core.List.{append-nil}
use shmfd.Prelude.Words.{IsPowerOfTwo-pos}
use shmfd.Snapshot.Layout.{WriteHead, Snapshot}
use shmfd.Snapshot.Ring.{read, entry_at_relaxed, entry_address}
use shmfd.Snapshot.Ring.Bytes.{WordsFit}
use shmfd.Snapshot.Ring.Stream.{
  AllBytes, put_bytes, bytes_at, put_bytes-frame, step_ne, bytes_at-put_bytes, bytes_at-agree,
  bytes_at-min,
}
use shmfd.Snapshot.Ring.Copy.{data_base, data_len, read_from_lem}
use shmfd.Snapshot.Ring.Entries.{entry_word, entry_at_relaxed_lem}
use shmfd.Snapshot.Write.Commit.{IsWriter, IsWritable, taken}
use shmfd.Snapshot.Crash.{
  Stage, invalidating, copying, published, offset_stored, length_stored, Reach, here, start,
}
use shmfd.Snapshot.Crash.Stores.{on, on-IsConfigured}
use shmfd.Snapshot.Crash.Holding.{IsOldEntry, position, IsListed, IsCopied, ring_words, Holding}
use shmfd.Snapshot.Crash.Steps.{Reach-Holding}

-- Bytes written further along the stream, by less than the ring is long, leave a run alone.
pub bytes_at-put_bytes-before :
    (base m : ℕ) (words : ℕ → ℕ) (o n o' : ℕ) (bs : List ℕ)
    → WordsFit words
    → AllBytes bs
    → o + n ≤ o'
    → o' + length bs ≤ o + m
    → bytes_at base m (put_bytes base m words o' bs) o n ≡ bytes_at base m words o n
unfolding bytes_at
bytes_at-put_bytes-before base m words o zero o' bs fit all before within = refl
bytes_at-put_bytes-before base m words o (suc n) o' bs fit all before within =
    ap₂ ◌∷◌ (put_bytes-frame base m words o' bs (base + o % m) fit all away)
      (bytes_at-put_bytes-before base m words (o + 1) n o' bs fit all (omega arith) (omega arith))
  where
    away : (i : ℕ) → i < length bs → base + (o' + i) % m ≢ base + o % m
    away i lt e =
        let d : o' + i ≡ o + (o' + i - o) = omega arith in
        step_ne base m o (o' + i - o) (omega arith) (omega arith)
          (omega (arith, e, ap (λ (t : ℕ). t % m) d))

-- Reading a snapshot in a state of the memory.
module _ (h : WriteHead) (bs : List ℕ) (v : IsWriter h) (w : IsWritable h bs) where
  bytes_at-Holding :
      {g : WriteHead} {stage : Stage} (s : Holding h bs g stage) (o n : ℕ)
      → bytes_at (data_base h) (data_len h) s.memory.words o n
        ≡ bytes_at (data_base h) (data_len h) (ring_words h s.copied) o n
  bytes_at-Holding s o n =
      bytes_at-agree (data_base h) (data_len h) s.memory.words (ring_words h s.copied) o n
        (λ a out. s.outside a (inr (omega (arith, v.configured.apart))))

  read-Holding :
      {g : WriteHead} {stage : Stage} (s : Holding h bs g stage) (snapshot : Snapshot)
      (into : List ℕ)
      → snapshot.offset + snapshot.length ≤ 2 ^ 64
      → read g snapshot into
        ≡ done (
            take (length into) (
              bytes_at
                (data_base h)
                (data_len h)
                (ring_words h s.copied)
                snapshot.offset
                snapshot.length)
            ++ drop snapshot.length into)
  unfolding read
  read-Holding s snapshot into fits =
      let from : snapshot.offset + 0 ≡ snapshot.offset = omega arith in
      rw (
        s.same,
        read_from_lem (on h s.memory) snapshot.offset 0 snapshot.length into
            (on-IsConfigured s.memory v.configured s.fit) (omega arith),
        from,
        bytes_at-min (data_base h) (data_len h) s.memory.words snapshot.offset snapshot.length
            (length into),
        bytes_at-Holding s snapshot.offset snapshot.length,
      )

-- What is copied is a beginning of the bytes of the commit.
IsCopied-begins :
    (h : WriteHead) (bs : List ℕ) (stage : Stage) (copied : List ℕ)
    → IsCopied h bs stage copied
    → (rest : List ℕ) × (copied ++ rest ≡ bs)
IsCopied-begins h bs (invalidating entry bytes) copied p = (bs, rw (p.0) refl)
IsCopied-begins h bs (copying idx rest) copied p = (rest, p.0)
IsCopied-begins h bs published copied p = ([], append-nil copied ∙ p)
IsCopied-begins h bs offset_stored copied p = ([], append-nil copied ∙ p)
IsCopied-begins h bs length_stored copied p = ([], append-nil copied ∙ p)

AllBytes-left : (xs ys : List ℕ) → AllBytes (xs ++ ys) → AllBytes xs
AllBytes-left [] ys all = tt
AllBytes-left (x ∷ xs) ys all = (all.0, AllBytes-left xs ys all.1)

module _ (h : WriteHead) (bs : List ℕ) (v : IsWriter h) (w : IsWritable h bs) where
  read-before :
      (snapshot : Snapshot) (into : List ℕ)
      → snapshot.offset + snapshot.length ≤ h.cache.page_write_offset
      → h.cache.page_write_offset + length bs ≤ snapshot.offset + (h.cache.page_mask + 1)
      → {g : WriteHead} {stage : Stage} → Holding h bs g stage
      → read g snapshot into
        ≡ done (
            take
              (length into)
              (bytes_at (data_base h) (data_len h) h.words snapshot.offset snapshot.length)
            ++ drop snapshot.length into)
  read-before snapshot into before within {g} {stage} s =
      let (rest, whole) = IsCopied-begins h bs stage s.copied s.progress in
      rw (read-Holding h bs v w s snapshot into (omega (arith, before, w.in_stream))) (
        ap (λ (bytes : List ℕ). done (take (length into) bytes ++ drop snapshot.length into))
          (bytes_at-put_bytes-before (data_base h) (data_len h) h.words snapshot.offset
            snapshot.length h.cache.page_write_offset s.copied v.configured.words_fit
            (AllBytes-left s.copied rest (subst AllBytes (sym whole) w.all_bytes)) before
            (omega (arith, within, length-append s.copied rest, ap length whole))))

-- In every state between two stores of a commit that fits the data ring of a well-formed head, short
-- of the last `u64` of the stream, a snapshot reads as it did before: one that ends at or before the
-- write offset, and that lies no further back from the end of the new bytes than the ring is long.
pub Reach-Reads :
    (h : WriteHead) (bs : List ℕ) (snapshot : Snapshot) (into : List ℕ) (t : WriteHead × Stage)
    → IsWriter h
    → IsWritable h bs
    → snapshot.offset + snapshot.length ≤ h.cache.page_write_offset
    → h.cache.page_write_offset + length bs ≤ snapshot.offset + (h.cache.page_mask + 1)
    → Reach h bs (start h) t
    → read t.0 snapshot into ≡ read h snapshot into
Reach-Reads h bs snapshot into t v w before within r =
    read-before h bs v w snapshot into before within (Reach-Holding h bs v w r)
    ∙ sym (
        read-before h bs v w snapshot into before within
          (Reach-Holding h bs v w {t = start h} here))

-- The entry at a position when the one that the commit writes had no length.
abbrev IsNewOrOld : WriteHead → List ℕ → Stage → (ℕ → ℕ) → ℕ → Type 0
IsNewOrOld h bs stage words i =
    (words (entry_address h i + 1) ≡ 0)
    ⊎ ((words (entry_address h i) ≡ h.words (entry_address h i))
        × (words (entry_address h i + 1) ≡ h.words (entry_address h i + 1)))
    ⊎ ((stage ≡ length_stored)
        × (words (entry_address h i) ≡ h.cache.page_write_offset)
        × (words (entry_address h i + 1) ≡ length bs))

IsOldEntry-IsNewOrOld :
    (h : WriteHead) (bs : List ℕ) (stage : Stage) (words : ℕ → ℕ) (i : ℕ)
    → IsOldEntry h words i
    → IsNewOrOld h bs stage words i
IsOldEntry-IsNewOrOld h bs stage words i old = elim old.1 [
  | inl kept ↦ inr (inl (old.0, kept))
  | inr void ↦ inl void
]

IsListed-IsNewOrOld :
    (h : WriteHead) (bs : List ℕ) (stage : Stage) (words : ℕ → ℕ) (i : ℕ)
    → h.words (entry_address h (position h) + 1) ≡ 0
    → IsListed h bs stage words i
    → IsNewOrOld h bs stage words i
IsListed-IsNewOrOld h bs (invalidating entry bytes) words i free old =
    IsOldEntry-IsNewOrOld h bs (invalidating entry bytes) words i old
IsListed-IsNewOrOld h bs (copying idx rest) words i free old =
    IsOldEntry-IsNewOrOld h bs (copying idx rest) words i old
IsListed-IsNewOrOld h bs published words i free old =
    IsOldEntry-IsNewOrOld h bs published words i old
IsListed-IsNewOrOld h bs offset_stored words i free (inl at) = inl (elim at.2 [
  | inl kept ↦ kept ∙ ap (λ (j : ℕ). h.words (entry_address h j + 1)) at.0 ∙ free
  | inr void ↦ void
])
IsListed-IsNewOrOld h bs offset_stored words i free (inr other) =
    IsOldEntry-IsNewOrOld h bs offset_stored words i other.1
IsListed-IsNewOrOld h bs length_stored words i free (inl at) = inr (inr (refl, at.1, at.2))
IsListed-IsNewOrOld h bs length_stored words i free (inr other) =
    IsOldEntry-IsNewOrOld h bs length_stored words i other.1

IsCopied-whole :
    (h : WriteHead) (bs : List ℕ) (stage : Stage) (copied : List ℕ)
    → stage ≡ length_stored
    → IsCopied h bs stage copied
    → copied ≡ bs
IsCopied-whole h bs stage copied e p = subst (λ (x : Stage). IsCopied h bs x copied) e p

module _ (h : WriteHead) (bs : List ℕ) (v : IsWriter h) (w : IsWritable h bs) where
  pub entry_at_relaxed-Holding :
      {g : WriteHead} {stage : Stage} (s : Holding h bs g stage) (idx : ℕ)
      → entry_at_relaxed g idx
        ≡ done (record {
          offset = s.memory.words (entry_word h idx);
          length = s.memory.words (entry_word h idx + 1);
        })
  entry_at_relaxed-Holding s idx =
      ap (λ (t : WriteHead). entry_at_relaxed t idx) s.same
      ∙ entry_at_relaxed_lem idx (on-IsConfigured s.memory v.configured s.fit)

  read-new :
      {g : WriteHead} {stage : Stage} (s : Holding h bs g stage) (into : List ℕ)
      → stage ≡ length_stored
      → read g (taken h bs v w) into ≡ done (take (length into) bs ++ drop (length bs) into)
  read-new {g} {stage} s into e =
      read-Holding h bs v w s (taken h bs v w) into (omega (arith, w.in_stream))
      ∙ ap (λ (bytes : List ℕ). done (take (length into) bytes ++ drop (length bs) into))
          (rw (IsCopied-whole h bs stage s.copied e s.progress) (
            bytes_at-put_bytes (data_base h) (data_len h) h.words h.cache.page_write_offset bs
              v.configured.words_fit w.all_bytes (omega (arith, w.fits))))

-- While a commit of bytes that fit the data ring runs on a well-formed head, short of the last `u64`
-- of the stream, whose entry at the entry write offset has no length yet, every index of an entry
-- gives in every state between two stores one of three snapshots: one without a length, the one that
-- it gave before the commit, or the new one at the write offset, which then reads as the bytes of the
-- commit.
pub Reach-NewOrOld :
    (h : WriteHead) (bs : List ℕ) (idx : ℕ) (t : WriteHead × Stage)
    → IsWriter h
    → IsWritable h bs
    → h.words (entry_word h h.cache.entry_write_offset + 1) ≡ 0
    → Reach h bs (start h) t
    → (snapshot : Snapshot) × (entry_at_relaxed t.0 idx ≡ done snapshot)
      × ((snapshot.length ≡ 0)
          ⊎ (entry_at_relaxed h idx ≡ done snapshot)
          ⊎ ((snapshot ≡ record { offset = h.cache.page_write_offset; length = length bs })
              × ((into : List ℕ)
                  → read t.0 snapshot into
                    ≡ done (take (length into) bs ++ drop (length bs) into))))
Reach-NewOrOld h bs idx t v w free r =
    let s = Reach-Holding h bs v w r in
    let a = entry_word h idx in
    let listed =
      s.listed (idx % (h.cache.entry_mask + 1))
        (omega (arith, v.configured.entries_fit, IsPowerOfTwo-pos v.configured.entry_power)) in
    (
      record { offset = s.memory.words a; length = s.memory.words (a + 1) },
      entry_at_relaxed-Holding h bs v w s idx,
      elim (IsListed-IsNewOrOld h bs t.1 s.memory.words (idx % (h.cache.entry_mask + 1)) free
          listed) [
            | inl void ↦ inl void
            | inr (inl old) ↦ inr (inl (rw (old.0, old.1) (entry_at_relaxed_lem idx v.configured)))
            | inr (inr fresh) ↦
                let same : record { offset = s.memory.words a; length = s.memory.words (a + 1) }
                    ≡ taken h bs v w =
                  rw (fresh.1, fresh.2) refl in
                inr (inr (same, λ into. rw same (read-new h bs v w s into fresh.0)))
          ],
    )
