-- ===== src/Snapshot/Crash/Holding.antt =====
-- What holds between the stores of a commit of shm-snapshot/src/writer.rs: the bytes that are
-- copied so far, and the entries that are listed.
use shmfd.Prelude.{
  ℕ, ◌+◌, ◌*◌, ◌%◌, ◌^◌, ◌<◌, ◌≡◌, ◌≢◌, ◌⊎◌, inl, inr, refl, ap, ◌∙◌, arith, List, [], ◌∷◌, ◌++◌,
  length,
}
use native.Mathlib.Decide.{ℕ_discrete}
use shmfd.Snapshot.Layout.{WriteHead, update}
use shmfd.Snapshot.Ring.{entry_address}
use shmfd.Snapshot.Ring.Bytes.{WordsFit, put_byte}
use shmfd.Snapshot.Ring.Stream.{AllBytes, put_bytes}
use shmfd.Snapshot.Ring.Copy.{data_base, data_len}
use shmfd.Snapshot.Ring.Entries.{IsOutsideEntries, update-outside}
use shmfd.Snapshot.Write.Commit.{IsWriter}
use shmfd.Snapshot.Crash.{Stage, invalidating, copying, published, offset_stored, length_stored}
use shmfd.Snapshot.Crash.Stores.{Memory, on, memory_of}

-- The length of an entry is the one from before the commit, or the entry is invalidated.
abbrev pub HasOldLength : WriteHead → (ℕ → ℕ) → ℕ → Type 0
HasOldLength h words i =
    (words (entry_address h i + 1) ≡ h.words (entry_address h i + 1))
    ⊎ (words (entry_address h i + 1) ≡ 0)

abbrev pub IsOldEntry : WriteHead → (ℕ → ℕ) → ℕ → Type 0
IsOldEntry h words i =
    (words (entry_address h i) ≡ h.words (entry_address h i)) × HasOldLength h words i

-- The position of the entry that the commit writes.
abbrev pub position : WriteHead → ℕ
position h = h.cache.entry_write_offset % (h.cache.entry_mask + 1)

-- The entry at a position, by how far the commit has come.
abbrev pub IsListed : WriteHead → List ℕ → Stage → (ℕ → ℕ) → ℕ → Type 0
IsListed h bs (invalidating entry bytes) words i = IsOldEntry h words i
IsListed h bs (copying idx rest) words i = IsOldEntry h words i
IsListed h bs published words i = IsOldEntry h words i
IsListed h bs offset_stored words i =
    ((i ≡ position h)
      × (words (entry_address h i) ≡ h.cache.page_write_offset)
      × HasOldLength h words i)
    ⊎ ((i ≢ position h) × IsOldEntry h words i)
IsListed h bs length_stored words i =
    ((i ≡ position h)
      × (words (entry_address h i) ≡ h.cache.page_write_offset)
      × (words (entry_address h i + 1) ≡ length bs))
    ⊎ ((i ≢ position h) × IsOldEntry h words i)

-- The bytes that are copied, by how far the commit has come.
abbrev pub IsCopied : WriteHead → List ℕ → Stage → List ℕ → Type 0
IsCopied h bs (invalidating entry bytes) copied = (copied ≡ []) × (entry < 2 ^ 64)
IsCopied h bs (copying idx rest) copied =
    (copied ++ rest ≡ bs) × (idx ≡ h.cache.page_write_offset + length copied)
IsCopied h bs published copied = copied ≡ bs
IsCopied h bs offset_stored copied = copied ≡ bs
IsCopied h bs length_stored copied = copied ≡ bs

abbrev pub ring_words : WriteHead → List ℕ → ℕ → ℕ
ring_words h copied = put_bytes (data_base h) (data_len h) h.words h.cache.page_write_offset copied

pub record Holding (h : WriteHead) (bs : List ℕ) (g : WriteHead) (stage : Stage) : Type 0 where
  pub memory : Memory
  pub same : g ≡ on h memory
  pub fit : WordsFit memory.words
  pub copied : List ℕ
  pub progress : IsCopied h bs stage copied
  pub outside : (a : ℕ) → IsOutsideEntries h a → memory.words a ≡ ring_words h copied a
  pub listed : (i : ℕ) → i < 256 * h.sequence.len → IsListed h bs stage memory.words i

pub start-Holding :
    (h : WriteHead) (bs : List ℕ)
    → IsWriter h
    → Holding h bs h (invalidating h.cache.entry_read_offset h.cache.page_read_offset)
unfolding put_bytes
start-Holding h bs v = record {
  memory = memory_of h;
  same = refl;
  fit = v.configured.words_fit;
  copied = [];
  progress = (refl, v.entry_read_lt);
  outside = λ a o. refl;
  listed = λ i lt. (refl, inl refl);
}

pub put_bytes-snoc :
    (base m : ℕ) (words : ℕ → ℕ) (o : ℕ) (bs : List ℕ) (b : ℕ)
    → put_bytes base m words o (bs ++ (b ∷ []))
      ≡ put_byte (put_bytes base m words o bs) (base + (o + length bs) % m) b
unfolding put_bytes
put_bytes-snoc base m words o [] b = let e : o + 0 ≡ o = omega arith in rw e
put_bytes-snoc base m words o (c ∷ bs) b =
    let e : o + length (c ∷ bs) ≡ o + 1 + length bs = omega arith in
    rw (put_bytes-snoc base m (put_byte words (base + o % m) c) (o + 1) bs b, e)

pub AllBytes-middle : (xs : List ℕ) (b : ℕ) (ys : List ℕ) → AllBytes (xs ++ (b ∷ ys)) → b < 256
AllBytes-middle [] b ys all = all.0
AllBytes-middle (x ∷ xs) b ys all = AllBytes-middle xs b ys all.1

pub append-cons : (xs : List ℕ) (b : ℕ) (ys : List ℕ) → (xs ++ (b ∷ [])) ++ ys ≡ xs ++ (b ∷ ys)
append-cons [] b ys = refl
append-cons (x ∷ xs) b ys = ap (λ (t : List ℕ). x ∷ t) (append-cons xs b ys)

-- Stores that leave both words of an entry alone.
pub IsOldEntry-agree :
    (h : WriteHead) (words words' : ℕ → ℕ) (i : ℕ)
    → words' (entry_address h i) ≡ words (entry_address h i)
    → words' (entry_address h i + 1) ≡ words (entry_address h i + 1)
    → IsOldEntry h words i
    → IsOldEntry h words' i
IsOldEntry-agree h words words' i e₀ e₁ old =
    (e₀ ∙ old.0, elim old.1 [ inl k ↦ inl (e₁ ∙ k) | inr k ↦ inr (e₁ ∙ k) ])

-- One entry invalidated.
pub update-IsOldEntry :
    (h : WriteHead) (words : ℕ → ℕ) (i j : ℕ)
    → IsOldEntry h words i
    → IsOldEntry h (update words (entry_address h j + 1) 0) i
update-IsOldEntry h words i j old = elim (ℕ_discrete i j) [
  | yes e ↦ (
    update-outside words (entry_address h j + 1) 0 (entry_address h i) (omega arith) ∙ old.0,
    inr (rw e (ground arith)),
  )
  | no ne ↦
      IsOldEntry-agree h words (update words (entry_address h j + 1) 0) i
        (update-outside words (entry_address h j + 1) 0 (entry_address h i) (omega arith))
        (update-outside words (entry_address h j + 1) 0 (entry_address h i + 1) (omega (arith, ne)))
        old
]
