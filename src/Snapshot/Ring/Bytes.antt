-- ===== src/Snapshot/Ring/Bytes.antt =====
-- The data ring of a configured head, byte by byte: `read_at` and `write_at` of
-- shm-snapshot/src/writer.rs.
use shmfd.Prelude.{
  ℕ, ◌+◌, ◌*◌, ◌/◌, ◌%◌, ◌^◌, ◌≤◌, ◌<◌, ◌≡◌, ap, arith, ◌==◌, if◌then◌else◌, done, lt→ltb,
}
use shmfd.Prelude.Bytes.{set_byte, get_byte, get_byte-set_byte, set_byte-lt}
use shmfd.Prelude.Words.{IsPowerOfTwo, bit_and-mask_suc, IsPowerOfTwo-pos}
use shmfd.Snapshot.Layout.{PageSlice, WriteHead, page_word, update}
use shmfd.Snapshot.Ring.{read_at, write_at}

-- Every word of the file is a `u64`.
abbrev pub WordsFit : (ℕ → ℕ) → Type 0
WordsFit words = (a : ℕ) → words a < 2 ^ 64

-- What `configure_pages` leaves: masks one below powers of two, rings that hold as many entries and
-- bytes, and pages that do not overlap.
pub record IsConfigured (h : WriteHead) : Type 0 where
  pub entry_power : IsPowerOfTwo (h.cache.entry_mask + 1)
  pub data_power : IsPowerOfTwo (h.cache.page_mask + 1)
  pub entries_fit : h.cache.entry_mask + 1 ≤ 256 * h.sequence.len
  pub data_fits : h.cache.page_mask + 1 ≤ 4096 * h.data_pages.len
  pub apart : h.sequence.start + h.sequence.len ≤ h.data_pages.start
  pub tail_apart : h.data_pages.start + h.data_pages.len ≤ h.tail.start
  pub words_fit : WordsFit h.words

-- The byte of the file at an address, and a store of one byte.
abbrev pub byte_at : (ℕ → ℕ) → ℕ → ℕ
byte_at words a = get_byte (words (a / 8)) (8 * (a % 8))

abbrev pub put_byte : (ℕ → ℕ) → ℕ → ℕ → ℕ → ℕ
put_byte words a b = update words (a / 8) (set_byte (words (a / 8)) (8 * (a % 8)) b)

-- The address in the file of a stream offset.
abbrev pub byte_address : WriteHead → ℕ → ℕ
byte_address h idx = h.data_pages.start * 4096 + idx % (h.cache.page_mask + 1)

-- A byte inside a slice lies in one of its words.
page_word_lem :
    (pages : PageSlice) (i : ℕ)
    → i < 4096 * pages.len
    → page_word pages (i / 8 / 512) (i / 8 % 512) ≡ done ((pages.start * 4096 + i) / 8)
unfolding page_word
page_word_lem pages i h =
    let e : (pages.start + i / 8 / 512) * 512 + i / 8 % 512 ≡ (pages.start * 4096 + i) / 8 =
      omega arith in
    rw (lt→ltb (i / 8 / 512) pages.len (omega arith)) (ap done e)

shift_lem : (s i : ℕ) → 8 * (i % 8) ≡ 8 * ((s * 4096 + i) % 8)
shift_lem s i = omega arith

module _ {h : WriteHead} (idx : ℕ) (v : IsConfigured h) where
  in_data : idx % (h.cache.page_mask + 1) < 4096 * h.data_pages.len
  in_data = omega (arith, v.data_fits, IsPowerOfTwo-pos v.data_power)

  pub read_at_lem : read_at h idx ≡ done (byte_at h.words (byte_address h idx))
  unfolding read_at
  read_at_lem =
      rw
        (
          bit_and-mask_suc idx h.cache.page_mask v.data_power,
          page_word_lem h.data_pages (idx % (h.cache.page_mask + 1)) in_data,
        )
        (ap (λ (t : ℕ). done (get_byte (h.words (byte_address h idx / 8)) t))
          (shift_lem h.data_pages.start (idx % (h.cache.page_mask + 1))))

  pub write_at_lem :
      (b : ℕ)
      → write_at h idx b ≡ done (record h { words = put_byte h.words (byte_address h idx) b })
  unfolding write_at
  write_at_lem b =
      rw
        (
          bit_and-mask_suc idx h.cache.page_mask v.data_power,
          page_word_lem h.data_pages (idx % (h.cache.page_mask + 1)) in_data,
        )
        (ap
          (λ (t : ℕ). done (record h {
            words =
                update h.words (byte_address h idx / 8)
                  (set_byte (h.words (byte_address h idx / 8)) t b);
          }))
          (shift_lem h.data_pages.start (idx % (h.cache.page_mask + 1))))

pub byte_at-put_byte :
    (words : ℕ → ℕ) (a b x : ℕ)
    → WordsFit words
    → b < 256
    → byte_at (put_byte words a b) x ≡ (if a == x then b else byte_at words x)
byte_at-put_byte words a b x fit hb = ground (
  arith,
  get_byte-set_byte (a % 8) (x % 8) b (words (a / 8)) (omega arith) hb (fit (a / 8)),
  ap words {x = x / 8} {y = a / 8},
)

pub put_byte-WordsFit :
    {words : ℕ → ℕ} (a b : ℕ) → WordsFit words → b < 256 → WordsFit (put_byte words a b)
put_byte-WordsFit {words} a b fit hb x =
    ground (arith, fit x, set_byte-lt (a % 8) b (words (a / 8)) (omega arith) hb (fit (a / 8)))
