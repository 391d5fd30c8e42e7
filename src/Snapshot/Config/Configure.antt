-- ===== src/Snapshot/Config/Configure.antt =====
-- `configure_head` and `discover` of shm-snapshot/src/writer.rs: when a configuration is accepted,
-- the layout that it leaves, and the configuration that is found again.
use shmfd.Prelude.{
  ℕ, ◌+◌, ◌-◌, ◌*◌, ◌^◌, ◌≤◌, ◌<◌, ◌≡◌, ◌↔◌, refl, sym, arith, ◌==◌, ltb, leb, done, subst,
  >>=-eq-done, Bool-cases, inl, inr, lt→ltb, le→leb, eq→==, assert, min,
}
use shmfd.Prelude.Words.{
  next_power_of_two, next_power_of_two_sound, IsPowerOfTwo, IsPowerOfTwo-pos, IsPowerOfTwo-lt,
  next_power_of_two-exact,
}
use shmfd.Snapshot.Layout.{HeadPage, WriteHead, ConfigureFile, is_initialized, magic_version}
use shmfd.Snapshot.Ring.Bytes.{WordsFit, IsConfigured}
use shmfd.Snapshot.Config.{
  from_map, pages_for, discover, assert_power_of_two, pre_configure_entries, pre_configure_pages,
  pre_configure_write, configure_pages, configure_head,
}
use shmfd.Snapshot.Config.Powers.{fitting_power_of_two-LargestPower, power_le, pages_for-fits}

-- A configuration that suits a mapping: powers of two, marked as initialized, with pages enough.
pub record Suits (h : WriteHead) (cfg : ConfigureFile) : Type 0 where
  pub entries_power : IsPowerOfTwo cfg.entries
  pub data_power : IsPowerOfTwo cfg.data_size
  pub initialized : cfg.layout_version ≡ magic_version
  pub enough : pages_for cfg.entries 256 + pages_for cfg.data_size 4096 ≤ h.data_pages.len

-- A head as `from_map` makes it: both slices are all the pages behind the head page.
pub record IsMapped (h : WriteHead) : Type 0 where
  pub same_start : h.sequence.start ≡ h.data_pages.start
  pub same_len : h.sequence.len ≡ h.data_pages.len
  pub words_fit : WordsFit h.words

-- The head that `configure_head` leaves.
abbrev pub configured : WriteHead → ConfigureFile → WriteHead
configured h cfg =
    let psequence = pages_for cfg.entries 256 in
    let pdata = pages_for cfg.data_size 4096 in
    record h {
      cache = record (h.cache) {
        entry_mask = cfg.entries - 1;
        page_mask = cfg.data_size - 1;
        page_write_offset = cfg.initial_offset;
      };
      meta = record {
        version = magic_version;
        entry_mask = cfg.entries - 1;
        page_mask = cfg.data_size - 1;
        page_write_offset = cfg.initial_offset;
      };
      sequence = record (h.sequence) { len = psequence };
      data_pages = record { start = h.data_pages.start + psequence; len = pdata };
      tail = record {
        start = h.data_pages.start + psequence + pdata;
        len = h.data_pages.len - psequence - pdata;
      };
    }

assert_power_of_two_lem : {n : ℕ} → IsPowerOfTwo n → assert_power_of_two n ≡ done tt
unfolding assert_power_of_two
assert_power_of_two_lem {n} p = rw (next_power_of_two-exact p, eq→== n n refl)

mask_suc : {n : ℕ} → IsPowerOfTwo n → n - 1 + 1 ≡ n
mask_suc p = omega (arith, IsPowerOfTwo-pos p)

pub configure_head_suited :
    (h : WriteHead) (cfg : ConfigureFile)
    → h.sequence.len ≡ h.data_pages.len
    → Suits h cfg
    → configure_head h cfg ≡ done (configured h cfg)
unfolding configure_head pre_configure_entries pre_configure_pages pre_configure_write
    configure_pages is_initialized
configure_head_suited h cfg same_len s = rw (
  assert_power_of_two_lem s.entries_power,
  assert_power_of_two_lem s.data_power,
  eq→== cfg.layout_version magic_version s.initialized,
  mask_suc s.entries_power,
  mask_suc s.data_power,
  lt→ltb cfg.entries (2 ^ 64) (omega (arith, IsPowerOfTwo-lt s.entries_power)),
  lt→ltb cfg.data_size (2 ^ 64) (omega (arith, IsPowerOfTwo-lt s.data_power)),
  next_power_of_two-exact s.entries_power,
  next_power_of_two-exact s.data_power,
  le→leb (pages_for cfg.entries 256) h.sequence.len (omega (arith, s.enough, same_len)),
  le→leb (pages_for cfg.entries 256) h.data_pages.len (omega (arith, s.enough)),
  le→leb (pages_for cfg.data_size 4096) (h.data_pages.len - pages_for cfg.entries 256)
      (omega (arith, s.enough)),
)

module _ (h : WriteHead) (cfg : ConfigureFile) (m : IsMapped h) (s : Suits h cfg) where
  pub configure_head_lem : configure_head h cfg ≡ done (configured h cfg)
  configure_head_lem = configure_head_suited h cfg m.same_len s

  pub configured-IsConfigured : IsConfigured (configured h cfg)
  configured-IsConfigured = record {
    entry_power = rw (mask_suc s.entries_power) s.entries_power;
    data_power = rw (mask_suc s.data_power) s.data_power;
    entries_fit =
        omega (arith, mask_suc s.entries_power, pages_for-fits cfg.entries 256 (omega arith));
    data_fits =
        omega (arith, mask_suc s.data_power, pages_for-fits cfg.data_size 4096 (omega arith));
    apart = omega (arith, m.same_start);
    tail_apart = omega arith;
    words_fit = m.words_fit;
  }

assert_power_of_two_sound : (n : ℕ) → assert_power_of_two n ≡ done tt → IsPowerOfTwo n
unfolding assert_power_of_two
assert_power_of_two_sound n h =
    let (p, found, same) = >>=-eq-done (next_power_of_two n) (λ q. assert (q == n)) h in
    let e : p ≡ n = ground (arith, same) in
    subst (λ k. IsPowerOfTwo k) e (next_power_of_two_sound n p found).0

-- Only a configuration that suits the mapping is accepted.
configure_head-Suits :
    (h : WriteHead) (cfg : ConfigureFile) {h' : WriteHead}
    → IsMapped h
    → configure_head h cfg ≡ done h'
    → Suits h cfg
unfolding configure_head pre_configure_entries pre_configure_pages pre_configure_write
    configure_pages is_initialized
configure_head-Suits h cfg m e =
    let (u, first, e₁) = >>=-eq-done (assert_power_of_two cfg.entries) _ e in
    let (u', second, e₂) = >>=-eq-done (assert_power_of_two cfg.data_size) _ e₁ in
    let entries_power = assert_power_of_two_sound cfg.entries first in
    let data_power = assert_power_of_two_sound cfg.data_size second in
    let (u'', third, e₃) = >>=-eq-done (assert (cfg.layout_version == magic_version)) _ e₂ in
    let e₄ =
      rw
        (
          assert_power_of_two_lem entries_power,
          assert_power_of_two_lem data_power,
          mask_suc entries_power,
          mask_suc data_power,
          lt→ltb cfg.entries (2 ^ 64) (omega (arith, IsPowerOfTwo-lt entries_power)),
          lt→ltb cfg.data_size (2 ^ 64) (omega (arith, IsPowerOfTwo-lt data_power)),
          next_power_of_two-exact entries_power,
          next_power_of_two-exact data_power,
        )
        at e₃ in
    let (_, fourth, e₅) =
      >>=-eq-done (assert (leb (pages_for cfg.entries 256) h.sequence.len)) _ e₄ in
    let (_, fifth, e₆) =
      >>=-eq-done (assert (leb (pages_for cfg.entries 256) h.data_pages.len)) _ e₅ in
    let (_, sixth, e₇) =
      >>=-eq-done
        (assert (leb (pages_for cfg.data_size 4096) (h.data_pages.len - pages_for cfg.entries 256)))
        _ e₆ in
    record {
      entries_power = entries_power;
      data_power = data_power;
      initialized = ground (arith, third);
      enough = ground (arith, fifth, sixth);
    }

-- On a mapped head, `configure_head` returns exactly on the configurations that suit the mapping:
-- entries and data are powers of two, the version is the magic one, and the pages are enough.
pub configure_head_iff :
    (h : WriteHead) (cfg : ConfigureFile)
    → IsMapped h
    → ((h' : WriteHead) × (configure_head h cfg ≡ done h')) ↔ Suits h cfg
configure_head_iff h cfg m =
    (λ r. configure_head-Suits h cfg m r.1, λ s. (configured h cfg, configure_head_lem h cfg m s))

-- Where `configure_head` returns on a mapped head, it leaves the layout and the head page that
-- `configured` describes, and a well-formed head: rings of powers of two that fit their pages, and
-- pages of entries, data and tail that do not overlap.
pub configure_head-configured :
    (h : WriteHead) (cfg : ConfigureFile) {h' : WriteHead}
    → IsMapped h
    → configure_head h cfg ≡ done h'
    → (h' ≡ configured h cfg) × IsConfigured h'
configure_head-configured h cfg {h'} m e =
    let s = configure_head-Suits h cfg m e in
    let same : configured h cfg ≡ h' = ground (arith, e, configure_head_lem h cfg m s) in
    (sym same, subst (λ k. IsConfigured k) same (configured-IsConfigured h cfg m s))

pub from_map-IsMapped :
    (len : ℕ) (meta : HeadPage) {words : ℕ → ℕ}
    → WordsFit words
    → IsMapped (from_map len meta words)
unfolding from_map
from_map-IsMapped len meta {words} fit = elim (Bool-cases (ltb len 4096)) [
  | inl small ↦
      rw (small, from_map) (record { same_start = refl; same_len = refl; words_fit = fit })
  | inr large ↦
      rw (large, from_map) (record { same_start = refl; same_len = refl; words_fit = fit })
]

-- A file that was configured by a suiting configuration, mapped anew, gives back the configuration
-- that it was given, if it has fewer than 2 ^ 52 pages.
pub discover-configured :
    (h : WriteHead) (cfg : ConfigureFile)
    → IsMapped h
    → Suits h cfg
    → h.data_pages.len < 2 ^ 52
    → discover (record h { meta = (configured h cfg).meta }) ≡ done cfg
unfolding discover
discover-configured h cfg m s small =
    let e = mask_suc s.entries_power in
    let d = mask_suc s.data_power in
    let entries_lt = IsPowerOfTwo-lt s.entries_power in
    let data_lt = IsPowerOfTwo-lt s.data_power in
    let space = (h.data_pages.len - pages_for cfg.entries 256) * 4096 in
    let room : cfg.data_size ≤ space =
      omega (arith, s.enough, pages_for-fits cfg.data_size 4096 (omega arith)) in
    let f =
      fitting_power_of_two-LargestPower space (omega (arith, room, IsPowerOfTwo-pos s.data_power))
        (omega arith) in
    let g =
      fitting_power_of_two-LargestPower cfg.entries (IsPowerOfTwo-pos s.entries_power)
        (omega (arith, entries_lt)) in
    let at_most : cfg.data_size ≤ f.power =
      power_le s.data_power f.is_power (omega (arith, f.above, room)) in
    let all_entries : g.power ≡ cfg.entries =
      omega (arith, g.below, power_le s.entries_power g.is_power g.above) in
    let all_data : min f.power cfg.data_size ≡ cfg.data_size = omega (arith, at_most) in
    rw (
      lt→ltb (cfg.entries - 1) (2 ^ 64 - 1) (omega (arith, entries_lt)),
      lt→ltb (cfg.data_size - 1) (2 ^ 64 - 1) (omega (arith, data_lt)),
      e,
      lt→ltb cfg.entries (2 ^ 64) (omega (arith, entries_lt)),
      le→leb (pages_for cfg.entries 256) h.data_pages.len (omega (arith, s.enough)),
      lt→ltb space (2 ^ 64) (omega arith),
      g.returns,
      f.returns,
      d,
      lt→ltb cfg.data_size (2 ^ 64) (omega (arith, data_lt)),
      all_entries,
      all_data,
      sym s.initialized,
    )
