-- ===== src/Snapshot/File/Restore.antt =====
-- A writer and a reader of one file, shm-snapshot/src/lib.rs: what a reader that maps the file anew
-- recovers from it after commits of the writer.
use native.Mathlib.Decide.{dec_lt}
use shmfd.Prelude.{
  ◌⊎◌, inl, inr, ℕ, ◌+◌, ◌-◌, ◌*◌, ◌%◌, ◌^◌, ◌≤◌, ◌<◌, ◌≡◌, refl, ap, ◌∙◌, arith, done, some, List,
  [], ◌∷◌, ◌++◌, length, take, drop, eq→==,
}
use shmfd.Prelude.Words.{IsPowerOfTwo-pos}
use shmfd.Snapshot.Layout.{WriteHead, Snapshot, ConfigureFile, is_initialized, magic_version}
use shmfd.Snapshot.Ring.{read}
use shmfd.Snapshot.Ring.Bytes.{WordsFit, IsConfigured}
use shmfd.Snapshot.Ring.Stream.{bytes_at-min}
use shmfd.Snapshot.Ring.Copy.{data_base, data_len, read_from_lem}
use shmfd.Snapshot.Ring.Valid.{valid_entries, iter_valid-extend, live-holds, visited, lt-visited}
use shmfd.Snapshot.Config.{pages_for}
use shmfd.Snapshot.Config.Powers.{pages_for-fits}
use shmfd.Snapshot.Config.Configure.{
  Suits, IsMapped, configured, configure_head_lem, configured-IsConfigured, discover-configured,
}
use shmfd.Snapshot.Write.{commit}
use shmfd.Snapshot.Write.Commit.{
  IsWriter, IsWritable, invalidated, committed, bytes_at-committed, commit_lem,
  committed-IsConfigured,
}
use shmfd.Snapshot.File.{
  FileDiscovery, recover, valid, read_discovered, valid_at, valid_in_head, read_at_configuration,
}
use shmfd.Snapshot.File.Progress.{Progress, serving, remapped, recovered}

module _ (m : WriteHead) (cfg : ConfigureFile) (mapped : IsMapped m) (suits : Suits m cfg)
    (small : m.data_pages.len < 2 ^ 52) where
  abbrev pub reader : Progress → WriteHead
  reader p = remapped m (serving m cfg p)

  reader-IsMapped : (p : Progress) → WordsFit p.words → IsMapped (reader p)
  reader-IsMapped p fit = record {
    same_start = mapped.same_start;
    same_len = mapped.same_len;
    words_fit = fit;
  }

  reader-Suits : (p : Progress) → Suits (reader p) (recovered cfg p)
  reader-Suits p = record {
    entries_power = suits.entries_power;
    data_power = suits.data_power;
    initialized = suits.initialized;
    enough = suits.enough;
  }

  abbrev pub discovery : Progress → FileDiscovery
  discovery p = record { file = reader p; configuration = recovered cfg p }

  -- A reader that maps the file of a writer recovers the writer's configuration, with its write
  -- offset as the initial offset.
  pub recover_lem :
      (p : Progress)
      → WordsFit p.words
      → recover (reader p) ≡ done (recovered cfg p, some (discovery p))
  unfolding recover is_initialized
  recover_lem p fit = rw (
    discover-configured (reader p) (recovered cfg p) (reader-IsMapped p fit) (reader-Suits p) small,
    eq→== cfg.layout_version magic_version suits.initialized,
  )

  -- Reading and listing through a reader's configuration.
  abbrev pub view : Progress → WriteHead
  view p = configured (reader p) (recovered cfg p)

  view-IsConfigured : (p : Progress) → WordsFit p.words → IsConfigured (view p)
  view-IsConfigured p fit =
      configured-IsConfigured (reader p) (recovered cfg p) (reader-IsMapped p fit) (reader-Suits p)

  serving-IsConfigured : (p : Progress) → WordsFit p.words → IsConfigured (serving m cfg p)
  serving-IsConfigured p fit = record {
    entry_power = (view-IsConfigured p fit).entry_power;
    data_power = (view-IsConfigured p fit).data_power;
    entries_fit = (view-IsConfigured p fit).entries_fit;
    data_fits = (view-IsConfigured p fit).data_fits;
    apart = (view-IsConfigured p fit).apart;
    tail_apart = (view-IsConfigured p fit).tail_apart;
    words_fit = fit;
  }

  valid_lem :
      (p : Progress)
      → WordsFit p.words
      → valid (discovery p) (λ into s. into ++ (s ∷ [])) []
        ≡ done (valid_entries (view p), discovery p)
  unfolding valid valid_at valid_in_head
  valid_lem p fit = rw (
    configure_head_lem (reader p) (recovered cfg p) (reader-IsMapped p fit) (reader-Suits p),
    iter_valid-extend,
  )

  module _ (p : Progress) (bs : List ℕ) (fit : WordsFit p.words) (lt : p.entry_write < 2 ^ 64)
      (lt' : p.entry_read < 2 ^ 64) (w : IsWritable (serving m cfg p) bs) where
    pub writer : IsWriter (serving m cfg p)
    writer = record {
      configured = serving-IsConfigured p fit;
      entry_write_lt = lt;
      entry_read_lt = lt';
    }

    abbrev pub after : Progress
    after =
        let h = committed (serving m cfg p) bs writer w in
        record {
          words = h.words;
          entry_read = h.cache.entry_read_offset;
          entry_write = p.entry_write;
          page_read = h.cache.page_read_offset;
          offset = p.offset + length bs;
        }

    after-WordsFit : WordsFit after.words
    after-WordsFit = (committed-IsConfigured (serving m cfg p) bs writer w).words_fit

    abbrev written : Snapshot
    written = record { offset = p.offset; length = length bs }

    read_lem :
        (into : List ℕ)
        → read_discovered (discovery after) written into
          ≡ done (take (length into) bs ++ drop (length bs) into, discovery after)
    unfolding read_discovered read_at_configuration read
    read_lem into =
        let start : p.offset + 0 ≡ p.offset = omega arith in
        rw (
          configure_head_lem (reader after) (recovered cfg after)
              (reader-IsMapped after after-WordsFit) (reader-Suits after),
          read_from_lem (view after) p.offset 0 (length bs) into
              (view-IsConfigured after after-WordsFit) (omega (arith, w.in_stream)),
          start,
          bytes_at-min (data_base (view after)) (data_len (view after)) after.words p.offset
              (length bs) (length into),
          bytes_at-committed (serving m cfg p) bs writer w,
        )

    abbrev position : ℕ
    position = p.entry_write % (cfg.entries - 1 + 1)

    abbrev address : ℕ
    address = m.sequence.start * 512 + 2 * position

    slot_words : (after.words address ≡ p.offset) × (after.words (address + 1) ≡ length bs)
    slot_words = (ground arith, ground arith)

    valid-holds :
        0 < length bs
        → (front back : List Snapshot) × (valid (discovery after) (λ into s. into ++ (s ∷ [])) []
            ≡ done (front ++ (written ∷ back), discovery after))
    valid-holds pos =
        let here : 0 + position ≡ position = omega arith in
        let some_entry : 0 < cfg.entries = IsPowerOfTwo-pos suits.entries_power in
        let room : cfg.entries ≤ 256 * pages_for cfg.entries 256 =
          pages_for-fits cfg.entries 256 (omega arith) in
        let inside : position < visited (cfg.entries - 1) (256 * pages_for cfg.entries 256) 0 =
          lt-visited (cfg.entries - 1) (256 * pages_for cfg.entries 256) position (omega arith)
            (omega arith) in
        let (front, back, e) =
          live-holds m.sequence.start after.words
            (visited (cfg.entries - 1) (256 * pages_for cfg.entries 256) 0) 0 position inside
            (rw here (omega (arith, slot_words.1))) in
        let e' = rw (here, slot_words.0, slot_words.1) at e in
        (
          front,
          back,
          valid_lem after after-WordsFit ∙ ap (λ (l : List Snapshot). done (l, discovery after)) e',
        )

-- What a reader finds that maps the file of a writer after a commit: it recovers the configuration,
-- and lists the snapshot among the valid ones if it is not empty; a read of the snapshot gives
-- the committed bytes. `after` is the writer's progress, from which it can commit again.
pub record Restores (m : WriteHead) (cfg : ConfigureFile) (p : Progress) (bs : List ℕ)
    : Type 0 where
  pub next : Progress
  pub returns : commit (serving m cfg p) bs ≡ done (some p.entry_write, serving m cfg next)
  pub advanced : next.offset ≡ p.offset + length bs
  pub words_fit : WordsFit next.words
  pub entry_write_lt : next.entry_write < 2 ^ 64
  pub entry_read_lt : next.entry_read < 2 ^ 64
  pub recovers :
      recover (remapped m (serving m cfg next))
      ≡ done (
        recovered cfg next,
        some
            (record { file = remapped m (serving m cfg next); configuration = recovered cfg next }),
      )
  pub listed :
      (length bs ≡ 0)
      ⊎ ((front back : List Snapshot) × (valid
              (record {
                file = remapped m (serving m cfg next);
                configuration = recovered cfg next;
              })
              (λ into s. into ++ (s ∷ []))
              []
            ≡ done (
              front ++ (record { offset = p.offset; length = length bs } ∷ back),
              record { file = remapped m (serving m cfg next); configuration = recovered cfg next },
            )))
  pub reads :
      (into : List ℕ)
      → read_discovered
          (record { file = remapped m (serving m cfg next); configuration = recovered cfg next })
          (record { offset = p.offset; length = length bs })
          into
        ≡ done (
          take (length into) bs ++ drop (length bs) into,
          record { file = remapped m (serving m cfg next); configuration = recovered cfg next },
        )

-- On a mapped file of fewer than 2 ^ 52 pages, configured by a suiting configuration, a commit of bytes
-- that fit succeeds wherever the writer's progress has come to; a reader that maps the file anew
-- recovers the writer's configuration and write offset, lists the snapshot, if it is not empty, among
-- the valid ones, and reads the committed bytes.
pub commit-Restores :
    (m : WriteHead) (cfg : ConfigureFile) (p : Progress) (bs : List ℕ)
    → IsMapped m
    → Suits m cfg
    → m.data_pages.len < 2 ^ 52
    → WordsFit p.words
    → p.entry_write < 2 ^ 64
    → p.entry_read < 2 ^ 64
    → IsWritable (serving m cfg p) bs
    → Restores m cfg p bs
commit-Restores m cfg p bs mapped suits small fit lt lt' w = record {
  next = after m cfg mapped suits small p bs fit lt lt' w;
  returns = commit_lem (serving m cfg p) bs (writer m cfg mapped suits small p bs fit lt lt' w) w;
  advanced = refl;
  words_fit = after-WordsFit m cfg mapped suits small p bs fit lt lt' w;
  entry_write_lt = lt;
  entry_read_lt =
      (invalidated (serving m cfg p) bs (writer m cfg mapped suits small p bs fit lt lt' w)
        w).entry_lt;
  recovers =
      recover_lem m cfg mapped suits small (after m cfg mapped suits small p bs fit lt lt' w)
        (after-WordsFit m cfg mapped suits small p bs fit lt lt' w);
  listed = elim (dec_lt 0 (length bs)) [
    | yes pos ↦ inr (valid-holds m cfg mapped suits small p bs fit lt lt' w pos)
    | no empty ↦ inl (omega (arith, empty))
  ];
  reads = read_lem m cfg mapped suits small p bs fit lt lt' w;
}
