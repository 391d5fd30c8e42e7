-- ===== src/Snapshot/File/Runs.antt =====
-- Writers that commit again and again, and a reader after them: `Writer` and `File` of
-- shm-snapshot/src/lib.rs.
use shmfd.Prelude.{
  ℕ, ◌+◌, ◌-◌, ◌^◌, ◌≤◌, ◌<◌, ◌≡◌, arith, Run, done, ◌>>=◌, some, List, [], ◌∷◌, ◌++◌, length, take,
  drop,
}
use shmfd.Snapshot.Layout.{WriteHead, ConfigureFile}
use shmfd.Snapshot.Ring.Bytes.{WordsFit}
use shmfd.Snapshot.Ring.Stream.{AllBytes}
use shmfd.Snapshot.Config.Configure.{Suits, IsMapped}
use shmfd.Snapshot.Write.{commit}
use shmfd.Snapshot.Write.Commit.{IsWritable}
use shmfd.Snapshot.File.{recover, read_discovered}
use shmfd.Snapshot.File.Restore.{commit-Restores}
use shmfd.Snapshot.File.Progress.{Progress, serving, remapped, recovered}

-- A run of commits, one for each payload.
unfoldable pub commit_all : WriteHead → List (List ℕ) → Run WriteHead
commit_all h [] = done h
commit_all h (bs ∷ rest) = commit h bs >>= λ (index, h'). commit_all h' rest

-- Payloads of bytes that fit the data ring, and their lengths together.
abbrev pub AllFit : ConfigureFile → List (List ℕ) → Type 0
AllFit cfg [] = Unit
AllFit cfg (bs ∷ rest) = ((AllBytes bs) × (length bs ≤ cfg.data_size - 1)) × AllFit cfg rest

abbrev pub total : List (List ℕ) → ℕ
total [] = 0
total (bs ∷ rest) = length bs + total rest

-- What a reader finds that maps the file anew after a run of commits: the configuration, with the
-- offset behind all payloads, and the last payload.
pub record LastRestores (m : WriteHead) (cfg : ConfigureFile) (p : Progress) (front : List (List ℕ))
    (last : List ℕ) : Type 0 where
  pub next : Progress
  pub returns : commit_all (serving m cfg p) (front ++ (last ∷ [])) ≡ done (serving m cfg next)
  pub advanced : next.offset ≡ p.offset + total front + length last
  pub recovers :
      recover (remapped m (serving m cfg next))
      ≡ done (
        recovered cfg next,
        some
            (record { file = remapped m (serving m cfg next); configuration = recovered cfg next }),
      )
  pub reads :
      (into : List ℕ)
      → read_discovered
          (record { file = remapped m (serving m cfg next); configuration = recovered cfg next })
          (record { offset = p.offset + total front; length = length last })
          into
        ≡ done (
          take (length into) last ++ drop (length last) into,
          record { file = remapped m (serving m cfg next); configuration = recovered cfg next },
        )

-- On a mapped file of fewer than 2 ^ 52 pages, configured by a suiting configuration, any run of commits
-- of payloads that fit the data ring and that end in the stream succeeds, wherever the writer's progress
-- has come to; a reader that maps the file anew recovers the configuration, with the write offset
-- behind all payloads, and reads the last payload.
pub commit_all-LastRestores :
    (m : WriteHead) (cfg : ConfigureFile) (p : Progress) (front : List (List ℕ)) (last : List ℕ)
    → IsMapped m
    → Suits m cfg
    → m.data_pages.len < 2 ^ 52
    → WordsFit p.words
    → p.entry_write < 2 ^ 64
    → p.entry_read < 2 ^ 64
    → AllFit cfg (front ++ (last ∷ []))
    → p.offset + total front + length last < 2 ^ 64
    → LastRestores m cfg p front last
unfolding commit_all
commit_all-LastRestores m cfg p [] last mapped suits small fit lt lt' fits room =
    let w : IsWritable (serving m cfg p) last = record {
      all_bytes = fits.0.0;
      fits = fits.0.1;
      in_stream = omega arith;
    } in
    let r = commit-Restores m cfg p last mapped suits small fit lt lt' w in
    let start : p.offset + 0 ≡ p.offset = omega arith in
    record {
      next = r.next;
      returns = rw r.returns;
      advanced = omega (arith, r.advanced);
      recovers = r.recovers;
      reads = λ into. rw start (r.reads into);
    }
commit_all-LastRestores m cfg p (bs ∷ front) last mapped suits small fit lt lt' fits room =
    let w : IsWritable (serving m cfg p) bs = record {
      all_bytes = fits.0.0;
      fits = fits.0.1;
      in_stream = omega arith;
    } in
    let r = commit-Restores m cfg p bs mapped suits small fit lt lt' w in
    let rest =
      commit_all-LastRestores m cfg r.next front last mapped suits small r.words_fit
        r.entry_write_lt r.entry_read_lt fits.1 (omega (arith, r.advanced)) in
    let start : r.next.offset + total front ≡ p.offset + (length bs + total front) =
      omega (arith, r.advanced) in
    record {
      next = rest.next;
      returns = rw r.returns rest.returns;
      advanced = omega (arith, rest.advanced, r.advanced);
      recovers = rest.recovers;
      reads = λ into. rw start at rest.reads into;
    }
