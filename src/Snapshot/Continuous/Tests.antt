-- ===== src/Snapshot/Continuous/Tests.antt =====
-- The loop of shm-snapshot/src/bin/shm-restore.rs on files in memory: one round, in which the temporary
-- file replaces the backup, before the child exits.
use shmfd.Prelude.{
  ℕ, ◌≡◌, ◌≢◌, refl, sym, ap, ◌∙◌, arith, if◌then◌else◌, ◌==◌, Bool, Bool-cases, inl, inr, true,
  false, done, Option, none, some, Result, ok, [], ◌∷◌, length, select,
}
use shmfd.Fd.Text.{ℤ, pos, negsuc, same_i32}
use shmfd.Snapshot.Ring.Valid.{live, visited}
use shmfd.Snapshot.Config.{from_map, pages_for}
use shmfd.Snapshot.Tests.{small_ring, writer, listed}
use shmfd.Snapshot.Tests.Files.{
  found_in, copied_words, found_in-IsDiscovery, recover-found_in, listed-IsMapped, copied-IsMapped,
}
use shmfd.Snapshot.WriteBack.{Calls, Dropped, file_all, call_how, copy_file_all, write_all}
use shmfd.Snapshot.WriteBack.Kernel.{Kernel}
use shmfd.Snapshot.WriteBack.Tests.{
  Disk, put, disk_calls, disk_kernel, disk, whole, whole-bound, apart,
}
use shmfd.Snapshot.Continuous.{BackupCalls, file_new, restore_round, continuous_run}
use shmfd.Snapshot.Backup.{contains}
use shmfd.Snapshot.Backup.Sandwich.{sandwiched}
use shmfd.Snapshot.Continuous.Path.{KeepsPath}
use shmfd.Snapshot.Continuous.Keeps.{
  IsKeeper, Attempts, exited, attempted, continuous_run-WritesBack,
}
use shmfd.Snapshot.Continuous.Sandwiched.{RoundCalls, restore_round-Replaces}

-- Files, the descriptor of the one at the path, and the number of waits.
record World : Type 0 where
  disk : Disk
  path : ℤ
  waits : ℕ

abbrev calls : Calls World
calls =
    let c = disk_calls whole in
    record {
      seek_end = λ s fd. let (n, d) = c.seek_end s.disk fd in (n, record s { disk = d });
      seek_set = λ s fd. record s { disk = c.seek_set s.disk fd };
      ftruncate = λ s fd n. record s { disk = c.ftruncate s.disk fd n };
      copy_range = λ s source dest n. (negsuc 0, s);
      map = λ s fd. some (s.disk.files fd);
      write = λ s fd bytes. let (n, d) = c.write s.disk fd bytes in (n, record s { disk = d });
      errno = λ s. pos 18;
      exdev = pos 18;
      efbig = pos 27;
    }

abbrev kernel : Kernel calls
kernel =
    let k = disk_kernel whole whole-bound in
    record {
      contents = λ s fd. s.disk.files fd;
      cursor = λ s fd. s.disk.positions fd;
      takes = λ s fd bytes. length bytes;
      seek_end-size = λ s fd. k.seek_end-size s.disk fd;
      seek_end-contents = λ s fd g. k.seek_end-contents s.disk fd g;
      seek_set-cursor = λ s fd. k.seek_set-cursor s.disk fd;
      seek_set-contents = λ s fd g. k.seek_set-contents s.disk fd g;
      ftruncate-size = λ s fd n. k.ftruncate-size s.disk fd n;
      ftruncate-cursor = λ s fd n. k.ftruncate-cursor s.disk fd n;
      ftruncate-others = λ s fd n g ne. k.ftruncate-others s.disk fd n g ne;
      map-contents = λ s fd. refl;
      takes-bound = λ s fd bytes. omega arith;
      write-count = λ s fd bytes. refl;
      write-contents = λ s fd bytes. k.write-contents s.disk fd bytes;
      write-cursor = λ s fd bytes. k.write-cursor s.disk fd bytes;
      write-others = λ s fd bytes g ne. k.write-others s.disk fd bytes g ne;
    }

-- A number that is neither 3 nor another one.
abbrev fresh : ℤ → ℤ
fresh n = if same_i32 n (pos 5) then pos 6 else pos 5

-- The child waits once, and then has stored two bytes into the memory.
abbrev wait : Bool → World → Result (Option ℤ) ℤ × World
wait true s = (ok none, record s { waits = 1 })
wait false s = (
  ok (some (pos 0)),
  record s { disk = record (s.disk) { files = put s.disk.files (pos 3) (10 ∷ 11 ∷ []) } },
)

abbrev backups : BackupCalls World
backups = record {
  map_raw =
      λ s fd. some (16384, writer.meta, if same_i32 fd (pos 3) then listed.words else copied_words);
  store = λ s fd head. s;
  new_in = λ s. (ok (fresh s.path), s);
  remove = λ s fd. s;
  persist = λ s fd. (ok fd, record s { path = fd });
  close = λ s fd. s;
  try_wait = λ s. wait (s.waits == 0) s;
}

number : ℤ → ℕ
number (pos n) = n
number (negsuc n) = 0

fresh-ne : (n : ℤ) → fresh n ≢ n
unfolding number
fresh-ne n e = elim (Bool-cases (same_i32 n (pos 5))) [
  | inl same ↦
      let six : fresh n ≡ pos 6 = rw same refl in
      let is : same_i32 (pos 6) (pos 5) ≡ true =
        ap (λ (m : ℤ). same_i32 m (pos 5)) (sym six ∙ e) ∙ same in
      cc
  | inr other ↦
      let five : fresh n ≡ pos 5 = rw other refl in
      let is : same_i32 (pos 5) (pos 5) ≡ false =
        ap (λ (m : ℤ). same_i32 m (pos 5)) (sym five ∙ e) ∙ other in
      cc
]

fresh-ne-shm : (n : ℤ) → fresh n ≢ pos 3
unfolding number
fresh-ne-shm n e = elim (Bool-cases (same_i32 n (pos 5))) [
  | inl same ↦
      let six : fresh n ≡ pos 6 = rw same refl in absurd (omega (arith, ap number (sym six ∙ e)))
  | inr other ↦
      let five : fresh n ≡ pos 5 = rw other refl in absurd (omega (arith, ap number (sym five ∙ e)))
]

wait-path : (first : Bool) (s : World) → (wait first s).1.path ≡ s.path
wait-path true s = refl
wait-path false s = refl

ok-eq : (m n : ℤ) → ◌≡◌ {A = Result ℤ ℤ} (ok m) (ok n) → m ≡ n
ok-eq m n e = cc

abbrev keeps : KeepsPath calls backups (pos 3)
keeps = record {
  named = λ s. s.path;
  seek_end-named = λ s fd. refl;
  seek_set-named = λ s fd. refl;
  ftruncate-named = λ s fd n. refl;
  copy_range-named = λ s source dest n. refl;
  write-named = λ s fd bytes. refl;
  store-named = λ s fd head. refl;
  new_in-named = λ s. refl;
  new_in-fresh = λ s fd e. (
    λ q. fresh-ne s.path (ok-eq (fresh s.path) fd e ∙ q),
    λ q. fresh-ne-shm s.path (ok-eq (fresh s.path) fd e ∙ q),
  );
  remove-named = λ s fd. refl;
  persist-ok = λ s fd new e. (sym (ok-eq fd new e), refl);
  persist-err = λ s fd e q. absurd cc;
  close-named = λ s fd ne. refl;
  try_wait-named = λ s. wait-path (s.waits == 0) s;
}

abbrev start : World
start = record { disk = disk; path = pos 4; waits = 0 }

abbrev waiting : World
waiting = record start { waits = 1 }

abbrev keeper : Dropped
keeper = record { write_back = record { shm = pos 3; bck = pos 4 }; how = file_all }

-- The three bytes of the memory in the temporary file.
abbrev truncated : World
truncated =
    calls.ftruncate (calls.seek_set (calls.seek_end waiting (pos 3)).1 (pos 5)) (pos 5) (pos 3)

abbrev copied : World
copied = (calls.write truncated (pos 5) (1 ∷ 2 ∷ 3 ∷ [])).1

copied-done : call_how calls file_all waiting (pos 3) (pos 5) ≡ done copied
unfolding call_how copy_file_all write_all
copied-done = refl

abbrev first_round : RoundCalls calls backups waiting keeper
unfolding file_new from_map
first_round = record {
  before = found_in listed.words;
  after = found_in copied_words;
  cfg = small_ring;
  cfg' = small_ring;
  fd = pos 5;
  s₁ = waiting;
  s₂ = copied;
  mapped = refl;
  recovers = recover-found_in listed.words listed-IsMapped;
  discovery = found_in-IsDiscovery listed.words;
  temporary = refl;
  copied = copied-done;
  mapped_copy = refl;
  recovers_copy = recover-found_in copied_words copied-IsMapped;
  discovery_copy = found_in-IsDiscovery copied_words;
}

-- The snapshot of five bytes is in both files.
one_kept :
    sandwiched (found_in listed.words) (found_in copied_words)
    ≡ record { offset = 0; length = 5 } ∷ []
unfolding select contains live visited pages_for
one_kept = refl

some_kept : sandwiched (found_in listed.words) (found_in copied_words) ≢ []
some_kept e = absurd (omega (arith, ap length (sym one_kept ∙ e)))

abbrev replaced : World
replaced = record copied { path = pos 5 }

abbrev next_keeper : Dropped
next_keeper = record keeper { write_back = record { shm = pos 3; bck = pos 5 } }

first_round-done : restore_round calls backups waiting keeper ≡ done (ok tt, next_keeper, replaced)
unfolding first_round
first_round-done =
    (restore_round-Replaces calls backups waiting keeper first_round).replaced (pos 5) replaced
      some_kept refl

abbrev left_bytes : World
left_bytes = (wait false replaced).1

attempts : Attempts calls backups start keeper 1 (pos 0) left_bytes next_keeper
attempts = attempted waiting (ok tt) next_keeper replaced refl first_round-done (exited refl)

keeper-IsKeeper : IsKeeper calls backups (pos 3) keeps file_all start keeper
keeper-IsKeeper = record { memory = refl; at_path = refl; apart = apart; same_how = refl }

continuous_run-WritesBack_example :
    (left : World) × (continuous_run calls backups 3 start keeper ≡ done (pos 0, left))
    × (left.disk.files left.path ≡ 10 ∷ 11 ∷ [])
continuous_run-WritesBack_example =
    continuous_run-WritesBack calls backups (pos 3) keeps kernel 3 attempts keeper-IsKeeper
      (omega arith) (λ s fd bytes. refl)
