-- ===== src/Snapshot/Continuous/Keeps.antt =====
-- Which file the protector of shm-snapshot/src/bin/shm-restore.rs writes back to after the rounds of
-- `try_restore_v1`: the one that then stands at the backup's path.
use shmfd.Prelude.{
  ℕ, zero, suc, ◌<◌, ◌≡◌, ◌≢◌, refl, sym, ap, ◌∙◌, subst, arith, Bool, true, false, Run, done,
  Option, none, some, Result, ok, err, ◌>>=◌, List, length, >>=-eq-done,
}
use shmfd.Fd.Text.{ℤ}
use shmfd.Snapshot.Layout.{WriteHead, Snapshot}
use shmfd.Snapshot.File.{recover}
use shmfd.Snapshot.Backup.{is_empty, mask}
use shmfd.Snapshot.WriteBack.{Calls, Dropped, How, file_all, call_how, drop_dropped}
use shmfd.Snapshot.WriteBack.Kernel.{Kernel}
use shmfd.Snapshot.WriteBack.Copies.{copy_file_all-Copies}
use shmfd.Snapshot.Continuous.{
  BackupCalls, Outcome, collect_valid, file_new, swap_backup, persist_backup, mask_copy, copy_to,
  restore_file, restore_round, keep_backups, continuous_run,
}
use shmfd.Snapshot.Continuous.Path.{KeepsPath, call_how-named}

-- What the child does at the waits and the rounds make of the files and of the protector: after `n` rounds
-- that return the child has exited.
pub data Attempts {S : Type 0} (calls : Calls S) (b : BackupCalls S)
    : S → Dropped → ℕ → ℤ → S → Dropped → Type 0 where
  exited :
      {s : S} {d : Dropped} {status : ℤ} {t : S}
      → b.try_wait s ≡ (ok (some status), t)
      → Attempts calls b s d zero status t d
  attempted :
      {s : S} {d : Dropped} {n : ℕ} {status : ℤ} {t : S} {e : Dropped} (s₁ : S)
      (r : Result (Unit {0}) ℤ) (d' : Dropped) (s' : S)
      → b.try_wait s ≡ (ok none, s₁)
      → restore_round calls b s₁ d ≡ done (r, d', s')
      → Attempts calls b s' d' n status t e
      → Attempts calls b s d (suc n) status t e

module _ {S : Type 0} (calls : Calls S) (b : BackupCalls S) (shm : ℤ)
    (k : KeepsPath calls b shm) where
  -- A protector of the shared memory whose backup is the file at the path.
  pub record IsKeeper (how : How) (s : S) (d : Dropped) : Type 0 where
    pub memory : d.write_back.shm ≡ shm
    pub at_path : d.write_back.bck ≡ k.named s
    pub apart : d.write_back.bck ≢ shm
    pub same_how : d.how ≡ how

  moved :
      {how : How} {s : S} {d : Dropped} (s' : S)
      → k.named s' ≡ k.named s
      → IsKeeper how s d
      → IsKeeper how s' d
  moved s' same v = record {
    memory = v.memory;
    at_path = v.at_path ∙ sym same;
    apart = v.apart;
    same_how = v.same_how;
  }

  abbrev Keeps : How → Run (Outcome S) → Type 0
  Keeps how m =
      (r : Result (Unit {0}) ℤ) (d' : Dropped) (s' : S) → m ≡ done (r, d', s') → IsKeeper how s' d'

  done-Keeps :
      (how : How) (r : Result (Unit {0}) ℤ) (d : Dropped) (s : S)
      → IsKeeper how s d
      → Keeps how (done (r, d, s))
  done-Keeps how r d s v r' d' s' e =
      let same_d : d ≡ d' = cc in
      let same_s : s ≡ s' = cc in
      subst (λ (x : S). IsKeeper how x d') same_s
        (subst (λ (x : Dropped). IsKeeper how s x) same_d v)

  swap_backup-Keeps :
      (how : How) (fd : ℤ) (d : Dropped) (s : S)
      → IsKeeper how s d
      → fd ≢ k.named s
      → fd ≢ shm
      → (answer : Result ℤ ℤ) → (b.persist s fd).0 ≡ answer
      → Keeps how (swap_backup calls b fd d (answer, (b.persist s fd).1))
  unfolding swap_backup
  swap_backup-Keeps how fd d s v fresh other (err e) is =
      done-Keeps how (err e) d (b.remove (b.persist s fd).1 fd) (
        moved (b.remove (b.persist s fd).1 fd)
          (k.remove-named (b.persist s fd).1 fd ∙ k.persist-err s fd e is) v)
  swap_backup-Keeps how fd d s v fresh other (ok new) is =
      let (same, named) = k.persist-ok s fd new is in
      let s' = (b.persist s fd).1 in
      let old : d.write_back.bck ≢ k.named s' = λ e. fresh (sym named ∙ sym e ∙ v.at_path) in
      done-Keeps how (ok tt) (record d { write_back = record (d.write_back) { bck = new } })
        (b.close s' d.write_back.bck)
        (record {
          memory = v.memory;
          at_path = same ∙ sym named ∙ sym (k.close-named s' d.write_back.bck old);
          apart = λ e. other (sym same ∙ e);
          same_how = v.same_how;
        })

  persist_backup-Keeps :
      (how : How) (empty : Bool) (fd : ℤ) (d : Dropped) (s : S)
      → IsKeeper how s d
      → fd ≢ k.named s
      → fd ≢ shm
      → Keeps how (persist_backup calls b empty fd d s)
  unfolding persist_backup
  persist_backup-Keeps how true fd d s v fresh other =
      done-Keeps how (ok tt) d (b.remove s fd) (moved (b.remove s fd) (k.remove-named s fd) v)
  persist_backup-Keeps how false fd d s v fresh other =
      swap_backup-Keeps how fd d s v fresh other (b.persist s fd).0 refl

  -- A chain whose rest keeps the protector does.
  >>=-Keeps :
      {A : Type 0} (how : How) (m : Run A) (f : A → Run (Outcome S))
      → ((a : A) → m ≡ done a → Keeps how (f a))
      → Keeps how (m >>= f)
  >>=-Keeps how m f rest r d' s' e =
      let (a, first, second) = >>=-eq-done m f e in rest a first r d' s' second

  mask_copy-Keeps :
      (how : How) (pre_valid : List Snapshot) (fd : ℤ) (d : Dropped) (copy : Option WriteHead)
      (s : S)
      → IsKeeper how s d
      → fd ≢ k.named s
      → fd ≢ shm
      → Keeps how (mask_copy calls b pre_valid fd d copy s)
  unfolding mask_copy
  mask_copy-Keeps how pre_valid fd d none s v fresh other =
      done-Keeps how (err (calls.errno s)) d (b.remove s fd)
        (moved (b.remove s fd) (k.remove-named s fd) v)
  mask_copy-Keeps how pre_valid fd d (some copy) s v fresh other =
      >>=-Keeps how (recover copy) _ (λ found e.
        >>=-Keeps how (mask pre_valid copy found.1) _ (λ kept e'.
          let same = k.store-named s fd kept.1 in
          persist_backup-Keeps how (is_empty kept.0) fd d (b.store s fd kept.1)
            (moved (b.store s fd kept.1) same v) (λ q. fresh (q ∙ same)) other))

  copy_to-Keeps :
      (how : How) (pre_valid : List Snapshot) (d : Dropped) (s : S)
      → IsKeeper how s d
      → (pending : Result ℤ ℤ) → (b.new_in s).0 ≡ pending
      → Keeps how (copy_to calls b pre_valid d (pending, (b.new_in s).1))
  unfolding copy_to
  copy_to-Keeps how pre_valid d s v (err e) is =
      done-Keeps how (err e) d (b.new_in s).1 (moved (b.new_in s).1 (k.new_in-named s) v)
  copy_to-Keeps how pre_valid d s v (ok fd) is =
      let s₁ = (b.new_in s).1 in
      let (fresh, other) = k.new_in-fresh s fd is in
      >>=-Keeps how (call_how calls d.how s₁ d.write_back.shm fd) _ (λ s' e.
        let same : k.named s' ≡ k.named s =
          call_how-named calls b shm k d.how s₁ s' d.write_back.shm fd e ∙ k.new_in-named s in
        mask_copy-Keeps how pre_valid fd d (file_new b s' fd) s' (moved s' same v)
          (λ q. fresh (q ∙ same)) other)

  restore_file-Keeps :
      (how : How) (d : Dropped) (snapshot : Option WriteHead) (s : S)
      → IsKeeper how s d
      → Keeps how (restore_file calls b d snapshot s)
  unfolding restore_file
  restore_file-Keeps how d none s v = done-Keeps how (err (calls.errno s)) d s v
  restore_file-Keeps how d (some snapshot) s v = >>=-Keeps how (recover snapshot) _ (λ found e.
      >>=-Keeps how (collect_valid snapshot found.1) _ (λ kept e'.
        let s₁ = b.store s d.write_back.shm kept.1 in
        copy_to-Keeps how kept.0 d s₁ (moved s₁ (k.store-named s d.write_back.shm kept.1) v)
          (b.new_in s₁).0 refl))

  pub restore_round-Keeps :
      (how : How) (d : Dropped) (s : S) → IsKeeper how s d → Keeps how (restore_round calls b s d)
  unfolding restore_round
  restore_round-Keeps how d s v = restore_file-Keeps how d (file_new b s d.write_back.shm) s v

  waited :
      {how : How} {s : S} {d : Dropped} (r : Result (Option ℤ) ℤ) (s₁ : S)
      → b.try_wait s ≡ (r, s₁)
      → IsKeeper how s d
      → IsKeeper how s₁ d
  waited {how} {s} {d} r s₁ is v =
      moved s₁ (ap (λ (w : Result (Option ℤ) ℤ × S). k.named w.1) (sym is) ∙ k.try_wait-named s) v

  pub Attempts-IsKeeper :
      {s : S} {d : Dropped} {n : ℕ} {status : ℤ} {t : S} {e : Dropped} (how : How)
      → Attempts calls b s d n status t e
      → IsKeeper how s d
      → IsKeeper how t e
  Attempts-IsKeeper how (exited {status} {t} is) v = waited (ok (some status)) t is v
  Attempts-IsKeeper how (attempted s₁ r d' s' is ran rest) v =
      Attempts-IsKeeper how rest
        (restore_round-Keeps how _ s₁ (waited (ok none) s₁ is v) r d' s' ran)

pub keep_backups-Attempts :
    {S : Type 0} (calls : Calls S) (b : BackupCalls S) {s : S} {d : Dropped} {n : ℕ} {status : ℤ}
    {t : S} {e : Dropped} (fuel : ℕ)
    → n < fuel
    → Attempts calls b s d n status t e
    → keep_backups calls b fuel s d ≡ done (status, e, t)
unfolding keep_backups
keep_backups-Attempts calls b zero enough a = absurd (omega (arith, enough))
keep_backups-Attempts calls b (suc fuel) enough (exited {s} {d} {status} {t} is) =
    rw (keep_backups, ap (λ (w : Result (Option ℤ) ℤ × _). w.0) is)
      (ap (λ (w : Result (Option ℤ) ℤ × _). done (status, d, w.1)) is)
keep_backups-Attempts calls b (suc fuel) enough (attempted {s} {d} s₁ r d' s' is ran rest) =
    let ran' : restore_round calls b (b.try_wait s).1 d ≡ done (r, d', s') =
      ap (λ (w : Result (Option ℤ) ℤ × _). restore_round calls b w.1 d) is ∙ ran in
    rw (keep_backups, ap (λ (w : Result (Option ℤ) ℤ × _). w.0) is, ran')
      (keep_backups-Attempts calls b fuel (omega (arith, enough)) rest)

-- With a child that exits after some rounds of `try_restore_v1`, each of which returns, successful or
-- not, the loop and the write-back after it return the child's status, if the loop has more fuel than there are rounds; the bytes that
-- the child left in the shared memory file are then those of the file that stands at the backup's path,
-- whichever file that has become. This is so for a protector that writes to the file at the path, the
-- shared memory being another one, by writes which take what they are given.
pub continuous_run-WritesBack :
    {S : Type 0} (calls : Calls S) (b : BackupCalls S) (shm : ℤ) (k : KeepsPath calls b shm)
    (files : Kernel calls) {s : S} {d : Dropped} {n : ℕ} {status : ℤ} {t : S} {e : Dropped}
    (fuel : ℕ)
    → Attempts calls b s d n status t e
    → IsKeeper calls b shm k file_all s d
    → n < fuel
    → ((s' : S) (fd : ℤ) (bytes : List ℕ) → files.takes s' fd bytes ≡ length bytes)
    → (left : S) × (continuous_run calls b fuel s d ≡ done (status, left))
      × (files.contents left (k.named left) ≡ files.contents t shm)
unfolding continuous_run drop_dropped call_how
continuous_run-WritesBack calls b shm k files {s} {d} {n} {status} {t} {e} fuel a v enough whole =
    let v' = Attempts-IsKeeper calls b shm k file_all a v in
    let (left, copied, same) =
      copy_file_all-Copies calls files t e.write_back.shm e.write_back.bck
        (λ q. v'.apart (sym q ∙ v'.memory))
        (λ s'. whole s' e.write_back.bck (files.contents t e.write_back.shm)) in
    let dropped : drop_dropped calls t e ≡ done left =
      rw (drop_dropped, v'.same_how, call_how, copied) refl in
    let named : k.named left ≡ k.named t =
      call_how-named calls b shm k e.how t left e.write_back.shm e.write_back.bck dropped in
    (
      left,
      rw (continuous_run, keep_backups-Attempts calls b fuel enough a, dropped) refl,
      ap (λ (fd : ℤ). files.contents left fd) (named ∙ sym v'.at_path)
          ∙ same
          ∙ ap (λ (fd : ℤ). files.contents t fd) v'.memory,
    )
