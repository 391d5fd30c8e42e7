-- ===== src/Snapshot/Continuous/Path.antt =====
-- What the loop of shm-snapshot/src/bin/shm-restore.rs relies on of the file system: which descriptor is
-- open on the file at the path of the backup.
use shmfd.Prelude.{
  ℕ, zero, suc, ◌-◌, ◌≡◌, ◌≢◌, refl, sym, ap, ◌∙◌, Run, done, Option, none, some, ok, err, List,
  length, >>=-eq-done,
}
use shmfd.Fd.Text.{ℤ, pos, negsuc}
use shmfd.Snapshot.Layout.{WriteHead}
use shmfd.Snapshot.WriteBack.{
  Calls, How, as_usize, file_all, file_range, copy_file_range, write_all, copy_file_all, call_how,
}
use shmfd.Snapshot.Continuous.{BackupCalls}

-- The descriptor that the process has on the file at the backup's path. Only `persist` makes the path
-- another file's; a temporary file gets a number that neither the backup nor the shared memory has.
pub record KeepsPath {S : Type 0} (calls : Calls S) (b : BackupCalls S) (shm : ℤ) : Type 0 where
  pub named : S → ℤ
  pub seek_end-named : (s : S) (fd : ℤ) → named (calls.seek_end s fd).1 ≡ named s
  pub seek_set-named : (s : S) (fd : ℤ) → named (calls.seek_set s fd) ≡ named s
  pub ftruncate-named : (s : S) (fd n : ℤ) → named (calls.ftruncate s fd n) ≡ named s
  pub copy_range-named :
      (s : S) (source dest : ℤ) (n : ℕ) → named (calls.copy_range s source dest n).1 ≡ named s
  pub write-named : (s : S) (fd : ℤ) (bytes : List ℕ) → named (calls.write s fd bytes).1 ≡ named s
  pub store-named : (s : S) (fd : ℤ) (head : WriteHead) → named (b.store s fd head) ≡ named s
  pub new_in-named : (s : S) → named (b.new_in s).1 ≡ named s
  pub new_in-fresh : (s : S) (fd : ℤ) → (b.new_in s).0 ≡ ok fd → (fd ≢ named s) × (fd ≢ shm)
  pub remove-named : (s : S) (fd : ℤ) → named (b.remove s fd) ≡ named s
  pub persist-ok :
      (s : S) (fd new : ℤ)
      → (b.persist s fd).0 ≡ ok new
      → (new ≡ fd) × (named (b.persist s fd).1 ≡ fd)
  pub persist-err :
      (s : S) (fd e : ℤ) → (b.persist s fd).0 ≡ err e → named (b.persist s fd).1 ≡ named s
  pub close-named : (s : S) (fd : ℤ) → fd ≢ named s → named (b.close s fd) ≡ named s
  pub try_wait-named : (s : S) → named (b.try_wait s).1 ≡ named s

module _ {S : Type 0} (calls : Calls S) (b : BackupCalls S) (shm : ℤ)
    (k : KeepsPath calls b shm) where
  abbrev after_write : ℤ → S → (ℕ → Run (ℤ × S)) → Run (ℤ × S)
  after_write (negsuc n) s next = done (negsuc 0, s)
  after_write (pos n) s next = next n

  after_write-named :
      (w : ℤ) (s s' : S) (next : ℕ → Run (ℤ × S)) (r : ℤ)
      → ((n : ℕ) → next n ≡ done (r, s') → k.named s' ≡ k.named s)
      → after_write w s next ≡ done (r, s')
      → k.named s' ≡ k.named s
  after_write-named (negsuc n) s s' next r further e = cc
  after_write-named (pos n) s s' next r further e = further n e

  write_all-after_write :
      (fuel : ℕ) (s : S) (dest : ℤ) (bytes : List ℕ) (remaining : ℕ) (w : ℤ)
      → (calls.write s dest bytes).0 ≡ w
      → write_all calls (suc fuel) s dest bytes (suc remaining)
        ≡ after_write w
            (calls.write s dest bytes).1
            (λ n. write_all calls fuel (calls.write s dest bytes).1 dest bytes (suc remaining - n))
  unfolding write_all
  write_all-after_write fuel s dest bytes remaining (negsuc n) is = rw (write_all, is) refl
  write_all-after_write fuel s dest bytes remaining (pos n) is = rw (write_all, is) refl

  write_all-named :
      (fuel : ℕ) (s s' : S) (dest : ℤ) (bytes : List ℕ) (remaining : ℕ) (r : ℤ)
      → write_all calls fuel s dest bytes remaining ≡ done (r, s')
      → k.named s' ≡ k.named s
  unfolding write_all
  write_all-named zero s s' dest bytes remaining r e = absurd cc
  write_all-named (suc fuel) s s' dest bytes zero r e = cc
  write_all-named (suc fuel) s s' dest bytes (suc remaining) r e =
      after_write-named (calls.write s dest bytes).0 (calls.write s dest bytes).1 s'
        (λ n. write_all calls fuel (calls.write s dest bytes).1 dest bytes (suc remaining - n)) r
        (λ n. write_all-named fuel (calls.write s dest bytes).1 s' dest bytes (suc remaining - n) r)
        (sym (write_all-after_write fuel s dest bytes remaining (calls.write s dest bytes).0 refl)
          ∙ e)
      ∙ k.write-named s dest bytes

  abbrev after_map : Option (List ℕ) → S → ℤ → Run (ℤ × S)
  after_map none s dest = done (negsuc 0, s)
  after_map (some bytes) s dest = write_all calls (suc (length bytes)) s dest bytes (length bytes)

  after_map-named :
      (mapped : Option (List ℕ)) (s s' : S) (dest r : ℤ)
      → after_map mapped s dest ≡ done (r, s')
      → k.named s' ≡ k.named s
  after_map-named none s s' dest r e = cc
  after_map-named (some bytes) s s' dest r e =
      write_all-named (suc (length bytes)) s s' dest bytes (length bytes) r e

  -- The file is as long as the source when the loop begins.
  abbrev begun : S → ℤ → ℤ → S
  begun s source dest =
      let (n, s₁) = calls.seek_end s source in calls.ftruncate (calls.seek_set s₁ dest) dest n

  begun-named : (s : S) (source dest : ℤ) → k.named (begun s source dest) ≡ k.named s
  begun-named s source dest =
      let s₁ = calls.seek_end s source in
      k.ftruncate-named (calls.seek_set s₁.1 dest) dest s₁.0
      ∙ k.seek_set-named s₁.1 dest
      ∙ k.seek_end-named s source

  copy_file_all-after_map :
      (s : S) (source dest : ℤ) (mapped : Option (List ℕ))
      → calls.map (begun s source dest) source ≡ mapped
      → copy_file_all calls s source dest ≡ after_map mapped (begun s source dest) dest
  unfolding copy_file_all
  copy_file_all-after_map s source dest none is = rw (copy_file_all, is) refl
  copy_file_all-after_map s source dest (some bytes) is = rw (copy_file_all, is) refl

  copy_file_all-named :
      (s s' : S) (source dest r : ℤ)
      → copy_file_all calls s source dest ≡ done (r, s')
      → k.named s' ≡ k.named s
  copy_file_all-named s s' source dest r e =
      let mapped = calls.map (begun s source dest) source in
      after_map-named mapped (begun s source dest) s' dest r
        (sym (copy_file_all-after_map s source dest mapped refl) ∙ e)
      ∙ begun-named s source dest

  copy_range-state :
      (s s' : S) (source dest : ℤ)
      → call_how calls file_range s source dest ≡ done s'
      → s'
        ≡ (calls.copy_range
            (begun s source dest)
            source
            dest
            (as_usize (calls.seek_end s source).0)).1
  unfolding call_how copy_file_range
  copy_range-state s s' source dest e = cc

  -- A copy moves no file to the path.
  pub call_how-named :
      (how : How) (s s' : S) (source dest : ℤ)
      → call_how calls how s source dest ≡ done s'
      → k.named s' ≡ k.named s
  unfolding call_how
  call_how-named file_all s s' source dest e =
      let (r, copied, same) = >>=-eq-done (copy_file_all calls s source dest) _ e in
      let e' : s' ≡ r.1 = cc in ap k.named e' ∙ copy_file_all-named s r.1 source dest r.0 copied
  call_how-named file_range s s' source dest e =
      ap k.named (copy_range-state s s' source dest e)
      ∙ k.copy_range-named (begun s source dest) source dest (as_usize (calls.seek_end s source).0)
      ∙ begun-named s source dest
