-- ===== src/Snapshot/WriteBack/Begun.antt =====
-- The beginning of `copy_file_all` in shm-snapshot/src/bin/shm-restore.rs, up to its loop, and that the
-- loop returns.
use shmfd.Prelude.{
  ℕ, zero, suc, ◌-◌, ◌≤◌, ◌<◌, ◌≡◌, ◌≢◌, refl, sym, ◌∙◌, subst, arith, done, List, length,
}
use shmfd.Fd.Text.{ℤ, pos}
use shmfd.Snapshot.WriteBack.{Calls, write_all, copy_file_all}
use shmfd.Snapshot.WriteBack.Kernel.{Kernel}

module _ {S : Type 0} (calls : Calls S) (k : Kernel calls) where
  -- The files when the loop of `copy_file_all` begins.
  pub record Begun (s s₃ : S) (source dest : ℤ) : Type 0 where
    pub size : length (k.contents s₃ dest) ≡ length (k.contents s source)
    pub at_start : k.cursor s₃ dest ≡ 0
    pub others : (g : ℤ) → g ≢ dest → k.contents s₃ g ≡ k.contents s g
    pub loop :
        copy_file_all calls s source dest
        ≡ write_all calls
            (suc (length (k.contents s source)))
            s₃
            dest
            (k.contents s source)
            (length (k.contents s source))

  abbrev pub rewound : S → ℤ → ℤ → S
  rewound s source dest = calls.seek_set (calls.seek_end s source).1 dest

  abbrev pub truncated : S → ℤ → ℤ → S
  truncated s source dest = calls.ftruncate (rewound s source dest) dest (calls.seek_end s source).0

  pub truncated-size :
      (s : S) (source dest : ℤ)
      → length (k.contents (truncated s source dest) dest) ≡ length (k.contents s source)
  truncated-size s source dest =
      subst
        (λ (n : ℤ).
          length (k.contents (calls.ftruncate (rewound s source dest) dest n) dest)
          ≡ length (k.contents s source))
        (sym (k.seek_end-size s source))
        (k.ftruncate-size (rewound s source dest) dest (length (k.contents s source)))

  pub truncated-others :
      (s : S) (source dest g : ℤ)
      → g ≢ dest
      → k.contents (truncated s source dest) g ≡ k.contents s g
  truncated-others s source dest g ne =
      subst
        (λ (n : ℤ).
          k.contents (calls.ftruncate (rewound s source dest) dest n) g
          ≡ k.contents (rewound s source dest) g)
        (sym (k.seek_end-size s source))
        (k.ftruncate-others (rewound s source dest) dest (length (k.contents s source)) g ne)
      ∙ k.seek_set-contents (calls.seek_end s source).1 dest g
      ∙ k.seek_end-contents s source g

  pub copy_file_all-Begun :
      (s : S) (source dest : ℤ) → source ≢ dest → Begun s (truncated s source dest) source dest
  unfolding copy_file_all
  copy_file_all-Begun s source dest apart = record {
    size = truncated-size s source dest;
    at_start =
        subst
          (λ (n : ℤ).
            k.cursor (calls.ftruncate (rewound s source dest) dest n) dest
            ≡ k.cursor (rewound s source dest) dest)
          (sym (k.seek_end-size s source))
          (k.ftruncate-cursor (rewound s source dest) dest (length (k.contents s source)))
        ∙ k.seek_set-cursor (calls.seek_end s source).1 dest;
    others = λ g ne. truncated-others s source dest g ne;
    loop =
        rw
          (
            copy_file_all,
            k.map-contents (truncated s source dest) source,
            truncated-others s source dest source apart,
          )
          refl;
  }

module _ {S : Type 0} (calls : Calls S) (k : Kernel calls) where
  write_all-Returns :
      (fuel : ℕ) (s : S) (dest : ℤ) (bytes : List ℕ) (remaining : ℕ)
      → remaining < fuel
      → remaining ≤ length bytes
      → ((s : S) → 0 < length bytes → 0 < k.takes s dest bytes)
      → (s' : S) × (write_all calls fuel s dest bytes remaining ≡ done (pos (length bytes), s'))
        × ((g : ℤ) → g ≢ dest → k.contents s' g ≡ k.contents s g)
  unfolding write_all
  write_all-Returns zero s dest bytes remaining enough le some_taken = absurd (omega arith)
  write_all-Returns (suc fuel) s dest bytes zero enough le some_taken = (s, refl, λ g ne. refl)
  write_all-Returns (suc fuel) s dest bytes (suc remaining) enough le some_taken =
      let n = k.takes s dest bytes in
      let (s', e, kept) =
        write_all-Returns fuel (calls.write s dest bytes).1 dest bytes (suc remaining - n)
          (omega (arith, some_taken s)) (omega arith) some_taken in
      (
        s',
        rw (write_all, k.write-count s dest bytes) e,
        λ g ne. kept g ne ∙ k.write-others s dest bytes g ne,
      )

-- The loop of `copy_file_all` between two different files returns the size of the source, if each
-- write of some bytes takes at least one of them; no file but the destination has changed.
pub copy_file_all-returns :
    {S : Type 0} (calls : Calls S) (k : Kernel calls) (s : S) (source dest : ℤ)
    → source ≢ dest
    → ((s' : S) (bytes : List ℕ) → 0 < length bytes → 0 < k.takes s' dest bytes)
    → (s' : S) × (copy_file_all calls s source dest ≡ done (pos (length (k.contents s source)), s'))
      × ((g : ℤ) → g ≢ dest → k.contents s' g ≡ k.contents s g)
copy_file_all-returns calls k s source dest apart some_taken =
    let b = copy_file_all-Begun calls k s source dest apart in
    let (s', e, kept) =
      write_all-Returns calls k (suc (length (k.contents s source)))
        (truncated calls k s source dest) dest (k.contents s source) (length (k.contents s source))
        (omega arith) (omega arith) (λ t. some_taken t (k.contents s source)) in
    (s', b.loop ∙ e, λ g ne. kept g ne ∙ b.others g ne)
