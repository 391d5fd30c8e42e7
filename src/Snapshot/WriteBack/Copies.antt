-- ===== src/Snapshot/WriteBack/Copies.antt =====
-- `copy_file_all` of shm-snapshot/src/bin/shm-restore.rs: its loop returns, and what it leaves in the
-- file that it copies to.
use mathlib.Core.List.{append-nil}
use shmfd.Prelude.{
  ℕ, zero, suc, ◌+◌, ◌-◌, ◌≤◌, ◌<◌, ◌≡◌, ◌≢◌, refl, ap, ◌∙◌, arith, done, List, [], ◌∷◌, ◌++◌,
  length, take, drop, length-append,
}
use shmfd.Fd.Text.{ℤ, pos}
use shmfd.Snapshot.WriteBack.{Calls, write_all, copy_file_all}
use shmfd.Snapshot.WriteBack.Begun.{truncated, copy_file_all-Begun}
use shmfd.Snapshot.WriteBack.Kernel.{Kernel, overwrite}

take-whole : (xs : List ℕ) → take (length xs) xs ≡ xs
take-whole [] = refl
take-whole (x ∷ xs) = ap (λ (t : List ℕ). x ∷ t) (take-whole xs)

drop-past : (n : ℕ) (xs : List ℕ) → length xs ≤ n → drop n xs ≡ []
drop-past zero [] h = refl
drop-past (suc n) [] h = refl
drop-past zero (x ∷ xs) h = absurd (omega arith)
drop-past (suc n) (x ∷ xs) h = drop-past n xs (omega arith)

length-zero : (xs : List ℕ) → length xs ≡ 0 → xs ≡ []
length-zero [] h = refl
length-zero (x ∷ xs) h = absurd (omega arith)

-- A write up to the end of a file or past it.
overwrite-end :
    (file : List ℕ) (k : ℕ) (bytes : List ℕ)
    → length file ≤ k + length bytes
    → overwrite file k bytes ≡ take k file ++ bytes
overwrite-end file k bytes h =
    ap (λ (t : List ℕ). take k file ++ (bytes ++ t)) (drop-past (k + length bytes) file h)
    ∙ ap (λ (t : List ℕ). take k file ++ t) (append-nil bytes)

pub length-take : (n : ℕ) (xs : List ℕ) → n ≤ length xs → length (take n xs) ≡ n
length-take zero xs h = refl
length-take (suc n) [] h = absurd (omega arith)
length-take (suc n) (x ∷ xs) h = ap suc (length-take n xs (omega arith))

length-drop : (n : ℕ) (xs : List ℕ) → length (drop n xs) ≡ length xs - n
length-drop zero xs = omega arith
length-drop (suc n) [] = omega arith
length-drop (suc n) (x ∷ xs) = omega (arith, length-drop n xs)

take-append : (n : ℕ) (xs ys : List ℕ) → length xs ≡ n → take n (xs ++ ys) ≡ xs
take-append zero [] ys h = refl
take-append zero (x ∷ xs) ys h = absurd (omega arith)
take-append (suc n) [] ys h = absurd (omega arith)
take-append (suc n) (x ∷ xs) ys h = ap (λ (t : List ℕ). x ∷ t) (take-append n xs ys (omega arith))

-- The first bytes of a file overwritten.
length-overwrite :
    (file bytes : List ℕ)
    → length bytes ≤ length file
    → length (overwrite file 0 bytes) ≡ length file
length-overwrite file bytes h =
    omega (
      arith,
      length-append bytes (drop (0 + length bytes) file),
      length-drop (0 + length bytes) file,
    )

module _ {S : Type 0} (calls : Calls S) (k : Kernel calls) where
  -- One round of the loop.
  write_all-round :
      (fuel : ℕ) (s : S) (dest : ℤ) (bytes : List ℕ) (remaining left : ℕ)
      → 0 < fuel
      → 0 < remaining
      → remaining - k.takes s dest bytes ≡ left
      → write_all calls fuel s dest bytes remaining
        ≡ write_all calls (fuel - 1) (calls.write s dest bytes).1 dest bytes left
  unfolding write_all
  write_all-round zero s dest bytes remaining left pos_fuel pos_remaining e = absurd (omega arith)
  write_all-round (suc fuel) s dest bytes zero left pos_fuel pos_remaining e = absurd (omega arith)
  write_all-round (suc fuel) s dest bytes (suc remaining) left pos_fuel pos_remaining e =
      let same : suc fuel - 1 ≡ fuel = omega arith in
      rw (same, write_all, k.write-count s dest bytes)
        (ap (λ (n : ℕ). write_all calls fuel (calls.write s dest bytes).1 dest bytes n) e)

  write_all-done :
      (fuel : ℕ) (s : S) (dest : ℤ) (bytes : List ℕ)
      → 0 < fuel
      → write_all calls fuel s dest bytes 0 ≡ done (pos (length bytes), s)
  unfolding write_all
  write_all-done zero s dest bytes pos_fuel = absurd (omega arith)
  write_all-done (suc fuel) s dest bytes pos_fuel = refl

  -- What a write of a known size at a known position leaves.
  write-at :
      (s : S) (dest : ℤ) (bytes : List ℕ) (c n : ℕ)
      → k.cursor s dest ≡ c
      → k.takes s dest bytes ≡ n
      → k.contents (calls.write s dest bytes).1 dest
        ≡ overwrite (k.contents s dest) c (take n bytes)
  write-at s dest bytes c n at_c taken =
      k.write-contents s dest bytes
      ∙ ap (λ (x : ℕ). overwrite (k.contents s dest) x (take (k.takes s dest bytes) bytes)) at_c
      ∙ ap (λ (x : ℕ). overwrite (k.contents s dest) c (take x bytes)) taken

  write_all-Copies :
      (s : S) (dest : ℤ) (bytes : List ℕ)
      → k.cursor s dest ≡ 0
      → length (k.contents s dest) ≡ length bytes
      → k.takes s dest bytes ≡ length bytes
      → (s' : S) × (write_all calls (suc (length bytes)) s dest bytes (length bytes)
          ≡ done (pos (length bytes), s'))
        × (k.contents s' dest ≡ bytes)
  write_all-Copies s dest [] at_start size whole =
      (s, write_all-done 1 s dest [] (omega arith), length-zero (k.contents s dest) size)
  write_all-Copies s dest (b ∷ bytes) at_start size whole = (
    (calls.write s dest (b ∷ bytes)).1,
    write_all-round (suc (length (b ∷ bytes))) s dest (b ∷ bytes) (length (b ∷ bytes)) 0
          (omega arith) (omega arith) (omega (arith, whole))
        ∙ write_all-done (suc (length (b ∷ bytes)) - 1) (calls.write s dest (b ∷ bytes)).1 dest
            (b ∷ bytes) (omega arith),
    write-at s dest (b ∷ bytes) 0 (length (b ∷ bytes)) at_start whole
        ∙ ap (λ (t : List ℕ). overwrite (k.contents s dest) 0 t) (take-whole (b ∷ bytes))
        ∙ overwrite-end (k.contents s dest) 0 (b ∷ bytes) (omega (arith, size)),
  )

  -- Two writes: the second one takes the bytes from the start again.
  write_all-Repeats :
      (s : S) (dest : ℤ) (bytes : List ℕ) (n : ℕ)
      → k.cursor s dest ≡ 0
      → length (k.contents s dest) ≡ length bytes
      → k.takes s dest bytes ≡ n
      → 0 < n
      → n < length bytes
      → k.takes (calls.write s dest bytes).1 dest bytes ≡ length bytes - n
      → (s' : S) × (write_all calls (suc (length bytes)) s dest bytes (length bytes)
          ≡ done (pos (length bytes), s'))
        × (k.contents s' dest ≡ take n bytes ++ take (length bytes - n) bytes)
  write_all-Repeats s dest bytes n at_start size first pos_n lt second =
      let taken = take n bytes in
      let rest = take (length bytes - n) bytes in
      let one = calls.write s dest bytes in
      let two = calls.write one.1 dest bytes in
      let file₁ = overwrite (k.contents s dest) 0 taken in
      let here : k.contents one.1 dest ≡ file₁ = write-at s dest bytes 0 n at_start first in
      let size₁ : length file₁ ≡ length bytes =
        length-overwrite (k.contents s dest) taken
          (omega (arith, length-take n bytes (omega arith)))
        ∙ size in
      let at_n : k.cursor one.1 dest ≡ n =
        k.write-cursor s dest bytes ∙ omega (arith, at_start, first) in
      let counted = length-take (length bytes - n) bytes (omega arith) in
      (
        two.1,
        write_all-round (suc (length bytes)) s dest bytes (length bytes) (length bytes - n)
              (omega arith) (omega arith) (omega (arith, first))
            ∙ write_all-round (suc (length bytes) - 1) one.1 dest bytes (length bytes - n) 0
                (omega arith) (omega arith) (omega (arith, second))
            ∙ write_all-done (suc (length bytes) - 1 - 1) two.1 dest bytes (omega arith),
        write-at one.1 dest bytes n (length bytes - n) at_n second
            ∙ ap (λ (t : List ℕ). overwrite t n rest) here
            ∙ overwrite-end file₁ n rest (omega (arith, size₁, counted))
            ∙ ap (λ (t : List ℕ). t ++ rest)
                (take-append n taken (drop (0 + length taken) (k.contents s dest))
                  (length-take n bytes (omega arith))),
      )

-- If the first write takes the whole source, `copy_file_all` between two different files returns the
-- size of the source, and the destination then has the bytes of the source.
pub copy_file_all-Copies :
    {S : Type 0} (calls : Calls S) (k : Kernel calls) (s : S) (source dest : ℤ)
    → source ≢ dest
    → ((s' : S) → k.takes s' dest (k.contents s source) ≡ length (k.contents s source))
    → (s' : S) × (copy_file_all calls s source dest ≡ done (pos (length (k.contents s source)), s'))
      × (k.contents s' dest ≡ k.contents s source)
copy_file_all-Copies calls k s source dest apart whole =
    let b = copy_file_all-Begun calls k s source dest apart in
    let begun = truncated calls k s source dest in
    let (s', e, same) =
      write_all-Copies calls k begun dest (k.contents s source) b.at_start b.size (whole begun) in
    (s', b.loop ∙ e, same)

-- If the first write of `copy_file_all` between two different files takes only a part of the source and
-- the second one as many bytes as are missing, the destination has that part and, after it, the bytes
-- from the start of the source again.
pub copy_file_all-Repeats :
    {S : Type 0} (calls : Calls S) (k : Kernel calls) (s : S) (source dest : ℤ) (n : ℕ)
    → source ≢ dest
    → 0 < n
    → n < length (k.contents s source)
    → k.takes (truncated calls k s source dest) dest (k.contents s source) ≡ n
    → k.takes
        (calls.write (truncated calls k s source dest) dest (k.contents s source)).1
        dest
        (k.contents s source)
      ≡ length (k.contents s source) - n
    → (s' : S) × (copy_file_all calls s source dest ≡ done (pos (length (k.contents s source)), s'))
      × (k.contents s' dest
          ≡ take n (k.contents s source)
            ++ take (length (k.contents s source) - n) (k.contents s source))
copy_file_all-Repeats calls k s source dest n apart pos_n lt first second =
    let b = copy_file_all-Begun calls k s source dest apart in
    let (s', e, same) =
      write_all-Repeats calls k (truncated calls k s source dest) dest (k.contents s source) n
        b.at_start b.size first pos_n lt second in
    (s', b.loop ∙ e, same)
