-- ===== src/Fd/Text/Names.antt =====
-- Joining and splitting the names of file descriptors, shm-fd/src/listenfd.rs.
use shmfd.Prelude.{
  ◌≡◌, refl, ap, ◌∙◌, arith, ◌==◌, ◌||◌, Bool, Bool-cases, false, inl, inr, List, [], ◌∷◌, ◌++◌,
}
use shmfd.Fd.Text.{Text, split, join}

-- A name without a colon, and names without one.
abbrev pub has_colon : Text → Bool
has_colon [] = false
has_colon (c ∷ w) = (c == 58) || has_colon w

abbrev pub NoColon : Text → Type 0
NoColon w = has_colon w ≡ false

abbrev pub NoColons : List Text → Type 0
NoColons [] = Unit
NoColons (w ∷ ws) = NoColon w × NoColons ws

split-word : (w : Text) → NoColon w → split w ≡ w ∷ []
unfolding split
split-word [] ok = refl
split-word (c ∷ w) ok = elim (Bool-cases (c == 58)) [
  | inl colon ↦ absurd (ground (arith, ok, colon))
  | inr other ↦ rw (other, split-word w (rw other at ok))
]

split-word_before : (w t : Text) → NoColon w → split (w ++ (58 ∷ t)) ≡ w ∷ split t
unfolding split
split-word_before [] t ok = refl
split-word_before (c ∷ w) t ok = elim (Bool-cases (c == 58)) [
  | inl colon ↦ absurd (ground (arith, ok, colon))
  | inr other ↦ rw (other, split-word_before w t (rw other at ok))
]

-- Names without colons, at least one, are split as they were joined.
pub split-join : (w : Text) (ws : List Text) → NoColons (w ∷ ws) → split (join (w ∷ ws)) ≡ w ∷ ws
unfolding join
split-join w [] ok = split-word w ok.0
split-join w (v ∷ ws) ok =
    split-word_before w (join (v ∷ ws)) ok.0 ∙ ap (λ (l : List Text). w ∷ l) (split-join v ws ok.1)

pub NoColons-++ : (ws : List Text) (v : Text) → NoColons ws → NoColon v → NoColons (ws ++ (v ∷ []))
NoColons-++ [] v all ok = (ok, tt)
NoColons-++ (w ∷ ws) v all ok = (all.0, NoColons-++ ws v all.1 ok)
