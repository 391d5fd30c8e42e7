-- ===== src/Snapshot/Crash/Unique.antt =====
-- The stores of a commit of shm-snapshot/src/writer.rs come in one order: the run that passes through
-- a state goes on to the end of `Writer::commit` of shm-snapshot/src/lib.rs.
use shmfd.Prelude.{ℕ, ◌≡◌, ◌↔◌, refl, sym, subst, arith, done, List, some, inl, inr, ◌⊎◌}
use shmfd.Snapshot.Layout.{WriteHead}
use shmfd.Snapshot.Write.{commit}
use shmfd.Snapshot.Write.Commit.{IsWriter, IsWritable, committed, commit_lem}
use shmfd.Snapshot.Crash.Runs.{committed-Reach}
use shmfd.Snapshot.Crash.{
  Stage, length_stored, Step, reached, caught_up, invalidate, copy, publish, store_offset,
  store_length, Reach, here, next, start,
}

module _ {h : WriteHead} {bs : List ℕ} where
  same_step : {s t u : WriteHead × Stage} → Step h bs s t → Step h bs s u → t ≡ u
  same_step (reached g entry bytes le) (reached _ _ _ le') = refl
  same_step (reached g entry bytes le) (caught_up _ _ _ lt e) = absurd (omega arith)
  same_step (reached g entry bytes le) (invalidate _ g' _ _ n lt ne e) = absurd (omega arith)
  same_step (caught_up g entry bytes lt e) (reached _ _ _ le) = absurd (omega arith)
  same_step (caught_up g entry bytes lt e) (caught_up _ _ _ lt' e') = refl
  same_step (caught_up g entry bytes lt e) (invalidate _ g' _ _ n lt' ne e') = absurd (ne e)
  same_step (invalidate g g' entry bytes n lt ne e) (reached _ _ _ le) = absurd (omega arith)
  same_step (invalidate g g' entry bytes n lt ne e) (caught_up _ _ _ lt' e') = absurd (ne e')
  same_step (invalidate g g₁ entry bytes n₁ lt ne e₁) (invalidate _ g₂ _ _ n₂ lt' ne' e₂) =
      let e : g₁ ≡ g₂ = cc in let k : n₁ ≡ n₂ = cc in rw (e, k) refl
  same_step (copy g g₁ idx b rest e₁) (copy _ g₂ _ _ _ e₂) = let e : g₁ ≡ g₂ = cc in rw e refl
  same_step (publish g idx) (publish _ _) = refl
  same_step (store_offset g a₁ e₁) (store_offset _ a₂ e₂) = let e : a₁ ≡ a₂ = cc in rw e refl
  same_step (store_length g a₁ e₁) (store_length _ a₂ e₂) = let e : a₁ ≡ a₂ = cc in rw e refl

  same_end : {g : WriteHead} {t : WriteHead × Stage} → ¬ Step h bs (g, length_stored) t
  same_end st = elim st [ ]

  -- After the first step, the rest of a run.
  Reach-rest :
      {s t u : WriteHead × Stage} → Step h bs s t → Reach h bs s u → (u ≡ s) ⊎ Reach h bs t u
  Reach-rest st here = inl refl
  Reach-rest {s} {t} {u} st (next r last) = elim (Reach-rest st r) [
    | inl e ↦ inr (subst (Reach h bs t) (same_step st (subst (λ x. Step h bs x u) e last)) here)
    | inr rest ↦ inr (next rest last)
  ]

  -- Whatever a run to the end passes through, it goes on to the end from there.
  Reach-on :
      {s t : WriteHead × Stage} {g : WriteHead}
      → Reach h bs s (g, length_stored)
      → Reach h bs s t
      → Reach h bs t (g, length_stored)
  Reach-on end here = end
  Reach-on end (next {u = u} r st) = elim (Reach-rest st (Reach-on end r)) [
    | inl e ↦ absurd (same_end (subst (λ x. Step h bs x u) (sym e) st))
    | inr rest ↦ rest
  ]

  ended :
      {g : WriteHead} {t : WriteHead × Stage}
      → Reach h bs (g, length_stored) t
      → t ≡ (g, length_stored)
  ended here = refl
  ended {g} (next {u = u} r st) = absurd (same_end (subst (λ x. Step h bs x u) (ended r) st))

-- While a commit of bytes that fit the data ring runs on a well-formed head, short of the last `u64`
-- of the stream, no state between two of its stores is stuck: the stores go on from it to a last
-- state, and the head there is the one that `Writer::commit` returns.
pub Reach-Finishes :
    (h : WriteHead) (bs : List ℕ) (t : WriteHead × Stage)
    → IsWriter h
    → IsWritable h bs
    → Reach h bs (start h) t
    → (g : WriteHead) × Reach h bs t (g, length_stored)
      × (commit h bs ≡ done (some h.cache.entry_write_offset, g))
Reach-Finishes h bs t v w r =
    (committed h bs v w, Reach-on (committed-Reach h bs v w) r, commit_lem h bs v w)

-- On a well-formed head, for bytes that fit the data ring, short of the last `u64` of the stream, the
-- single stores of a commit lead to a last state with a head exactly if `Writer::commit` returns that
-- head, with the entry write offset as the index.
pub Reach-commit :
    (h : WriteHead) (bs : List ℕ) (g : WriteHead)
    → IsWriter h
    → IsWritable h bs
    → Reach h bs (start h) (g, length_stored)
      ↔ (commit h bs ≡ done (some h.cache.entry_write_offset, g))
Reach-commit h bs g v w = (
  λ r.
      let same : (committed h bs v w, length_stored) ≡ (g, length_stored) =
        ended (Reach-on (committed-Reach h bs v w) r) in
      let known = commit_lem h bs v w in cc,
  λ e.
      let same : committed h bs v w ≡ g = let known = commit_lem h bs v w in cc in
      subst (λ (x : WriteHead). Reach h bs (start h) (x, length_stored)) same
        (committed-Reach h bs v w),
)
