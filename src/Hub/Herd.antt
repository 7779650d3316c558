-- ===== src/Hub/Herd.antt =====
-- The two reads of the cover table in `updateMaxCover` of go-fuzz/hub.go.
use go_fuzz.Base.{
  ◌≤◌, ◌≡◌, refl, ◌∙◌, ap, Bool, [], ◌∷◌, length, done, All₂, Bool-cases, inl, inr, arith,
}
use go_fuzz.Defs.{cover_size}
use go_fuzz.Cover.{Table}
use go_fuzz.Cover.Compare.{compare_cover_lem}
use go_fuzz.Hub.{update_max_cover}

All₂-trans : (xs ys zs : Table) → All₂ ◌≤◌ xs ys → All₂ ◌≤◌ ys zs → All₂ ◌≤◌ xs zs
All₂-trans [] [] [] h k = tt
All₂-trans [] [] (z ∷ zs) h k = absurd k
All₂-trans [] (y ∷ ys) zs h k = absurd h
All₂-trans (x ∷ xs) [] zs h k = absurd h
All₂-trans (x ∷ xs) (y ∷ ys) [] h k = absurd k
All₂-trans (x ∷ xs) (y ∷ ys) (z ∷ zs) h k = (omega (arith, h.0, k.0), All₂-trans xs ys zs h.1 k.1)

-- The read without the lock only saves work: where the table that it saw is an earlier state of the
-- table, which never falls, the result and the new table are those of a call that reads under the lock
-- alone.
pub update_max_cover_optimistic :
    (counters : Bool) (seen current cover : Table)
    → length seen ≡ cover_size
    → length current ≡ cover_size
    → length cover ≡ cover_size
    → All₂ ◌≤◌ seen current
    → update_max_cover counters seen current cover ≡ update_max_cover counters current current cover
unfolding update_max_cover
update_max_cover_optimistic counters seen current cover p q r older =
    let (b, e) = (compare_cover_lem seen cover p r).0 in
    let (c, f) = (compare_cover_lem current cover q r).0 in
    elim (Bool-cases b) [
      | inl t ↦ elim (Bool-cases c) [ inl u ↦ rw (e, f, t, u) refl | inr u ↦ rw (e, f, t, u) refl ]
      | inr t ↦
          let covered = (compare_cover_lem seen cover p r).1.0 (e ∙ ap done t) in
          let still =
            (compare_cover_lem current cover q r).1.1
              (All₂-trans cover seen current covered older) in
          rw (e, t, still) refl
    ]
