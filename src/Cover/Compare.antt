-- ===== src/Cover/Compare.antt =====
-- `compareCover` of go-fuzz/cover.go.
use go_fuzz.Base.{
  ◌≤◌, ◌≡◌, refl, sym, ◌∙◌, ◌↔◌, Bool, true, false, [], ◌∷◌, length, All₂, done, ltb, arith,
  Bool-cases, inl, inr,
}
use go_fuzz.Cover.{Table, compare_cover_dump, compare_cover}
use go_fuzz.Defs.{cover_size}

compare_cover_dump_total :
    (base cur : Table)
    → length base ≡ length cur
    → (b : Bool) × (compare_cover_dump base cur ≡ done b)
unfolding compare_cover_dump
compare_cover_dump_total [] [] e = (false, refl)
compare_cover_dump_total [] (c ∷ cur) e = absurd (omega arith)
compare_cover_dump_total (v ∷ base) [] e = absurd (omega arith)
compare_cover_dump_total (v ∷ base) (c ∷ cur) e = elim (Bool-cases (ltb v c)) [
  | inl t ↦ (true, rw t)
  | inr f ↦ rw f (compare_cover_dump_total base cur (omega arith))
]

compare_cover_dump-false :
    (base cur : Table)
    → length base ≡ length cur
    → compare_cover_dump base cur ≡ done false
    → All₂ ◌≤◌ cur base
unfolding compare_cover_dump
compare_cover_dump-false [] [] e h = tt
compare_cover_dump-false [] (c ∷ cur) e h = absurd (omega arith)
compare_cover_dump-false (v ∷ base) [] e h = absurd (omega arith)
compare_cover_dump-false (v ∷ base) (c ∷ cur) e h =
    (ground arith, compare_cover_dump-false base cur (omega arith) (ground arith))

pub compare_cover_dump-All₂ :
    (base cur : Table) → All₂ ◌≤◌ cur base → compare_cover_dump base cur ≡ done false
unfolding compare_cover_dump
compare_cover_dump-All₂ [] [] h = refl
compare_cover_dump-All₂ [] (c ∷ cur) h = absurd h
compare_cover_dump-All₂ (v ∷ base) [] h = absurd h
compare_cover_dump-All₂ (v ∷ base) (c ∷ cur) h =
    ground (arith, h.0, compare_cover_dump-All₂ base cur h.1)

pub compare_cover_enters :
    (base cur : Table)
    → length base ≡ cover_size
    → length cur ≡ cover_size
    → compare_cover base cur ≡ compare_cover_dump base cur
unfolding compare_cover
compare_cover_enters base cur p q = rw (p, q) refl

-- On tables of the fixed size the comparison does not end the program, and it finds nothing new
-- exactly when no counter of `cur` exceeds the one of `base`.
pub compare_cover_lem :
    (base cur : Table)
    → length base ≡ cover_size
    → length cur ≡ cover_size
    → ((b : Bool) × (compare_cover base cur ≡ done b))
      × ((compare_cover base cur ≡ done false) ↔ All₂ ◌≤◌ cur base)
compare_cover_lem base cur p q = rw (compare_cover_enters base cur p q) (
  compare_cover_dump_total base cur (p ∙ sym q),
  (compare_cover_dump-false base cur (p ∙ sym q), compare_cover_dump-All₂ base cur),
)
