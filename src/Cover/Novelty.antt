-- ===== src/Cover/Novelty.antt =====
-- `findNewCover` and `worseCover` of go-fuzz/cover.go.
use mathlib.Core.Path.{subst}
use go_fuzz.Base.{
  ◌≡◌, refl, sym, ap, ◌∙◌, Bool, true, false, [], ◌∷◌, length, replicate, done, arith, ltb,
  Bool-cases, inl, inr, if◌then◌else◌,
}
use go_fuzz.Cover.{Table, find_new_cover, find_loop, worse_cover, compare_cover, compare_cover_dump}
use go_fuzz.Cover.Compare.{compare_cover_enters}
use go_fuzz.Defs.{cover_size}

-- The counters that exceed the table's, and zero elsewhere.
abbrev pub novelty : Table → Table → Table
novelty [] cover = []
novelty (b ∷ base) [] = []
novelty (b ∷ base) (c ∷ cover) = (if ltb b c then c else 0) ∷ novelty base cover

-- Some counter exceeds the table's.
abbrev pub has_novelty : Table → Table → Bool
has_novelty [] cover = false
has_novelty (b ∷ base) [] = false
has_novelty (b ∷ base) (c ∷ cover) = if ltb b c then true else has_novelty base cover

find_loop_lem :
    (base cover : Table)
    → length base ≡ length cover
    → find_loop base cover (replicate (length base) 0)
      ≡ done (novelty base cover, has_novelty base cover)
unfolding find_loop
find_loop_lem [] [] e = refl
find_loop_lem [] (c ∷ cover) e = absurd (omega arith)
find_loop_lem (b ∷ base) [] e = absurd (omega arith)
find_loop_lem (b ∷ base) (c ∷ cover) e = rw (find_loop_lem base cover (omega arith)) (ground arith)

has_novelty-eq :
    (base cover : Table)
    → length base ≡ length cover
    → compare_cover_dump base cover ≡ done (has_novelty base cover)
unfolding compare_cover_dump
has_novelty-eq [] [] e = refl
has_novelty-eq [] (c ∷ cover) e = absurd (omega arith)
has_novelty-eq (b ∷ base) [] e = absurd (omega arith)
has_novelty-eq (b ∷ base) (c ∷ cover) e =
    rw (has_novelty-eq base cover (omega arith)) (ground arith)

-- On tables of the fixed size `findNewCover` returns the counters that exceed the table's, and
-- reports that there are any exactly as `compareCover` does.
pub find_new_cover_lem :
    (base cover : Table)
    → length base ≡ cover_size
    → length cover ≡ cover_size
    → (find_new_cover base cover ≡ done (novelty base cover, has_novelty base cover))
      × (compare_cover base cover ≡ done (has_novelty base cover))
unfolding find_new_cover
find_new_cover_lem base cover p q = (
  subst
      (λ n.
        find_loop base cover (replicate n 0) ≡ done (novelty base cover, has_novelty base cover))
      p (find_loop_lem base cover (p ∙ sym q)),
  compare_cover_enters base cover p q ∙ has_novelty-eq base cover (p ∙ sym q),
)

pub length-novelty :
    (base cover : Table) → length base ≡ length cover → length (novelty base cover) ≡ length base
length-novelty [] cover e = refl
length-novelty (b ∷ base) [] e = absurd (omega arith)
length-novelty (b ∷ base) (c ∷ cover) e = omega (arith, length-novelty base cover (omega arith))

-- On tables of the same size the comparison does not panic.
pub worse_cover_total :
    (base cover : Table)
    → length base ≡ length cover
    → (b : Bool) × (worse_cover base cover ≡ done b)
unfolding worse_cover
worse_cover_total [] cover e = (false, refl)
worse_cover_total (b ∷ base) [] e = absurd (omega arith)
worse_cover_total (b ∷ base) (c ∷ cover) e =
    let (w, h) = worse_cover_total base cover (omega arith) in
    elim (Bool-cases (ltb c b)) [ inl t ↦ (true, rw t refl) | inr f ↦ (w, rw (f, h) refl) ]

worse_cover-novelty :
    (base cover candidate : Table)
    → length base ≡ length cover
    → length base ≡ length candidate
    → has_novelty base cover ≡ true
    → worse_cover (novelty base cover) candidate ≡ done false
    → has_novelty base candidate ≡ true
unfolding worse_cover
worse_cover-novelty [] [] candidate e f h w = cc
worse_cover-novelty [] (c ∷ cover) candidate e f h w = absurd (omega arith)
worse_cover-novelty (b ∷ base) [] candidate e f h w = absurd (omega arith)
worse_cover-novelty (b ∷ base) (c ∷ cover) [] e f h w = absurd (omega arith)
worse_cover-novelty (b ∷ base) (c ∷ cover) (d ∷ candidate) e f h w =
    ground (arith, worse_cover-novelty base cover candidate)

-- Minimisation keeps novelty: let `cover` have counters above the corpus table. A candidate whose
-- counters are not worse than those new ones still has a counter above the corpus table, so the
-- corpus does not refuse it.
pub worse_cover-find_new_cover :
    (base cover candidate new_cover : Table)
    → length base ≡ cover_size
    → length cover ≡ cover_size
    → length candidate ≡ cover_size
    → find_new_cover base cover ≡ done (new_cover, true)
    → worse_cover new_cover candidate ≡ done false
    → compare_cover base candidate ≡ done true
worse_cover-find_new_cover base cover candidate new_cover p q r h w =
    let found : done (novelty base cover, has_novelty base cover) ≡ done (new_cover, true) =
      sym (find_new_cover_lem base cover p q).0 ∙ h in
    let is_new : new_cover ≡ novelty base cover = ground (arith, found) in
    (find_new_cover_lem base candidate p r).1
    ∙ ap done (
        worse_cover-novelty base cover candidate (p ∙ sym q) (p ∙ sym r) (ground (arith, found))
          (rw is_new at w))
