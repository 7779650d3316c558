-- ===== src/Tests/Covers.antt =====
-- The theorems on cover tables, at tables of the fixed size.
use go_fuzz.Base.{
  ℕ, zero, suc, ◌≡◌, ◌<◌, refl, true, false, replicate, length, length-replicate, All, done, ◌>>=◌,
  arith,
}
use go_fuzz.Defs.{cover_size}
use go_fuzz.Cover.{Table, compare_cover, update_max_cover, find_new_cover, worse_cover}
use go_fuzz.Cover.Update.{join, covered, update_max_cover_lem, compare_cover-update_max_cover}
use go_fuzz.Cover.Novelty.{novelty, has_novelty, find_new_cover_lem, worse_cover-find_new_cover}

unfoldable pub filled : ℕ → Table
filled v = replicate cover_size v

pub length-filled : (v : ℕ) → length (filled v) ≡ cover_size
unfolding filled
length-filled v = length-replicate cover_size v

All-replicate : (P : ℕ → Type 0) (n v : ℕ) → P v → All P (replicate n v)
All-replicate P zero v h = tt
All-replicate P (suc n) v h = (h, All-replicate P n v h)

pub filled-Bytes : All (λ c. c < 256) (filled 3)
unfolding filled
filled-Bytes = All-replicate (λ c. c < 256) cover_size 3 (omega arith)

update_max_cover_lem_example :
    update_max_cover true (filled 0) (filled 3)
    ≡ done (join true (filled 0) (filled 3), covered (join true (filled 0) (filled 3)))
update_max_cover_lem_example =
    update_max_cover_lem true (filled 0) (filled 3) (length-filled 0) (length-filled 3)

compare_cover-update_max_cover_example :
    (update_max_cover true (filled 0) (filled 3) >>= λ r. compare_cover r.0 (filled 3)) ≡ done false
compare_cover-update_max_cover_example =
    compare_cover-update_max_cover true (filled 0) (filled 3) (length-filled 0) (length-filled 3)
      filled-Bytes

find_new_cover_lem_example :
    (find_new_cover (filled 0) (filled 3)
      ≡ done (novelty (filled 0) (filled 3), has_novelty (filled 0) (filled 3)))
    × (compare_cover (filled 0) (filled 3) ≡ done (has_novelty (filled 0) (filled 3)))
find_new_cover_lem_example =
    find_new_cover_lem (filled 0) (filled 3) (length-filled 0) (length-filled 3)

not_worse_at :
    (n : ℕ) → worse_cover (novelty (replicate n 0) (replicate n 3)) (replicate n 3) ≡ done false
unfolding worse_cover
not_worse_at zero = refl
not_worse_at (suc n) = not_worse_at n

found : find_new_cover (filled 0) (filled 3) ≡ done (novelty (filled 0) (filled 3), true)
unfolding filled
found = (find_new_cover_lem (filled 0) (filled 3) (length-filled 0) (length-filled 3)).0

not_worse : worse_cover (novelty (filled 0) (filled 3)) (filled 3) ≡ done false
unfolding filled
not_worse = not_worse_at cover_size

worse_cover-find_new_cover_example : compare_cover (filled 0) (filled 3) ≡ done true
worse_cover-find_new_cover_example =
    worse_cover-find_new_cover (filled 0) (filled 3) (filled 3) (novelty (filled 0) (filled 3))
      (length-filled 0) (length-filled 3) (length-filled 3) found not_worse
