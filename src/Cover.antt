-- ===== src/Cover.antt =====
-- The coverage tables of go-fuzz/cover.go. A table is a list of counters, one byte to a block of
-- the program under test. `compareCoverBody` is the portable one of go-fuzz/compare.go; the
-- assembly of go-fuzz/compare_amd64.s is not modelled. The flag -covercounters is an argument.
pub mod Round
pub mod Compare
pub mod Update
pub mod Novelty
use go_fuzz.Base.{
  ℕ, zero, suc, ◌+◌, Bool, true, false, not, ◌&&◌, ◌||◌, List, [], ◌∷◌, ◌++◌, length, replicate,
  Outcome, done, panic, ◌>>=◌, ltb, leb, ◌==◌, if◌then◌else◌,
}
use go_fuzz.Defs.{cover_size}

abbrev pub Table : Type 0
Table = List ℕ

unfoldable pub make_copy : List ℕ → List ℕ
make_copy bytes = [] ++ bytes

unfoldable pub round_up_cover : Bool → ℕ → ℕ
round_up_cover counters x =
    if not counters && ltb 0 x
    then 255
    else if leb x 5
    then x
    else if leb x 8
    then 8
    else if leb x 16
    then 16
    else if leb x 32
    then 32
    else if leb x 64
    then 64
    else 255

-- `cur[i]` panics where `cur` is the shorter table.
unfoldable pub compare_cover_dump : Table → Table → Outcome Bool
compare_cover_dump [] cur = done false
compare_cover_dump (v ∷ base) [] = panic
compare_cover_dump (v ∷ base) (c ∷ cur) =
    let rest = compare_cover_dump base cur in if ltb v c then done true else rest

-- Tables of another size end the program by `log.Fatalf`.
unfoldable pub compare_cover : Table → Table → Outcome Bool
compare_cover base cur =
    if not (length base == cover_size) || not (length cur == cover_size)
    then panic
    else compare_cover_dump base cur

-- The loop of `updateMaxCover` from some index on, with the count so far.
unfoldable pub update_loop : Bool → Table → Table → ℕ → Outcome (Table × ℕ)
update_loop counters base [] cnt = done (base, cnt)
update_loop counters [] (c ∷ cur) cnt = panic
update_loop counters (v ∷ base) (c ∷ cur) cnt = do
  let x = round_up_cover counters c
  (rest, n) ← update_loop counters base cur (if not (v == 0) || ltb 0 x then cnt + 1 else cnt)
  done ((if ltb v x then x else v) ∷ rest, n)

-- The updated table and the number of covered blocks.
unfoldable pub update_max_cover : Bool → Table → Table → Outcome (Table × ℕ)
update_max_cover counters base cur =
    if not (length base == cover_size) || not (length cur == cover_size)
    then panic
    else update_loop counters base cur 0

find_loop : Table → Table → Table → Outcome (Table × Bool)
find_loop [] cover res = done (res, false)
find_loop (b ∷ base) [] res = panic
find_loop (b ∷ base) (c ∷ cover) [] =
    let rest = find_loop base cover [] in if ltb b c then panic else rest
find_loop (b ∷ base) (c ∷ cover) (r ∷ res) = do
  (rest, found) ← find_loop base cover res
  done (if ltb b c then (c ∷ rest, true) else (r ∷ rest, found))

unfoldable pub find_new_cover : Table → Table → Outcome (Table × Bool)
unfolding find_loop
find_new_cover base cover = find_loop base cover (replicate cover_size 0)

unfoldable pub worse_cover : Table → Table → Outcome Bool
worse_cover [] cover = done false
worse_cover (b ∷ base) [] = panic
worse_cover (b ∷ base) (c ∷ cover) =
    let rest = worse_cover base cover in if ltb c b then done true else rest
