-- ===== src/Cover/Update.antt =====
-- `updateMaxCover` of go-fuzz/cover.go.
use go_fuzz.Base.{
  ℕ, ◌+◌, ◌≤◌, ◌<◌, ◌≡◌, refl, sym, ◌∙◌, Bool, false, [], ◌∷◌, length, max, All, All₂, done, ◌>>=◌,
  not, ◌||◌, arith, ltb, ◌==◌, if◌then◌else◌,
}
use go_fuzz.Cover.{Table, round_up_cover, update_loop, update_max_cover, compare_cover}
use go_fuzz.Cover.Round.{round_up_cover_ge}
use go_fuzz.Cover.Compare.{compare_cover_dump-All₂, compare_cover_enters}
use go_fuzz.Defs.{cover_size}

-- The table of maxima, position by position.
abbrev pub join : Bool → Table → Table → Table
join counters [] cur = []
join counters (v ∷ base) [] = v ∷ base
join counters (v ∷ base) (c ∷ cur) = max v (round_up_cover counters c) ∷ join counters base cur

-- The number of blocks that a table says were reached.
abbrev pub covered : Table → ℕ
covered [] = 0
covered (v ∷ table) = covered table + (if v == 0 then 0 else 1)

pub length-join :
    (counters : Bool) (base cur : Table) → length (join counters base cur) ≡ length base
length-join counters [] cur = refl
length-join counters (v ∷ base) [] = refl
length-join counters (v ∷ base) (c ∷ cur) = omega (arith, length-join counters base cur)

update_loop_lem :
    (counters : Bool) (base cur : Table) (cnt : ℕ)
    → length base ≡ length cur
    → update_loop counters base cur cnt
      ≡ done (join counters base cur, cnt + covered (join counters base cur))
unfolding update_loop
update_loop_lem counters [] [] cnt e = ground arith
update_loop_lem counters [] (c ∷ cur) cnt e = absurd (omega arith)
update_loop_lem counters (v ∷ base) [] cnt e = absurd (omega arith)
update_loop_lem counters (v ∷ base) (c ∷ cur) cnt e =
    let x = round_up_cover counters c in
    rw
      (update_loop_lem counters base cur (if not (v == 0) || ltb 0 x then cnt + 1 else cnt)
        (omega arith))
      (ground arith)

-- On tables of the fixed size `updateMaxCover` does not end the program: every counter becomes the
-- maximum of the old one and the quantised new one, and the count that it returns is the number of
-- nonzero counters of the updated table.
pub update_max_cover_lem :
    (counters : Bool) (base cur : Table)
    → length base ≡ cover_size
    → length cur ≡ cover_size
    → update_max_cover counters base cur
      ≡ done (join counters base cur, covered (join counters base cur))
unfolding update_max_cover
update_max_cover_lem counters base cur p q =
    rw (p, q) (update_loop_lem counters base cur 0 (p ∙ sym q) ∙ ground arith)

join_ge :
    (counters : Bool) (base cur : Table)
    → length base ≡ length cur
    → All (λ c. c < 256) cur
    → All₂ ◌≤◌ cur (join counters base cur)
join_ge counters [] [] e h = tt
join_ge counters [] (c ∷ cur) e h = absurd (omega arith)
join_ge counters (v ∷ base) [] e h = absurd (omega arith)
join_ge counters (v ∷ base) (c ∷ cur) e h =
    (omega (arith, round_up_cover_ge counters c h.0), join_ge counters base cur (omega arith) h.1)

pub join_ge_base :
    (counters : Bool) (base cur : Table)
    → length base ≡ length cur
    → All₂ ◌≤◌ base (join counters base cur)
join_ge_base counters [] [] e = tt
join_ge_base counters [] (c ∷ cur) e = absurd (omega arith)
join_ge_base counters (v ∷ base) [] e = absurd (omega arith)
join_ge_base counters (v ∷ base) (c ∷ cur) e =
    (omega arith, join_ge_base counters base cur (omega arith))

-- Once an input's counters are taken into the table, the same counters are not new any more: the
-- comparison with the updated table answers false.
pub compare_cover-update_max_cover :
    (counters : Bool) (base cur : Table)
    → length base ≡ cover_size
    → length cur ≡ cover_size
    → All (λ c. c < 256) cur
    → (update_max_cover counters base cur >>= λ r. compare_cover r.0 cur) ≡ done false
compare_cover-update_max_cover counters base cur p q h =
    rw (update_max_cover_lem counters base cur p q) (
      compare_cover_enters _ cur (length-join counters base cur ∙ p) q
      ∙ compare_cover_dump-All₂ _ cur (join_ge counters base cur (p ∙ sym q) h))
