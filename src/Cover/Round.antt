-- ===== src/Cover/Round.antt =====
-- `roundUpCover` of go-fuzz/cover.go.
use go_fuzz.Base.{ℕ, ◌≤◌, ◌<◌, ◌≡◌, Bool, true, false, arith}
use go_fuzz.Cover.{round_up_cover}

-- Quantising never lowers a byte counter.
pub round_up_cover_ge : (counters : Bool) (x : ℕ) → x < 256 → x ≤ round_up_cover counters x
unfolding round_up_cover
round_up_cover_ge counters x h = ground arith

pub round_up_cover_mono :
    (counters : Bool) (x y : ℕ)
    → x ≤ y
    → y < 256
    → round_up_cover counters x ≤ round_up_cover counters y
unfolding round_up_cover
round_up_cover_mono true x y h lt = ground arith
round_up_cover_mono false x y h lt = ground arith

pub round_up_cover_idem :
    (counters : Bool) (x : ℕ)
    → round_up_cover counters (round_up_cover counters x) ≡ round_up_cover counters x
unfolding round_up_cover
round_up_cover_idem true x = ground arith
round_up_cover_idem false x = ground arith

pub round_up_cover-lt : (counters : Bool) (x : ℕ) → round_up_cover counters x < 256
unfolding round_up_cover
round_up_cover-lt counters x = ground arith

pub round_up_cover_zero_iff : (counters : Bool) (x : ℕ) → round_up_cover counters x ≡ 0 → x ≡ 0
unfolding round_up_cover
round_up_cover_zero_iff counters x = ground arith
