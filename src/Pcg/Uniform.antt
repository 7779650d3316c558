-- ===== src/Pcg/Uniform.antt =====
-- The test by which `Uint32n` of go-fuzz/internal/pcg/pcg.go rejects a draw.
use native.Mathlib.Nat.{mod-lt, mod-eq-sub-mod, div-add-mod}
use go_fuzz.Base.{ℕ, ◌+◌, ◌-◌, ◌*◌, ◌/◌, ◌%◌, ◌^◌, ◌≤◌, ◌<◌, ◌≡◌, ◌↔◌, u32, ◌>>>◌, arith}
use go_fuzz.Pcg.{threshold}

-- The draw `v` passes the test.
abbrev pub Accepted : ℕ → ℕ → Type 0
Accepted n v = threshold n ≤ u32 (v * n)

-- The first draw that gives the result `x`.
abbrev pub first_draw : ℕ → ℕ → ℕ
first_draw n x = (x * 2 ^ 32 + 2 ^ 32 % n + n - 1) / n

pub threshold-eq : (n : ℕ) → 0 < n → n < 2 ^ 32 → threshold n ≡ 2 ^ 32 % n
unfolding threshold
threshold-eq n p h = grind (arith, mod-eq-sub-mod {n = 2 ^ 32} {m = n} (omega arith))

mul_cancel : (n a b : ℕ) → n * a < n * b → a < b
mul_cancel n a b h = grind arith

pub mul_mono : (n a b : ℕ) → a ≤ b → n * a ≤ n * b
mul_mono n a b h = grind arith

-- `s` is the least number with `x * 2 ^ 32 + t ≤ n * s`, and the next `q` multiples of `n` fill the
-- rest of the block of 2 ^ 32 numbers that gives `x`.
module _ (n q t s x v : ℕ) (whole : n * q + t ≡ 2 ^ 32) (reach : x * 2 ^ 32 + t ≤ n * s)
    (least : n * s < x * 2 ^ 32 + t + n) where
  draw_in_range : t ≤ v * n % 2 ^ 32 → v * n / 2 ^ 32 ≡ x → (s ≤ v) × (v < s + q)
  draw_in_range above gives =
      let past : s < v + 1 = mul_cancel n s (v + 1) (omega arith) in
      (omega arith, mul_cancel n v (s + q) (omega arith))

  range_gives_draw : s ≤ v → v < s + q → (t ≤ v * n % 2 ^ 32) × (v * n / 2 ^ 32 ≡ x)
  range_gives_draw lo hi =
      let from_s : n * s ≤ n * v = mul_mono n s v lo in
      let below : n * (v + 1) ≤ n * (s + q) = mul_mono n (v + 1) (s + q) (omega arith) in
      (omega arith, omega arith)

-- For every result below `n` the draws that are accepted and give it are 2 ^ 32 / n numbers in a row,
-- so each result has the same number of draws.
pub uniform :
    (n x v : ℕ)
    → 0 < n
    → n < 2 ^ 32
    → x < n
    → (Accepted n v × ((v * n) >>> 32 ≡ x))
      ↔ ((first_draw n x ≤ v) × (v < first_draw n x + 2 ^ 32 / n))
uniform n x v p h lt =
    let whole : n * (2 ^ 32 / n) + 2 ^ 32 % n ≡ 2 ^ 32 = div-add-mod (2 ^ 32) n in
    let ceiling = div-add-mod (x * 2 ^ 32 + 2 ^ 32 % n + n - 1) n in
    let rest = mod-lt (x * 2 ^ 32 + 2 ^ 32 % n + n - 1) p in
    let reach : x * 2 ^ 32 + 2 ^ 32 % n ≤ n * first_draw n x = omega arith in
    let least : n * first_draw n x < x * 2 ^ 32 + 2 ^ 32 % n + n = omega arith in
    rw (threshold-eq n p h) (
      λ a. draw_in_range n _ _ _ x v whole reach least a.0 a.1,
      λ r. range_gives_draw n _ _ _ x v whole reach least r.0 r.1,
    )
