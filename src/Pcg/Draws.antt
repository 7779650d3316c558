-- ===== src/Pcg/Draws.antt =====
-- What `Uint32n` and `Intn` of go-fuzz/internal/pcg/pcg.go make of the draws.
use native.Mathlib.Nat.{mod-lt, div-le_self}
use go_fuzz.Base.{
  ℕ, zero, suc, ◌+◌, ◌*◌, ◌%◌, ◌^◌, ◌≤◌, ◌<◌, ◌≡◌, ◌∙◌, true, Bool-cases, inl, inr, Outcome, done,
  no_fuel, Returns, Safe, ltb, ◌==◌, le→ltb_false, max, if◌then◌else◌, u32, ◌>>>◌, bit_or-lt, arith,
}
use go_fuzz.Pcg.{Rand, step, output, uint32, retry_loop, threshold, uint32n, intn, rotate_right32}
use go_fuzz.Pcg.Uniform.{Accepted, threshold-eq, mul_mono}

-- The reference: take draws until one is accepted, with at most `fuel` draws.
abbrev pub first_accepted : ℕ → ℕ → Rand → Outcome (ℕ × Rand)
first_accepted zero n r = no_fuel
first_accepted (suc fuel) n r =
    let rest = first_accepted fuel n (step r) in
    if ltb (u32 (output r.state * n)) (threshold n)
    then rest
    else done ((output r.state * n) >>> 32, step r)

retry_loop-first_accepted :
    (fuel n : ℕ) (r : Rand)
    → retry_loop fuel n (threshold n) (output r.state) (step r) ≡ first_accepted (suc fuel) n r
unfolding retry_loop uint32
retry_loop-first_accepted zero n r = ground arith
retry_loop-first_accepted (suc fuel) n r = ground (arith, retry_loop-first_accepted fuel n (step r))

-- The shortcut of `Uint32n`, which skips the computation of the threshold where the low half is at
-- least `n`, changes nothing: the function returns what the first accepted draw gives.
pub uint32n-first_accepted :
    (fuel n : ℕ) (r : Rand) → 0 < n → n < 2 ^ 32 → uint32n fuel n r ≡ first_accepted (suc fuel) n r
unfolding uint32n uint32
uint32n-first_accepted fuel n r p h =
    let small : threshold n < n = rw (threshold-eq n p h) (mod-lt _ p) in
    ground (arith, retry_loop-first_accepted fuel n r)

shifted-lt : (a k : ℕ) → a < 2 ^ 32 → a >>> k < 2 ^ 32
shifted-lt a k h = omega (arith, div-le_self a (2 ^ k))

pub output-lt : (x : ℕ) → output x < 2 ^ 32
unfolding output rotate_right32
output-lt x = bit_or-lt 32 _ _ (omega arith) (shifted-lt _ _ (omega arith))

scaled-lt : (v n : ℕ) → v < 2 ^ 32 → 0 < n → (v * n) >>> 32 < n
scaled-lt v n h p = omega (arith, mul_mono n (v + 1) (2 ^ 32) (omega arith))

-- A result lies in the range.
first_accepted-lt : (fuel n : ℕ) (r : Rand) → 0 < n → Safe (λ a. a.0 < n) (first_accepted fuel n r)
first_accepted-lt zero n r p = tt
first_accepted-lt (suc fuel) n r p =
    elim (Bool-cases (ltb (u32 (output r.state * n)) (threshold n))) [
      | inl t ↦ rw t (first_accepted-lt fuel n (step r) p)
      | inr f ↦ rw f (scaled-lt _ n (output-lt r.state) p)
    ]

pub uint32n-zero : (fuel : ℕ) (r : Rand) → uint32n fuel 0 r ≡ done (0, step r)
unfolding uint32n uint32
uint32n-zero fuel r = ground arith

-- `Intn` does not panic for an `n` that fits a uint32; a result is below `n`, and 0 where `n` is 0.
pub intn_lem : (fuel n : ℕ) (r : Rand) → n < 2 ^ 32 → Safe (λ a. a.0 < max n 1) (intn fuel n r)
unfolding intn
intn_lem fuel zero r h = rw uint32n-zero (omega arith)
intn_lem fuel (suc n) r h =
    let fits : (u32 (suc n) == suc n) ≡ true = ground arith in
    let e : max (suc n) 1 ≡ suc n = omega arith in
    rw (fits, uint32n-first_accepted fuel (suc n) r (omega arith) h, e)
      (first_accepted-lt (suc fuel) (suc n) r (omega arith))

-- The generator after `k` draws.
abbrev pub steps : ℕ → Rand → Rand
steps zero r = r
steps (suc k) r = steps k (step r)

first_accepted-Returns :
    (fuel k n : ℕ) (r : Rand)
    → 0 < n
    → k < fuel
    → Accepted n (output (steps k r).state)
    → Returns (λ a. a.0 < n) (first_accepted fuel n r)
first_accepted-Returns zero k n r p h a = absurd (omega arith)
first_accepted-Returns (suc fuel) zero n r p h a =
    rw (le→ltb_false (u32 (output r.state * n)) (threshold n) a)
      (scaled-lt _ n (output-lt r.state) p)
first_accepted-Returns (suc fuel) (suc k) n r p h a =
    elim (Bool-cases (ltb (u32 (output r.state * n)) (threshold n))) [
      | inl t ↦ rw t (first_accepted-Returns fuel k n (step r) p (omega arith) a)
      | inr f ↦ rw f (scaled-lt _ n (output-lt r.state) p)
    ]

-- With fuel for `k` further draws, of which the last is accepted, `Intn` returns a number below `n`.
pub intn-Returns :
    (fuel k n : ℕ) (r : Rand)
    → 0 < n
    → n < 2 ^ 32
    → k ≤ fuel
    → Accepted n (output (steps k r).state)
    → Returns (λ a. a.0 < n) (intn fuel n r)
unfolding intn
intn-Returns fuel k n r p h e a =
    let fits : (u32 n == n) ≡ true = ground arith in
    rw (fits, uint32n-first_accepted fuel n r p h)
      (first_accepted-Returns (suc fuel) k n r p (omega arith) a)

-- Where `n` divides 2 ^ 32 no draw is rejected, and `Intn` returns after one.
pub intn-divisor :
    (fuel n : ℕ) (r : Rand)
    → 0 < n
    → n < 2 ^ 32
    → 2 ^ 32 % n ≡ 0
    → intn fuel n r ≡ done ((output r.state * n) >>> 32, step r)
unfolding intn
intn-divisor fuel n r p h d =
    let fits : (u32 n == n) ≡ true = ground arith in
    let t : threshold n ≡ 0 = threshold-eq n p h ∙ d in
    rw (fits, uint32n-first_accepted fuel n r p h) (ground (arith, t))
