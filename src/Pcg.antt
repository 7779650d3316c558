-- ===== src/Pcg.antt =====
-- The random numbers of go-fuzz/internal/pcg/pcg.go. The clock and the global stream counter that
-- `New` reads are its arguments. `RotateLeft32` and `TrailingZeros32` are those of Go's math/bits.
-- The rejection loop of `Uint32n` runs on fuel, one unit for each further draw.
pub mod Uniform
pub mod Draws
use Prim.Native.Nat.{bit_and, bit_or, bit_xor}
use go_fuzz.Base.{
  ℕ, zero, suc, ◌+◌, ◌-◌, ◌*◌, ◌/◌, ◌%◌, ◌^◌, Bool, Outcome, done, panic, no_fuel, ◌>>=◌, ltb, ◌==◌,
  if◌then◌else◌, not, u32, u64, ◌<<<◌, ◌>>>◌,
}

pub record Rand : Type 0 where
  pub state : ℕ
  pub inc : ℕ

abbrev pub multiplier : ℕ
multiplier = 6364136223846793005

-- `r.state *= multiplier; r.state += r.inc`
unfoldable pub step : Rand → Rand
step r = record r { state = u64 (u64 (r.state * multiplier) + r.inc) }

-- `now` is the clock and `counter` the value that the atomic increment returned.
unfoldable pub new : ℕ → ℕ → Rand
unfolding step
new now counter =
    let r1 = step (record { state = u64 now; inc = bit_or (u64 (counter <<< 1)) 1 }) in
    step (record r1 { state = u64 (r1.state + u64 now) })

-- `bits.RotateLeft32(x, -k)` for `k` below 32.
rotate_right32 : ℕ → ℕ → ℕ
rotate_right32 x k = let s = (32 - k) % 32 in bit_or (u32 (x <<< s)) (x >>> (32 - s))

-- The number that a state stands for.
unfoldable pub output : ℕ → ℕ
unfolding rotate_right32
output x = rotate_right32 (u32 (bit_xor (x >>> 18) x >>> 27)) (x >>> 59)

unfoldable pub uint32 : Rand → ℕ × Rand
unfolding output step
uint32 r = (output r.state, step r)

-- `for low < thresh`, with the draw that is under test.
retry_loop : ℕ → ℕ → ℕ → ℕ → Rand → Outcome (ℕ × Rand)
retry_loop zero n thresh v r =
    if ltb (u32 (v * n)) thresh then no_fuel else done ((v * n) >>> 32, r)
retry_loop (suc fuel) n thresh v r =
    let (v', r') = uint32 r in
    let again = retry_loop fuel n thresh v' r' in
    if ltb (u32 (v * n)) thresh then again else done ((v * n) >>> 32, r)

-- `uint32(-int32(n)) % n`
unfoldable pub threshold : ℕ → ℕ
threshold n = u32 (2 ^ 32 - n) % n

unfoldable pub uint32n : ℕ → ℕ → Rand → Outcome (ℕ × Rand)
unfolding retry_loop threshold
uint32n fuel n r =
    let (v, r') = uint32 r in
    if ltb (u32 (v * n)) n then retry_loop fuel n (threshold n) v r' else done ((v * n) >>> 32, r')

-- An `n` that does not fit a uint32 panics.
unfoldable pub intn : ℕ → ℕ → Rand → Outcome (ℕ × Rand)
intn fuel n r = if u32 n == n then uint32n fuel n r else panic

-- `bits.TrailingZeros32` by halving, at most `left` times.
trailing_zeros : ℕ → ℕ → ℕ
trailing_zeros zero x = 0
trailing_zeros (suc left) x =
    let more = trailing_zeros left (x / 2) in if x % 2 == 0 then suc more else 0

unfoldable pub exp2 : Rand → ℕ × Rand
unfolding trailing_zeros
exp2 r = let (v, r') = uint32 r in (trailing_zeros 32 v, r')

unfoldable pub bool : Rand → Bool × Rand
bool r = let (v, r') = uint32 r in (bit_and v 1 == 0, r')
