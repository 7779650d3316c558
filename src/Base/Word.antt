-- ===== src/Base/Word.antt =====
-- Conversions to the unsigned machine widths, shifts, and the bit operations at variables.
use Prim.Native.Nat.{ℕ, zero, suc, ◌+◌, ◌*◌, ◌/◌, ◌%◌, ◌^◌, ◌≤◌, ◌<◌, max, min}
use Prim.Native.Nat.{
  bit_and, bit_or, bit_xor, digits, bitwise, bit_or-bitwise, bit_and-bitwise, bit_xor-bitwise,
  differ,
}
use mathlib.Core.Path.{◌≡◌, refl, ap, ◌∙◌}
use native.Mathlib.Nat.{pow-suc, le_refl}
use native.Mathlib.Omega.{arith}

abbrev pub u8 : ℕ → ℕ
u8 n = n % 2 ^ 8

abbrev pub u16 : ℕ → ℕ
u16 n = n % 2 ^ 16

abbrev pub u32 : ℕ → ℕ
u32 n = n % 2 ^ 32

abbrev pub u64 : ℕ → ℕ
u64 n = n % 2 ^ 64

infixl 71 ◌<<<◌ ◌>>>◌
abbrev pub ◌<<<◌ : ℕ → ℕ → ℕ
x <<< k = x * 2 ^ k

abbrev pub ◌>>>◌ : ℕ → ℕ → ℕ
x >>> k = x / 2 ^ k

-- The digits of a number do not depend on how much fuel is left over.
module _ (z : ℕ → ℕ) (f : ℕ → ℕ → ℕ) where
  digits-more : (n m a b : ℕ) → a ≤ n → a ≤ m → digits z f n a b ≡ digits z f m a b
  digits-more zero zero a b p q = refl
  digits-more zero (suc m) zero b p q = refl
  digits-more zero (suc m) (suc a) b p q = absurd (omega arith)
  digits-more (suc n) zero zero b p q = refl
  digits-more (suc n) zero (suc a) b p q = absurd (omega arith)
  digits-more (suc n) (suc m) zero b p q = refl
  digits-more (suc n) (suc m) (suc a) b p q =
      rw (digits-more n m (suc a / 2) (b / 2) (omega arith) (omega arith))

  bitwise_low :
      (a b : ℕ)
      → bitwise z f (suc a) b ≡ bitwise z f (suc a / 2) (b / 2) * 2 + f (suc a % 2) (b % 2)
  bitwise_low a b =
      omega (arith, digits-more a (suc a / 2) (suc a / 2) (b / 2) (omega arith) (le_refl _))

pub bit_or_low : (a b : ℕ) → bit_or a b ≡ bit_or (a / 2) (b / 2) * 2 + max (a % 2) (b % 2)
bit_or_low zero b = simp bit_or-bitwise (omega arith)
bit_or_low (suc a) b = simp bit_or-bitwise (bitwise_low (λ y. y) max a b)

pub bit_and_low : (a b : ℕ) → bit_and a b ≡ bit_and (a / 2) (b / 2) * 2 + min (a % 2) (b % 2)
bit_and_low zero b = simp bit_and-bitwise (omega arith)
bit_and_low (suc a) b = simp bit_and-bitwise (bitwise_low (λ y. 0) min a b)

pub zero-bit_or : (b : ℕ) → bit_or 0 b ≡ b
zero-bit_or b = bit_or-bitwise 0 b

double_shift : (h k : ℕ) → h * 2 ^ suc k ≡ 2 * (h * 2 ^ k)
double_shift h k = omega (arith, ap (λ (t : ℕ). h * t) (pow-suc 2 k))

-- `low | high << k` is a sum where `low` fits in `k` bits.
pub bit_or_shifted : (k low high : ℕ) → low < 2 ^ k → bit_or low (high <<< k) ≡ low + high * 2 ^ k
bit_or_shifted zero zero high h = omega (arith, zero-bit_or (high * 1))
bit_or_shifted zero (suc low) high h = absurd (omega arith)
bit_or_shifted (suc k) low high h = ground (
  arith,
  bit_or_low low (high * 2 ^ suc k),
  double_shift high k,
  pow-suc 2 k,
  bit_or_shifted k (low / 2) high (omega (arith, pow-suc 2 k)),
)

-- `|` of two numbers of `k` bits has `k` bits.
pub bit_or-lt : (k a b : ℕ) → a < 2 ^ k → b < 2 ^ k → bit_or a b < 2 ^ k
bit_or-lt zero zero zero p q = omega (arith, zero-bit_or 0)
bit_or-lt zero zero (suc b) p q = absurd (omega arith)
bit_or-lt zero (suc a) b p q = absurd (omega arith)
bit_or-lt (suc k) a b p q =
    let ih =
      bit_or-lt k (a / 2) (b / 2) (omega (arith, pow-suc 2 k)) (omega (arith, pow-suc 2 k)) in
    omega (arith, bit_or_low a b, pow-suc 2 k, ih)

-- `&` with 1 is the lowest bit.
pub zero-bit_and : (b : ℕ) → bit_and 0 b ≡ 0
zero-bit_and b = bit_and-bitwise 0 b

bit_and-zero_fuel : (n a : ℕ) → a ≤ n → bit_and a 0 ≡ 0
bit_and-zero_fuel n zero h = zero-bit_and 0
bit_and-zero_fuel zero (suc a) h = absurd (omega arith)
bit_and-zero_fuel (suc n) (suc a) h =
    omega (arith, bit_and_low (suc a) 0, bit_and-zero_fuel n (suc a / 2) (omega arith))

pub bit_and-one : (a : ℕ) → bit_and a 1 ≡ a % 2
bit_and-one a = omega (arith, bit_and_low a 1, bit_and-zero_fuel (a / 2) (a / 2) (le_refl _))

-- `^` digit by digit.
pub bit_xor_low : (a b : ℕ) → bit_xor a b ≡ bit_xor (a / 2) (b / 2) * 2 + differ (a % 2) (b % 2)
bit_xor_low zero b = simp bit_xor-bitwise (omega arith)
bit_xor_low (suc a) b = simp bit_xor-bitwise (bitwise_low (λ y. y) differ a b)

differ-mod : (x y : ℕ) → x < 2 → y < 2 → differ x y ≡ (x + y) % 2
differ-mod zero y p q = omega arith
differ-mod (suc zero) zero p q = refl
differ-mod (suc zero) (suc zero) p q = refl
differ-mod (suc zero) (suc (suc y)) p q = absurd (omega arith)
differ-mod (suc (suc x)) y p q = absurd (omega arith)

pub bit_xor_digit : (a b : ℕ) → bit_xor a b ≡ bit_xor (a / 2) (b / 2) * 2 + (a + b) % 2
bit_xor_digit a b =
    omega (arith, bit_xor_low a b, differ-mod (a % 2) (b % 2) (omega arith) (omega arith))

bit_xor_halves : (a b : ℕ) → bit_xor a b / 2 ≡ bit_xor (a / 2) (b / 2)
bit_xor_halves a b = omega (arith, bit_xor_digit a b)

halves_twice :
    (a b : ℕ) → bit_xor (bit_xor (a / 2) (b / 2)) (b / 2) ≡ a / 2 → bit_xor (bit_xor a b) b ≡ a
halves_twice a b h =
    bit_xor_digit (bit_xor a b) b ∙ rw (bit_xor_halves a b, h) (omega (arith, bit_xor_digit a b))

bit_xor_twice_fuel : (k a b : ℕ) → a + b ≤ k → bit_xor (bit_xor a b) b ≡ a
bit_xor_twice_fuel zero zero zero h = refl
bit_xor_twice_fuel zero zero (suc b) h = absurd (omega arith)
bit_xor_twice_fuel zero (suc a) b h = absurd (omega arith)
bit_xor_twice_fuel (suc k) zero zero h = refl
bit_xor_twice_fuel (suc k) zero (suc b) h =
    halves_twice zero (suc b) (bit_xor_twice_fuel k 0 (suc b / 2) (omega arith))
bit_xor_twice_fuel (suc k) (suc a) b h =
    halves_twice (suc a) b (bit_xor_twice_fuel k (suc a / 2) (b / 2) (omega arith))

-- A mask that is applied again is undone.
pub bit_xor_twice : (a b : ℕ) → bit_xor (bit_xor a b) b ≡ a
bit_xor_twice a b = bit_xor_twice_fuel (a + b) a b (le_refl _)

halves_comm :
    (a b c : ℕ)
    → bit_xor (bit_xor (a / 2) (b / 2)) (c / 2) ≡ bit_xor (bit_xor (a / 2) (c / 2)) (b / 2)
    → bit_xor (bit_xor a b) c ≡ bit_xor (bit_xor a c) b
halves_comm a b c h =
    let e : bit_xor (bit_xor a c) b
        ≡ bit_xor (bit_xor (a / 2) (c / 2)) (b / 2) * 2 + (bit_xor a c + b) % 2 =
      bit_xor_digit (bit_xor a c) b ∙ rw (bit_xor_halves a c) refl in
    bit_xor_digit (bit_xor a b) c
    ∙ rw (bit_xor_halves a b, h) (omega (arith, e, bit_xor_digit a b, bit_xor_digit a c))

bit_xor_right_comm_fuel :
    (k a b c : ℕ) → a + (b + c) ≤ k → bit_xor (bit_xor a b) c ≡ bit_xor (bit_xor a c) b
bit_xor_right_comm_fuel zero zero zero zero h = refl
bit_xor_right_comm_fuel zero a b c h = absurd (omega arith)
bit_xor_right_comm_fuel (suc k) zero zero zero h = refl
bit_xor_right_comm_fuel (suc k) a b c h =
    halves_comm a b c (bit_xor_right_comm_fuel k (a / 2) (b / 2) (c / 2) (omega arith))

-- The order of two masks does not matter.
pub bit_xor_right_comm : (a b c : ℕ) → bit_xor (bit_xor a b) c ≡ bit_xor (bit_xor a c) b
bit_xor_right_comm a b c = bit_xor_right_comm_fuel (a + (b + c)) a b c (le_refl _)
