-- ===== src/Sonar/Sample/Evaluate.antt =====
-- `evaluate` of go-fuzz/sonar.go on operands of one size.
use Prim.Native.Nat.{bit_and}
use native.Mathlib.Nat.{pow-suc, mod-eq_of_lt, mod-eq-sub-mod, pow-le-pow_right}
use native.Mathlib.Decide.{dec_lt}
use go_fuzz.Base.{
  ℕ, zero, suc, ◌+◌, ◌-◌, ◌*◌, ◌/◌, ◌%◌, ◌^◌, ◌≤◌, ◌<◌, ◌≡◌, ◌≢◌, refl, ap, ◌∙◌, false, Bool-cases,
  inl, inr, [], ◌∷◌, ◌++◌, length, length-append, get_or, ltb, ◌==◌, ◌||◌, not, if◌then◌else◌,
  All-append, arith,
}
use go_fuzz.Bytes.{Bytes, IsBytes}
use go_fuzz.Bytes.Value.{le_value, le_value-append, le_value-lt}
use go_fuzz.Sonar.Sample.{SonarSample, extend, extend_loop, evaluate, apply_op, flip_sign}
use go_fuzz.Defs.{sonar_op_mask, sonar_string, sonar_signed}

-- The last byte says in which half of its range a value lies.
last_half :
    (v : Bytes)
    → 0 < length v
    → IsBytes v
    → (if ltb (get_or v (length v - 1) 0) 128
        then 2 * le_value v < 256 ^ length v
        else 256 ^ length v ≤ 2 * le_value v)
last_half [] p h = absurd (omega arith)
last_half (b ∷ []) p h = ground (arith, h.0)
last_half (b ∷ c ∷ v) p h =
    ground (arith, h.0, last_half (c ∷ v) (omega arith) h.1, pow-suc 256 (length v))

-- What a widening by `k` bytes makes of a value: the same where it lies in the lower half, and 256 ^ n
-- less what is missing to its own width where it lies in the upper half.
abbrev Widened : ℕ → Bytes → Bytes → Type 0
Widened n v wide =
    (2 * le_value v < 256 ^ length v → le_value wide ≡ le_value v)
    × (256 ^ length v ≤ 2 * le_value v → le_value wide + 256 ^ length v ≡ le_value v + 256 ^ n)

append_byte :
    (v : Bytes) (p : ℕ)
    → (le_value (v ++ p ∷ []) ≡ le_value v + 256 ^ length v * p)
      × (length (v ++ p ∷ []) ≡ suc (length v))
      × (256 ^ length (v ++ p ∷ []) ≡ 256 * 256 ^ length v)
append_byte v p =
    let len : length (v ++ p ∷ []) ≡ suc (length v) = omega (arith, length-append v (p ∷ [])) in
    (
      le_value-append v (p ∷ []) ∙ ap (λ t. le_value v + 256 ^ length v * t) (omega arith),
      len,
      ap (λ t. 256 ^ t) len ∙ omega (arith, pow-suc 256 (length v)),
    )

extend_loop-Widened :
    (k n : ℕ) (v : Bytes)
    → 0 < length v
    → length v + k ≡ n
    → IsBytes v
    → Widened n v (extend_loop k v)
unfolding extend_loop
extend_loop-Widened zero n v p e h = (
  λ low. refl,
  λ high. omega (arith, ap (λ t. 256 ^ t) (let e' : length v ≡ n = omega arith in e')),
)
extend_loop-Widened (suc k) n v p e h = elim (Bool-cases (ltb (get_or v (length v - 1) 0) 128)) [
  | inl low ↦
      let (val, len, pow) = append_byte v 0 in
      let ih =
        extend_loop-Widened k n (v ++ 0 ∷ []) (omega (arith, len)) (omega (arith, len))
          (All-append (λ b. b < 256) v (0 ∷ []) h (omega arith, tt)) in
      rw low (
        λ q. omega (arith, ih.0 (omega (arith, val, pow)), val),
        λ q. absurd (omega (arith, rw low at (last_half v p h))),
      )
  | inr high ↦
      let (val, len, pow) = append_byte v 0xff in
      let ih =
        extend_loop-Widened k n (v ++ 0xff ∷ []) (omega (arith, len)) (omega (arith, len))
          (All-append (λ b. b < 256) v (0xff ∷ []) h (omega arith, tt)) in
      rw high (
        λ q. absurd (omega (arith, rw high at (last_half v p h))),
        λ q. omega (arith, ih.1 (omega (arith, val, pow)), val, pow),
      )
]

pow_width : (n : ℕ) → n ≤ 8 → 256 ^ n ≤ 2 ^ 64
pow_width n h = pow-le-pow_right {n = 256} (omega arith) h

pow_even : (n : ℕ) → 0 < n → 256 ^ n ≡ 256 * 256 ^ (n - 1)
pow_even zero p = absurd (omega arith)
pow_even (suc n) p = ground (arith, pow-suc 256 n)

-- A value of `n` bytes with its sign bit flipped: the order of these numbers is that of the signed
-- values.
abbrev pub flip_width : ℕ → ℕ → ℕ
flip_width n x = (x + 256 ^ n / 2) % 256 ^ n

-- How two tests agree on two pairs of numbers.
abbrev SameOrder : ℕ → ℕ → ℕ → ℕ → Type 0
SameOrder a b c d = (ltb a b ≡ ltb c d) × ((a == b) ≡ (c == d)) × (ltb b a ≡ ltb d c)

-- `w` is the size of the narrow range and `n` of the wide one; `s` and `t` are `x` and `y` widened.
module _ (w n x y s t : ℕ) (narrow : w ≤ n) (x_fits : x < w) (y_fits : y < w)
    (x_low : 2 * x < w → s ≡ x) (x_high : w ≤ 2 * x → s + w ≡ x + n) (y_low : 2 * y < w → t ≡ y)
    (y_high : w ≤ 2 * y → t + w ≡ y + n) where
  widened_order : SameOrder s t x y
  widened_order = (ground arith, ground arith, ground arith)

flipped_value :
    (w h x s : ℕ)
    → w ≡ 2 * h
    → w ≤ 2 ^ 64
    → x < w
    → (2 * x < w → s ≡ x)
    → (w ≤ 2 * x → s + w ≡ x + 2 ^ 64)
    → flip_sign s + h ≡ (x + h) % w + 2 ^ 63
flipped_value w h x s even narrow fits low high = elim (dec_lt (2 * x) w) [
  | yes q ↦ let m : (x + h) % w ≡ x + h = mod-eq_of_lt (omega arith) in omega (arith, m, low q)
  | no q ↦
      let m : (x + h) % w ≡ x + h - w = mod-eq-sub-mod (omega arith) ∙ mod-eq_of_lt (omega arith) in
      omega (arith, m, high (omega arith))
]

flipped_order : (a b c d h : ℕ) → a + h ≡ c + 2 ^ 63 → b + h ≡ d + 2 ^ 63 → SameOrder a b c d
flipped_order a b c d h p q = (ground arith, ground arith, ground arith)

module _ (sam : SonarSample) (plain : bit_and sam.flags sonar_string ≡ 0)
    (size : length sam.val1 ≡ length sam.val2) (some_byte : 0 < length sam.val1)
    (fits : length sam.val1 ≤ 8) (bytes1 : IsBytes sam.val1) (bytes2 : IsBytes sam.val2) where
  wide1 : Widened 8 sam.val1 (extend sam.val1)
  unfolding extend
  wide1 = extend_loop-Widened (8 - length sam.val1) 8 sam.val1 some_byte (omega arith) bytes1

  wide2 : Widened 8 sam.val2 (extend sam.val2)
  unfolding extend
  wide2 = extend_loop-Widened (8 - length sam.val2) 8 sam.val2 (omega arith) (omega arith) bytes2

  same_width : 256 ^ length sam.val1 ≡ 256 ^ length sam.val2
  same_width = ap (λ n. 256 ^ n) size

  in_range :
      ((length sam.val1 == 0)
        || (length sam.val2 == 0)
        || ltb 8 (length sam.val1)
        || ltb 8 (length sam.val2)
        || not (length sam.val1 == length sam.val2))
      ≡ false
  in_range = ground arith

  -- Two operands of one size from 1 to 8 bytes without the string flag: an unsigned comparison is
  -- evaluated as the comparison of their little-endian values.
  pub evaluate_unsigned :
      bit_and sam.flags sonar_signed ≡ 0
      → evaluate sam
        ≡ apply_op
            (bit_and sam.flags sonar_op_mask)
            (ltb (le_value sam.val1) (le_value sam.val2))
            (le_value sam.val1 == le_value sam.val2)
            (ltb (le_value sam.val2) (le_value sam.val1))
  unfolding evaluate
  evaluate_unsigned unsigned =
      let order =
        widened_order (256 ^ length sam.val1) (2 ^ 64) (le_value sam.val1) (le_value sam.val2)
          (le_value (extend sam.val1)) (le_value (extend sam.val2)) (pow_width _ fits)
          (le_value-lt sam.val1 bytes1) (rw same_width (le_value-lt sam.val2 bytes2)) wide1.0
          wide1.1 (λ q. wide2.0 (rw same_width at q))
          (λ q. rw same_width (wide2.1 (rw same_width at q))) in
      rw (plain, in_range, unsigned, order.0, order.1, order.2) refl

  -- A signed comparison of two operands of one size from 1 to 8 bytes, without the string flag, is
  -- evaluated as the comparison of their two's complement values at their own width.
  pub evaluate_signed :
      bit_and sam.flags sonar_signed ≢ 0
      → let n = length sam.val1 in
        let a = flip_width n (le_value sam.val1) in
        let b = flip_width n (le_value sam.val2) in
        evaluate sam ≡ apply_op (bit_and sam.flags sonar_op_mask) (ltb a b) (a == b) (ltb b a)
  unfolding evaluate
  evaluate_signed signed =
      let w : ℕ = 256 ^ length sam.val1 in
      let even : w ≡ 2 * (w / 2) = omega (arith, pow_even _ some_byte) in
      let f1 =
        flipped_value w (w / 2) (le_value sam.val1) (le_value (extend sam.val1)) even
          (pow_width _ fits) (le_value-lt sam.val1 bytes1) wide1.0 wide1.1 in
      let f2 =
        flipped_value w (w / 2) (le_value sam.val2) (le_value (extend sam.val2)) even
          (pow_width _ fits) (rw same_width (le_value-lt sam.val2 bytes2))
          (λ q. wide2.0 (rw same_width at q)) (λ q. rw same_width (wide2.1 (rw same_width at q))) in
      let order = flipped_order _ _ _ _ (w / 2) f1 f2 in
      let is_signed : (bit_and sam.flags sonar_signed == 0) ≡ false = ground arith in
      rw (plain, in_range, is_signed, order.0, order.1, order.2) refl
