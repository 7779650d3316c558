-- ===== src/Bytes/Carry.antt =====
-- `increment` and `decrement` of go-fuzz/worker.go on little-endian numbers.
use native.Mathlib.Nat.{pow-suc}
use go_fuzz.Base.{
  ◌+◌, ◌%◌, ◌^◌, ◌≡◌, refl, ◌∙◌, Bool-cases, ◌⊎◌, inl, inr, [], ◌∷◌, length, arith, ◌==◌,
}
use go_fuzz.Bytes.{Bytes, IsBytes, increment, decrement}
use go_fuzz.Bytes.Value.{le_value, le_value-lt, le_value_inj}

pub length-increment : (bs : Bytes) → length (increment bs) ≡ length bs
unfolding increment
length-increment [] = refl
length-increment (b ∷ bs) = ground (arith, length-increment bs)

pub length-decrement : (bs : Bytes) → length (decrement bs) ≡ length bs
unfolding decrement
length-decrement [] = refl
length-decrement (b ∷ bs) = ground (arith, length-decrement bs)

pub increment-IsBytes : (bs : Bytes) → IsBytes bs → IsBytes (increment bs)
unfolding increment
increment-IsBytes [] h = tt
increment-IsBytes (b ∷ bs) h = (
  omega arith,
  elim (Bool-cases (b == 0xff)) [ inl e ↦ rw e (increment-IsBytes bs h.1) | inr e ↦ rw e h.1 ],
)

pub decrement-IsBytes : (bs : Bytes) → IsBytes bs → IsBytes (decrement bs)
unfolding decrement
decrement-IsBytes [] h = tt
decrement-IsBytes (b ∷ bs) h = (
  omega arith,
  elim (Bool-cases (b == 0)) [ inl e ↦ rw e (decrement-IsBytes bs h.1) | inr e ↦ rw e h.1 ],
)

-- With the carry out: 1 exactly when every byte was 0xff.
increment_carry :
    (bs : Bytes)
    → IsBytes bs
    → (le_value (increment bs) ≡ le_value bs + 1)
      ⊎ ((le_value (increment bs) ≡ 0) × (le_value bs + 1 ≡ 256 ^ length bs))
unfolding increment
increment_carry [] h = inr (refl, refl)
increment_carry (b ∷ bs) h = ground (arith, pow-suc 256 (length bs), increment_carry bs h.1)

decrement_carry :
    (bs : Bytes)
    → IsBytes bs
    → (le_value (decrement bs) + 1 ≡ le_value bs)
      ⊎ ((le_value bs ≡ 0) × (le_value (decrement bs) + 1 ≡ 256 ^ length bs))
unfolding decrement
decrement_carry [] h = inr (refl, refl)
decrement_carry (b ∷ bs) h = ground (arith, pow-suc 256 (length bs), decrement_carry bs h.1)

-- `increment` adds one to the little-endian value, and wraps to zero at the width of the string.
pub le_value-increment :
    (bs : Bytes) → IsBytes bs → le_value (increment bs) ≡ (le_value bs + 1) % 256 ^ length bs
le_value-increment bs h = grind (
  arith,
  increment_carry bs h,
  le_value-lt bs h,
  le_value-lt (increment bs) (increment-IsBytes bs h),
  length-increment bs,
)

-- `decrement` undoes `increment`, also across the wrap.
pub decrement-increment : (bs : Bytes) → IsBytes bs → decrement (increment bs) ≡ bs
decrement-increment bs h =
    le_value_inj _ bs (length-decrement (increment bs) ∙ length-increment bs)
      (decrement-IsBytes _ (increment-IsBytes bs h)) h
      (ground (
        arith,
        increment_carry bs h,
        decrement_carry (increment bs) (increment-IsBytes bs h),
        length-increment bs,
      ))
