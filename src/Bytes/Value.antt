-- ===== src/Bytes/Value.antt =====
-- The number that a byte string stands for in little-endian order, and the bytes of a number.
use native.Mathlib.Nat.{pow-suc}
use go_fuzz.Base.{
  ℕ, zero, suc, ◌+◌, ◌*◌, ◌/◌, ◌%◌, ◌^◌, ◌<◌, ◌≡◌, refl, ap, ap₂, List, [], ◌∷◌, ◌++◌, length,
  arith, All,
}

abbrev pub le_value : List ℕ → ℕ
le_value [] = 0
le_value (b ∷ bs) = b + 256 * le_value bs

abbrev pub le_bytes : ℕ → ℕ → List ℕ
le_bytes zero v = []
le_bytes (suc n) v = v % 256 ∷ le_bytes n (v / 256)

pub length-le_bytes : (n v : ℕ) → length (le_bytes n v) ≡ n
length-le_bytes zero v = refl
length-le_bytes (suc n) v = ap suc (length-le_bytes n (v / 256))

pub le_bytes-IsBytes : (n v : ℕ) → All (λ b. b < 256) (le_bytes n v)
le_bytes-IsBytes zero v = tt
le_bytes-IsBytes (suc n) v = (omega arith, le_bytes-IsBytes n (v / 256))

pub le_value-lt : (bs : List ℕ) → All (λ b. b < 256) bs → le_value bs < 256 ^ length bs
le_value-lt [] h = omega arith
le_value-lt (b ∷ bs) h = omega (arith, h.0, le_value-lt bs h.1, pow-suc 256 (length bs))

-- Reading back the bytes of a number gives the number, cut off at the width.
pub le_value-le_bytes : (n v : ℕ) → v < 256 ^ n → le_value (le_bytes n v) ≡ v
le_value-le_bytes zero v h = omega arith
le_value-le_bytes (suc n) v h =
    omega (arith, le_value-le_bytes n (v / 256) (omega (arith, pow-suc 256 n)))

-- Bytes are determined by their number and their value.
pub le_bytes-le_value :
    (bs : List ℕ) → All (λ b. b < 256) bs → le_bytes (length bs) (le_value bs) ≡ bs
le_bytes-le_value [] h = refl
le_bytes-le_value (b ∷ bs) h = ap₂ ◌∷◌ (omega (arith, h.0)) (rw tail (le_bytes-le_value bs h.1))
  where
    tail : (b + 256 * le_value bs) / 256 ≡ le_value bs
    tail = omega (arith, h.0)

pub le_value_inj :
    (cs bs : List ℕ)
    → length cs ≡ length bs
    → All (λ b. b < 256) cs
    → All (λ b. b < 256) bs
    → le_value cs ≡ le_value bs
    → cs ≡ bs
le_value_inj [] [] l p q e = refl
le_value_inj [] (b ∷ bs) l p q e = absurd (omega arith)
le_value_inj (a ∷ cs) [] l p q e = absurd (omega arith)
le_value_inj (a ∷ cs) (b ∷ bs) l p q e =
    ap₂ ◌∷◌ (omega (arith, p.0, q.0))
      (le_value_inj cs bs (omega arith) p.1 q.1 (omega (arith, p.0, q.0)))

pub le_value-append :
    (cs bs : List ℕ) → le_value (cs ++ bs) ≡ le_value cs + 256 ^ length cs * le_value bs
le_value-append [] bs = omega arith
le_value-append (a ∷ cs) bs =
    omega (arith, le_value-append cs bs, ap (λ (t : ℕ). t * le_value bs) (pow-suc 256 (length cs)))
