-- ===== src/Bytes/Codec.antt =====
-- `serialize16`, `serialize32`, `serialize64` and `deserialize64` of go-fuzz-dep/sonar.go.
use Prim.Native.Nat.{bit_or}
use go_fuzz.Base.{
  ℕ, ◌+◌, ◌*◌, ◌^◌, ◌≤◌, ◌<◌, ◌≡◌, ap, ◌∙◌, [], ◌∷◌, ◌++◌, length, drop, arith, done, ◌>>=◌, ◌<<<◌,
  bit_or_shifted,
}
use go_fuzz.Bytes.{Bytes, IsBytes, serialize16, serialize32, serialize64, deserialize64}
use go_fuzz.Bytes.Value.{le_value, le_bytes, le_value-le_bytes}

pub serialize16_lem :
    (buf : Bytes) (v : ℕ)
    → 2 ≤ length buf
    → serialize16 buf v ≡ done (le_bytes 2 v ++ drop 2 buf, 2)
unfolding serialize16
serialize16_lem [] v h = absurd (omega arith)
serialize16_lem (a ∷ []) v h = absurd (omega arith)
serialize16_lem (a ∷ b ∷ buf) v h = ground arith

pub serialize32_lem :
    (buf : Bytes) (v : ℕ)
    → 4 ≤ length buf
    → serialize32 buf v ≡ done (le_bytes 4 v ++ drop 4 buf, 4)
unfolding serialize32
serialize32_lem (a ∷ b ∷ c ∷ d ∷ buf) v h = ground arith
serialize32_lem _ v h = absurd (omega arith)

pub serialize64_lem :
    (buf : Bytes) (v : ℕ)
    → 8 ≤ length buf
    → serialize64 buf v ≡ done (le_bytes 8 v ++ drop 8 buf, 8)
unfolding serialize64
serialize64_lem (a ∷ b ∷ c ∷ d ∷ e ∷ f ∷ g ∷ i ∷ buf) v h = ground arith
serialize64_lem _ v h = absurd (omega arith)

-- One `|` of the reader, where what stands left of it has the value `x`.
join_byte : (k low high x : ℕ) → low ≡ x → x < 2 ^ k → bit_or low (high <<< k) ≡ x + high * 2 ^ k
join_byte k low high x e h = rw (← e) (bit_or_shifted k low high (rw e h))

module _ (a b c d e f g i : ℕ) where
  deserialize64_bytes :
      (rest : Bytes)
      → IsBytes (a ∷ b ∷ c ∷ d ∷ e ∷ f ∷ g ∷ i ∷ [])
      → deserialize64 (a ∷ b ∷ c ∷ d ∷ e ∷ f ∷ g ∷ i ∷ rest)
        ≡ done (le_value (a ∷ b ∷ c ∷ d ∷ e ∷ f ∷ g ∷ i ∷ []))
  unfolding deserialize64
  deserialize64_bytes rest h =
      let s1 = join_byte 8 (a <<< 0) b a (omega arith) (omega arith) in
      let s2 = join_byte 16 _ c (a + b * 2 ^ 8) s1 (omega arith) in
      let s3 = join_byte 24 _ d (a + b * 2 ^ 8 + c * 2 ^ 16) s2 (omega arith) in
      let s4 = join_byte 32 _ e (a + b * 2 ^ 8 + c * 2 ^ 16 + d * 2 ^ 24) s3 (omega arith) in
      let s5 =
        join_byte 40 _ f (a + b * 2 ^ 8 + c * 2 ^ 16 + d * 2 ^ 24 + e * 2 ^ 32) s4 (omega arith) in
      let s6 =
        join_byte 48 _ g (a + b * 2 ^ 8 + c * 2 ^ 16 + d * 2 ^ 24 + e * 2 ^ 32 + f * 2 ^ 40) s5
          (omega arith) in
      let s7 =
        join_byte 56 _ i
          (a + b * 2 ^ 8 + c * 2 ^ 16 + d * 2 ^ 24 + e * 2 ^ 32 + f * 2 ^ 40 + g * 2 ^ 48) s6
          (omega arith) in
      ground (arith, s7)

-- The eight bytes that `serialize64` stores are read back by `deserialize64` as the number that was
-- stored, whatever stands behind them and in the buffer before.
pub deserialize64-serialize64 :
    (buf : Bytes) (v : ℕ)
    → 8 ≤ length buf
    → v < 2 ^ 64
    → (serialize64 buf v >>= λ r. deserialize64 r.0) ≡ done v
deserialize64-serialize64 buf v h lt = rw (serialize64_lem buf v h) (
    deserialize64_bytes _ _ _ _ _ _ _ _ (drop 8 buf) (omega arith)
    ∙ ap done (le_value-le_bytes 8 v lt))
