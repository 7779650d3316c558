-- ===== src/Sonar/Sample/Trim.antt =====
-- The trimming of operands in `parseSonarData` of go-fuzz/sonar.go, and the outcome of a comparison.
use Prim.Native.Nat.{bit_and}
use go_fuzz.Base.{
  ℕ, zero, suc, ◌≡◌, refl, ap, ◌∙◌, false, [], ◌∷◌, ◌++◌, length, length-append, length-replicate,
  take, take-length_append, get_or, replicate, max, done, arith,
}
use go_fuzz.Bytes.{Bytes}
use go_fuzz.Defs.{sonar_string}
use go_fuzz.Sonar.Sample.{is_filler, trim, trim_loop, evaluate}

abbrev pub zeros : ℕ → Bytes
zeros n = replicate n 0

get_or-replicate : (i : ℕ) → get_or (zeros (suc i)) i 0 ≡ 0
get_or-replicate zero = refl
get_or-replicate (suc i) = get_or-replicate i

take-replicate : (i : ℕ) → take i (zeros (suc i)) ≡ zeros i
take-replicate zero = refl
take-replicate (suc i) = ap (λ t. 0 ∷ t) (take-replicate i)

trim_loop-zeros : (i : ℕ) → trim_loop i (zeros i) (zeros i) ≡ ([], [])
unfolding trim_loop
trim_loop-zeros zero = refl
trim_loop-zeros (suc i) = rw (get_or-replicate i, take-replicate i) (trim_loop-zeros i)

trim-zeros : (n : ℕ) → trim (zeros n) (zeros n) ≡ ([], [])
unfolding trim
trim-zeros n =
    let size : max (length (zeros n)) (length (zeros n)) ≡ n =
      omega (arith, length-replicate {A = ℕ} n 0) in
    rw size (trim_loop-zeros n)

-- Zero compared with zero, at any width and with any operator: the operands are trimmed to nothing,
-- and the comparison is evaluated as false.
pub evaluate-zeros :
    (n site flags : ℕ)
    → bit_and flags sonar_string ≡ 0
    → let (v1, v2) = trim (zeros n) (zeros n) in
      evaluate (record { site = site; flags = flags; val1 = v1; val2 = v2 }) ≡ done false
unfolding evaluate
evaluate-zeros n site flags plain = rw (trim-zeros n, plain) refl

get_or-last : (v : Bytes) (c : ℕ) → get_or (v ++ c ∷ []) (length v) 0 ≡ c
get_or-last [] c = refl
get_or-last (x ∷ v) c = get_or-last v c

trim_loop-same :
    (i : ℕ) (v : Bytes) → is_filler (get_or v i 0) ≡ false → trim_loop (suc i) v v ≡ (v, v)
unfolding trim_loop
trim_loop-same i v h = rw h refl

-- Two operands that differ in their last byte alone, 0x00 against 0xff, behind a byte that is neither:
-- trimming makes them equal.
pub trim_joins :
    (v : Bytes) (i : ℕ)
    → length v ≡ suc i
    → is_filler (get_or v i 0) ≡ false
    → trim (v ++ 0x00 ∷ []) (v ++ 0xff ∷ []) ≡ (v, v)
unfolding trim
trim_joins v i size h =
    let longest : max (length (v ++ 0x00 ∷ [])) (length (v ++ 0xff ∷ [])) ≡ suc (length v) =
      omega (arith, length-append v (0x00 ∷ []), length-append v (0xff ∷ [])) in
    rw longest (step ∙ ap (λ n. trim_loop n v v) size ∙ trim_loop-same i v h)
  where
    step : trim_loop (suc (length v)) (v ++ 0x00 ∷ []) (v ++ 0xff ∷ []) ≡ trim_loop (length v) v v
    step =
        rw
          (
            trim_loop,
            get_or-last v 0x00,
            get_or-last v 0xff,
            take-length_append v (0x00 ∷ []),
            take-length_append v (0xff ∷ []),
          )
          refl
