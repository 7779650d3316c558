-- ===== src/Sonar/Sample.antt =====
-- go-fuzz/sonar.go: `parseSonarData`, which reads the records of the region back, and `evaluate`,
-- which computes the outcome of a comparison. `binary.LittleEndian` of Go's standard library is the
-- little-endian value of the bytes.
pub mod Parse
pub mod Evaluate
pub mod Trim
use Prim.Native.Nat.{bit_and}
use go_fuzz.Base.{
  ℕ, zero, suc, ◌+◌, ◌-◌, ◌*◌, ◌/◌, ◌%◌, ◌^◌, Bool, true, false, not, ◌&&◌, ◌||◌, List, [], ◌∷◌,
  ◌++◌, length, take, drop, get_or, max, Outcome, done, panic, no_fuel, ◌>>=◌, ltb, leb, ◌==◌,
  if◌then◌else◌, bytes_eq, ◌>>>◌,
}
use go_fuzz.Bytes.{Bytes}
use go_fuzz.Bytes.Value.{le_value}
use go_fuzz.Defs.{
  sonar_eql, sonar_neq, sonar_lss, sonar_gtr, sonar_leq, sonar_geq, sonar_op_mask, sonar_signed,
  sonar_string, sonar_hdr_len, sonar_max_len,
}

pub record SonarSample : Type 0 where
  pub site : ℕ
  pub flags : ℕ
  pub val1 : Bytes
  pub val2 : Bytes

unfoldable pub is_filler : ℕ → Bool
is_filler c = (c == 0) || (c == 0xff)

-- The loop that trims trailing 0x00 and 0xff bytes, with the longer length left. A byte past the end
-- of the shorter operand counts as 0.
unfoldable pub trim_loop : ℕ → Bytes → Bytes → Bytes × Bytes
unfolding is_filler
trim_loop zero v1 v2 = (v1, v2)
trim_loop (suc i) v1 v2 =
    let shorter = trim_loop i (take i v1) (take i v2) in
    if is_filler (get_or v1 i 0) && is_filler (get_or v2 i 0) then shorter else (v1, v2)

unfoldable pub trim : Bytes → Bytes → Bytes × Bytes
unfolding trim_loop
trim v1 v2 = trim_loop (max (length v1) (length v2)) v1 v2

-- One round of the loop behind its header: the sample and the bytes that are left. `sites` is the
-- number of sites that the metadata lists.
parse_operands : ℕ → ℕ → ℕ → ℕ → Bytes → Outcome (SonarSample × Bytes)
unfolding trim
parse_operands sites id n1 n2 rest =
    let flags = id % 2 ^ 8 in
    let v1 = take n1 rest in
    let v2 = take n2 (drop n1 rest) in
    let (t1, t2) = if bit_and flags sonar_string == 0 then trim v1 v2 else (v1, v2) in
    if ltb sonar_max_len n1 || ltb sonar_max_len n2 || ltb (length rest) (n1 + n2)
    then panic
    else if ltb (id >>> 8) sites
    then done (record { site = id >>> 8; flags = flags; val1 = t1; val2 = t2 }, drop (n1 + n2) rest)
    else panic

-- `for len(sonar) > SonarHdrLen`, on fuel.
unfoldable pub parse_loop : ℕ → ℕ → Bytes → Outcome (List SonarSample)
unfolding parse_operands
parse_loop zero sites data_left = if ltb sonar_hdr_len (length data_left) then no_fuel else done []
parse_loop (suc fuel) sites data_left =
    let round = (do
      (sample, rest) ←
          parse_operands sites (le_value (take 4 data_left)) (get_or data_left 4 0)
            (get_or data_left 5 0) (drop sonar_hdr_len data_left)
      samples ← parse_loop fuel sites rest
      done (sample ∷ samples)) in
    if ltb sonar_hdr_len (length data_left) then round else done []

unfoldable pub parse_sonar_data : ℕ → Bytes → Outcome (List SonarSample)
unfolding parse_loop
parse_sonar_data sites region = parse_loop (length region) sites region

-- The `switch` over the operator, from the three ways in which the operands can compare.
unfoldable pub apply_op : ℕ → Bool → Bool → Bool → Outcome Bool
apply_op op less equal greater =
    if op == sonar_eql
    then done equal
    else if op == sonar_neq
    then done (not equal)
    else if op == sonar_lss
    then done less
    else if op == sonar_gtr
    then done greater
    else if op == sonar_leq
    then done (less || equal)
    else if op == sonar_geq
    then done (greater || equal)
    else panic

-- Go's `<` on strings.
unfoldable pub bytes_lt : Bytes → Bytes → Bool
bytes_lt v [] = false
bytes_lt [] (y ∷ ys) = true
bytes_lt (x ∷ xs) (y ∷ ys) = ltb x y || (x == y) && bytes_lt xs ys

-- `for len(v) < 8`: the rounds that are left, each of which repeats the sign of the last byte.
unfoldable pub extend_loop : ℕ → Bytes → Bytes
extend_loop zero v = v
extend_loop (suc k) v =
    extend_loop k (v ++ (if ltb (get_or v (length v - 1) 0) 128 then 0 else 0xff) ∷ [])

unfoldable pub extend : Bytes → Bytes
unfolding extend_loop
extend v = extend_loop (8 - length v) v

-- The order of `int64(x)`: the bit pattern with its sign bit flipped.
abbrev pub flip_sign : ℕ → ℕ
flip_sign x = (x + 2 ^ 63) % 2 ^ 64

unfoldable pub compare_words : ℕ → ℕ → ℕ → Outcome Bool
unfolding apply_op
compare_words op a b = apply_op op (ltb a b) (a == b) (ltb b a)

unfoldable pub evaluate : SonarSample → Outcome Bool
unfolding extend compare_words bytes_lt bytes_eq
evaluate sam =
    let v1 = sam.val1 in
    let v2 = sam.val2 in
    let op = bit_and sam.flags sonar_op_mask in
    let s1 = le_value (extend v1) in
    let s2 = le_value (extend v2) in
    if not (bit_and sam.flags sonar_string == 0)
    then apply_op op (bytes_lt v1 v2) (bytes_eq v1 v2) (bytes_lt v2 v1)
    else if (length v1 == 0)
        || (length v2 == 0)
        || ltb 8 (length v1)
        || ltb 8 (length v2)
        || not (length v1 == length v2)
    then done false
    else if bit_and sam.flags sonar_signed == 0
    then compare_words op s1 s2
    else compare_words op (flip_sign s1) (flip_sign s2)
