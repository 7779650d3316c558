-- ===== src/Sonar/Sample/Parse.antt =====
-- `parseSonarData` of go-fuzz/sonar.go on the records that go-fuzz-dep/sonar.go writes.
use Prim.Native.Nat.{bit_and}
use mathlib.Core.List.{append_assoc}
use go_fuzz.Base.{
  ℕ, zero, suc, ◌+◌, ◌%◌, ◌^◌, ◌≤◌, ◌<◌, ◌≡◌, refl, sym, ap, ◌∙◌, true, false, ◌||◌, List, [], ◌∷◌,
  ◌++◌, length, length-append, drop, take-length_append, drop-length_append, done, ltb, ◌==◌,
  if◌then◌else◌, ◌>>>◌, arith, Bool-cases, inl, inr,
}
use go_fuzz.Bytes.{Bytes}
use go_fuzz.Bytes.Value.{le_value-le_bytes}
use go_fuzz.Defs.{sonar_string, sonar_hdr_len, sonar_max_len}
use go_fuzz.Sonar.Region.Layout.{encode}
use go_fuzz.Sonar.Sample.{SonarSample, trim, parse_operands, parse_loop, parse_sonar_data}

-- A record before it is laid out: its id and both operands' bytes.
pub record Entry : Type 0 where
  pub id : ℕ
  pub op1 : Bytes
  pub op2 : Bytes

-- The sample that a record stands for.
abbrev pub sample_of : Entry → SonarSample
sample_of e =
    let (v1, v2) =
      if bit_and (e.id % 2 ^ 8) sonar_string == 0 then trim e.op1 e.op2 else (e.op1, e.op2) in
    record { site = e.id >>> 8; flags = e.id % 2 ^ 8; val1 = v1; val2 = v2 }

-- What the program under test writes: 32-bit ids of known sites, operands of at most 20 bytes.
pub record IsEntry (sites : ℕ) (e : Entry) : Type 0 where
  pub id_fits : e.id < 2 ^ 32
  pub known : e.id >>> 8 < sites
  pub op1_le : length e.op1 ≤ sonar_max_len
  pub op2_le : length e.op2 ≤ sonar_max_len

abbrev pub AllEntries : ℕ → List Entry → Type 0
AllEntries sites [] = Unit
AllEntries sites (e ∷ es) = IsEntry sites e × AllEntries sites es

abbrev pub encode_all : List Entry → Bytes
encode_all [] = []
encode_all (e ∷ es) = encode e.id e.op1 e.op2 ++ encode_all es

abbrev pub samples : List Entry → List SonarSample
samples [] = []
samples (e ∷ es) = sample_of e ∷ samples es

-- The last record is not read back if both its operands are empty.
abbrev pub readable : List Entry → List Entry
readable [] = []
readable (e ∷ []) = if length e.op1 + length e.op2 == 0 then [] else e ∷ []
readable (e ∷ f ∷ es) = e ∷ readable (f ∷ es)

parse_operands_lem :
    (sites : ℕ) (e : Entry) (rest : Bytes)
    → IsEntry sites e
    → parse_operands sites e.id (length e.op1) (length e.op2) (e.op1 ++ (e.op2 ++ rest))
      ≡ done (sample_of e, rest)
unfolding parse_operands
parse_operands_lem sites e rest h =
    let ok : (ltb sonar_max_len (length e.op1)
          || ltb sonar_max_len (length e.op2)
          || ltb (length (e.op1 ++ (e.op2 ++ rest))) (length e.op1 + length e.op2))
        ≡ false =
      ground (arith, h, length-append e.op1 (e.op2 ++ rest), length-append e.op2 rest) in
    let known : ltb (e.id >>> 8) sites ≡ true = ground (arith, h.known) in
    let left : drop (length e.op1 + length e.op2) (e.op1 ++ (e.op2 ++ rest)) ≡ rest =
      ap (λ n. drop n (e.op1 ++ (e.op2 ++ rest))) (sym (length-append e.op1 e.op2))
      ∙ ap (drop (length (e.op1 ++ e.op2))) (sym (append_assoc e.op1 e.op2 rest))
      ∙ drop-length_append (e.op1 ++ e.op2) rest in
    rw
      (
        ok,
        known,
        left,
        take-length_append e.op1 (e.op2 ++ rest),
        drop-length_append e.op1 (e.op2 ++ rest),
        take-length_append e.op2 rest,
      )
      refl

length-encode_rest :
    (e : Entry) (rest : Bytes)
    → length (encode e.id e.op1 e.op2 ++ rest) ≡ 6 + (length e.op1 + length e.op2) + length rest
length-encode_rest e rest =
    omega (arith, length-append (e.op1 ++ e.op2) rest, length-append e.op1 e.op2)

-- One round of the loop, where something stands behind the header.
parse_loop_round :
    (fuel sites : ℕ) (e : Entry) (rest : Bytes) (more : List SonarSample)
    → IsEntry sites e
    → 0 < length e.op1 + length e.op2 + length rest
    → parse_loop fuel sites rest ≡ done more
    → parse_loop (suc fuel) sites (encode e.id e.op1 e.op2 ++ rest) ≡ done (sample_of e ∷ more)
unfolding parse_loop
parse_loop_round fuel sites e rest more h some_left ih =
    let long : ltb sonar_hdr_len (length (encode e.id e.op1 e.op2 ++ rest)) ≡ true =
      ground (arith, length-encode_rest e rest, some_left) in
    rw
      (
        long,
        le_value-le_bytes 4 e.id h.id_fits,
        append_assoc e.op1 e.op2 rest,
        parse_operands_lem sites e rest h,
        ih,
      )
      refl

-- The loop stops at a header with nothing behind it.
parse_loop_stops :
    (fuel sites : ℕ) (e : Entry)
    → length e.op1 + length e.op2 ≡ 0
    → parse_loop (suc fuel) sites (encode e.id e.op1 e.op2 ++ []) ≡ done []
unfolding parse_loop
parse_loop_stops fuel sites e h =
    let short : ltb sonar_hdr_len (length (encode e.id e.op1 e.op2 ++ [])) ≡ false =
      ground (arith, length-encode_rest e [], h) in
    rw short refl

parse_loop_nil : (fuel sites : ℕ) → parse_loop fuel sites [] ≡ done []
unfolding parse_loop
parse_loop_nil zero sites = refl
parse_loop_nil (suc fuel) sites = refl

-- The loop on the records of `es`, whatever the fuel above their length.
parse_loop_lem :
    (fuel sites : ℕ) (es : List Entry)
    → length (encode_all es) ≤ fuel
    → AllEntries sites es
    → parse_loop fuel sites (encode_all es) ≡ done (samples (readable es))
parse_loop_lem fuel sites [] h a = parse_loop_nil fuel sites
parse_loop_lem zero sites (e ∷ es) h a =
    absurd (omega (arith, length-encode_rest e (encode_all es)))
parse_loop_lem (suc fuel) sites (e ∷ []) h a =
    elim (Bool-cases (length e.op1 + length e.op2 == 0)) [
      | inl t ↦ rw t (parse_loop_stops fuel sites e (ground (arith, t)))
      | inr t ↦
          rw t (
            parse_loop_round fuel sites e [] [] a.0 (ground (arith, t)) (parse_loop_nil fuel sites))
    ]
parse_loop_lem (suc fuel) sites (e ∷ f ∷ es) h a =
    let left = length-encode_rest e (encode_all (f ∷ es)) in
    let next = length-encode_rest f (encode_all es) in
    parse_loop_round fuel sites e (encode_all (f ∷ es)) (samples (readable (f ∷ es))) a.0
      (omega (arith, next)) (parse_loop_lem fuel sites (f ∷ es) (omega (arith, left)) a.1)

-- The bytes that the program under test has recorded, with ids of 32 bits, known sites and operands of
-- at most 20 bytes, are read back as its comparisons, in order: the site, the flags and the operands,
-- which are trimmed unless the comparison was one of strings. All records are read but a last one with
-- two empty operands, which is dropped. The fuel, the length of the data, is enough.
pub parse_sonar_data-encode_all :
    (sites : ℕ) (es : List Entry)
    → AllEntries sites es
    → parse_sonar_data sites (encode_all es) ≡ done (samples (readable es))
unfolding parse_sonar_data
parse_sonar_data-encode_all sites es a = parse_loop_lem _ sites es (omega arith) a
