-- ===== src/Tests/Sonars.antt =====
-- The theorems on comparisons, at single records and samples.
use Prim.Native.Nat.{bit_and}
use mathlib.Core.Logic.{◌≢◌}
use go_fuzz.Base.{
  ℕ, ◌+◌, ◌≤◌, ◌≡◌, refl, true, false, none, [], ◌∷◌, ◌++◌, length, replicate, done, ltb, ◌==◌,
  arith,
}
use go_fuzz.Bytes.Value.{le_value, le_bytes}
use go_fuzz.Defs.{sonar_op_mask, sonar_signed}
use go_fuzz.Sonar.Region.{uint16, Region, sonar}
use go_fuzz.Sonar.Region.Layout.{record_id, encode}
use go_fuzz.Sonar.Region.Append.{recorded, sonar_appends}
use go_fuzz.Sonar.Sample.{is_filler, SonarSample, trim, parse_sonar_data, evaluate, apply_op}
use go_fuzz.Sonar.Sample.Parse.{Entry, IsEntry, encode_all, samples, parse_sonar_data-encode_all}
use go_fuzz.Sonar.Sample.Evaluate.{evaluate_signed, flip_width}
use go_fuzz.Sonar.Sample.Trim.{zeros, evaluate-zeros, trim_joins}
use go_fuzz.Sonar.Site.{SonarSite}
use go_fuzz.Sonar.Site.Skips.{processed, processed-le_100}

abbrev entry : Entry
entry = record { id = 0x201; op1 = 1 ∷ 2 ∷ []; op2 = 3 ∷ 4 ∷ [] }

entry-IsEntry : IsEntry 3 entry
entry-IsEntry = record {
  id_fits = omega arith;
  known = omega arith;
  op1_le = omega arith;
  op2_le = omega arith;
}

-- Two empty strings are compared.
abbrev blank : Entry
blank = record { id = 0x121; op1 = []; op2 = [] }

blank-IsEntry : IsEntry 3 blank
blank-IsEntry = record {
  id_fits = omega arith;
  known = omega arith;
  op1_le = omega arith;
  op2_le = omega arith;
}

parse_sonar_data-encode_all_example :
    parse_sonar_data 3 (encode_all (entry ∷ blank ∷ entry ∷ blank ∷ []))
    ≡ done (samples (entry ∷ blank ∷ entry ∷ []))
parse_sonar_data-encode_all_example =
    parse_sonar_data-encode_all 3 (entry ∷ blank ∷ entry ∷ blank ∷ [])
      (entry-IsEntry, (blank-IsEntry, (entry-IsEntry, (blank-IsEntry, tt))))

abbrev region : Region
region = record { bytes = replicate 32 0; pos = 0 }

abbrev full : Region
full = record { bytes = replicate 8 0; pos = 4 }

sonar_appends_example :
    (r : Region) × (sonar (uint16 5) (uint16 6) 256 region ≡ done r)
    × (recorded r ≡ recorded region ++ encode (record_id 256 0 0) (le_bytes 2 5) (le_bytes 2 6))
    × (r.pos ≡ region.pos + length (encode (record_id 256 0 0) (le_bytes 2 5) (le_bytes 2 6)))
    × (length r.bytes ≡ length region.bytes)
sonar_appends_example =
    sonar_appends (uint16 5) (uint16 6) 256 (le_bytes 2 5) (le_bytes 2 6) 0 0 refl refl region
      (omega arith)

abbrev sample : ℕ → SonarSample
sample flags = record { site = 1; flags = flags; val1 = 1 ∷ 2 ∷ []; val2 = 3 ∷ 0xf0 ∷ [] }

flagged : bit_and 18 sonar_signed ≢ 0
flagged e = absurd (omega (arith, e))

evaluate_signed_example :
    let a = flip_width 2 (le_value (1 ∷ 2 ∷ [])) in
    let b = flip_width 2 (le_value (3 ∷ 0xf0 ∷ [])) in
    evaluate (sample 18) ≡ apply_op (bit_and 18 sonar_op_mask) (ltb a b) (a == b) (ltb b a)
evaluate_signed_example =
    evaluate_signed (sample 18) refl refl (omega arith) (omega arith)
      (omega arith, (omega arith, tt)) (omega arith, (omega arith, tt)) flagged

evaluate-zeros_example :
    evaluate (record {
      site = 1;
      flags = 0;
      val1 = (trim (zeros 4) (zeros 4)).0;
      val2 = (trim (zeros 4) (zeros 4)).1;
    })
    ≡ done false
evaluate-zeros_example = evaluate-zeros 4 1 0 refl

not_filler : is_filler 1 ≡ false
unfolding is_filler
not_filler = refl

trim_joins_example : trim (1 ∷ 0x00 ∷ []) (1 ∷ 0xff ∷ []) ≡ (1 ∷ [], 1 ∷ [])
trim_joins_example = trim_joins (1 ∷ []) 0 refl not_filler

abbrev site : SonarSite
site = record {
  dynamic = false;
  fuzz_false = 0;
  fuzz_true = 0;
  total_false = 0;
  total_true = 0;
  val1 = none;
  val2 = none;
}

abbrev constant : SonarSample
constant = record { site = 1; flags = 0x40; val1 = 1 ∷ []; val2 = 2 ∷ [] }

processed-le_100_example : (processed ((constant, true) ∷ (constant, false) ∷ []) site).0 ≤ 100
processed-le_100_example =
    processed-le_100 ((constant, true) ∷ (constant, false) ∷ []) site refl
      (omega arith, (omega arith, tt))
