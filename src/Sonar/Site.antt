-- ===== src/Sonar/Site.antt =====
-- go-fuzz/sonar.go: `update`, the statistics of a comparison site. The site's mutex makes each call
-- one step. A slice that is nil is `none`.
pub mod Skips
use Prim.Native.Nat.{bit_and}
use go_fuzz.Base.{
  ℕ, ◌+◌, Bool, true, false, not, ◌&&◌, ◌||◌, Option, none, some, ltb, ◌==◌, if◌then◌else◌,
  bytes_eq,
}
use go_fuzz.Bytes.{Bytes}
use go_fuzz.Defs.{sonar_const1, sonar_const2}
use go_fuzz.Sonar.Sample.{SonarSample}

-- `taken_fuzz` and `taken_total` have an entry for an outcome of false and one of true.
pub record SonarSite : Type 0 where
  pub dynamic : Bool
  pub fuzz_false : ℕ
  pub fuzz_true : ℕ
  pub total_false : ℕ
  pub total_true : ℕ
  pub val1 : Option Bytes
  pub val2 : Option Bytes

or_copy : Option Bytes → Bytes → Bytes
or_copy none v = v
or_copy (some old) v = old

-- The test whether both operands vary.
unfoldable pub note_operands : SonarSample → SonarSite → SonarSite
unfolding or_copy
note_operands sam site =
    let old1 = or_copy site.val1 sam.val1 in
    let old2 = or_copy site.val2 sam.val2 in
    if not site.dynamic && (bit_and sam.flags sonar_const1 + bit_and sam.flags sonar_const2 == 0)
    then if not (bytes_eq old1 sam.val1) && not (bytes_eq old2 sam.val2)
      then record site { val1 = none; val2 = none; dynamic = true }
      else record site { val1 = some old1; val2 = some old2 }
    else site

unfoldable pub count_taken : Bool → Bool → SonarSite → SonarSite
count_taken smash true site = record site {
  total_true = site.total_true + 1;
  fuzz_true = if smash then site.fuzz_true else site.fuzz_true + 1;
}
count_taken smash false site = record site {
  total_false = site.total_false + 1;
  fuzz_false = if smash then site.fuzz_false else site.fuzz_false + 1;
}

abbrev pub taken : Bool → SonarSite → ℕ
taken true site = site.total_true
taken false site = site.total_false

pub record Updated : Type 0 where
  pub site : SonarSite
  pub updated : Bool
  pub skip : Bool

unfoldable pub update : SonarSample → Bool → Bool → SonarSite → Updated
unfolding note_operands count_taken
update sam smash resb site =
    let noted = note_operands sam site in
    let site' = count_taken smash resb noted in
    record {
      site = site';
      updated = taken resb noted == 0;
      skip =
          not site'.dynamic
          && not smash
          && (ltb 10 site'.fuzz_false && ltb 10 site'.fuzz_true
              || ltb 100 (site'.fuzz_false + site'.fuzz_true));
    }
