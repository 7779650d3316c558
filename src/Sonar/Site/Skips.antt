-- ===== src/Sonar/Site/Skips.antt =====
-- `update` of go-fuzz/sonar.go: what is counted, and which samples are skipped.
use Prim.Native.Nat.{bit_and}
use go_fuzz.Base.{
  ℕ, ◌+◌, ◌≤◌, ◌<◌, ◌≡◌, refl, Bool, true, false, not, List, [], ◌∷◌, ◌==◌, ◌⊎◌, inl, if◌then◌else◌,
  arith,
}
use go_fuzz.Defs.{sonar_const1, sonar_const2}
use go_fuzz.Sonar.Sample.{SonarSample}
use go_fuzz.Sonar.Site.{SonarSite, update, taken}

-- The samples of a site in the order in which they come, each with its outcome.
abbrev pub Samples : Type 0
Samples = List (SonarSample × Bool)

-- The number of samples that are not skipped while fuzzing, and the site in the end.
unfoldable pub processed : Samples → SonarSite → ℕ × SonarSite
processed [] site = (0, site)
processed ((sam, res) ∷ samples) site =
    let u = update sam false res site in
    let (n, site') = processed samples u.site in (n + (if u.skip then 0 else 1), site')

-- A sample with a constant operand never makes a site dynamic.
abbrev pub AllConst : Samples → Type 0
AllConst [] = Unit
AllConst ((sam, res) ∷ samples) =
    (0 < bit_and sam.flags sonar_const1 + bit_and sam.flags sonar_const2) × AllConst samples

update_static :
    (sam : SonarSample) (res : Bool) (site : SonarSite)
    → site.dynamic ≡ false
    → 0 < bit_and sam.flags sonar_const1 + bit_and sam.flags sonar_const2
    → let u = update sam false res site in
      (u.site.dynamic ≡ false)
      × (u.site.fuzz_false + u.site.fuzz_true ≡ site.fuzz_false + site.fuzz_true + 1)
      × (u.skip ≡ false → site.fuzz_false + site.fuzz_true < 100)
unfolding update
update_static sam true site d c = (ground arith, ground arith, ground arith)
update_static sam false site d c = (ground arith, ground arith, ground arith)

processed-le :
    (samples : Samples) (site : SonarSite)
    → site.dynamic ≡ false
    → AllConst samples
    → (processed samples site).0 ≡ 0
      ⊎ ((processed samples site).0 + (site.fuzz_false + site.fuzz_true) ≤ 100)
unfolding processed
processed-le [] site d a = inl refl
processed-le ((sam, res) ∷ samples) site d a =
    let (dyn, count, kept) = update_static sam res site d a.0 in
    ground (arith, dyn, count, kept, processed-le samples (update sam false res site).site dyn a.1)

-- A site with a constant operand is worked on for at most 100 of its samples while fuzzing, however
-- many come, and each of the others is skipped.
pub processed-le_100 :
    (samples : Samples) (site : SonarSite)
    → site.dynamic ≡ false
    → AllConst samples
    → (processed samples site).0 ≤ 100
processed-le_100 samples site d a = ground (arith, processed-le samples site d a)

-- `update` reports news exactly when the outcome was not seen before, and counts it.
pub update_counts :
    (sam : SonarSample) (smash res : Bool) (site : SonarSite)
    → let u = update sam smash res site in
      (u.updated ≡ (taken res site == 0))
      × (taken res u.site ≡ taken res site + 1)
      × (taken (not res) u.site ≡ taken (not res) site)
unfolding update
update_counts sam smash true site = (ground arith, ground arith, ground arith)
update_counts sam smash false site = (ground arith, ground arith, ground arith)
