-- ===== src/Sonar/Hints/Process.antt =====
-- `processSonarData` does not panic on samples with an operator.
use mathlib.Core.Path.{subst}
use Prim.Native.Nat.{bit_and}
use go_fuzz.Base.{
  ℕ, zero, suc, ◌≤◌, ◌<◌, ◌≡◌, refl, sym, ◌∙◌, Bool, true, false, ◌&&◌, ◌||◌, some, List, [], ◌∷◌,
  length, length-set, get_elem?, Outcome, done, Returns, Returns-bind, All, All-append,
  if◌then◌else◌, Bool-cases, inl, inr, arith, bytes_eq,
}
use go_fuzz.Bytes.{Bytes}
use go_fuzz.Bytes.Value.{le_value}
use go_fuzz.Defs.{sonar_op_mask, sonar_geq}
use go_fuzz.Sonar.Sample.{
  SonarSample, evaluate, apply_op, compare_words, bytes_lt, extend, flip_sign,
}
use go_fuzz.Sonar.Site.{SonarSite, update}
use go_fuzz.Sonar.Hints.{run_checks, sample_queries, process_sample, process_samples}
use go_fuzz.Sonar.Hints.Fits.{Small, run_checks-Small}
use go_fuzz.Sonar.Hints.Aligned.{sample_queries-Aligned}

apply_op-Returns :
    (op : ℕ) (less equal greater : Bool)
    → op ≤ sonar_geq
    → Returns (λ b. Unit) (apply_op op less equal greater)
unfolding apply_op
apply_op-Returns op less equal greater h = ground arith

-- The operator of a sample is one of the six.
abbrev pub HasOperator : SonarSample → Type 0
HasOperator sam = bit_and sam.flags sonar_op_mask ≤ sonar_geq

-- The branches of `evaluate`, with their tests.
branches :
    (s d g : Bool) (x y z : Outcome Bool)
    → Returns (λ b. Unit {0}) x
    → Returns (λ b. Unit {0}) y
    → Returns (λ b. Unit {0}) z
    → Returns (λ b. Unit {0}) (if s then x else if d then done false else if g then y else z)
branches true d g x y z h k l = h
branches false true g x y z h k l = tt
branches false false true x y z h k l = k
branches false false false x y z h k l = l

evaluate-Returns : (sam : SonarSample) → HasOperator sam → Returns (λ b. Unit {0}) (evaluate sam)
unfolding evaluate compare_words
evaluate-Returns sam h =
    let v1 = sam.val1 in
    let v2 = sam.val2 in
    let op = bit_and sam.flags sonar_op_mask in
    let s1 = le_value (extend v1) in
    let s2 = le_value (extend v2) in
    branches _ _ _ (apply_op op (bytes_lt v1 v2) (bytes_eq v1 v2) (bytes_lt v2 v1))
      (compare_words op s1 s2) (compare_words op (flip_sign s1) (flip_sign s2))
      (apply_op-Returns op _ _ _ h) (apply_op-Returns op _ _ _ h) (apply_op-Returns op _ _ _ h)

get_elem?-inside :
    {A : Type 0} (xs : List A) (i : ℕ) → i < length xs → (a : A) × (get_elem? xs i ≡ some a)
get_elem?-inside [] i h = elim h [ ]
get_elem?-inside (x ∷ xs) zero h = (x, refl)
get_elem?-inside (x ∷ xs) (suc i) h = get_elem?-inside xs i (omega arith)

-- The samples that `parseSonarData` returns name a site; the instrumentation gives each an operator.
abbrev pub Valid : ℕ → SonarSample → Type 0
Valid sites sam = HasOperator sam × (sam.site < sites)

module _ (lower upper : Bytes → Bytes) (smash : Bool) (content : Bytes) where
  process_sample-Small :
      (sam : SonarSample) (sites : List SonarSite) (checked : List Bytes)
      → Valid (length sites) sam
      → Returns
          (λ r. All Small r.0 × (length r.1.0 ≡ length sites))
          (process_sample lower upper smash content sam sites checked)
  unfolding process_sample
  process_sample-Small sam sites checked h =
      Returns-bind (λ b. Unit) _ (evaluate sam) _ (evaluate-Returns sam h.0)
        λ res u.
          let (site, e) = get_elem?-inside sites sam.site h.1 in
          let u = update sam smash res site in
          elim (Bool-cases (u.skip || (smash && bytes_eq sam.val1 sam.val2))) [
            | inl s ↦ rw (e, s) (tt, length-set sites sam.site u.site)
            | inr s ↦
                rw (e, s)
                  (Returns-bind (λ r. All Small r.0) _
                    (run_checks sam.flags content (sample_queries lower upper sam content) checked)
                    _
                    (run_checks-Small sam.flags content (sample_queries lower upper sam content)
                      checked (sample_queries-Aligned lower upper content sam))
                    λ r k. (k, length-set sites sam.site u.site))
          ]

  -- Samples whose site is listed and that have an operator are processed with no panic, each loop comes to
  -- its end, no input that is tested for them is longer than the cover table, and the sites stay as many.
  pub process_samples-Small :
      (samples : List SonarSample) (sites : List SonarSite) (checked : List Bytes)
      → All (Valid (length sites)) samples
      → Returns
          (λ r. All Small r.0 × (length r.1 ≡ length sites))
          (process_samples lower upper smash content samples sites checked)
  unfolding process_samples
  process_samples-Small [] sites checked h = (tt, refl)
  process_samples-Small (sam ∷ samples) sites checked h =
      Returns-bind (λ r. All Small r.0 × (length r.1.0 ≡ length sites)) _
        (process_sample lower upper smash content sam sites checked) _
        (process_sample-Small sam sites checked h.0)
        λ r k.
          Returns-bind (λ r'. All Small r'.0 × (length r'.1 ≡ length r.1.0)) _
            (process_samples lower upper smash content samples r.1.0 r.1.1) _
            (process_samples-Small samples r.1.0 r.1.1
              (subst (λ n. All (Valid n) samples) (sym k.1) h.1))
            λ r' k'. (All-append Small r.0 r'.0 k.0 k'.0, k'.1 ∙ k.1)
