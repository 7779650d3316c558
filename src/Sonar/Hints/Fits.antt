-- ===== src/Sonar/Hints/Fits.antt =====
-- The inputs that a check of `processSonarData` tests are not larger than the limit in the code, and the
-- search in an input of another length does not come about.

use go_fuzz.Base.{
  ℕ, zero, suc, ◌+◌, ◌≤◌, ◌<◌, ◌≡◌, Bool, true, false, not, ◌||◌, List, [], ◌∷◌, ◌++◌, length, take,
  drop, length-take, length-set, Returns, Returns-bind, All, All-append, ltb, ◌==◌, ==_iff,
  ltb_false→le, if◌then◌else◌, Bool-cases, inl, inr, arith, bytes_eq, u8, get_or,
}
use go_fuzz.Bytes.{Bytes}
use go_fuzz.Defs.{cover_size}
use go_fuzz.Sonar.Hints.{
  length_fields, hints_at, Query, check, pair_key, seen, contains, run_checks, byte_diff,
}
use go_fuzz.Sonar.Hints.Places.{places, all_hints, occurrences-places}

abbrev pub Small : Bytes → Type 0
Small c = length c ≤ cover_size

length_fields-Small :
    (k idx diff : ℕ) (tmp : Bytes) → Small tmp → All Small (length_fields k idx diff tmp)
unfolding length_fields
length_fields-Small zero idx diff tmp h = tt
length_fields-Small (suc k) zero diff tmp h = tt
length_fields-Small (suc k) (suc idx) diff tmp h = (
  omega (arith, length-set tmp idx (u8 (get_or tmp idx 0 + diff))),
  length_fields-Small k idx diff tmp h,
)

cut-Small :
    (whole : Bytes) → Small (if ltb cover_size (length whole) then take cover_size whole else whole)
cut-Small whole = elim (Bool-cases (ltb cover_size (length whole))) [
  | inl e ↦ rw e (omega (arith, length-take cover_size whole))
  | inr e ↦ rw e (ltb_false→le cover_size (length whole) e)
]

module _ (flags : ℕ) (content v1 v2 : Bytes) where
  hints_at-Small : (i : ℕ) → All Small (hints_at flags content v1 v2 i)
  unfolding hints_at
  hints_at-Small i =
      let small = cut-Small (take i content ++ (v2 ++ drop (i + length v1) content)) in
      with_fields _ _ small
    where
      with_fields :
          (b : Bool) (tmp : Bytes)
          → Small tmp
          → All Small (if b then tmp ∷ length_fields 5 i (byte_diff v1 v2) tmp else tmp ∷ [])
      with_fields true tmp h = (h, length_fields-Small 5 i (byte_diff v1 v2) tmp h)
      with_fields false tmp h = (h, tt)

  all_hints-Small :
      (indexdata : Bytes) (is : List ℕ) → All Small (all_hints flags content indexdata v1 v2 is)
  all_hints-Small indexdata [] = tt
  all_hints-Small indexdata (i ∷ is) =
      All-append Small (hints_at flags content v1 v2 i) _ (hints_at-Small i)
        (all_hints-Small indexdata is)

nonempty : (n : ℕ) (b c : Bool) → ((n == 0) || b || c) ≡ false → 0 < n
nonempty n b c e = ground arith

abbrev pub Aligned : Bytes → Query → Type 0
Aligned content q = length q.indexdata ≡ length content

module _ (flags : ℕ) (content : Bytes) where
  check-Small :
      (q : Query) (checked : List Bytes)
      → Aligned content q
      → Returns (λ r. All Small r.0) (check flags content q checked)
  unfolding check
  check-Small q checked h =
      elim (Bool-cases
        ((length q.old == 0) || bytes_eq q.old q.new || not (contains q.indexdata q.old))) [
          | inl e ↦ rw e tt
          | inr e ↦
              let same : (length q.indexdata == length content) ≡ true = (==_iff _ _).1 h in
              elim (Bool-cases (seen (pair_key q) checked)) [
                | inl s ↦ rw (e, same, s) tt
                | inr s ↦
                    rw
                      (
                        e,
                        same,
                        s,
                        occurrences-places flags content q.indexdata q.old q.new
                            (length q.indexdata + 2) (omega arith) (nonempty (length q.old) _ _ e),
                      )
                      (all_hints-Small flags content q.old q.new q.indexdata
                        (places q.old 0 q.indexdata))
              ]
        ]

  pub run_checks-Small :
      (qs : List Query) (checked : List Bytes)
      → All (Aligned content) qs
      → Returns (λ r. All Small r.0) (run_checks flags content qs checked)
  unfolding run_checks
  run_checks-Small [] checked h = tt
  run_checks-Small (q ∷ qs) checked h =
      Returns-bind (λ r. All Small r.0) (λ r. All Small r.0) (check flags content q checked) _
        (check-Small q checked h.0)
        λ r k.
          Returns-bind (λ r. All Small r.0) (λ r. All Small r.0) (run_checks flags content qs r.1) _
            (run_checks-Small qs r.1 h.1) λ r' k'. All-append Small r.0 r'.0 k k'
