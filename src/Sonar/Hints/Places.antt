-- ===== src/Sonar/Hints/Places.antt =====
-- The loop over `bytes.Index` in `processSonarData` comes to every place at which the operand stands,
-- overlapping ones included.
use mathlib.Core.List.{tail}
use go_fuzz.Base.{
  ℕ, zero, suc, ◌+◌, ◌≤◌, ◌<◌, ◌≡◌, refl, ap, ◌∙◌, false, Option, none, some, List, [], ◌∷◌, ◌++◌,
  length, drop, Outcome, done, ◌>>=◌, if◌then◌else◌, Bool-cases, inl, inr, arith,
}
use go_fuzz.Bytes.{Bytes}
use go_fuzz.Sonar.Hints.{has_prefix, index, hints_at, occurrences}

-- The places of `sep` in a text that begins at place `i`.
abbrev pub places : Bytes → ℕ → Bytes → List ℕ
places sep i [] = []
places sep i (b ∷ s) =
    let rest = places sep (i + 1) s in if has_prefix (b ∷ s) sep then i ∷ rest else rest

drop_next : (k : ℕ) (xs : Bytes) (b : ℕ) (s : Bytes) → drop k xs ≡ b ∷ s → drop (k + 1) xs ≡ s
drop_next k xs b s e = let next : k + 1 ≡ suc k = omega arith in rw next (drop-suc k xs e)
  where
    drop-suc : (k : ℕ) (xs : Bytes) → drop k xs ≡ b ∷ s → drop (suc k) xs ≡ s
    drop-suc zero [] e = absurd (cc)
    drop-suc zero (x ∷ xs) e = ap tail e
    drop-suc (suc k) [] e = absurd (cc)
    drop-suc (suc k) (x ∷ xs) e = drop-suc k xs e

zero_add : (n : ℕ) → 0 + n ≡ n
zero_add n = omega arith

no_prefix : (v : Bytes) → 0 < length v → has_prefix [] v ≡ false
unfolding has_prefix
no_prefix [] h = elim h [ ]
no_prefix (c ∷ v) h = refl

module _ (flags : ℕ) (content indexdata v1 v2 : Bytes) where
  abbrev pub all_hints : List ℕ → List Bytes
  all_hints [] = []
  all_hints (i ∷ is) = hints_at flags content v1 v2 i ++ all_hints is

  -- A round of the loop whose search gave `o`.
  abbrev after_search : ℕ → ℕ → Option ℕ → Outcome (List Bytes)
  after_search fuel pos none = done []
  after_search fuel pos (some i) =
      occurrences fuel flags content indexdata v1 v2 (i + pos + 1) >>= λ more.
      done (hints_at flags content v1 v2 (i + pos) ++ more)

  occurrences-search :
      (fuel pos : ℕ)
      → occurrences (suc fuel) flags content indexdata v1 v2 pos
        ≡ after_search fuel pos (index (drop pos indexdata) v1)
  unfolding occurrences
  occurrences-search fuel pos = searched (index (drop pos indexdata) v1)
    where
      searched :
          (o : Option ℕ)
          → (elim o [
            | none ↦ done []
            | some i ↦ occurrences fuel flags content indexdata v1 v2 (i + pos + 1) >>= λ more.
                done (hints_at flags content v1 v2 (i + pos) ++ more)
          ])
            ≡ after_search fuel pos o
      searched none = refl
      searched (some i) = refl

  shifted :
      (fuel pos : ℕ) (o : Option ℕ)
      → after_search fuel pos (elim o [ none ↦ none | some i ↦ some (i + 1) ])
        ≡ after_search fuel (pos + 1) o
  shifted fuel pos none = refl
  shifted fuel pos (some i) = let e : i + 1 + pos ≡ i + (pos + 1) = omega arith in rw e refl

  after_search-places :
      (s : Bytes) (fuel pos : ℕ)
      → drop pos indexdata ≡ s
      → length s ≤ fuel
      → has_prefix [] v1 ≡ false
      → after_search fuel pos (index s v1) ≡ done (all_hints (places v1 pos s))
  unfolding index
  after_search-places [] fuel pos e le h = rw h refl
  after_search-places (b ∷ s) zero pos e le h = absurd (omega arith)
  after_search-places (b ∷ s) (suc fuel) pos e le h = elim (Bool-cases (has_prefix (b ∷ s) v1)) [
    | inr n ↦ rw n (
        shifted (suc fuel) pos (index s v1)
        ∙ after_search-places s (suc fuel) (pos + 1) (drop_next pos indexdata b s e) (omega arith)
            h)
    | inl y ↦ rw y (
        rw
          (
            zero_add pos,
            occurrences-search fuel (pos + 1),
            drop_next pos indexdata b s e,
            after_search-places s fuel (pos + 1) (drop_next pos indexdata b s e) (omega arith) h,
          )
          refl)
  ]

  -- The inputs that the loop tests are those of every place at which the operand stands.
  pub occurrences-places :
      (fuel : ℕ)
      → length indexdata < fuel
      → 0 < length v1
      → occurrences fuel flags content indexdata v1 v2 0 ≡ done (all_hints (places v1 0 indexdata))
  occurrences-places zero lt pos = absurd (omega arith)
  occurrences-places (suc fuel) lt pos =
      occurrences-search fuel 0
      ∙ after_search-places indexdata fuel 0 refl (omega arith) (no_prefix v1 pos)
