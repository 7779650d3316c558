-- ===== src/Mutator/Search.antt =====
-- How `generate` selects an input by its weight.
use go_fuzz.Base.{
  ℕ, zero, suc, ◌+◌, ◌-◌, ◌/◌, ◌<◌, ◌≤◌, ◌≡◌, [], ◌∷◌, sym, ◌∙◌, Bool, true, false, List, length,
  ltb, get_or, Bool-cases, inl, inr, arith, ltb→lt, lt→ltb, ltb_false→le,
}
use Prim.Native.Nat.{zero-le}
use mathlib.Core.Path.{subst}
use mathlib.Core.Bool.{false≢true}
use go_fuzz.Mutator.Run.{search, weighted_index}

-- The least place of `[i, j)` where the test holds, or `j`.
pub record IsLeast (test : ℕ → Bool) (i j r : ℕ) : Type 0 where
  pub from : i ≤ r
  pub to : r ≤ j
  pub before : (k : ℕ) → i ≤ k → k < r → test k ≡ false
  pub there : r < j → test r ≡ true

Rises : (ℕ → Bool) → ℕ → Type 0
Rises test j = (a b : ℕ) → a ≤ b → b < j → test a ≡ true → test b ≡ true

module _ (test : ℕ → Bool) where
  search-IsLeast :
      (rounds i j : ℕ)
      → ((a b : ℕ) → a ≤ b → b < j → test a ≡ true → test b ≡ true)
      → i ≤ j
      → j - i ≤ rounds
      → IsLeast test i j (search rounds test i j)
  unfolding search
  search-IsLeast zero i j rises h enough = record {
    from = omega arith;
    to = h;
    before = λ k a b. absurd (omega arith);
    there = λ a. absurd (omega arith);
  }
  search-IsLeast (suc rounds) i j rises h enough = elim (Bool-cases (ltb i j)) [
    | inl e ↦
        let middle : (i ≤ (i + j) / 2) × ((i + j) / 2 < j) = ground arith in
        elim (Bool-cases (test ((i + j) / 2))) [
          | inl t ↦
              rw (e, t)
                (below t middle (
                  search-IsLeast rounds i ((i + j) / 2) (λ a b le l. rises a b le (omega arith))
                    (omega arith) (omega arith)))
          | inr f ↦
              rw (e, f)
                (above f middle
                  (search-IsLeast rounds ((i + j) / 2 + 1) j rises (omega arith) (omega arith)))
        ]
    | inr f ↦ rw f (record {
      from = omega arith;
      to = h;
      before = λ k a b. absurd (omega arith);
      there = λ a. ground arith;
    })
  ]
    where
      below :
          test ((i + j) / 2) ≡ true
          → (i ≤ (i + j) / 2) × ((i + j) / 2 < j)
          → {r : ℕ} → IsLeast test i ((i + j) / 2) r
          → IsLeast test i j r
      below t m {r} l = record {
        from = l.from;
        to = omega (arith, l.to);
        before = l.before;
        there = λ a. elim (Bool-cases (ltb r ((i + j) / 2))) [
          | inl e ↦ l.there (ltb→lt r ((i + j) / 2) e)
          | inr e ↦
              subst (λ x. test x ≡ true) (omega (arith, l.to, ltb_false→le r ((i + j) / 2) e)) t
        ];
      }

      above :
          test ((i + j) / 2) ≡ false
          → (i ≤ (i + j) / 2) × ((i + j) / 2 < j)
          → {r : ℕ} → IsLeast test ((i + j) / 2 + 1) j r
          → IsLeast test i j r
      above f m {r} l = record {
        from = omega (arith, l.from);
        to = l.to;
        there = l.there;
        before = λ k a b. elim (Bool-cases (ltb ((i + j) / 2) k)) [
          | inl e ↦ l.before k (omega (arith, ltb→lt ((i + j) / 2) k e)) b
          | inr e ↦ elim (Bool-cases (test k)) [
            | inl t ↦ absurd (
                false≢true
                  (sym f ∙ rises k ((i + j) / 2) (ltb_false→le ((i + j) / 2) k e) (omega arith) t))
            | inr t ↦ t
          ]
        ];
      }

not_empty : (sums : List ℕ) (w : ℕ) → w < get_or sums (length sums - 1) 0 → 0 < length sums
not_empty [] w h = absurd (omega arith)
not_empty (x ∷ sums) w h = omega arith

-- An input is selected by a weight below the last running sum, and it is the first one whose running sum
-- is greater, provided that the running sums do not fall: input `i` answers for the weights from the
-- sum before it up to its own sum.
pub weighted_index-IsLeast :
    (sums : List ℕ) (w : ℕ)
    → ((a b : ℕ) → a ≤ b → b < length sums → get_or sums a 0 ≤ get_or sums b 0)
    → w < get_or sums (length sums - 1) 0
    → let r = weighted_index sums w in
      (r < length sums) × (w < get_or sums r 0) × ((k : ℕ) → k < r → get_or sums k 0 ≤ w)
unfolding weighted_index
weighted_index-IsLeast sums w rises below_last =
    let test : ℕ → Bool = λ i. ltb w (get_or sums i 0) in
    let l =
      search-IsLeast test (length sums) 0 (length sums)
        (λ a b le h t. lt→ltb w _ (omega (arith, rises a b le h, ltb→lt w (get_or sums a 0) t)))
        (omega arith) (omega arith) in
    let inside : weighted_index sums w < length sums =
      elim (Bool-cases (ltb (weighted_index sums w) (length sums))) [
        | inl e ↦ ltb→lt (weighted_index sums w) (length sums) e
        | inr e ↦
            let some_input = not_empty sums w below_last in
            let past = ltb_false→le (weighted_index sums w) (length sums) e in
            absurd (
              omega (
                arith,
                ltb_false→le w (get_or sums (length sums - 1) 0)
                    (l.before (length sums - 1) (omega arith) (omega (arith, some_input, past))),
              ))
      ] in
    (
      inside,
      ltb→lt w _ (l.there inside),
      λ k h. ltb_false→le w (get_or sums k 0) (l.before k zero-le h),
    )
