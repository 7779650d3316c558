-- ===== src/Worker/Minimize/Laws.antt =====
-- What `minimizeInput` of go-fuzz/worker.go comes to.
use go_fuzz.Base.{
  ℕ, zero, suc, All, ◌+◌, ◌-◌, ◌≤◌, ◌<◌, ◌≡◌, Bool, true, List, [], ◌∷◌, length, Returns, ltb,
  arith,
}
use go_fuzz.Bytes.{Bytes}
use go_fuzz.Worker.Minimize.{cut_tails, remove_ranges, minimize_input, tail_sizes}
use go_fuzz.Worker.Minimize.Loops.{
  result, state, Fine, then_run-Returns, if-Returns, remove_ranges_at-Returns, cut_tail-Returns,
  remove_bytes-Returns, canonicalize-Returns,
}

module _ {S : Type 0} (late : S → Bool) (accepts : Bytes → S → Bool × S) (Good : Bytes → Type 0)
    (Inv : S → Type 0) (sound : (c : Bytes) (s : S) → Inv s → (accepts c s).0 ≡ true → Good c)
    (keeps : (c : Bytes) (s : S) → Inv s → Inv (accepts c s).1) where
  remove_ranges-Returns :
      (n fuel i : ℕ) (res : Bytes) (s : S)
      → length res - i ≤ fuel
      → Good res
      → length res ≤ n
      → Inv s
      → Returns (Fine late accepts Good Inv sound keeps n) (remove_ranges late accepts fuel i res s)
  unfolding remove_ranges
  remove_ranges-Returns n zero i res s enough g l v =
      if-Returns late accepts Good Inv sound keeps n (ltb i (length res - 1)) _ _
        (λ e. absurd (ground (arith, e))) (λ e. (g, l, v))
  remove_ranges-Returns n (suc fuel) i res s enough g l v =
      if-Returns late accepts Good Inv sound keeps n (ltb i (length res - 1)) _ _
        (λ e.
          then_run-Returns late accepts Good Inv sound keeps (length res) n _ _ l
            (remove_ranges_at-Returns late accepts Good Inv sound keeps (length res) (length res)
              (length res) i res s (omega arith) (omega arith) g (omega arith) v)
            (λ res' s' g' l' v'.
              remove_ranges-Returns n fuel (i + 1) res' s' (omega arith) g' (omega arith) v'))
        (λ e. (g, l, v))

  cut_tails-Returns :
      (n : ℕ) (sizes : List ℕ) (res : Bytes) (s : S)
      → All (λ k. 0 < k) sizes
      → Good res
      → length res ≤ n
      → Inv s
      → Returns (Fine late accepts Good Inv sound keeps n) (cut_tails late accepts sizes res s)
  unfolding cut_tails
  cut_tails-Returns n [] res s h g l v = (g, l, v)
  cut_tails-Returns n (k ∷ sizes) res s h g l v =
      then_run-Returns late accepts Good Inv sound keeps n n _ _ (omega arith)
        (cut_tail-Returns late accepts Good Inv sound keeps n (length res) k res s h.0 (omega arith)
          g l v)
        (λ res' s' g' l' v'. cut_tails-Returns n sizes res' s' h.1 g' l' v')

  -- Minimisation ends, and within the fuel of the model, whatever the predicate answers and whenever
  -- the time is over. Its result is no longer than the input, and has every property that the input has
  -- and that the predicate grants to each candidate that it accepts, where an invariant of the state that
  -- each call of the predicate keeps may be used; the invariant holds at the end.
  pub minimize_input-Returns :
      (content : Bytes) (canonical : Bool) (s : S)
      → Good content
      → Inv s
      → Returns
          (λ r. Good (result r) × (length (result r) ≤ length content) × Inv (state r))
          (minimize_input late accepts content canonical s)
  unfolding minimize_input
  minimize_input-Returns content canonical s g v =
      let n = length content in
      then_run-Returns late accepts Good Inv sound keeps n n _ _ (omega arith)
        (then_run-Returns late accepts Good Inv sound keeps n n _ _ (omega arith)
          (then_run-Returns late accepts Good Inv sound keeps n n _ _ (omega arith)
            (cut_tails-Returns n tail_sizes content s positive g (omega arith) v)
            (λ res s' g' l v'.
              remove_bytes-Returns late accepts Good Inv sound keeps n (length res) 0 res s'
                (omega arith) g' l v'))
          (λ res s' g' l v'. remove_ranges-Returns n (length res) 0 res s' (omega arith) g' l v'))
        (λ res s' g' l v'.
          if-Returns late accepts Good Inv sound keeps n canonical _ _
            (λ e.
              canonicalize-Returns late accepts Good Inv sound keeps n (length res) 0 res s'
                (omega arith) g' l v')
            (λ e. (g', l, v')))
    where
      positive : All (λ k. 0 < k) tail_sizes
      positive = (
        omega arith,
        (
          omega arith,
          (
            omega arith,
            (
              omega arith,
              (
                omega arith,
                (
                  omega arith,
                  (omega arith, (omega arith, (omega arith, (omega arith, (omega arith, tt))))),
                ),
              ),
            ),
          ),
        ),
      )
