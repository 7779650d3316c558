-- ===== src/Hub/Scores/Favored.antt =====
-- The choice of the favored inputs in `updateScores` of go-fuzz/hub.go.
use go_fuzz.Base.{
  ℕ, zero, suc, ◌+◌, ◌<◌, ◌≡◌, refl, sym, ap, Bool, true, false, List, [], ◌∷◌, length, get_or,
  drop, ◌==◌, Bool-cases, inl, inr, arith, replicate, length-replicate,
}
use mathlib.Core.Path.{subst}
use mathlib.Core.Bool.{false≢true}
use go_fuzz.Cover.{Table}
use go_fuzz.Defs.{cover_size}
use go_fuzz.Types.{Input}
use go_fuzz.Hub.Scores.{
  Candidate, no_candidate, hits, nominate_all, clear, cover_of, choose, member, favored_indices,
}
use go_fuzz.Hub.Scores.Candidates.{
  get_or-drop, at, clear_at, HasScore, Reaches, nominate_all-Right, score_of,
}

module _ (counters : Bool) (corpus : List Input) where
  -- Some favored input reaches the block.
  abbrev pub Favored : List ℕ → ℕ → ℕ → Type 0
  Favored favored p b = (idx : ℕ) × (member idx favored ≡ true) × Reaches counters corpus idx p b

  -- Dropping candidates keeps the others right.
  clear-Right :
      (ci : ℕ) (cover base : Table) (cands : List Candidate) (p : ℕ)
      → p < length base
      → (HasScore cands p → Reaches counters corpus (at cands p).index (ci + p) (get_or base p 0))
      → let cands' = clear counters cover base cands in
        (HasScore cands' p → Reaches counters corpus (at cands' p).index (ci + p) (get_or base p 0))
        × (hits counters (get_or cover p 0) (get_or base p 0) ≡ false
            → HasScore cands p
            → HasScore cands' p)
  clear-Right ci cover base cands p h right =
      rw (clear_at counters cover base cands p h)
        (elim (Bool-cases (hits counters (get_or cover p 0) (get_or base p 0))) [
          | inl t ↦ rw t (λ s. absurd (omega arith), λ e s. absurd (false≢true (sym e)))
          | inr f ↦ rw f (right, λ e s. s)
        ])

  member-first : (x : ℕ) (xs : List ℕ) → member x (x ∷ xs) ≡ true
  unfolding member
  member-first x xs = ground arith

  member-later : (i x : ℕ) (xs : List ℕ) → member i xs ≡ true → member i (x ∷ xs) ≡ true
  unfolding member
  member-later i x xs m = ground arith

  choose-Favored :
      (ci : ℕ) (base : Table) (cands : List Candidate)
      → ((p : ℕ)
          → p < length base
          → HasScore cands p
          → Reaches counters corpus (at cands p).index (ci + p) (get_or base p 0))
      → (p : ℕ) → p < length base
      → HasScore cands p
      → Favored (choose counters corpus ci base cands) (ci + p) (get_or base p 0)
  unfolding choose
  choose-Favored ci [] cands right p h s = absurd (omega arith)
  choose-Favored ci (b ∷ base) [] right zero h s = absurd (omega arith)
  choose-Favored ci (b ∷ base) [] right (suc p) h s = absurd (omega arith)
  choose-Favored ci (b ∷ base) (k ∷ cands) right zero h s =
      let some_score : (k.score == 0) ≡ false = ground arith in
      rw some_score (k.index, member-first _ _, right zero h s)
  choose-Favored ci (b ∷ base) (k ∷ cands) right (suc p) h s = elim (Bool-cases (k.score == 0)) [
    | inl z ↦ rw z (shift p _ (choose-Favored (ci + 1) base cands right_later p (omega arith) s))
    | inr z ↦ rw z (elim (Bool-cases (hits counters (get_or cover p 0) (get_or base p 0))) [
      | inl t ↦ (k.index, member-first _ _, covered t)
      | inr f ↦
          let rest = shift p _ (
            choose-Favored (ci + 1) base (clear counters cover base cands)
              (λ q l. (clear-Right (ci + 1) cover base cands q l (right_later q l)).0) p
              (omega arith)
              ((clear-Right (ci + 1) cover base cands p (omega arith)
                  (right_later p (omega arith))).1
                f s)) in
          (rest.0, member-later _ _ _ rest.1, rest.2)
    ])
  ]
    where
      cover : Table
      cover = drop (ci + 1) (cover_of corpus k.index)

      right_later :
          (q : ℕ)
          → q < length base
          → HasScore cands q
          → Reaches counters corpus (at cands q).index (ci + 1 + q) (get_or base q 0)
      right_later q l t =
          let e : ci + suc q ≡ ci + 1 + q = omega arith in
          subst (λ i. Reaches counters corpus (at cands q).index i (get_or base q 0)) e
            (right (suc q) (omega arith) t)

      shift :
          (q : ℕ) (favored : List ℕ)
          → Favored favored (ci + 1 + q) (get_or base q 0)
          → Favored favored (ci + suc q) (get_or base q 0)
      shift q favored f =
          let e : ci + 1 + q ≡ ci + suc q = omega arith in
          subst (λ i. Favored favored i (get_or base q 0)) e f

      covered :
          hits counters (get_or (drop (ci + 1) (cover_of corpus k.index)) p 0) (get_or base p 0)
            ≡ true
          → Reaches counters corpus k.index (ci + suc p) (get_or base p 0)
      covered t =
          let e : ci + 1 + p ≡ ci + suc p = omega arith in
          subst (λ i. Reaches counters corpus k.index i (get_or base p 0)) e
            (rw (← get_or-drop (ci + 1) p (cover_of corpus k.index)) t)

  no_scores : (n p : ℕ) → (at (replicate n no_candidate) p).score ≡ 0
  no_scores zero zero = refl
  no_scores zero (suc p) = refl
  no_scores (suc n) zero = refl
  no_scores (suc n) (suc p) = no_scores n p

  -- The favored inputs keep the coverage: where an input with a score reaches a block at the level of the
  -- corpus table, so does a favored input.
  pub favored_indices-Favored :
      (base : Table) (p j : ℕ)
      → length base ≡ cover_size
      → p < cover_size
      → j < length corpus
      → Reaches counters corpus j p (get_or base p 0)
      → 0 < score_of corpus j
      → Favored (favored_indices counters base corpus) p (get_or base p 0)
  unfolding favored_indices
  favored_indices-Favored base p j size h l r s =
      let start = replicate cover_size no_candidate in
      let room : length start ≡ cover_size =
        length-replicate {A = Candidate} cover_size no_candidate in
      let right : (q : ℕ) (i : q < length base) → _ = λ q i.
        nominate_all-Right counters corpus base q i 0 corpus start
          (λ j l. let e : 0 + j ≡ j = omega arith in ap (cover_of corpus) e)
          (omega (arith, room, size)) (λ t. absurd (omega (arith, no_scores cover_size q))) in
      let zero_plus : (q : ℕ) → q ≡ 0 + q = λ q. omega arith in
      let inside : p < length base = omega (arith, size) in
      let chosen =
        choose-Favored 0 base (nominate_all counters 0 corpus base start)
          (λ q i t.
            subst
              (λ n.
                Reaches counters corpus (at (nominate_all counters 0 corpus base start) q).index n
                  (get_or base q 0))
              (zero_plus q) ((right q i).0 t))
          p inside
          ((right p inside).2 j l
            (subst (λ n. Reaches counters corpus n p (get_or base p 0)) (zero_plus j) r) s) in
      (
        chosen.0,
        chosen.1,
        subst (λ n. Reaches counters corpus chosen.0 n (get_or base p 0)) (sym (zero_plus p))
            chosen.2,
      )
