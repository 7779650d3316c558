-- ===== src/Hub/Scores/Candidates.antt =====
-- The candidates for the favored inputs in `updateScores` of go-fuzz/hub.go.
use go_fuzz.Base.{
  ℕ, zero, suc, ◌+◌, ◌<◌, ◌≡◌, refl, sym, ap, ◌∙◌, Bool, true, false, ◌&&◌, List, [], ◌∷◌, length,
  get_or, drop, ltb, if◌then◌else◌, Bool-cases, inl, inr, ltb→lt, ltb_false→le, arith,
}
use mathlib.Core.Path.{subst}
use mathlib.Core.Bool.{false≢true}
use go_fuzz.Cover.{Table}
use go_fuzz.Types.{Input}
use go_fuzz.Hub.Scores.{Candidate, no_candidate, hits, nominate, nominate_all, clear, cover_of}

pub get_or-empty : (p : ℕ) → 0 ≡ get_or {A = ℕ} [] p 0
get_or-empty zero = refl
get_or-empty (suc p) = refl

pub get_or-drop : (n p : ℕ) (xs : Table) → get_or (drop n xs) p 0 ≡ get_or xs (n + p) 0
get_or-drop zero p xs = let e : p ≡ 0 + p = omega arith in ap (λ k. get_or xs k 0) e
get_or-drop (suc n) p [] = get_or-empty (suc n + p)
get_or-drop (suc n) p (x ∷ xs) =
    let e : suc (n + p) ≡ suc n + p = omega arith in
    get_or-drop n p xs ∙ ap (λ k. get_or (x ∷ xs) k 0) e

-- The candidate of a block.
abbrev pub at : List Candidate → ℕ → Candidate
at cands p = get_or cands p no_candidate

if_none : (b : Bool) (p : ℕ) → (if b then record (at [] p) { score = 0 } else at [] p) ≡ at [] p
if_none true zero = refl
if_none true (suc p) = refl
if_none false p = refl

module _ (counters : Bool) where
  pub clear_at :
      (cover base : Table) (cands : List Candidate) (p : ℕ)
      → p < length base
      → at (clear counters cover base cands) p ≡ (
          if hits counters (get_or cover p 0) (get_or base p 0)
          then record (at cands p) { score = 0 }
          else at cands p)
  unfolding clear hits
  clear_at [] base cands p h = rw (← get_or-empty p) refl
  clear_at (c ∷ cover) [] cands p h = absurd (omega arith)
  clear_at (c ∷ cover) (b ∷ base) [] p h = sym (if_none _ p)
  clear_at (c ∷ cover) (b ∷ base) (k ∷ cands) zero h = refl
  clear_at (c ∷ cover) (b ∷ base) (k ∷ cands) (suc p) h = clear_at cover base cands p (omega arith)

  nominate_at :
      (idx score : ℕ) (cover base : Table) (cands : List Candidate) (p : ℕ)
      → p < length base
      → p < length cands
      → at (nominate counters idx score cover base cands) p ≡ (
          if hits counters (get_or cover p 0) (get_or base p 0) && ltb (at cands p).score score
          then record { index = idx; score = score }
          else at cands p)
  unfolding nominate hits
  nominate_at idx score [] base cands p h k = rw (← get_or-empty p) refl
  nominate_at idx score (c ∷ cover) [] cands p h k = absurd (omega arith)
  nominate_at idx score (c ∷ cover) (b ∷ base) [] p h k = absurd (omega arith)
  nominate_at idx score (c ∷ cover) (b ∷ base) (e ∷ cands) zero h k = refl
  nominate_at idx score (c ∷ cover) (b ∷ base) (e ∷ cands) (suc p) h k =
      nominate_at idx score cover base cands p (omega arith) (omega arith)

  length-nominate :
      (idx score : ℕ) (cover base : Table) (cands : List Candidate)
      → length (nominate counters idx score cover base cands) ≡ length cands
  unfolding nominate
  length-nominate idx score [] base cands = refl
  length-nominate idx score (c ∷ cover) [] cands = refl
  length-nominate idx score (c ∷ cover) (b ∷ base) [] = refl
  length-nominate idx score (c ∷ cover) (b ∷ base) (e ∷ cands) =
      omega (arith, length-nominate idx score cover base cands)

-- The block at `p` is reached by input `idx` at the level `b`.
abbrev pub Reaches : Bool → List Input → ℕ → ℕ → ℕ → Type 0
Reaches counters corpus idx p b = hits counters (get_or (cover_of corpus idx) p 0) b ≡ true

abbrev pub HasScore : List Candidate → ℕ → Type 0
HasScore cands p = 0 < (at cands p).score

module _ (counters : Bool) (corpus : List Input) where
  -- What one nomination does to a candidate that is right.
  nominate-Right :
      (idx score : ℕ) (cover base : Table) (cands : List Candidate) (p : ℕ)
      → cover_of corpus idx ≡ cover
      → p < length base
      → p < length cands
      → (HasScore cands p → Reaches counters corpus (at cands p).index p (get_or base p 0))
      → let cands' = nominate counters idx score cover base cands in
        (HasScore cands' p → Reaches counters corpus (at cands' p).index p (get_or base p 0))
        × (HasScore cands p → HasScore cands' p)
        × (Reaches counters corpus idx p (get_or base p 0) → 0 < score → HasScore cands' p)
  nominate-Right idx score cover base cands p same h k right =
      rw (nominate_at counters idx score cover base cands p h k)
        (elim (Bool-cases (hits counters (get_or cover p 0) (get_or base p 0))) [
          | inl t ↦ elim (Bool-cases (ltb (at cands p).score score)) [
            | inl u ↦
                let above = ltb→lt (at cands p).score score u in
                let reached : Reaches counters corpus idx p (get_or base p 0) = rw same t in
                rw (t, u) (λ s. reached, λ s. omega arith, λ r q. q)
            | inr u ↦
                let below = ltb_false→le (at cands p).score score u in
                rw (t, u) (right, λ s. s, λ r q. omega arith)
          ]
          | inr f ↦
              let unreached : hits counters (get_or (cover_of corpus idx) p 0) (get_or base p 0)
                  ≡ false =
                rw same f in
              rw f (right, λ s. s, λ r q. absurd (false≢true (sym unreached ∙ r)))
        ])

-- Where the rest of the corpus stands: `rest` begins at index `idx`.
abbrev pub Suffix : List Input → ℕ → List Input → Type 0
Suffix corpus idx rest = (j : ℕ) → j < length rest → cover_of corpus (idx + j) ≡ cover_of rest j

abbrev pub score_of : List Input → ℕ → ℕ
score_of [] idx = 0
score_of (inp ∷ corpus) zero = inp.score
score_of (inp ∷ corpus) (suc idx) = score_of corpus idx

module _ (counters : Bool) (corpus : List Input) (base : Table) (p : ℕ)
    (inside : p < length base) where
  abbrev pub level : ℕ
  level = get_or base p 0

  pub nominate_all-Right :
      (idx : ℕ) (rest : List Input) (cands : List Candidate)
      → Suffix corpus idx rest
      → p < length cands
      → (HasScore cands p → Reaches counters corpus (at cands p).index p level)
      → let cands' = nominate_all counters idx rest base cands in
        (HasScore cands' p → Reaches counters corpus (at cands' p).index p level)
        × (HasScore cands p → HasScore cands' p)
        × ((j : ℕ)
            → j < length rest
            → Reaches counters corpus (idx + j) p level
            → 0 < score_of rest j
            → HasScore cands' p)
  unfolding nominate_all cover_of
  nominate_all-Right idx [] cands suffix k right = (right, λ s. s, λ j l. absurd (omega arith))
  nominate_all-Right idx (inp ∷ rest) cands suffix k right =
      let here : cover_of corpus idx ≡ inp.cover =
        let e : idx ≡ idx + 0 = omega arith in ap (cover_of corpus) e ∙ suffix zero (omega arith) in
      let one =
        nominate-Right counters corpus idx inp.score inp.cover base cands p here inside k right in
      let cands' = nominate counters idx inp.score inp.cover base cands in
      let later : Suffix corpus (idx + 1) rest = λ j l.
        let e : idx + 1 + j ≡ idx + suc j = omega arith in
        ap (cover_of corpus) e ∙ suffix (suc j) (omega arith) in
      let size = length-nominate counters idx inp.score inp.cover base cands in
      let more = nominate_all-Right (idx + 1) rest cands' later (omega (arith, size)) one.0 in
      (more.0, λ s. more.1 (one.1 s), reached cands' _ one.2 more.1 more.2)
    where
      reached :
          (cands' cands'' : List Candidate)
          → (Reaches counters corpus idx p level → 0 < inp.score → HasScore cands' p)
          → (HasScore cands' p → HasScore cands'' p)
          → ((j : ℕ)
              → j < length rest
              → Reaches counters corpus (idx + 1 + j) p level
              → 0 < score_of rest j
              → HasScore cands'' p)
          → (j : ℕ) → j < suc (length rest)
          → Reaches counters corpus (idx + j) p level
          → 0 < score_of (inp ∷ rest) j
          → HasScore cands'' p
      reached x y f g h zero l r q =
          let e : idx + 0 ≡ idx = omega arith in
          g (f (subst (λ i. Reaches counters corpus i p level) e r) q)
      reached x y f g h (suc j) l r q =
          let e : idx + suc j ≡ idx + 1 + j = omega arith in
          h j (omega arith) (subst (λ i. Reaches counters corpus i p level) e r) q
