-- ===== src/Hub/Scores/Sums.antt =====
-- The running sums of `updateScores` of go-fuzz/hub.go, by which the mutator selects an input.
use go_fuzz.Base.{
  ℕ, zero, suc, ◌+◌, ◌-◌, ◌≤◌, ◌<◌, ◌≡◌, refl, Bool, List, [], ◌∷◌, ◌++◌, map, length, get_or,
  if◌then◌else◌, All, ltb, Bool-cases, inl, inr, arith, ltb→lt, ltb_false→le,
}
use go_fuzz.Cover.{Table}
use go_fuzz.Types.{Input}
use go_fuzz.Hub.{last_sum, enter}
use go_fuzz.Hub.Scores.{clamp, mark, running, score_all, update_scores}
use go_fuzz.Mutator.Run.{running_sums, weighted_index}
use go_fuzz.Mutator.Search.{weighted_index-IsLeast}

-- Each running sum is greater than the one before, and the first is greater than `sum`.
abbrev pub Climbs : ℕ → List Input → Type 0
Climbs sum [] = Unit
Climbs sum (inp ∷ corpus) = (sum < inp.running_score_sum) × Climbs inp.running_score_sum corpus

abbrev HasScores : List Input → Type 0
HasScores corpus = All (λ inp. 0 < inp.score) corpus

running-Climbs :
    (sum : ℕ) (corpus : List Input) → HasScores corpus → Climbs sum (running sum corpus)
unfolding running
running-Climbs sum [] h = tt
running-Climbs sum (inp ∷ corpus) h =
    let positive : 0 < (if inp.favored then inp.score else 1) = ground (arith, h.0) in
    (omega arith, running-Climbs (sum + (if inp.favored then inp.score else 1)) corpus h.1)

mark-HasScores :
    (idx : ℕ) (favored : List ℕ) (corpus : List Input)
    → HasScores corpus
    → HasScores (mark idx favored corpus)
unfolding mark
mark-HasScores idx favored [] h = tt
mark-HasScores idx favored (inp ∷ corpus) h = (h.0, mark-HasScores (idx + 1) favored corpus h.1)

scored-HasScores :
    (f : Input → ℕ) (corpus : List Input)
    → HasScores (map (λ (inp : Input). record inp { score = clamp (f inp) }) corpus)
unfolding clamp
scored-HasScores f [] = tt
scored-HasScores f (inp ∷ corpus) = (ground arith, scored-HasScores f corpus)

-- Whatever the scores are, the running sums of `updateScores` rise from each input to the next.
pub update_scores-Climbs :
    (raw_score : List Input → Input → ℕ) (counters : Bool) (corpus_cover : Table)
    (corpus : List Input)
    → Climbs 0 (update_scores raw_score counters corpus_cover corpus)
unfolding update_scores score_all
update_scores-Climbs raw_score counters corpus_cover corpus =
    running-Climbs 0 _ (mark-HasScores 0 _ _ (scored-HasScores (raw_score corpus) corpus))

-- `s` is the last running sum, or `sum` where there is none.
abbrev Last : ℕ → List Input → ℕ → Type 0
Last sum [] s = s ≡ sum
Last sum (inp ∷ corpus) s = Last inp.running_score_sum corpus s

last_sum-Last :
    (inp : Input) (corpus : List Input)
    → Last inp.running_score_sum corpus (last_sum (inp ∷ corpus))
unfolding last_sum
last_sum-Last inp [] = refl
last_sum-Last inp (next ∷ corpus) = last_sum-Last next corpus

Climbs-append :
    (sum : ℕ) (corpus : List Input) (s : ℕ) (inp : Input)
    → Last sum corpus s
    → Climbs sum corpus
    → s < inp.running_score_sum
    → Climbs sum (corpus ++ inp ∷ [])
Climbs-append sum [] s inp e h l = (omega arith, tt)
Climbs-append sum (first ∷ corpus) s inp e h l =
    (h.0, Climbs-append first.running_score_sum corpus s inp e h.1 l)

-- So do they where an input enters with the default score.
pub enter-Climbs :
    (input : Input) (corpus : List Input) → Climbs 0 corpus → Climbs 0 (enter input corpus)
unfolding enter last_sum
enter-Climbs input [] h = (omega arith, tt)
enter-Climbs input (inp ∷ corpus) h =
    Climbs-append 0 (inp ∷ corpus) (last_sum (inp ∷ corpus)) _ (last_sum-Last inp corpus) h
      (omega arith)

length-running_sums : (corpus : List Input) → length (running_sums corpus) ≡ length corpus
length-running_sums [] = refl
length-running_sums (inp ∷ corpus) = omega (arith, length-running_sums corpus)

Climbs-above :
    (sum : ℕ) (corpus : List Input) (k : ℕ)
    → Climbs sum corpus
    → k < length corpus
    → sum < get_or (running_sums corpus) k 0
Climbs-above sum [] k h l = absurd (omega arith)
Climbs-above sum (inp ∷ corpus) zero h l = h.0
Climbs-above sum (inp ∷ corpus) (suc k) h l =
    omega (arith, h.0, Climbs-above inp.running_score_sum corpus k h.1 (omega arith))

Climbs-mono :
    (sum : ℕ) (corpus : List Input) (a b : ℕ)
    → Climbs sum corpus
    → a ≤ b
    → b < length corpus
    → get_or (running_sums corpus) a 0 ≤ get_or (running_sums corpus) b 0
Climbs-mono sum [] a b h le l = absurd (omega arith)
Climbs-mono sum (inp ∷ corpus) zero zero h le l = omega arith
Climbs-mono sum (inp ∷ corpus) zero (suc b) h le l =
    omega (arith, Climbs-above inp.running_score_sum corpus b h.1 (omega arith))
Climbs-mono sum (inp ∷ corpus) (suc a) zero h le l = absurd (omega arith)
Climbs-mono sum (inp ∷ corpus) (suc a) (suc b) h le l =
    Climbs-mono inp.running_score_sum corpus a b h.1 (omega arith) (omega arith)

-- The sum before an input.
abbrev pub sum_before : List Input → ℕ → ℕ
sum_before corpus zero = 0
sum_before corpus (suc i) = get_or (running_sums corpus) i 0

-- Where the running sums rise, an input is selected by exactly the weights from the sum before it up to
-- its own running sum, so each input has its score's share of them.
pub weighted_index-share :
    (corpus : List Input) (i w : ℕ)
    → Climbs 0 corpus
    → i < length corpus
    → sum_before corpus i ≤ w
    → w < get_or (running_sums corpus) i 0
    → weighted_index (running_sums corpus) w ≡ i
weighted_index-share corpus i w h l from to =
    let sums = running_sums corpus in
    let size = length-running_sums corpus in
    let least =
      weighted_index-IsLeast sums w
        (λ a b le k. Climbs-mono 0 corpus a b h le (omega (arith, k, size)))
        (omega (
          arith,
          to,
          size,
          Climbs-mono 0 corpus i (length sums - 1) h (omega (arith, size, l))
              (omega (arith, size, l)),
        )) in
    let r = weighted_index sums w in
    elim (Bool-cases (ltb r i)) [
      | inl e ↦ absurd (too_small i r (ltb→lt r i e) from l least.1)
      | inr e ↦ elim (Bool-cases (ltb i r)) [
        | inl f ↦ absurd (omega (arith, to, least.2 i (ltb→lt i r f)))
        | inr f ↦ omega (arith, ltb_false→le r i e, ltb_false→le i r f)
      ]
    ]
  where
    too_small :
        (i r : ℕ)
        → r < i
        → sum_before corpus i ≤ w
        → i < length corpus
        → w < get_or (running_sums corpus) r 0
        → ⊥
    too_small zero r lt b l k = omega arith
    too_small (suc i) r lt b l k =
        omega (arith, b, k, Climbs-mono 0 corpus r i h (omega arith) (omega arith))
