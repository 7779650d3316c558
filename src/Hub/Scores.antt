-- ===== src/Hub/Scores.antt =====
-- `updateScores`. The score of an input is a product of floating-point factors, which the model does not
-- compute: `raw_score` stands for the product, rounded down. The bounds that the source puts on it, the
-- choice of the favored inputs and the running sums are modelled.
pub mod Candidates
pub mod Favored
pub mod Sums
use go_fuzz.Base.{
  ℕ, zero, suc, ◌+◌, ◌-◌, Bool, true, false, not, ◌&&◌, ◌||◌, Option, none, some, List, [], ◌∷◌,
  length, get_elem?, drop, map, ltb, ◌==◌, if◌then◌else◌, replicate,
}
use go_fuzz.Cover.{Table, round_up_cover}
use go_fuzz.Defs.{cover_size}
use go_fuzz.Types.{Input}
use go_fuzz.Hub.{min_score, max_score}

-- `chosen` is never used in the source.
pub record Candidate : Type 0 where
  pub index : ℕ
  pub score : ℕ

abbrev pub no_candidate : Candidate
no_candidate = record { index = 0; score = 0 }

-- Phase 1, behind the computation of the score.
unfoldable pub clamp : ℕ → ℕ
clamp score =
    if ltb score min_score then min_score else if ltb max_score score then max_score else score

-- A counter that reaches the block at the level of the corpus.
unfoldable pub hits : Bool → ℕ → ℕ → Bool
hits counters c b = not (c == 0) && (round_up_cover counters c == b)

-- An input becomes the candidate of the blocks where its score is greater. All tables have the size
-- `cover_size`: on a shorter one the source would panic.
unfoldable pub nominate : Bool → ℕ → ℕ → Table → Table → List Candidate → List Candidate
nominate counters idx score [] base cands = cands
nominate counters idx score (c ∷ cover) [] cands = cands
nominate counters idx score (c ∷ cover) (b ∷ base) [] = []
nominate counters idx score (c ∷ cover) (b ∷ base) (k ∷ cands) =
    (if hits counters c b && ltb k.score score then record { index = idx; score = score } else k)
    ∷ nominate counters idx score cover base cands

unfoldable pub nominate_all : Bool → ℕ → List Input → Table → List Candidate → List Candidate
unfolding nominate
nominate_all counters idx [] base cands = cands
nominate_all counters idx (inp ∷ corpus) base cands =
    nominate_all counters (idx + 1) corpus base
      (nominate counters idx inp.score inp.cover base cands)

-- The candidates of the blocks that a favored input reaches are dropped, in tables of one size as above.
unfoldable pub clear : Bool → Table → Table → List Candidate → List Candidate
clear counters [] base cands = cands
clear counters (c ∷ cover) [] cands = cands
clear counters (c ∷ cover) (b ∷ base) [] = []
clear counters (c ∷ cover) (b ∷ base) (k ∷ cands) =
    (if hits counters c b then record k { score = 0 } else k) ∷ clear counters cover base cands

unfoldable pub cover_of : List Input → ℕ → Table
cover_of [] idx = []
cover_of (inp ∷ corpus) zero = inp.cover
cover_of (inp ∷ corpus) (suc idx) = cover_of corpus idx

-- The indices of the favored inputs, from the candidates of the blocks from `ci` on, with the table's
-- counters from `ci` on.
unfoldable pub choose : Bool → List Input → ℕ → Table → List Candidate → List ℕ
unfolding clear cover_of
choose counters corpus ci [] cands = []
choose counters corpus ci (b ∷ base) [] = []
choose counters corpus ci (b ∷ base) (k ∷ cands) =
    let later =
      if k.score == 0
      then cands
      else clear counters (drop (ci + 1) (cover_of corpus k.index)) base cands in
    let rest = choose counters corpus (ci + 1) base later in
    if k.score == 0 then rest else k.index ∷ rest

unfoldable pub member : ℕ → List ℕ → Bool
member i [] = false
member i (x ∷ xs) = (i == x) || member i xs

unfoldable pub mark : ℕ → List ℕ → List Input → List Input
unfolding member
mark idx favored [] = []
mark idx favored (inp ∷ corpus) =
    record inp { favored = member idx favored } ∷ mark (idx + 1) favored corpus

-- The last loop. The lower score of an input that is not favored enters its sum alone: the source assigns
-- it to the loop's copy of the input.
unfoldable pub running : ℕ → List Input → List Input
running sum [] = []
running sum (inp ∷ corpus) =
    let score = if inp.favored then inp.score else min_score in
    record inp { running_score_sum = sum + score } ∷ running (sum + score) corpus

unfoldable pub favored_indices : Bool → Table → List Input → List ℕ
unfolding nominate_all choose
favored_indices counters corpus_cover corpus =
    choose counters corpus 0 corpus_cover
      (nominate_all counters 0 corpus corpus_cover (replicate cover_size no_candidate))

module _ (raw_score : List Input → Input → ℕ) (counters : Bool) where
  unfoldable pub score_all : List Input → List Input
  unfolding clamp
  score_all corpus =
      map (λ (inp : Input). record inp { score = clamp (raw_score corpus inp) }) corpus

  -- It is called on a corpus that has an input: on an empty one the source would divide by zero.
  unfoldable pub update_scores : Table → List Input → List Input
  unfolding score_all favored_indices mark running
  update_scores corpus_cover corpus =
      let scored = score_all corpus in
      running 0 (mark 0 (favored_indices counters corpus_cover scored) scored)
