-- ===== src/Tests/Hubs.antt =====
-- The theorems on the hub, with one input in the corpus.
use go_fuzz.Base.{
  ℕ, zero, suc, ◌≤◌, ◌≡◌, refl, true, false, none, List, [], ◌∷◌, get_or, replicate, All₂, done,
  ◌>>=◌, Returns, arith,
}
use go_fuzz.Bytes.{Bytes}
use go_fuzz.Cover.{round_up_cover}
use go_fuzz.Cover.Update.{covered}
use go_fuzz.Defs.{cover_size}
use go_fuzz.Pcg.{Rand}
use go_fuzz.Types.{Input, exec_fuzz}
use go_fuzz.Hub.{Hub, update_max_cover, new_input}
use go_fuzz.Hub.Herd.{update_max_cover_optimistic}
use go_fuzz.Hub.Newcomers.{IsSound, new_input-IsSound, new_input_twice}
use go_fuzz.Hub.Scores.{hits, cover_of, favored_indices, update_scores}
use go_fuzz.Hub.Scores.Candidates.{Reaches}
use go_fuzz.Hub.Scores.Favored.{Favored, favored_indices-Favored}
use go_fuzz.Hub.Scores.Sums.{Climbs, update_scores-Climbs, weighted_index-share}
use go_fuzz.Mutator.Run.{running_sums, weighted_index}
use go_fuzz.Tests.Covers.{filled, length-filled, filled-Bytes}

abbrev found : ℕ → Input
found sum = record {
  mine = true;
  content = 1 ∷ 2 ∷ [];
  cover = filled 3;
  cover_size = 1;
  res = 0;
  depth = 0;
  typ = exec_fuzz;
  exec_time = 1;
  favored = false;
  score = 10;
  running_score_sum = sum;
}

abbrev corpus : List Input
corpus = found 10 ∷ found 30 ∷ []

reaches : Reaches true corpus 0 7 (get_or (filled 3) 7 0)
unfolding hits cover_of round_up_cover filled
reaches = refl

favored_indices-Favored_example :
    Favored true corpus (favored_indices true (filled 3) corpus) 7 (get_or (filled 3) 7 0)
favored_indices-Favored_example =
    favored_indices-Favored true corpus (filled 3) 7 0 (length-filled 3) (omega arith) (omega arith)
      reaches (omega arith)

abbrev same_score : List Input → Input → ℕ
same_score inputs inp = 5

update_scores-Climbs_example : Climbs 0 (update_scores same_score true (filled 3) corpus)
update_scores-Climbs_example = update_scores-Climbs same_score true (filled 3) corpus

weighted_index-share_example : weighted_index (running_sums corpus) 15 ≡ 1
weighted_index-share_example =
    weighted_index-share corpus 1 15 (omega arith, (omega arith, tt)) (omega arith) (omega arith)
      (omega arith)

All₂-replicate : (n a b : ℕ) → a ≤ b → All₂ ◌≤◌ (replicate n a) (replicate n b)
All₂-replicate zero a b h = tt
All₂-replicate (suc n) a b h = (h, All₂-replicate n a b h)

older : All₂ ◌≤◌ (filled 0) (filled 1)
unfolding filled
older = All₂-replicate cover_size 0 1 (omega arith)

update_max_cover_optimistic_example :
    update_max_cover true (filled 0) (filled 1) (filled 3)
    ≡ update_max_cover true (filled 1) (filled 1) (filled 3)
update_max_cover_optimistic_example =
    update_max_cover_optimistic true (filled 0) (filled 1) (filled 3) (length-filled 0)
      (length-filled 1) (length-filled 3) older

abbrev hub : Hub
hub = record {
  id = 1;
  corpus = [];
  corpus_cover = filled 0;
  bad_inputs = [];
  suppressions = [];
  verse = none;
  max_cover = filled 0;
  corpus_sigs = [];
  corpus_stale = false;
  corpus_cover_size = 0;
  triage_queue = [];
  execs = 0;
  restarts = 0;
}

covered-replicate : (n : ℕ) → covered (replicate n 0) ≡ 0
covered-replicate zero = refl
covered-replicate (suc n) = omega (arith, covered-replicate n)

none_covered : 0 ≡ covered (filled 0)
unfolding filled
none_covered = omega (arith, covered-replicate cover_size)

hub-IsSound : IsSound hub
hub-IsSound = record {
  climbs = tt;
  corpus_size = length-filled 0;
  max_size = length-filled 0;
  stored = none_covered;
  verse = tt;
}

abbrev as_is : Bytes → Bytes
as_is c = c

abbrev seed : Rand
seed = record { state = 1; inc = 3 }

new_input-IsSound_example : Returns (λ out. IsSound out.0) (new_input as_is true seed (found 0) hub)
new_input-IsSound_example =
    new_input-IsSound as_is true seed (found 0) hub (length-filled 3) hub-IsSound

new_input_twice_example :
    (new_input as_is true seed (found 0) hub >>= λ out. new_input as_is true seed (found 0) out.0)
    ≡ (new_input as_is true seed (found 0) hub >>= λ out. done (out.0, none))
new_input_twice_example =
    new_input_twice as_is true seed seed (found 0) hub (length-filled 3) hub-IsSound filled-Bytes
