-- ===== src/Hub.antt =====
-- go-fuzz/hub.go: the part of a worker process that keeps the corpus its workers share. A handler of the
-- loop's `select` is one step. `hash` is SHA-1, and the generator of a new verse is an argument; what a
-- handler sends to the coordinator is part of its result, and a call that fails is not modelled.
pub mod Scores
pub mod Newcomers
pub mod Herd
pub mod Ticker
use go_fuzz.Base.{
  ℕ, zero, suc, ◌+◌, ◌-◌, Bool, true, false, not, ◌||◌, Option, none, some, List, [], ◌∷◌, ◌++◌,
  length, Outcome, done, panic, ◌>>=◌, ltb, ◌==◌, if◌then◌else◌, lookup, map,
}
use go_fuzz.Bytes.{Bytes}
use go_fuzz.Cover
use go_fuzz.Pcg.{Rand}
use go_fuzz.Versifier.Verse.{Verse, build_verse}
use go_fuzz.Cover.{Table, compare_cover, make_copy}
use go_fuzz.Types.{
  ExecType, exec_bootstrap, Input, CoordinatorInput, NewInputArgs, NewCrasherArgs, SyncArgs,
}

abbrev pub min_score : ℕ
min_score = 1

abbrev pub max_score : ℕ
max_score = 1000

abbrev pub def_score : ℕ
def_score = 10

abbrev pub Sigs : Type 0
Sigs = List (Bytes × Unit {0})

-- `Hub` with the `ROData` that it publishes; a set of hashes is a
-- list of keys.
pub record Hub : Type 0 where
  pub id : ℕ
  pub corpus : List Input
  pub corpus_cover : Table
  pub bad_inputs : Sigs
  pub suppressions : Sigs
  pub verse : Option Verse
  pub max_cover : Table
  pub corpus_sigs : Sigs
  pub corpus_stale : Bool
  pub corpus_cover_size : ℕ
  pub triage_queue : List CoordinatorInput
  pub execs : ℕ
  pub restarts : ℕ

-- `ro1.corpus[len(ro1.corpus)-1].runningScoreSum`, or 0
unfoldable pub last_sum : List Input → ℕ
last_sum [] = 0
last_sum (inp ∷ []) = inp.running_score_sum
last_sum (inp ∷ next ∷ corpus) = last_sum (next ∷ corpus)

-- `updateMaxCover` of the hub: `seen` is the table that the read without the lock gave, and `current` the
-- one under the lock.
unfoldable pub update_max_cover : Bool → Table → Table → Table → Outcome (Table × Bool)
update_max_cover counters seen current cover = do
  new_to_seen ← compare_cover seen cover
  if not new_to_seen then done (current, false) else do
    new ← compare_cover current cover
    if not new then done (current, false) else do
      (updated, n) ← Cover.update_max_cover counters (make_copy current) cover
      done (updated, true)

unfoldable is_bootstrap : ExecType → Bool
is_bootstrap exec_bootstrap = true
is_bootstrap _ = false

-- The input with the default score, behind the corpus.
unfoldable pub enter : Input → List Input → List Input
unfolding last_sum
enter input corpus =
    corpus
    ++ record input { score = def_score; running_score_sum = last_sum corpus + def_score } ∷ []

-- A verse is built from an input with a positive result, and from one that brings the fuzzer up.
unfoldable pub next_verse : Rand → Input → Option Verse → Outcome (Option Verse)
unfolding is_bootstrap
next_verse r input old =
    if ltb 0 input.res || is_bootstrap input.typ then build_verse r old input.content else done old

module _ (hash : Bytes → Bytes) (counters : Bool) where
  unfoldable pub take_input : Rand → Input → Hub → Outcome (Hub × Option NewInputArgs)
  unfolding enter update_max_cover next_verse
  take_input r input hub = do
    (max_cover, grew) ← update_max_cover counters hub.max_cover hub.max_cover input.cover
    (corpus_cover, size) ← Cover.update_max_cover counters (make_copy hub.corpus_cover) input.cover
    verse ← next_verse r input hub.verse
    done (
      record hub {
        corpus_sigs = (hash input.content, tt) ∷ hub.corpus_sigs;
        corpus_stale = true;
        corpus = enter input hub.corpus;
        max_cover = max_cover;
        corpus_cover = corpus_cover;
        corpus_cover_size = size;
        verse = verse;
      },
      if input.mine
          then some (record { id = hub.id; content = input.content; prio = input.depth })
          else none,
    )

  -- `case input := <-hub.newInputC`
  unfoldable pub new_input : Rand → Input → Hub → Outcome (Hub × Option NewInputArgs)
  unfolding take_input
  new_input r input hub = do
    new ← compare_cover hub.corpus_cover input.cover
    if not new then done (hub, none) else elim (lookup (hash input.content) hub.corpus_sigs) [
      | some _ ↦ done (hub, none)
      | none ↦ take_input r input hub
    ]

  -- `case crash := <-hub.newCrasherC`; every crasher goes to the coordinator.
  unfoldable pub new_crasher : Bool → NewCrasherArgs → Hub → Hub
  new_crasher dup crash hub = record hub {
    bad_inputs =
        if crash.hanging then (hash crash.content, tt) ∷ hub.bad_inputs else hub.bad_inputs;
    suppressions =
        if dup then hub.suppressions else (hash crash.suppression, tt) ∷ hub.suppressions;
  }

  -- `case s := <-hub.syncC`
  unfoldable pub worker_sync : ℕ → ℕ → Hub → Hub
  worker_sync execs restarts hub = record hub {
    execs = hub.execs + execs;
    restarts = hub.restarts + restarts;
  }
