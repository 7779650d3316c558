-- ===== src/Hub/Ticker.antt =====
-- The handler of the sync ticker in the loop of go-fuzz/hub.go.
use go_fuzz.Base.{ℕ, Bool, false, List, ◌++◌, if◌then◌else◌}
use go_fuzz.Types.{Input, CoordinatorInput, SyncArgs}
use go_fuzz.Hub.{Hub}
use go_fuzz.Hub.Scores.{update_scores}

module _ (raw_score : List Input → Input → ℕ) (counters : Bool) where
  -- `case <-syncTicker`: the state behind the call, which has answered with `received`, and what was sent.
  unfoldable pub sync : List CoordinatorInput → Hub → Hub × SyncArgs
  unfolding update_scores
  sync received hub = (
    record hub {
      execs = 0;
      restarts = 0;
      triage_queue = hub.triage_queue ++ received;
      corpus =
          if hub.corpus_stale
          then update_scores raw_score counters hub.corpus_cover hub.corpus
          else hub.corpus;
      corpus_stale = false;
    },
    record {
      id = hub.id;
      execs = hub.execs;
      restarts = hub.restarts;
      cover_fullness = hub.corpus_cover_size;
    },
  )
