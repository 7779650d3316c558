-- ===== src/Worker/Queues.antt =====
-- `testInputImpl`, `noteNewInput`, `noteCrasher` and `processCrasher`. The test binary is a parameter:
-- `run` gives the result of a run and what the run changes, of type `E`, in which the clock stands too.
pub mod Crashes
use go_fuzz.Base.{
  ℕ, ◌+◌, Bool, true, false, not, ◌&&◌, ◌||◌, Option, none, some, List, [], ◌∷◌, ◌++◌, length,
  Outcome, done, panic, ◌>>=◌, if◌then◌else◌, lookup, bytes_eq,
}
use go_fuzz.Bytes.{Bytes}
use go_fuzz.Cover.{Table}
use go_fuzz.Types.{ExecType, CoordinatorInput, NewCrasherArgs}
use go_fuzz.Hub
use go_fuzz.Hub.{Sigs}
use go_fuzz.Mutator.Text.{ℤ, pos, negsuc}
use go_fuzz.Worker.Minimize.{Round, returned, going, minimize_input}
use go_fuzz.Worker.Suppression.{extract_suppression}

-- What `TestBinary.test` returns.
pub record TestResult : Type 0 where
  pub res : ℤ
  pub ns : ℕ
  pub cover : Table
  pub sonar : Bytes
  pub output : Bytes
  pub crashed : Bool
  pub hanged : Bool

-- The queues of a worker, and the table that the hub shares with it.
pub record Worker : Type 0 where
  pub triage_queue : List CoordinatorInput
  pub crasher_queue : List NewCrasherArgs
  pub max_cover : Table

abbrev is_negative : ℤ → Bool
is_negative (pos n) = false
is_negative (negsuc n) = true

unfoldable pub note_new_input : Bool → Bytes → Table → ℤ → ℕ → ExecType → Worker → Outcome Worker
note_new_input counters content cover res depth typ w = if is_negative res then done w else do
  (max_cover, grew) ← Hub.update_max_cover counters w.max_cover w.max_cover cover
  let input : CoordinatorInput = record {
    content = content;
    prio = depth;
    typ = typ;
    minimized = false;
    smashed = false;
  }
  done (record w {
    max_cover = max_cover;
    triage_queue = if grew then w.triage_queue ++ input ∷ [] else w.triage_queue;
  })

module _ (hash : Bytes → Bytes) (lines : Bytes → List Bytes) where
  unfoldable pub note_crasher : Sigs → Bytes → Bytes → Bool → Worker → Worker
  note_crasher suppressions content output hanged w =
      let supp = extract_suppression lines output in
      elim (lookup (hash supp) suppressions) [
        | some _ ↦ w
        | none ↦ record w {
          crasher_queue =
              w.crasher_queue
              ++ record { content = content; error = output; suppression = supp; hanging = hanged }
                ∷ [];
        }
      ]

  -- The result of the run is given; a known bad input is not run.
  unfoldable pub test_input_impl :
      Bool → Sigs → Sigs → TestResult → Bytes → ℕ → ExecType → Worker → Outcome (Worker × Bytes)
  unfolding note_crasher note_new_input
  test_input_impl counters bad_inputs suppressions r content depth typ w =
      elim (lookup (hash content) bad_inputs) [
        | some _ ↦ done (w, [])
        | none ↦
            if r.crashed
            then done (note_crasher suppressions content r.output r.hanged w, [])
            else do
              w' ← note_new_input counters content r.cover r.res depth typ w
              done (w', r.sonar)
      ]

  module _ {E : Type 0} (run : Bytes → E → TestResult × E) (late : E → Bool)
      (suppressions : Sigs) where
    -- What the predicate of `processCrasher` changes: the queues and `crash.Error`.
    pub record Attempt : Type 0 where
      pub worker : Worker
      pub error : Bytes
      pub env : E

    unfoldable pub same_crash : NewCrasherArgs → Bytes → Attempt → Bool × Attempt
    unfolding note_crasher
    same_crash crash candidate s =
        let (r, env) = run candidate s.env in
        if not r.crashed
        then (false, record s { env = env })
        else if r.hanged || not (bytes_eq crash.suppression (extract_suppression lines r.output))
        then (
          false,
          record s {
            env = env;
            worker = note_crasher suppressions candidate r.output r.hanged s.worker;
          },
        )
        else (true, record s { env = env; error = r.output })

    abbrev pub finished : NewCrasherArgs → Round Attempt → NewCrasherArgs × Attempt
    finished crash (returned res s) = (record crash { content = res; error = s.error }, s)
    finished crash (going res s) = (record crash { content = res; error = s.error }, s)

    -- The crasher that is sent to the hub, with the state behind it.
    unfoldable pub process_crasher : NewCrasherArgs → Attempt → Outcome (NewCrasherArgs × Attempt)
    unfolding same_crash
    process_crasher crash s =
        if crash.hanging
        then done (crash, s)
        else minimize_input (λ a. late a.env) (same_crash crash) crash.content true
            (record s { error = crash.error })
          >>= λ r. done (finished crash r)
