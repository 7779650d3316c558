-- ===== src/Worker/Triage.antt =====
-- `triageInput` of go-fuzz/worker.go: the metrics of a new input, its minimisation or smashing, and the
-- input that is sent to the hub.
pub mod Runs
pub mod Minimized
pub mod Sent
use go_fuzz.Base.{
  ℕ, zero, suc, ◌+◌, ◌^◌, Bool, true, false, not, Option, none, some, List, [], ◌∷◌, length, take,
  replicate, copy, Outcome, done, panic, no_fuel, ◌>>=◌, ltb, ◌==◌, if◌then◌else◌,
}
use go_fuzz.Bytes.{Bytes}
use go_fuzz.Cover.{Table, find_new_cover, worse_cover}
use go_fuzz.Defs.{cover_size, max_input_size}
use go_fuzz.Mutator.Text.{ℤ, pos, negsuc}
use go_fuzz.Types.{CoordinatorInput, Input, ExecType, exec_minimize_input}
use go_fuzz.Worker.Minimize.{Round, returned, going, minimize_input}
use go_fuzz.Worker.Queues.{TestResult, Worker, note_crasher, note_new_input}
use go_fuzz.Worker.Session.{Setup, Session, run_binary, smash}

unfoldable pub cut_input : Bytes → Bytes
cut_input content =
    if ltb max_input_size (length content) then take max_input_size content else content

-- The least time, the counters and the largest result of the runs so far; a table that is nil is `none`.
pub record Metrics : Type 0 where
  pub cover : Option Table
  pub res : ℕ
  pub exec_time : ℕ

-- A counter without a place in the table of the first run panics.
unfoldable pub max_into : Table → Table → Outcome Table
max_into base [] = done base
max_into [] (v ∷ cover) = panic
max_into (x ∷ base) (v ∷ cover) =
    max_into base cover >>= λ rest. done ((if ltb x v then v else x) ∷ rest)

unfoldable pub add_cover : Option Table → Table → Outcome Table
unfolding max_into
add_cover none cover = done (copy (replicate cover_size 0) cover)
add_cover (some table) cover = max_into table cover

-- The result starts at 0, so that it is not negative.
unfoldable pub max_res : ℕ → ℤ → ℕ
max_res n (pos m) = if ltb n m then m else n
max_res n (negsuc m) = n

unfoldable pub same_res : ℕ → ℤ → Bool
same_res n (pos m) = n == m
same_res n (negsuc m) = false

unfoldable pub measure : TestResult → Metrics → Outcome Metrics
unfolding add_cover max_res
measure r m = add_cover m.cover r.cover >>= λ cover. done (record {
  cover = some cover;
  res = max_res m.res r.res;
  exec_time = if ltb r.ns m.exec_time then r.ns else m.exec_time;
})

abbrev pub no_metrics : Metrics
no_metrics = record { cover = none; res = 0; exec_time = 2 ^ 60 }

unfoldable pub count_covered : Table → ℕ
count_covered [] = 0
count_covered (v ∷ cover) = let n = count_covered cover in if v == 0 then n else n + 1

-- What the predicate of `triageInput` changes; a panic in it ends the program, and stays.
pub record Search (E : Type 0) : Type 0 where
  pub worker : Outcome Worker
  pub env : E

module _ {E : Type 0} (p : Setup E) where
  abbrev pub crashed_run : Bytes → TestResult → E → Session E → Session E
  crashed_run content r env s = record s {
    worker = note_crasher p.hash p.lines p.suppressions content r.output r.hanged s.worker;
    env = env;
  }

  -- `n` runs of the input. A crash ends the triage, and gives no metrics.
  unfoldable pub triage_runs :
      ℕ → Bytes → Metrics → Session E → Outcome (Session E × Option Metrics)
  unfolding run_binary measure note_crasher
  triage_runs zero content m s = done (s, some m)
  triage_runs (suc n) content m s = run_binary p.run_cover content s.env >>= λ (r, env).
      if r.crashed
      then done (crashed_run content r env s, none)
      else measure r m >>= λ m'. triage_runs n content m' (record s { env = env })

  -- A candidate that is not taken, with the reason to note it.
  unfoldable pub refuse : Bytes → ℕ → TestResult → E → Outcome Bool → Search E → Bool × Search E
  unfolding note_new_input
  refuse candidate depth r env (done true) s = (
    false,
    record {
      env = env;
      worker = s.worker >>= λ w.
          note_new_input p.counters candidate r.cover r.res (depth + 1) exec_minimize_input w;
    },
  )
  refuse candidate depth r env (done false) s = (true, record s { env = env })
  refuse candidate depth r env panic s = (false, record { env = env; worker = panic })
  refuse candidate depth r env no_fuel s = (false, record { env = env; worker = no_fuel })

  -- The predicate: the same result, and all of the new cover. No candidate is longer than the input,
  -- which fits into the region.
  unfoldable pub keeps_new_cover : Table → ℕ → ℕ → Bytes → Search E → Bool × Search E
  unfolding refuse same_res note_crasher
  keeps_new_cover new_cover res depth candidate s =
      let (r, env) = p.run_cover candidate s.env in
      if r.crashed
      then (
        false,
        record {
          env = env;
          worker = s.worker >>= λ w.
              done (note_crasher p.hash p.lines p.suppressions candidate r.output r.hanged w);
        },
      )
      else refuse candidate depth r env
          (if not (same_res res r.res) then done true else worse_cover new_cover r.cover) s

  abbrev pub search_end : Session E → Round (Search E) → Outcome (Session E × Bytes)
  search_end s (returned res a) = a.worker >>= λ w. done (record s { worker = w; env = a.env }, res)
  search_end s (going res a) = a.worker >>= λ w. done (record s { worker = w; env = a.env }, res)

  unfoldable pub minimize_new : Table → ℕ → ℕ → Bytes → Session E → Outcome (Session E × Bytes)
  unfolding minimize_input keeps_new_cover
  minimize_new new_cover res depth content s =
      minimize_input (λ a. p.late a.env) (keeps_new_cover new_cover res depth) content false
        (record { worker = done s.worker; env = s.env })
      >>= search_end s

  abbrev pub new_input_of : CoordinatorInput → Bytes → Table → Metrics → Input
  new_input_of input content cover m = record {
    mine = not input.minimized;
    content = content;
    cover = cover;
    cover_size = count_covered cover;
    res = m.res;
    depth = input.prio;
    typ = input.typ;
    exec_time = m.exec_time;
    favored = false;
    score = 0;
    running_score_sum = 0;
  }

  -- An input that was not minimised, with its new cover if there is any.
  unfoldable pub triage_found :
      CoordinatorInput
      → Bytes
      → Table
      → Metrics
      → Session E
      → Table × Bool
      → Outcome (Session E × Option Input)
  unfolding minimize_new
  triage_found input content cover m s (new_cover, false) = done (s, none)
  triage_found input content cover m s (new_cover, true) =
      minimize_new new_cover m.res input.prio content s >>= λ r.
      done (r.0, some (new_input_of input r.1 cover m))

  -- After the runs: the session, and the input for the hub unless it is covered by another.
  unfoldable pub triage_rest :
      CoordinatorInput → Bytes → Table → Metrics → Session E → Outcome (Session E × Option Input)
  unfolding triage_found smash count_covered
  triage_rest input content cover m s =
      if not input.minimized
      then find_new_cover p.corpus_cover cover >>= triage_found input content cover m s
      else if not input.smashed
      then (smash p content input.prio s >>= λ r. done (r.0, some (new_input_of input r.1 cover m)))
      else done (s, some (new_input_of input content cover m))

  abbrev pub after_runs :
      CoordinatorInput → Bytes → Session E → Option Metrics → Outcome (Session E × Option Input)
  after_runs input content s none = done (s, none)
  after_runs input content s (some m) = elim m.cover [
    | none ↦ done (s, none)
    | some cover ↦ triage_rest input content cover m s
  ]

  unfoldable pub triage_input : CoordinatorInput → Session E → Outcome (Session E × Option Input)
  unfolding cut_input triage_runs triage_rest
  triage_input input s =
      let content = cut_input input.content in
      triage_runs 3 content no_metrics s >>= λ r. after_runs input content r.0 r.1
