-- ===== src/Worker/Session.antt =====
-- What a worker of go-fuzz/worker.go does around the runs of the test binaries: `testInput`,
-- `testInputSonar`, `processSonarData` with its runs, and `smash`. A run reads one `ROData`.
use go_fuzz.Base.{
  ℕ, zero, suc, ◌+◌, Bool, true, none, some, List, [], ◌∷◌, length, Outcome, done, panic, ◌>>=◌,
  ltb, if◌then◌else◌, lookup,
}
use go_fuzz.Bytes.{Bytes}
use go_fuzz.Cover.{Table}
use go_fuzz.Defs.{max_input_size}
use go_fuzz.Hub.{Sigs}
use go_fuzz.Mutator.Corpus.{RoData}
use go_fuzz.Mutator.Run.{mutate}
use go_fuzz.Pcg.{Rand}
use go_fuzz.Sonar.Hints.{process_samples}
use go_fuzz.Sonar.Sample.{parse_sonar_data}
use go_fuzz.Sonar.Site.{SonarSite}
use go_fuzz.Types.{ExecType, exec_fuzz, exec_smash, exec_sonar, exec_sonar_hint}
use go_fuzz.Worker.Queues.{TestResult, Worker, test_input_impl}
use go_fuzz.Worker.Smash.{smash_passes}

-- What is fixed while a worker handles one input: the test binaries, which change an `E` that holds the
-- clock, the published `ROData`, the flags, the hash, and what the code uses of Go's libraries.
pub record Setup (E : Type 0) : Type 0 where
  pub run_cover : Bytes → E → TestResult × E
  pub run_sonar : Bytes → E → TestResult × E
  pub late : E → Bool
  pub hash : Bytes → Bytes
  pub lines : Bytes → List Bytes
  pub lower : Bytes → Bytes
  pub upper : Bytes → Bytes
  pub counters : Bool
  pub sonar_flag : Bool
  pub ro : RoData
  pub corpus_cover : Table
  pub bad_inputs : Sigs
  pub suppressions : Sigs
  -- bounds the draws of the mutator
  pub fuel : ℕ

pub record Session (E : Type 0) : Type 0 where
  pub worker : Worker
  pub env : E
  pub sites : List SonarSite
  pub rand : Rand

module _ {E : Type 0} where
  -- `TestBinary.test` refuses what does not fit into the region.
  unfoldable pub run_binary : (Bytes → E → TestResult × E) → Bytes → E → Outcome (TestResult × E)
  run_binary run content env =
      if ltb max_input_size (length content) then panic else done (run content env)

  module _ (p : Setup E) where
    unfoldable pub test_run :
        (Bytes → E → TestResult × E)
        → Bytes
        → ℕ
        → ExecType
        → Session E
        → Outcome (Session E × Bytes)
    unfolding run_binary test_input_impl
    test_run run content depth typ s = elim (lookup (p.hash content) p.bad_inputs) [
      | some _ ↦ done (s, [])
      | none ↦ do
        (r, env) ← run_binary run content s.env
        (w, sonar) ←
            test_input_impl p.hash p.lines p.counters p.bad_inputs p.suppressions r content depth
              typ s.worker
        done (record s { worker = w; env = env }, sonar)
    ]

    unfoldable pub test_all : List Bytes → ℕ → ExecType → Session E → Outcome (Session E)
    unfolding test_run
    test_all [] depth typ s = done s
    test_all (content ∷ rest) depth typ s =
        test_run p.run_cover content depth typ s >>= λ r. test_all rest depth typ r.0

    unfoldable pub process_sonar_data : Bytes → Bytes → ℕ → Bool → Session E → Outcome (Session E)
    unfolding parse_sonar_data process_samples test_all
    process_sonar_data content region depth is_smash s = do
      samples ← parse_sonar_data (length s.sites) region
      (hints, sites) ← process_samples p.lower p.upper is_smash content samples s.sites []
      test_all hints (depth + 1) exec_sonar_hint (record s { sites = sites })

    -- `n` random mutations of the input, each tested.
    unfoldable pub mutate_times : ℕ → Bytes → ℕ → Session E → Outcome (Session E)
    unfolding test_run mutate
    mutate_times zero content depth s = done s
    mutate_times (suc n) content depth s = do
      (tmp, rand) ← mutate p.fuel p.ro content s.rand
      (s', sonar) ← test_run p.run_cover tmp (depth + 1) exec_fuzz (record s { rand = rand })
      mutate_times n content depth s'

    abbrev pub mutations_of_smash : ℕ
    mutations_of_smash = 10000

    unfoldable pub smash_sonar : Bytes → ℕ → Session E → Outcome (Session E)
    unfolding process_sonar_data
    smash_sonar content depth s = do
      (s', region) ← test_run p.run_sonar content depth exec_sonar s
      process_sonar_data content region depth true s'

    -- The session and the input as the passes leave it.
    unfoldable pub smash : Bytes → ℕ → Session E → Outcome (Session E × Bytes)
    unfolding smash_sonar smash_passes mutate_times
    smash content depth s = do
      s1 ← if p.sonar_flag then smash_sonar content depth s else done s
      let (tests, content') = smash_passes content
      s2 ← test_all tests depth exec_smash s1
      s3 ← mutate_times mutations_of_smash content' depth s2
      done (s3, content')
