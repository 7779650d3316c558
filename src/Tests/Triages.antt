-- ===== src/Tests/Triages.antt =====
-- The theorem on triage, with a program under test that reaches every block.
use go_fuzz.Base.{
  ◌≡◌, refl, false, true, List, [], ◌∷◌, length, replicate, length-replicate, Returns,
}
use go_fuzz.Base.{ℕ}
use go_fuzz.Defs.{cover_size}
use go_fuzz.Mutator.Text.{pos}
use go_fuzz.Types.{CoordinatorInput, exec_fuzz}
use go_fuzz.Worker.Queues.{TestResult}
use go_fuzz.Worker.Session.{Setup, Session}
use go_fuzz.Worker.Triage.{triage_input, same_res}
use go_fuzz.Worker.Triage.Runs.{HasTable}
use go_fuzz.Worker.Triage.Sent.{IsNew, triage_input-IsNew}

-- Results are compared as numbers.
equal_results : same_res 3 (pos 3) ≡ true
unfolding same_res
equal_results = refl

table : ℕ → List ℕ
table v = replicate cover_size v

table_size : (v : ℕ) → length (table v) ≡ cover_size
unfolding table
table_size v = length-replicate cover_size v

abbrev reaches_all : TestResult
reaches_all = record {
  res = pos 1;
  ns = 5;
  cover = table 1;
  sonar = [];
  output = [];
  crashed = false;
  hanged = false;
}

abbrev setup : Setup ℕ
setup = record {
  run_cover = λ c runs. (reaches_all, runs);
  run_sonar = λ c runs. (reaches_all, runs);
  late = λ runs. false;
  hash = λ c. c;
  lines = λ out. out ∷ [];
  lower = λ c. c;
  upper = λ c. c;
  counters = true;
  sonar_flag = true;
  ro = record { corpus = []; str_lits = []; int_lits = [] };
  corpus_cover = table 0;
  bad_inputs = [];
  suppressions = [];
  fuel = 100;
}

abbrev session : Session ℕ
session = record {
  worker = record { triage_queue = []; crasher_queue = []; max_cover = table 0 };
  env = 0;
  sites = [];
  rand = record { state = 1; inc = 3 };
}

abbrev found : CoordinatorInput
found = record {
  content = b'a' ∷ b'b' ∷ [];
  prio = 2;
  typ = exec_fuzz;
  minimized = false;
  smashed = false;
}

triage_input-IsNew_example :
    Returns
      (λ r.
        HasTable r.0.worker × IsNew setup (λ c runs e. table_size 1) (table_size 0) found refl r.1)
      (triage_input setup found session)
triage_input-IsNew_example =
    triage_input-IsNew setup (λ c runs e. table_size 1) (table_size 0) found refl session
      (table_size 0)
