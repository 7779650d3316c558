-- ===== src/Tests/Workers.antt =====
-- The theorems on the worker, with programs under test that are plain functions.
use go_fuzz.Base.{
  ℕ, ◌+◌, ◌≤◌, ◌≡◌, refl, Bool, true, false, some, List, [], ◌∷◌, ◌++◌, length, Returns, All,
  bytes_eq, leb, leb→le, arith,
}
use go_fuzz.Bytes.{Bytes}
use go_fuzz.Types.{NewCrasherArgs}
use go_fuzz.Mutator.Text.{pos}
use go_fuzz.Worker.Minimize.{minimize_input}
use go_fuzz.Worker.Minimize.Loops.{result, state}
use go_fuzz.Worker.Minimize.Laws.{minimize_input-Returns}
use go_fuzz.Worker.Suppression.{
  panic_text, runtime_text, killed_text, starts_crash, function_name, extract_suppression,
}
use go_fuzz.Worker.Suppression.Phases.{
  crash_text, stack, next_stack, or_else, extract_suppression-crash_text,
}
use go_fuzz.Worker.Queues.{TestResult, Attempt, process_crasher}
use go_fuzz.Worker.Smash.{smash_passes, walking_bits}
use go_fuzz.Worker.Smash.Restores.{Good}
use go_fuzz.Worker.Smash.Words.{later_passes, in_turn, starts, smash_passes-Good}
use go_fuzz.Worker.Queues.Crashes.{Same, process_crasher-Same}

-- Inputs of two bytes and more are accepted, and the runs are counted.
abbrev accepts : Bytes → ℕ → Bool × ℕ
accepts c runs = (leb 2 (length c), runs + 1)

abbrev never : ℕ → Bool
never runs = false

abbrev content : Bytes
content = 1 ∷ 2 ∷ 3 ∷ 4 ∷ 5 ∷ []

minimize_input-Returns_example :
    Returns
      (λ r. (2 ≤ length (result r)) × (length (result r) ≤ length content) × (7 ≤ state r))
      (minimize_input never accepts content true 7)
minimize_input-Returns_example =
    minimize_input-Returns never accepts (λ c. 2 ≤ length c) (λ runs. 7 ≤ runs)
      (λ c s v e. leb→le 2 (length c) e) (λ c s v. omega arith) content true 7 (omega arith)
      (omega arith)

-- A panic with the stack of the runtime before that of the program.
abbrev report : Bytes → List Bytes
report out =
    (panic_text ++ out)
    ∷ []
    ∷ runtime_text
    ∷ (b'm' ∷ b'(' ∷ [])
    ∷ []
    ∷ (b'f' ∷ b'(' ∷ b')' ∷ [])
    ∷ []
    ∷ (b'g' ∷ b'(' ∷ [])
    ∷ []

report_suppression :
    crash_text (report (7 ∷ [])) ≡ some (panic_text ++ (7 ∷ b'\n' ∷ b'f' ∷ b'\n' ∷ []))
unfolding crash_text stack next_stack starts_crash bytes_eq function_name
report_suppression = refl

extract_suppression-crash_text_example :
    (extract_suppression report (7 ∷ []) ≡ or_else (crash_text (report (7 ∷ []))) (7 ∷ []))
    × (starts_crash killed_text ≡ false)
extract_suppression-crash_text_example = extract_suppression-crash_text report (7 ∷ [])

abbrev as_is : Bytes → Bytes
as_is c = c

abbrev alone : Bytes → List Bytes
alone out = out ∷ []

-- The program crashes on inputs of two bytes and more.
abbrev runs : Bytes → ℕ → TestResult × ℕ
runs c env = (
  record {
    res = pos 0;
    ns = 1;
    cover = [];
    sonar = [];
    output = b'o' ∷ b'h' ∷ [];
    crashed = leb 2 (length c);
    hanged = false;
  },
  env + 1,
)

abbrev crasher : NewCrasherArgs
crasher = record { content = content; error = []; suppression = b'o' ∷ b'h' ∷ []; hanging = false }

abbrev attempt : Attempt as_is alone runs never []
attempt = record {
  worker = record { triage_queue = []; crasher_queue = []; max_cover = [] };
  error = [];
  env = 0;
}

process_crasher-Same_example :
    Returns
      (λ r.
        Same as_is alone runs never [] crasher r.0.content
        × (r.0.suppression ≡ crasher.suppression)
        × (length r.0.content ≤ length content))
      (process_crasher as_is alone runs never [] crasher attempt)
process_crasher-Same_example = process_crasher-Same as_is alone runs never [] crasher attempt

smash_passes-Good_example :
    (smash_passes ≡ in_turn (walking_bits 1) later_passes)
    × All (λ s. s ≡ content) (starts (walking_bits 1 ∷ later_passes) content)
    × Good content smash_passes
smash_passes-Good_example =
    smash_passes-Good content
      (omega arith, (omega arith, (omega arith, (omega arith, (omega arith, tt))))) (omega arith)
