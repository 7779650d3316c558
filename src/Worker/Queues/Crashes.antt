-- ===== src/Worker/Queues/Crashes.antt =====
-- `processCrasher` of go-fuzz/worker.go: what a minimised crasher is.
use mathlib.Core.Bool.{false≢true}
use go_fuzz.Base.{
  ◌≤◌, ◌≡◌, refl, ◌⊎◌, inl, inr, Bool, true, false, List, length, Outcome, done, panic, no_fuel,
  ◌>>=◌, Returns, if◌then◌else◌, Bool-cases, bytes_eq, bytes_eq→≡, arith,
}
use go_fuzz.Bytes.{Bytes}
use go_fuzz.Types.{NewCrasherArgs}
use go_fuzz.Hub.{Sigs}
use go_fuzz.Worker.Minimize.{Round, returned, going}
use go_fuzz.Worker.Minimize.Loops.{result}
use go_fuzz.Worker.Minimize.Laws.{minimize_input-Returns}
use go_fuzz.Worker.Suppression.{extract_suppression}
use go_fuzz.Worker.Queues.{TestResult, Attempt, same_crash, finished, process_crasher}

either :
    {A : Type 0} (Q : A → Type 0) (b : Bool) (x y : Outcome A)
    → Returns Q x
    → Returns Q y
    → Returns Q (if b then x else y)
either Q true x y h k = h
either Q false x y h k = k

module _ (hash : Bytes → Bytes) (lines : Bytes → List Bytes) {E : Type 0}
    (run : Bytes → E → TestResult × E) (late : E → Bool) (suppressions : Sigs) where
  -- The input that was found, or one with a run that crashed with the same suppression and did not hang.
  abbrev pub Same : NewCrasherArgs → Bytes → Type 0
  Same crash c =
      (c ≡ crash.content)
      ⊎ ((env : E) × ((run c env).0.crashed ≡ true)
          × ((run c env).0.hanged ≡ false)
          × (crash.suppression ≡ extract_suppression lines (run c env).0.output))

  same_crash-Same :
      (crash : NewCrasherArgs) (c : Bytes) (s : Attempt hash lines run late suppressions)
      → (same_crash hash lines run late suppressions crash c s).0 ≡ true
      → Same crash c
  unfolding same_crash
  same_crash-Same crash c s e =
      let r = (run c s.env).0 in
      elim (Bool-cases r.crashed) [
        | inr f ↦ absurd (false≢true (rw f at e))
        | inl t ↦ elim (Bool-cases r.hanged) [
          | inl u ↦ absurd (false≢true (rw (t, u) at e))
          | inr u ↦
              elim (Bool-cases (bytes_eq crash.suppression (extract_suppression lines r.output))) [
                | inl v ↦ inr (
                  s.env,
                  t,
                  u,
                  bytes_eq→≡ crash.suppression (extract_suppression lines r.output) v,
                )
                | inr v ↦ absurd (false≢true (rw (t, u, v) at e))
              ]
        ]
      ]

  -- Minimising a crasher ends, and what is sent to the hub has the suppression and at most the length of
  -- what was found; it is the input that was found, or an input with a run that crashed with that
  -- suppression and did not hang.
  pub process_crasher-Same :
      (crash : NewCrasherArgs) (s : Attempt hash lines run late suppressions)
      → Returns
          (λ r.
            Same crash r.0.content
            × (r.0.suppression ≡ crash.suppression)
            × (length r.0.content ≤ length crash.content))
          (process_crasher hash lines run late suppressions crash s)
  unfolding process_crasher
  process_crasher-Same crash s =
      either _ crash.hanging _ _ (inl refl, refl, omega arith)
        (finish _ (
          minimize_input-Returns (λ a. late a.env)
            (same_crash hash lines run late suppressions crash) (Same crash) (λ a. Unit)
            (λ c a u. same_crash-Same crash c a) (λ c a u. tt) crash.content true _ (inl refl) tt))
    where
      finish :
          (o : Outcome (Round (Attempt hash lines run late suppressions)))
          → Returns
              (λ r. Same crash (result r) × (length (result r) ≤ length crash.content) × Unit)
              o
          → Returns
              (λ r.
                Same crash r.0.content
                × (r.0.suppression ≡ crash.suppression)
                × (length r.0.content ≤ length crash.content))
              (o >>= λ r. done (finished hash lines run late suppressions crash r))
      finish (done (returned res s')) h = (h.0, refl, h.1)
      finish (done (going res s')) h = (h.0, refl, h.1)
      finish panic h = h
      finish no_fuel h = h
