-- ===== src/Worker/Triage/Runs.antt =====
-- What a worker keeps in `triageInput` of go-fuzz/worker.go: the tables have the fixed size.
use go_fuzz.Base.{
  ℕ, zero, suc, ◌≤◌, ◌≡◌, refl, ◌∙◌, Bool, false, Option, none, some, List, [], ◌∷◌, length,
  length-take, replicate, length-replicate, length-copy, Returns, Returns-bind, Returns-mono, ltb,
  Bool-cases, inl, inr, lookup, arith,
}
use go_fuzz.Bytes.{Bytes}
use go_fuzz.Cover.{Table}
use go_fuzz.Defs.{cover_size, max_input_size}
use go_fuzz.Hub.Newcomers.{update_max_cover_total}
use go_fuzz.Mutator.Text.{ℤ, pos, negsuc}
use go_fuzz.Types.{ExecType}
use go_fuzz.Worker.Queues.{TestResult, Worker, note_crasher, note_new_input}
use go_fuzz.Worker.Session.{Setup, Session, run_binary}
use go_fuzz.Worker.Suppression.{extract_suppression}
use go_fuzz.Worker.Triage.{cut_input, Metrics, max_into, add_cover, measure, triage_runs}

abbrev pub HasTable : Worker → Type 0
HasTable w = length w.max_cover ≡ cover_size

pub note_new_input-HasTable :
    (counters : Bool) (content : Bytes) (cover : Table) (res : ℤ) (depth : ℕ) (typ : ExecType)
    (w : Worker)
    → length cover ≡ cover_size
    → HasTable w
    → Returns HasTable (note_new_input counters content cover res depth typ w)
unfolding note_new_input
note_new_input-HasTable counters content cover (negsuc n) depth typ w p h = h
note_new_input-HasTable counters content cover (pos n) depth typ w p h =
    let (t, b, size, e) = update_max_cover_total counters w.max_cover cover h p in rw e size

pub note_crasher-HasTable :
    (hash : Bytes → Bytes) (lines : Bytes → List Bytes) (suppressions : List (Bytes × Unit {0}))
    (content output : Bytes) (hanged : Bool) (w : Worker)
    → HasTable w
    → HasTable (note_crasher hash lines suppressions content output hanged w)
unfolding note_crasher
note_crasher-HasTable hash lines suppressions content output hanged w h =
    by_lookup (lookup (hash (extract_suppression lines output)) suppressions) _ h
  where
    by_lookup :
        (o : Option (Unit {0})) (w' : Worker)
        → HasTable w'
        → HasTable (elim o [ some _ ↦ w | none ↦ w' ])
    by_lookup none w' k = k
    by_lookup (some u) w' k = h

pub length-cut_input :
    (content : Bytes)
    → (length (cut_input content) ≤ length content) × (length (cut_input content) ≤ max_input_size)
unfolding cut_input
length-cut_input content = elim (Bool-cases (ltb max_input_size (length content))) [
  | inl e ↦ rw e (
    omega (arith, length-take max_input_size content),
    omega (arith, length-take max_input_size content),
  )
  | inr e ↦ rw e (omega arith, ground (arith, e))
]

length-max_into :
    (base cover : Table)
    → length cover ≤ length base
    → Returns (λ t. length t ≡ length base) (max_into base cover)
unfolding max_into
length-max_into base [] h = refl
length-max_into [] (v ∷ cover) h = absurd (omega arith)
length-max_into (x ∷ base) (v ∷ cover) h =
    Returns-bind (λ t. length t ≡ length base) _ (max_into base cover) _
      (length-max_into base cover (omega arith)) λ t e. omega (arith, e)

-- No table yet, or one of the fixed size.
abbrev SizedIfAny : Option Table → Type 0
SizedIfAny none = Unit
SizedIfAny (some t) = length t ≡ cover_size

abbrev pub Sized : Option Table → Type 0
Sized none = ⊥
Sized (some t) = length t ≡ cover_size

Sized-any : (o : Option Table) → Sized o → SizedIfAny o
Sized-any none h = absurd h
Sized-any (some t) h = h

add_cover-Sized :
    (o : Option Table) (cover : Table)
    → length cover ≡ cover_size
    → SizedIfAny o
    → Returns (λ t. length t ≡ cover_size) (add_cover o cover)
unfolding add_cover
add_cover-Sized none cover p h =
    length-copy (replicate cover_size 0) cover ∙ length-replicate {A = ℕ} cover_size 0
add_cover-Sized (some t) cover p h =
    Returns-mono (λ t'. length t' ≡ length t) _ (max_into t cover) (λ t' e. e ∙ h)
      (length-max_into t cover (omega (arith, p, h)))

measure-Sized :
    (r : TestResult) (m : Metrics)
    → length r.cover ≡ cover_size
    → SizedIfAny m.cover
    → Returns (λ m'. Sized m'.cover) (measure r m)
unfolding measure
measure-Sized r m p h =
    Returns-bind (λ t. length t ≡ cover_size) _ (add_cover m.cover r.cover) _
      (add_cover-Sized m.cover r.cover p h) λ t e. e

abbrev pub Measured : Option Metrics → Type 0
Measured none = Unit
Measured (some m) = Sized m.cover

module _ {E : Type 0} (p : Setup E)
    (fixed : (c : Bytes) (env : E)
      → (p.run_cover c env).0.crashed ≡ false
      → length (p.run_cover c env).0.cover ≡ cover_size) where
  -- The runs do not panic, and leave a table of the fixed size unless one crashed.
  pub triage_runs-Measured :
      (n : ℕ) (content : Bytes) (m : Metrics) (s : Session E)
      → length content ≤ max_input_size
      → SizedIfAny m.cover
      → (n ≡ 0 → Sized m.cover)
      → HasTable s.worker
      → Returns (λ r. HasTable r.0.worker × Measured r.1) (triage_runs p n content m s)
  unfolding triage_runs run_binary
  triage_runs-Measured zero content m s l k start h = (h, start refl)
  triage_runs-Measured (suc n) content m s l k start h =
      let r = (p.run_cover content s.env).0 in
      let env = (p.run_cover content s.env).1 in
      elim (Bool-cases (ltb max_input_size (length content))) [
        | inl e ↦ absurd (ground (arith, e))
        | inr e ↦ elim (Bool-cases r.crashed) [
          | inl t ↦
              rw (e, t)
                (
                  note_crasher-HasTable p.hash p.lines p.suppressions content r.output r.hanged
                      s.worker h,
                  tt,
                )
          | inr f ↦
              rw (e, f)
                (Returns-bind (λ m'. Sized m'.cover) _ (measure r m) _
                  (measure-Sized r m (fixed content s.env f) k)
                  λ m' sized.
                    triage_runs-Measured n content m' (record s { env = env }) l
                      (Sized-any m'.cover sized) (λ z. sized) h)
        ]
      ]
