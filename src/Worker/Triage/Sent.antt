-- ===== src/Worker/Triage/Sent.antt =====
-- What `triageInput` of go-fuzz/worker.go sends to the hub for an input that was not minimised.
use go_fuzz.Base.{
  ◌≤◌, ◌≡◌, refl, sym, ap, ◌∙◌, Bool, true, false, not, Option, none, some, length, Outcome, done,
  Returns, Returns-bind, Returns-value, if◌then◌else◌, arith,
}
use go_fuzz.Bytes.{Bytes}
use go_fuzz.Cover.{Table, find_new_cover, compare_cover}
use go_fuzz.Cover.Novelty.{has_novelty, find_new_cover_lem}
use go_fuzz.Defs.{cover_size}
use go_fuzz.Types.{CoordinatorInput, Input}
use go_fuzz.Worker.Session.{Setup, Session}
use go_fuzz.Worker.Triage.{
  cut_input, Metrics, no_metrics, triage_found, triage_rest, after_runs, triage_input,
}
use go_fuzz.Worker.Triage.Runs.{HasTable, length-cut_input, Sized, Measured, triage_runs-Measured}
use go_fuzz.Worker.Triage.Minimized.{StillNew, minimize_new-StillNew}

is_mine : (b : Bool) → b ≡ false → not b ≡ true
is_mine true e = absurd (cc)
is_mine false e = refl

first_branch :
    {A : Type 0} (P : A → Type 0) (b : Bool) (x y : Outcome A)
    → b ≡ false
    → Returns P x
    → Returns P (if not b then x else y)
first_branch P true x y e h = absurd (cc)
first_branch P false x y e h = h

module _ {E : Type 0} (p : Setup E)
    (fixed : (c : Bytes) (env : E)
      → (p.run_cover c env).0.crashed ≡ false
      → length (p.run_cover c env).0.cover ≡ cover_size)
    (corpus : length p.corpus_cover ≡ cover_size) (input : CoordinatorInput)
    (new : input.minimized ≡ false) where
  -- An input for the hub: it reports new cover, and its content still reaches some of it.
  abbrev pub IsNew : Option Input → Type 0
  IsNew none = Unit
  IsNew (some inp) =
      (inp.mine ≡ true)
      × (length inp.cover ≡ cover_size)
      × (compare_cover p.corpus_cover inp.cover ≡ done true)
      × (length inp.content ≤ length input.content)
      × StillNew p fixed corpus (cut_input input.content) inp.res inp.content

  abbrev Sends : Session E × Option Input → Type 0
  Sends r = HasTable r.0.worker × IsNew r.1

  triage_found-IsNew :
      (cover : Table) (m : Metrics) (s : Session E) (found : Table × Bool)
      → length cover ≡ cover_size
      → find_new_cover p.corpus_cover cover ≡ done found
      → HasTable s.worker
      → Returns Sends (triage_found p input (cut_input input.content) cover m s found)
  unfolding triage_found
  triage_found-IsNew cover m s (new_cover, false) l e h = (h, tt)
  triage_found-IsNew cover m s (new_cover, true) l e h =
      let both = find_new_cover_lem p.corpus_cover cover corpus l in
      let reached : has_novelty p.corpus_cover cover ≡ true = ground (arith, sym both.0 ∙ e) in
      Returns-bind
        (λ r.
          HasTable r.0.worker
          × StillNew p fixed corpus (cut_input input.content) m.res r.1
          × (length r.1 ≤ length (cut_input input.content)))
        Sends _ _
        (minimize_new-StillNew p fixed corpus cover new_cover l e (cut_input input.content) m.res
          input.prio s h)
        λ r k. (
          k.0,
          (
            is_mine input.minimized new,
            l,
            both.1 ∙ ap done reached,
            omega (arith, k.2, (length-cut_input input.content).0),
            k.1,
          ),
        )

  triage_rest-IsNew :
      (cover : Table) (m : Metrics) (s : Session E)
      → length cover ≡ cover_size
      → HasTable s.worker
      → Returns Sends (triage_rest p input (cut_input input.content) cover m s)
  unfolding triage_rest
  triage_rest-IsNew cover m s l h = first_branch Sends input.minimized _ _ new (
      Returns-bind (λ found. find_new_cover p.corpus_cover cover ≡ done found) Sends _ _
        (Returns-value _ _ _ (find_new_cover_lem p.corpus_cover cover corpus l).0
          (find_new_cover_lem p.corpus_cover cover corpus l).0)
        λ found e. triage_found-IsNew cover m s found l e h)

  after_runs-IsNew :
      (s : Session E) (o : Option Metrics)
      → HasTable s.worker
      → Measured o
      → Returns Sends (after_runs p input (cut_input input.content) s o)
  after_runs-IsNew s none h k = (h, tt)
  after_runs-IsNew s (some m) h k = by_cover m.cover k
    where
      by_cover :
          (o : Option Table)
          → Sized o
          → Returns Sends (elim o [
            | none ↦ done (s, none)
            | some cover ↦ triage_rest p input (cut_input input.content) cover m s
          ])
      by_cover none l = absurd l
      by_cover (some cover) l = triage_rest-IsNew cover m s l h

  -- Triage of an input that was not minimised ends with no panic, whatever the runs do, where a run that
  -- does not crash leaves a table of the fixed size, as the tables of the corpus and of the worker have.
  -- An input that it sends to the hub has a table of that size with a counter above the corpus table, so
  -- that the hub does not refuse it for its cover, and is no longer than the input. Its content is the
  -- input, cut at the size of the region, or one with a run that did not crash, gave the same result, and
  -- has a counter above the corpus table too.
  pub triage_input-IsNew :
      (s : Session E)
      → HasTable s.worker
      → Returns (λ r. HasTable r.0.worker × IsNew r.1) (triage_input p input s)
  unfolding triage_input
  triage_input-IsNew s h =
      Returns-bind (λ r. HasTable r.0.worker × Measured r.1) Sends _ _
        (triage_runs-Measured p fixed 3 (cut_input input.content) no_metrics s
          (length-cut_input input.content).1 tt (λ z. absurd (omega (arith, z))) h)
        λ r k. after_runs-IsNew r.0 r.1 k.0 k.1
