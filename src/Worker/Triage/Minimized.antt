-- ===== src/Worker/Triage/Minimized.antt =====
-- The minimisation of a new input in `triageInput` of go-fuzz/worker.go: what a candidate that is taken is.
use mathlib.Core.Bool.{false≢true}
use go_fuzz.Base.{
  ℕ, ◌+◌, ◌≤◌, ◌≡◌, refl, sym, ◌∙◌, ◌⊎◌, inl, inr, Bool, true, false, not, length, Outcome, done,
  panic, no_fuel, Returns, Returns-bind, if◌then◌else◌, Bool-cases, arith,
}
use go_fuzz.Bytes.{Bytes}
use go_fuzz.Cover.{Table, find_new_cover, worse_cover, compare_cover}
use go_fuzz.Cover.Novelty.{
  novelty, length-novelty, find_new_cover_lem, worse_cover_total, worse_cover-find_new_cover,
}
use go_fuzz.Defs.{cover_size}
use go_fuzz.Types.{exec_minimize_input}
use go_fuzz.Worker.Minimize.{Round, returned, going}
use go_fuzz.Worker.Minimize.Loops.{result, state}
use go_fuzz.Worker.Minimize.Laws.{minimize_input-Returns}
use go_fuzz.Worker.Queues.{TestResult}
use go_fuzz.Worker.Session.{Setup, Session}
use go_fuzz.Worker.Triage.{same_res, Search, refuse, keeps_new_cover, search_end, minimize_new}
use go_fuzz.Worker.Triage.Runs.{HasTable, note_new_input-HasTable, note_crasher-HasTable}

module _ {E : Type 0} (p : Setup E)
    (fixed : (c : Bytes) (env : E)
      → (p.run_cover c env).0.crashed ≡ false
      → length (p.run_cover c env).0.cover ≡ cover_size)
    (corpus : length p.corpus_cover ≡ cover_size) where
  -- The input itself, or one with a run that did not crash, gave the result `res`, and reached what the
  -- corpus does not.
  abbrev pub StillNew : Bytes → ℕ → Bytes → Type 0
  StillNew content res c =
      (c ≡ content)
      ⊎ ((env : E) × ((p.run_cover c env).0.crashed ≡ false)
          × (same_res res (p.run_cover c env).0.res ≡ true)
          × (compare_cover p.corpus_cover (p.run_cover c env).0.cover ≡ done true))

  abbrev Kept : Search E → Type 0
  Kept a = Returns HasTable a.worker

  module _ (cover new_cover : Table) (sized : length cover ≡ cover_size)
      (found : find_new_cover p.corpus_cover cover ≡ done (new_cover, true)) (content : Bytes)
      (res depth : ℕ) where
    new_cover-eq : new_cover ≡ novelty p.corpus_cover cover
    new_cover-eq =
        let e = sym (find_new_cover_lem p.corpus_cover cover corpus sized).0 ∙ found in
        ground (arith, e)

    length-new_cover : length new_cover ≡ cover_size
    length-new_cover =
        rw new_cover-eq (length-novelty p.corpus_cover cover (corpus ∙ sym sized) ∙ corpus)

    refuse-Kept :
        (c : Bytes) (r : TestResult) (env : E) (o : Outcome Bool) (a : Search E)
        → length r.cover ≡ cover_size
        → Returns (λ b. Unit {0}) o
        → Kept a
        → Kept (refuse p c depth r env o a).1
    unfolding refuse
    refuse-Kept c r env (done true) a l u k = Returns-bind HasTable HasTable a.worker _ k λ w h.
        note_new_input-HasTable p.counters c r.cover r.res (depth + 1) exec_minimize_input w l h
    refuse-Kept c r env (done false) a l u k = k
    refuse-Kept c r env panic a l u k = absurd u
    refuse-Kept c r env no_fuel a l u k = absurd u

    refuse-taken :
        (c : Bytes) (r : TestResult) (env : E) (o : Outcome Bool) (a : Search E)
        → (refuse p c depth r env o a).0 ≡ true
        → o ≡ done false
    unfolding refuse
    refuse-taken c r env (done true) a e = absurd (false≢true e)
    refuse-taken c r env (done false) a e = refl
    refuse-taken c r env panic a e = absurd (false≢true e)
    refuse-taken c r env no_fuel a e = absurd (false≢true e)

    -- The test for a different result, and then for less of the new cover.
    abbrev worse : TestResult → Outcome Bool
    worse r = if not (same_res res r.res) then done true else worse_cover new_cover r.cover

    worse-Returns :
        (r : TestResult) → length r.cover ≡ cover_size → Returns (λ b. Unit {0}) (worse r)
    worse-Returns r l = elim (Bool-cases (same_res res r.res)) [
      | inr f ↦ rw f tt
      | inl t ↦
          let (b, e) = worse_cover_total new_cover r.cover (length-new_cover ∙ sym l) in
          rw (t, e) tt
    ]

    keeps_new_cover-Kept :
        (c : Bytes) (a : Search E) → Kept a → Kept (keeps_new_cover p new_cover res depth c a).1
    unfolding keeps_new_cover
    keeps_new_cover-Kept c a k =
        let r = (p.run_cover c a.env).0 in
        elim (Bool-cases r.crashed) [
          | inl t ↦ rw t (
              Returns-bind HasTable HasTable a.worker _ k
                λ w h. note_crasher-HasTable p.hash p.lines p.suppressions c r.output r.hanged w h)
          | inr f ↦ rw f (
              refuse-Kept c r (p.run_cover c a.env).1 (worse r) a (fixed c a.env f)
                (worse-Returns r (fixed c a.env f)) k)
        ]

    keeps_new_cover-StillNew :
        (c : Bytes) (a : Search E)
        → Kept a
        → (keeps_new_cover p new_cover res depth c a).0 ≡ true
        → StillNew content res c
    unfolding keeps_new_cover
    keeps_new_cover-StillNew c a k e =
        let r = (p.run_cover c a.env).0 in
        elim (Bool-cases r.crashed) [
          | inl t ↦ absurd (false≢true (rw t at e))
          | inr f ↦
              let taken = refuse-taken c r (p.run_cover c a.env).1 (worse r) a (rw f at e) in
              elim (Bool-cases (same_res res r.res)) [
                | inr n ↦ absurd (cc (rw n at taken))
                | inl y ↦ inr (
                  a.env,
                  f,
                  y,
                  worse_cover-find_new_cover p.corpus_cover cover r.cover new_cover corpus sized
                      (fixed c a.env f) found (rw y at taken),
                )
              ]
        ]

    pub minimize_new-StillNew :
        (s : Session E)
        → HasTable s.worker
        → Returns
            (λ r. HasTable r.0.worker × StillNew content res r.1 × (length r.1 ≤ length content))
            (minimize_new p new_cover res depth content s)
    unfolding minimize_new
    minimize_new-StillNew s h =
        Returns-bind _ _ _ (search_end p s)
          (minimize_input-Returns (λ a. p.late a.env) (keeps_new_cover p new_cover res depth)
            (StillNew content res) Kept keeps_new_cover-StillNew keeps_new_cover-Kept content false
            (record { worker = done s.worker; env = s.env }) (inl refl) h)
          at_end
      where
        at_end :
            (r : Round (Search E))
            → StillNew content res (result r)
              × (length (result r) ≤ length content)
              × Kept (state r)
            → Returns
                (λ r'.
                  HasTable r'.0.worker × StillNew content res r'.1 × (length r'.1 ≤ length content))
                (search_end p s r)
        at_end (returned c a) k = Returns-bind HasTable _ a.worker _ k.2 λ w t. (t, k.0, k.1)
        at_end (going c a) k = Returns-bind HasTable _ a.worker _ k.2 λ w t. (t, k.0, k.1)
