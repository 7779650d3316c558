-- ===== src/Coordinator/Delivery.antt =====
-- The delivery of inputs to workers by the calls of go-fuzz/coordinator.go.
use mathlib.Core.List.{Perm, perm_append_singleton, append_assoc, append-nil}
use mathlib.Core.List.Perm
use mathlib.Core.Option
use go_fuzz.Base.{
  ℕ, ◌+◌, ◌≡◌, sym, ap, ◌∙◌, Bool, true, false, none, some, Option-cases, Bool-cases, inl, inr,
  List, [], ◌∷◌, ◌++◌, ◌==◌, ==_iff, arith,
}
use go_fuzz.Bytes.{Bytes}
use go_fuzz.Persistent.{Artifact, add}
use go_fuzz.Persistent.Laws.{m-add}
use go_fuzz.Types.{CoordinatorInput, NewInputArgs, NewCrasherArgs, SyncArgs}
use go_fuzz.Coordinator.{
  Coordinator, CoordinatorWorker, connect, new_input, queue_input, new_crasher, sync, nuke_dead,
}
use go_fuzz.Coordinator.Workers.{
  get, put, update_all, get-put, get-update_all, get-delete_where, Distinct-put,
  Distinct-update_all, Distinct-delete_where,
}
use go_fuzz.Coordinator.Trace.{
  contents, Traced, give, Event, connecting, inputs, crashes, syncing, ticking, step, run, Delivers,
  contents-append, contents-initial_corpus,
}

-- The worker that a connection makes.
abbrev fresh : Traced → ℕ → ℕ → CoordinatorWorker
fresh t now procs = record { id = t.c.id_seq + 1; procs = procs; pending = []; last_sync = now }

connect-Delivers :
    (t : Traced) (now procs : ℕ)
    → Delivers t
    → let (c', res) = connect now procs t.c in
      Delivers (record { c = c'; given = give res.id (contents res.corpus) t.given })
unfolding connect
connect-Delivers t now procs d = record {
  distinct = Distinct-put _ _ t.c.workers d.distinct;
  complete = λ i w h. elim (Bool-cases (t.c.id_seq + 1 == i)) [
    | inl e ↦
        let empty : w.pending ≡ [] =
          ground (arith, get-put (t.c.id_seq + 1) i (fresh t now procs) t.c.workers) in
        rw (e, empty, append-nil, contents-initial_corpus) (Perm.refl _)
    | inr e ↦ rw e (
        d.complete i w (ground (arith, get-put (t.c.id_seq + 1) i (fresh t now procs) t.c.workers)))
  ];
}

-- A new artifact takes its place in the corpus and at the end of each queue.
perm_queued :
    (given : List Bytes) (pending : List CoordinatorInput) (input : CoordinatorInput)
    (corpus : List Bytes)
    → Perm (given ++ contents pending) corpus
    → Perm (given ++ contents (pending ++ input ∷ [])) (input.content ∷ corpus)
perm_queued given pending input corpus p =
    rw (contents-append pending (input ∷ []), ← append_assoc)
      (Perm.trans (perm_append_singleton input.content (given ++ contents pending))
        (Perm.cons input.content p))

module _ (hash : Bytes → Bytes) (t : Traced) (now : ℕ) (a : NewInputArgs) (d : Delivers t) where
  abbrev art : Artifact
  art = record { content = a.content; meta = a.prio; user = false }

  queue-Delivers :
      (w0 : CoordinatorWorker)
      → (add hash t.c.corpus art).1 ≡ true
      → Delivers (record t {
        c = record t.c {
          corpus = (add hash t.c.corpus art).0;
          last_input = now;
          workers = update_all (queue_input a w0) t.c.workers;
        };
      })
  unfolding queue_input
  queue-Delivers w0 accepted = record {
    distinct = Distinct-update_all _ t.c.workers d.distinct;
    complete = λ i w h. elim (Option-cases (get i t.c.workers)) [
      | inl e ↦ absurd (
          cc
            (get-update_all (queue_input a w0) i t.c.workers, ap (Option.map (queue_input a w0)) e))
      | inr found ↦
          let (w1, e) = found in
          let same : queue_input a w0 w1 ≡ w =
            ground (arith, get-update_all (queue_input a w0) i t.c.workers, e, h) in
          rw (← same, m-add hash t.c.corpus art accepted)
            (perm_queued (t.given i) w1.pending _ _ (d.complete i w1 e))
    ];
  }

  new_input-Delivers : Delivers (record t { c = (new_input hash now a t.c).0 })
  unfolding new_input
  new_input-Delivers = elim (Option-cases (get a.id t.c.workers)) [
    | inl e ↦ rw (e, new_input) d
    | inr found ↦ elim (Bool-cases (add hash t.c.corpus art).1) [
      | inl accepted ↦ rw (found.1, new_input, accepted) (queue-Delivers found.0 accepted)
      | inr refused ↦ rw (found.1, new_input, refused) d
    ]
  ]

-- A change of the state elsewhere than in the workers and the corpus.
Delivers-same :
    (t : Traced) (c' : Coordinator)
    → c'.workers ≡ t.c.workers
    → c'.corpus ≡ t.c.corpus
    → Delivers t
    → Delivers (record t { c = c' })
Delivers-same t c' ew ec d = record {
  distinct = rw ew d.distinct;
  complete = λ i w h. rw ec (d.complete i w (ap (get i) (sym ew) ∙ h));
}

module _ (hash quote : Bytes → Bytes) (quoted output : Bytes) (dup : Bool) where
  new_crasher_workers :
      (a : NewCrasherArgs) (c : Coordinator)
      → (new_crasher hash quote quoted output dup a c).0.workers ≡ c.workers
  unfolding new_crasher
  new_crasher_workers a c = ground arith

  new_crasher_corpus :
      (a : NewCrasherArgs) (c : Coordinator)
      → (new_crasher hash quote quoted output dup a c).0.corpus ≡ c.corpus
  unfolding new_crasher
  new_crasher_corpus a c = ground arith

module _ (t : Traced) (now : ℕ) (a : SyncArgs) (d : Delivers t) where
  abbrev synced : Traced
  synced = record {
    c = (sync now a t.c).0;
    given = give a.id (t.given a.id ++ contents (sync now a t.c).1) t.given;
  }

  sync_unknown-Delivers : get a.id t.c.workers ≡ none → Delivers synced
  unfolding sync
  sync_unknown-Delivers unknown = record {
    distinct = rw (unknown, sync) d.distinct;
    complete = λ i w h. elim (Bool-cases (a.id == i)) [
      | inl e ↦ absurd (
          cc
            (unknown, ap (λ k. get k t.c.workers) ((==_iff a.id i).0 e), (rw (unknown, sync) at h)))
      | inr e ↦ rw (e, unknown, sync) (d.complete i w (rw (unknown, sync) at h))
    ];
  }

  sync_known-Delivers : (w0 : CoordinatorWorker) → get a.id t.c.workers ≡ some w0 → Delivers synced
  unfolding sync
  sync_known-Delivers w0 known =
      let w' : CoordinatorWorker = record w0 { last_sync = now; pending = [] } in
      record {
        distinct = rw (known, sync) (Distinct-put a.id w' t.c.workers d.distinct);
        complete = λ i w h.
            let h' : get i (put a.id w' t.c.workers) ≡ some w = rw (known, sync) at h in
            elim (Bool-cases (a.id == i)) [
              | inl e ↦
                  let empty : w.pending ≡ [] = ground (arith, get-put a.id i w' t.c.workers) in
                  rw (e, empty, known, sync, append-nil) (d.complete a.id w0 known)
              | inr e ↦
                  rw (e, known, sync)
                    (d.complete i w (ground (arith, get-put a.id i w' t.c.workers)))
            ];
      }

nuke_dead-Delivers :
    (t : Traced) (now : ℕ) → Delivers t → Delivers (record t { c = nuke_dead now t.c })
unfolding nuke_dead
nuke_dead-Delivers t now d = record {
  distinct = Distinct-delete_where _ t.c.workers d.distinct;
  complete = λ i w h. d.complete i w (get-delete_where _ i w t.c.workers d.distinct h).0;
}

module _ (hash quote : Bytes → Bytes) (quoted output : Bytes) (dup : Bool) where
  step-Delivers :
      (t : Traced) (e : Event) → Delivers t → Delivers (step hash quote quoted output dup t e)
  unfolding step
  step-Delivers t (connecting now procs) d = connect-Delivers t now procs d
  step-Delivers t (inputs now a) d = new_input-Delivers hash t now a d
  step-Delivers t (crashes a) d =
      Delivers-same t _ (new_crasher_workers hash quote quoted output dup a t.c)
        (new_crasher_corpus hash quote quoted output dup a t.c) d
  step-Delivers t (syncing now a) d = elim (Option-cases (get a.id t.c.workers)) [
    | inl e ↦ sync_unknown-Delivers t now a d e
    | inr found ↦ sync_known-Delivers t now a d found.0 found.1
  ]
  step-Delivers t (ticking now) d = nuke_dead-Delivers t now d

  -- Whatever calls reach the coordinator, and in whatever order: for each worker that it has, the
  -- inputs that the worker was given when it connected and by its syncs, together with those that
  -- wait for its next sync, are the inputs of the corpus, each as often as it stands there.
  pub run-Delivers :
      (t : Traced) (es : List Event) → Delivers t → Delivers (run hash quote quoted output dup t es)
  unfolding run
  run-Delivers t [] d = d
  run-Delivers t (e ∷ es) d =
      run-Delivers (step hash quote quoted output dup t e) es (step-Delivers t e d)
