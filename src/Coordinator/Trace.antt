-- ===== src/Coordinator/Trace.antt =====
-- The calls that reach the coordinator as a sequence of events, and what each worker was given.
use mathlib.Core.List.{Perm}
use go_fuzz.Base.{ℕ, ◌≡◌, refl, ap, Bool, some, List, [], ◌∷◌, ◌++◌, ◌==◌, if◌then◌else◌}
use go_fuzz.Bytes.{Bytes}
use go_fuzz.Persistent.{Artifact}
use go_fuzz.Types.{CoordinatorInput, NewInputArgs, NewCrasherArgs, SyncArgs}
use go_fuzz.Coordinator.{
  Coordinator, CoordinatorWorker, connect, initial_corpus, new_input, new_crasher, sync, nuke_dead,
}
use go_fuzz.Coordinator.Workers.{get, Distinct}

-- The contents of inputs and of a corpus.
abbrev pub contents : List CoordinatorInput → List Bytes
contents [] = []
contents (i ∷ is) = i.content ∷ contents is

abbrev pub corpus_contents : List (Bytes × Artifact) → List Bytes
corpus_contents [] = []
corpus_contents ((sig, a) ∷ m) = a.content ∷ corpus_contents m

-- The coordinator, beside what each worker was given so far.
pub record Traced : Type 0 where
  pub c : Coordinator
  pub given : ℕ → List Bytes

abbrev pub give : ℕ → List Bytes → (ℕ → List Bytes) → ℕ → List Bytes
give k new given i = if k == i then new else given i

-- The calls that reach the coordinator, in any order.
pub data Event : Type 0 where
  connecting : ℕ → ℕ → Event
  inputs : ℕ → NewInputArgs → Event
  crashes : NewCrasherArgs → Event
  syncing : ℕ → SyncArgs → Event
  ticking : ℕ → Event

module _ (hash quote : Bytes → Bytes) (quoted output : Bytes) (dup : Bool) where
  -- One call; what it sends to a worker is added to what the worker was given.
  unfoldable pub step : Traced → Event → Traced
  step t (connecting now procs) =
      let (c', res) = connect now procs t.c in
      record { c = c'; given = give res.id (contents res.corpus) t.given }
  step t (inputs now a) = record t { c = (new_input hash now a t.c).0 }
  step t (crashes a) = record t { c = (new_crasher hash quote quoted output dup a t.c).0 }
  step t (syncing now a) =
      let (c', sent, reply) = sync now a t.c in
      record { c = c'; given = give a.id (t.given a.id ++ contents sent) t.given }
  step t (ticking now) = record t { c = nuke_dead now t.c }

  unfoldable pub run : Traced → List Event → Traced
  unfolding step
  run t [] = t
  run t (e ∷ es) = run (step t e) es

-- What the worker `w` was given and what waits for it is the corpus, each input once.
pub record Delivers (t : Traced) : Type 0 where
  pub distinct : Distinct t.c.workers
  pub complete :
      (i : ℕ) (w : CoordinatorWorker)
      → get i t.c.workers ≡ some w
      → Perm (t.given i ++ contents w.pending) (corpus_contents t.c.corpus.m)

pub contents-append :
    (xs ys : List CoordinatorInput) → contents (xs ++ ys) ≡ contents xs ++ contents ys
contents-append [] ys = refl
contents-append (x ∷ xs) ys = ap (λ t. x.content ∷ t) (contents-append xs ys)

pub contents-initial_corpus :
    (m : List (Bytes × Artifact)) → contents (initial_corpus m) ≡ corpus_contents m
unfolding initial_corpus
contents-initial_corpus [] = refl
contents-initial_corpus ((sig, a) ∷ m) = ap (λ t. a.content ∷ t) (contents-initial_corpus m)
