-- ===== src/Coordinator.antt =====
-- go-fuzz/coordinator.go: the process that keeps the corpus and the crashers and hands inputs out to
-- the workers. Each method is a function on the state, which the source guards by one mutex; the
-- clock is an argument. `hash` is SHA-1, and `quote` the text that the `%q` verb makes of an input.
-- The log, the HTTP page and the time stamps that only they show are not modelled.
pub mod Workers
pub mod Trace
pub mod Delivery
pub mod Crashers
use go_fuzz.Base.{
  ℕ, ◌+◌, ◌-◌, ◌*◌, ◌/◌, ◌^◌, Bool, true, false, not, ◌&&◌, Option, none, some, List, [], ◌∷◌, ◌++◌,
  map, length, leb, ltb, ◌==◌, if◌then◌else◌, max, u64,
}
use go_fuzz.Bytes.{Bytes}
use go_fuzz.Persistent.{Artifact, PersistentSet, add, add_description}
use go_fuzz.Types.{
  CoordinatorInput, ConnectRes, NewInputArgs, NewCrasherArgs, SyncArgs, exec_corpus,
}
use Workers.{get, put, update_all, delete_where}

pub record CoordinatorWorker : Type 0 where
  pub id : ℕ
  pub procs : ℕ
  pub pending : List CoordinatorInput
  pub last_sync : ℕ

pub record Coordinator : Type 0 where
  pub id_seq : ℕ
  pub workers : List (ℕ × CoordinatorWorker)
  pub corpus : PersistentSet
  pub suppressions : PersistentSet
  pub crashers : PersistentSet
  pub last_input : ℕ
  pub stat_execs : ℕ
  pub stat_restarts : ℕ
  pub cover_fullness : ℕ

-- What an RPC method returns beside its result.
pub data Reply : Type 0 where
  replied unknown_worker : Reply

-- `100 * syncPeriod`, in nanoseconds.
abbrev pub sync_deadline : ℕ
sync_deadline = 100 * (3 * 10 ^ 9)

-- The corpus as it is given to a new worker.
unfoldable pub initial_corpus : List (Bytes × Artifact) → List CoordinatorInput
initial_corpus [] = []
initial_corpus ((sig, a) ∷ m) =
    record {
      content = a.content;
      prio = a.meta;
      typ = exec_corpus;
      minimized = not a.user;
      smashed = true;
    }
    ∷ initial_corpus m

unfoldable pub connect : ℕ → ℕ → Coordinator → Coordinator × ConnectRes
unfolding initial_corpus
connect now procs c =
    let id = c.id_seq + 1 in
    let w : CoordinatorWorker = record { id = id; procs = procs; pending = []; last_sync = now } in
    (
      record c { id_seq = id; workers = put id w c.workers },
      record { id = id; corpus = initial_corpus c.corpus.m },
    )

-- The input is queued for every worker; the one that found it need not smash it again.
unfoldable pub queue_input :
    NewInputArgs → CoordinatorWorker → CoordinatorWorker → CoordinatorWorker
queue_input a w w1 = record w1 {
  pending =
      w1.pending
      ++ record {
        content = a.content;
        prio = a.prio;
        typ = exec_corpus;
        minimized = true;
        smashed = not (w1.id == w.id);
      }
        ∷ [];
}

module _ (hash : Bytes → Bytes) where
  unfoldable pub new_input : ℕ → NewInputArgs → Coordinator → Coordinator × Reply
  unfolding queue_input
  new_input now a c = elim (get a.id c.workers) [
    | none ↦ (c, unknown_worker)
    | some w ↦
        let added =
          add hash c.corpus (record { content = a.content; meta = a.prio; user = false }) in
        if not added.1 then (c, replied) else (
          record c {
            corpus = added.0;
            last_input = now;
            workers = update_all (queue_input a w) c.workers;
          },
          replied,
        )
  ]

  module _ (quote : Bytes → Bytes) (quoted output : Bytes) where
    -- `quoted` and `output` are the types of the two description files. The suppression is looked
    -- at, and recorded, unless the flag -dup is set.
    unfoldable pub new_crasher : Bool → NewCrasherArgs → Coordinator → Coordinator × Reply
    new_crasher dup a c =
        let supp =
          add hash c.suppressions (record { content = a.suppression; meta = 0; user = false }) in
        let suppressions = if dup then c.suppressions else supp.0 in
        let crash = add hash c.crashers (record { content = a.content; meta = 0; user = false }) in
        if not dup && not supp.1
        then (c, replied)
        else if not crash.1
        then (record c { suppressions = suppressions }, replied)
        else (
          record c {
            suppressions = suppressions;
            crashers =
                add_description hash
                  (add_description hash crash.0 a.content (quote a.content) quoted) a.content
                  a.error output;
          },
          replied,
        )

unfoldable pub sync : ℕ → SyncArgs → Coordinator → Coordinator × List CoordinatorInput × Reply
sync now a c = elim (get a.id c.workers) [
  | none ↦ (c, [], unknown_worker)
  | some w ↦ (
    record c {
      stat_execs = u64 (c.stat_execs + a.execs);
      stat_restarts = u64 (c.stat_restarts + a.restarts);
      cover_fullness =
          if ltb c.cover_fullness a.cover_fullness then a.cover_fullness else c.cover_fullness;
      workers = put a.id (record w { last_sync = now; pending = [] }) c.workers;
    },
    w.pending,
    replied,
  )
]

-- One round of `coordinatorLoop`: workers that have not synced for too long are forgotten.
unfoldable pub nuke_dead : ℕ → Coordinator → Coordinator
nuke_dead now c = record c {
  workers = delete_where (λ w. not (ltb (now - w.last_sync) sync_deadline)) c.workers;
}
