-- ===== src/Types.antt =====
-- The data that the processes hand to one another: `execType` and `Input` of go-fuzz/worker.go, and
-- the RPC arguments of go-fuzz/coordinator.go.
use go_fuzz.Base.{ℕ, Bool, List}
use go_fuzz.Bytes.{Bytes}

pub data ExecType : Type 0 where
  exec_bootstrap exec_corpus exec_minimize_input exec_minimize_crasher exec_triage_input : ExecType
  exec_fuzz exec_versifier exec_smash exec_sonar exec_sonar_hint exec_total exec_count : ExecType

pub record CoordinatorInput : Type 0 where
  pub content : Bytes
  pub prio : ℕ
  pub typ : ExecType
  pub minimized : Bool
  pub smashed : Bool

pub record ConnectRes : Type 0 where
  pub id : ℕ
  pub corpus : List CoordinatorInput

pub record NewInputArgs : Type 0 where
  pub id : ℕ
  pub content : Bytes
  pub prio : ℕ

pub record NewCrasherArgs : Type 0 where
  pub content : Bytes
  pub error : Bytes
  pub suppression : Bytes
  pub hanging : Bool

pub record SyncArgs : Type 0 where
  pub id : ℕ
  pub execs : ℕ
  pub restarts : ℕ
  pub cover_fullness : ℕ

pub record Input : Type 0 where
  pub mine : Bool
  pub content : Bytes
  pub cover : List ℕ
  pub cover_size : ℕ
  pub res : ℕ
  pub depth : ℕ
  pub typ : ExecType
  pub exec_time : ℕ
  pub favored : Bool
  pub score : ℕ
  pub running_score_sum : ℕ
