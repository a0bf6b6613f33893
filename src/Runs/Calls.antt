-- ===== src/Runs/Calls.antt =====
-- The public methods of RunService that write, those whose lease_epoch may be None also without it
-- (`_any_epoch`), with their arguments, and what a transaction leaves
-- in the tables: what the method commits, or on an error what was there before (rollback).
pub mod Safety
pub mod Rows
pub mod Growth
pub mod Fences
use legal_rag_agent.Prelude.{ℕ, Bool, Option, List, [], String}
use legal_rag_agent.Harness.State.{HarnessState}
use legal_rag_agent.Harness.Budget.{HarnessBudgetConfig}
use legal_rag_agent.Runs.Result.{Result, ok, err, ◌>>=◌}
use legal_rag_agent.Runs.Tables.{EventType, Payload, Db}
use legal_rag_agent.Runs.Service.Lifecycle.{cancel_run, heartbeat_run, append_stage_event, fail_run}
use legal_rag_agent.Runs.Service.Claim.{claim_next_run}
use legal_rag_agent.Runs.Service.Recover.{recover_stale_runs}
use legal_rag_agent.Runs.Service.Budget.{Operation, begin_retrieval_round, reserve_attempt}
use legal_rag_agent.Runs.Service.Attempts.{Completion, mark_attempt_dispatched, finish_attempt}
use legal_rag_agent.Runs.Service.Publish.{
  SafeResult, Outcome, publish_success, publish_terminal_result,
}
use legal_rag_agent.Runs.Service.Create.{
  ServicePrincipal, Creation, Binding, NewIds, Clock, create_session, create_run,
}
use legal_rag_agent.Runs.Service.Artifacts.{save_node_artifact}
use legal_rag_agent.Runs.Service.Checkpoints.{External, bind_checkpoint, resume_run}

-- What `RunService.__init__` is given, and what the checks of a state use.
pub record Setting : Type 0 where
  pub budget : HarnessBudgetConfig
  pub ttl : ℕ
  pub external : External

-- What a worker calls on a run that it executes, with the epoch of its lease.
pub data Work : Type 0 where
  heartbeat : ℕ → Work
  round : ℕ → Work
  reserve : Operation → String → Work
  stage : EventType → Option Payload → Work
  publish : Option SafeResult → Outcome → String → Work
  fail : String → Option Payload → Work
  artifact : String → Option (String × String) → String → Work

-- The same on one of the run's attempts.
pub data AttemptWork : Type 0 where
  dispatch : AttemptWork
  finish : Completion → AttemptWork

pub data Call : Type 0 where
  start_session : ServicePrincipal → Option String → String → Call
  create : Creation → Option Binding → NewIds → Clock → Call
  cancel : String → String → ℕ → Call
  resume : String → String → ℕ → Call
  claim : (String → Bool) → String → ℕ → ℕ → Call
  recover : (String → Bool) → ℕ → ℕ → Call
  work : String → String → ℕ → Work → ℕ → Call
  on_attempt : String → String → ℕ → AttemptWork → ℕ → Call
  bind : String → String → ℕ → String → String → Option String → HarnessState → ℕ → Call
  publish_any_epoch : String → String → Option SafeResult → String → ℕ → Call
  stage_any_epoch : String → String → EventType → Option Payload → ℕ → Call
  fail_any_epoch : String → String → String → Option Payload → ℕ → Call

-- A method's result without its answer.
unfoldable pub forget : {A : Type 0} → Result (A × Db) → Result (Unit {0} × Db)
forget m = m >>= λ r. ok (tt, r.1)

unfoldable pub run_work : String → String → ℕ → Work → ℕ → Db → Result (Unit {0} × Db)
run_work id worker epoch (heartbeat seconds) now db =
    forget (heartbeat_run id worker epoch seconds now db)
run_work id worker epoch (round queries) now db =
    forget (begin_retrieval_round id worker epoch queries now db)
run_work id worker epoch (reserve op attempt_id) now db =
    forget (reserve_attempt id worker epoch op attempt_id now db)
run_work id worker epoch (stage kind payload) now db =
    forget (append_stage_event id kind payload worker (Option.some epoch) now db)
run_work id worker epoch (publish safe outcome message_id) now db =
    forget (publish_terminal_result id worker epoch safe outcome message_id now db)
run_work id worker epoch (fail code details) now db =
    forget (fail_run id worker code details (Option.some epoch) now db)
run_work id worker epoch (artifact kind payload artifact_id) now db =
    forget (save_node_artifact id worker epoch kind payload artifact_id now db)

unfoldable pub run_attempt_work :
    String → String → ℕ → AttemptWork → ℕ → Db → Result (Unit {0} × Db)
run_attempt_work id worker epoch dispatch now db =
    forget (mark_attempt_dispatched id worker epoch now db)
run_attempt_work id worker epoch (finish c) now db =
    forget (finish_attempt id worker epoch c now db)

unfoldable pub run : Setting → Call → Db → Result (Unit {0} × Db)
run x (start_session principal title id) db = forget (create_session principal title id db)
run x (create c frozen ids clock) db = forget (create_run x.budget x.ttl c frozen ids clock db)
run x (cancel user id now) db = forget (cancel_run user id now db)
run x (resume user id now) db = forget (resume_run x.external user id now db)
run x (claim busy worker seconds now) db =
    forget (claim_next_run busy x.budget worker seconds now db)
run x (recover busy limit cutoff) db = forget (recover_stale_runs busy limit cutoff db)
run x (work id worker epoch w now) db = run_work id worker epoch w now db
run x (on_attempt id worker epoch w now) db = run_attempt_work id worker epoch w now db
run x (bind id worker epoch namespace checkpoint parent state now) db =
    forget (bind_checkpoint x.external id worker epoch namespace checkpoint parent state now db)
run x (publish_any_epoch id worker safe message_id now) db =
    forget (publish_success id worker Option.none safe message_id now db)
run x (stage_any_epoch id worker kind payload now) db =
    forget (append_stage_event id kind payload worker Option.none now db)
run x (fail_any_epoch id worker code details now) db =
    forget (fail_run id worker code details Option.none now db)

-- The tables after a transaction.
unfoldable pub after : Setting → Call → Db → Db
after x c db = elim (run x c db) [ ok r ↦ r.1 | err e ↦ db ]

abbrev pub empty : Db
empty = record {
  sessions = [];
  runs = [];
  ledgers = [];
  attempts = [];
  checkpoints = [];
  artifacts = [];
  messages = [];
  results = [];
  keys = [];
  events = [];
}

-- The empty tables, and what any calls of the methods can make of them.
pub data Reach (x : Setting) : Db → Type 0 where
  start : Reach x empty
  step : {db : Db} (c : Call) → Reach x db → Reach x (after x c db)
