-- ===== src/Runs/Tables.antt =====
-- The tables of legal_rag/storage/schema.py that the run service keeps. Instants are numbers of
-- microseconds; a JSON object in a request or a result is its canonical text.
use legal_rag_agent.Prelude.{ℕ, Bool, true, false, ◌&&◌, Option, List, String, any, ◌==◌, ◌=t=◌}
use legal_rag_agent.Harness.State.{HarnessState}

pub data SessionStatus : Type 0 where
  active archived : SessionStatus

pub data Status : Type 0 where
  queued running interrupted succeeded completed_with_limits needs_clarification failed cancelled :
      Status

-- RUN_EVENT_TYPES.
pub data EventType : Type 0 where
  run_queued run_started retrieval_completed generation_started verification_completed : EventType
  answer_final run_failed run_cancelled run_interrupted run_resume_requested : EventType
  run_resumed attempt_outcome_unknown run_completed_with_limits run_needs_clarification : EventType

pub data OperationKind : Type 0 where
  model embedding tool : OperationKind

pub data AttemptStatus : Type 0 where
  reserved dispatched succeeded failed outcome_unknown abandoned_before_dispatch : AttemptStatus

pub data Role : Type 0 where
  user assistant : Role

-- The values of an event's payload.
pub data Value : Type 0 where
  text : String → Value
  number : ℕ → Value
  flag : Bool → Value
  null : Value

abbrev pub Payload : Type 0
Payload = List (String × Value)

pub record Session : Type 0 where
  pub session_id : String
  pub user_id : String
  pub title : Option String
  pub status : SessionStatus

pub record Run : Type 0 where
  pub run_id : String
  pub session_id : String
  pub user_id : String
  pub parent_run_id : Option String
  pub status : Status
  pub request_hash : String
  pub request_payload : String
  pub scope_id : String
  pub snapshot_id : String
  pub snapshot_revision : ℕ
  pub activation_id : String
  pub profile_id : String
  pub boundary_fingerprint : String
  pub retrieval_config_hash : String
  pub graph_version : String
  pub state_schema_version : ℕ
  pub checkpoint_namespace : Option String
  pub last_checkpoint_id : Option String
  pub last_completed_node : Option String
  pub execution_deadline_at : Option ℕ
  pub stop_reason : Option String
  pub created_at : ℕ
  pub queued_at : ℕ
  pub started_at : Option ℕ
  pub finished_at : Option ℕ
  pub updated_at : ℕ
  pub error_code : Option String
  pub revision : ℕ
  pub event_sequence : ℕ
  pub lease_owner : Option String
  pub lease_expires_at : Option ℕ
  pub lease_epoch : ℕ
  pub resume_requested_at : Option ℕ

pub record Ledger : Type 0 where
  pub run_id : String
  pub max_retrieval_rounds : ℕ
  pub max_queries_per_round : ℕ
  pub max_tool_attempts : ℕ
  pub max_model_attempts : ℕ
  pub max_embedding_attempts : ℕ
  pub max_retry_per_operation : ℕ
  pub evidence_top_k : ℕ
  pub retrieval_rounds_used : ℕ
  pub queries_used : ℕ
  pub tool_attempts_used : ℕ
  pub model_attempts_used : ℕ
  pub embedding_attempts_used : ℕ
  pub revision : ℕ
  pub updated_at : ℕ

pub record Attempt : Type 0 where
  pub attempt_id : String
  pub run_id : String
  pub lease_epoch : ℕ
  pub operation_key : String
  pub operation_kind : OperationKind
  pub operation_name : String
  pub attempt_no : ℕ
  pub request_hash : String
  pub provider_request_id : Option String
  pub status : AttemptStatus
  pub retryable : Option Bool
  pub error_code : Option String
  pub result_ref : Option String
  pub result_hash : Option String
  pub reserved_at : ℕ
  pub dispatched_at : Option ℕ
  pub completed_at : Option ℕ

pub record Checkpoint : Type 0 where
  pub run_id : String
  pub checkpoint_namespace : String
  pub checkpoint_id : String
  pub parent_checkpoint_id : Option String
  pub schema_version : ℕ
  pub graph_version : String
  pub retrieval_config_hash : String
  pub last_completed_node : Option String
  pub state_payload : HarnessState
  pub state_hash : String
  pub lease_epoch : ℕ
  pub created_at : ℕ

pub data ArtifactKind : Type 0 where
  retrieval verification terminal : ArtifactKind

pub record Artifact : Type 0 where
  pub artifact_id : String
  pub run_id : String
  pub node_name : String
  pub artifact_kind : ArtifactKind
  pub payload_hash : String
  pub payload : String
  pub lease_epoch : ℕ
  pub created_at : ℕ

pub record Message : Type 0 where
  pub message_id : String
  pub session_id : String
  pub user_id : String
  pub role : Role
  pub content : String
  pub run_id : String
  pub ordinal : ℕ

pub record ResultRow : Type 0 where
  pub run_id : String
  pub final_message_id : String
  pub answer_payload : String
  pub evidence_payload : String
  pub verification_payload : String

pub record IdempotencyKey : Type 0 where
  pub user_id : String
  pub session_id : String
  pub idempotency_key : String
  pub request_hash : String
  pub run_id : String
  pub expires_at : ℕ

pub record Event : Type 0 where
  pub run_id : String
  pub sequence : ℕ
  pub event_type : EventType
  pub safe_payload : Payload
  pub created_at : ℕ

pub record Db : Type 0 where
  pub sessions : List Session
  pub runs : List Run
  pub ledgers : List Ledger
  pub attempts : List Attempt
  pub checkpoints : List Checkpoint
  pub artifacts : List Artifact
  pub messages : List Message
  pub results : List ResultRow
  pub keys : List IdempotencyKey
  pub events : List Event

abbrev pub is_running : Status → Bool
is_running Status.running = true
is_running _ = false

-- `status in ACTIVE_RUN_STATUSES`.
abbrev pub is_active : Status → Bool
is_active queued = true
is_active Status.running = true
is_active interrupted = true
is_active _ = false

-- `status in ANSWER_BEARING_RUN_STATUSES`.
abbrev pub is_answer_bearing : Status → Bool
is_answer_bearing Status.succeeded = true
is_answer_bearing completed_with_limits = true
is_answer_bearing needs_clarification = true
is_answer_bearing _ = false

-- `status in TERMINAL_RUN_STATUSES`.
abbrev pub is_terminal : Status → Bool
is_terminal Status.failed = true
is_terminal cancelled = true
is_terminal s = is_answer_bearing s

abbrev pub same_kind : OperationKind → OperationKind → Bool
same_kind model model = true
same_kind embedding embedding = true
same_kind tool tool = true
same_kind _ _ = false

abbrev pub is_assistant : Role → Bool
is_assistant assistant = true
is_assistant user = false

-- The primary keys.
abbrev pub session_key : Session → String
session_key s = s.session_id

abbrev pub run_key : Run → String
run_key r = r.run_id

abbrev pub ledger_key : Ledger → String
ledger_key l = l.run_id

abbrev pub attempt_key : Attempt → String
attempt_key a = a.attempt_id

abbrev pub artifact_key : Artifact → String
artifact_key a = a.artifact_id

abbrev pub message_key : Message → String
message_key m = m.message_id

abbrev pub result_key : ResultRow → String
result_key r = r.run_id

abbrev pub is_event : String → ℕ → Event → Bool
is_event id n e = e.run_id =t= id && e.sequence == n

abbrev pub has_event : String → ℕ → List Event → Bool
has_event id n events = any (is_event id n) events

-- An attempt of a run by one kind of operation, and by one operation key.
abbrev pub of_kind : String → OperationKind → Attempt → Bool
of_kind id kind a = a.run_id =t= id && same_kind a.operation_kind kind

abbrev pub of_key : String → String → Attempt → Bool
of_key id key a = a.run_id =t= id && a.operation_key =t= key

-- An active run of a session.
abbrev pub is_active_in : String → Run → Bool
is_active_in session r = r.session_id =t= session && is_active r.status

-- A run's assistant message.
abbrev pub is_answer_of : String → Message → Bool
is_answer_of id m = m.run_id =t= id && is_assistant m.role
