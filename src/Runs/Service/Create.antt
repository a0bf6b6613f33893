-- ===== src/Runs/Service/Create.antt =====
-- RunService: create_session and create_run.
use legal_rag_agent.Prelude.{
  ℕ, ◌+◌, Bool, true, false, ◌&&◌, not, Option, none, some, List, [], ◌∷◌, String, ltb, ◌=t=◌,
  is_some, if◌then◌else◌, find_by, ◌||◌,
}
use legal_rag_agent.Runs.Result.{
  Result, ok, err, not_found, idempotency_conflict, active_run_conflict, session_inactive,
  configuration_unavailable, data_error, integrity, require, ◌>>=◌, ◌>>◌,
}
use legal_rag_agent.Runs.Validate.{canonical_identifier}
use legal_rag_agent.Runs.Tables.{
  SessionStatus, active, archived, queued, is_active, is_answer_bearing, run_queued, text, number,
  user, Session, Run, Ledger, Message, IdempotencyKey, Event, Db, session_key, run_key, ledger_key,
}
use legal_rag_agent.Runs.Service.{
  embedded_run_record, RunRecord, owned_run_row, run_record, insert_event,
}
use legal_rag_agent.Runs.Service.Claim.{oldest}
use legal_rag_agent.Runs.Service.Publish.{next_message_ordinal, insert_message}
use legal_rag_agent.Harness.Budget.{HarnessBudgetConfig}

pub record ServicePrincipal : Type 0 where
  pub user_id : String
  pub scope_id : String
  pub profile_id : String

-- What `_canonical_request_payload` makes of the request, with the SHA-256 digests of its canonical
-- JSON: `request_hash`, over the parent too where there is one, and `retrieval_config_hash`.
pub record Request : Type 0 where
  pub payload : String
  pub question : String
  pub snapshot_id : Option String
  pub request_hash : Option String → String
  pub retrieval_config_hash : String

-- What `_freeze_retrieval_binding` finds in the catalog, with the fingerprint of the boundary.
pub record Binding : Type 0 where
  pub snapshot_id : String
  pub revision : ℕ
  pub activation_id : String
  pub boundary_fingerprint : String

-- The arguments of `create_run`.
pub record Creation : Type 0 where
  pub principal : ServicePrincipal
  pub session_id : String
  pub idempotency_key : String
  pub request : Request
  pub graph_version : String
  pub parent_run_id : Option String

-- `uuid.uuid4()`, drawn twice.
pub record NewIds : Type 0 where
  pub run_id : String
  pub message_id : String

-- `now()`, the transaction's start, which the columns default to, and `clock_timestamp()`.
pub record Clock : Type 0 where
  pub start : ℕ
  pub now : ℕ

-- `create_session`; the answer is the row.
unfoldable pub create_session :
    ServicePrincipal → Option String → String → Db → Result (Session × Db)
create_session principal title session_id db =
    let session : Session = record {
      session_id = session_id;
      user_id = principal.user_id;
      title = title;
      status = active;
    } in
    if is_some (find_by session_key session_id db.sessions)
    then err integrity
    else ok (session, record db { sessions = session ∷ db.sessions })

-- `_session_row`.
unfoldable pub owned_session : String → String → Db → Result Session
owned_session id user_id db = elim (find_by session_key id db.sessions) [
  | none ↦ err not_found
  | some s ↦ if s.user_id =t= user_id then ok s else err not_found
]

abbrev pub is_open : SessionStatus → Bool
is_open active = true
is_open archived = false

unfoldable pub is_bound : String → String → String → IdempotencyKey → Bool
is_bound user_id session key k =
    k.user_id =t= user_id && (k.session_id =t= session && k.idempotency_key =t= key)

unfoldable pub find_key : String → String → String → List IdempotencyKey → Option IdempotencyKey
find_key user_id session key [] = none
find_key user_id session key (k ∷ ks) =
    if is_bound user_id session key k then some k else find_key user_id session key ks

-- DELETE FROM idempotency_keys, of a key that has expired.
unfoldable pub delete_key : String → String → String → ℕ → List IdempotencyKey → List IdempotencyKey
delete_key user_id session key now [] = []
delete_key user_id session key now (k ∷ ks) =
    let rest = delete_key user_id session key now ks in
    if is_bound user_id session key k && not (ltb now k.expires_at) then rest else k ∷ rest

-- The parent of a follow-up run: owned, of the same session, and answered.
unfoldable pub check_parent : Creation → Db → Result (Unit {0})
check_parent c db = elim c.parent_run_id [
  | none ↦ ok tt
  | some id ↦ do
    parent ← owned_run_row id c.principal.user_id db
    require (parent.session_id =t= c.session_id && is_answer_bearing parent.status) not_found
]

unfoldable pub is_active_of : String → String → Run → Bool
is_active_of session user_id r =
    r.session_id =t= session && (r.user_id =t= user_id && is_active r.status)

unfoldable pub check_no_active : Creation → Db → Result (Unit {0})
check_no_active c db = elim (oldest (is_active_of c.session_id c.principal.user_id) db.runs) [
  | none ↦ ok tt
  | some r ↦ err (active_run_conflict r.run_id)
]

unfoldable pub check_binding : Creation → Option Binding → Result Binding
check_binding c frozen = elim frozen [
  | none ↦ err configuration_unavailable
  | some b ↦ do
    require (elim c.request.snapshot_id [ none ↦ true | some s ↦ s =t= b.snapshot_id ])
        configuration_unavailable
    ok b
]

-- HARNESS_STATE_SCHEMA_VERSION is 1.
unfoldable pub new_run : Creation → Binding → NewIds → Clock → Run
new_run c b ids clock = record {
  run_id = ids.run_id;
  session_id = c.session_id;
  user_id = c.principal.user_id;
  parent_run_id = c.parent_run_id;
  status = queued;
  request_hash = c.request.request_hash c.parent_run_id;
  request_payload = c.request.payload;
  scope_id = c.principal.scope_id;
  snapshot_id = b.snapshot_id;
  snapshot_revision = b.revision;
  activation_id = b.activation_id;
  profile_id = c.principal.profile_id;
  boundary_fingerprint = b.boundary_fingerprint;
  retrieval_config_hash = c.request.retrieval_config_hash;
  graph_version = c.graph_version;
  state_schema_version = 1;
  checkpoint_namespace = none;
  last_checkpoint_id = none;
  last_completed_node = none;
  execution_deadline_at = none;
  stop_reason = none;
  created_at = clock.start;
  queued_at = clock.start;
  started_at = none;
  finished_at = none;
  updated_at = clock.start;
  error_code = none;
  revision = 1;
  event_sequence = 1;
  lease_owner = none;
  lease_expires_at = none;
  lease_epoch = 0;
  resume_requested_at = none;
}

unfoldable pub new_ledger : String → HarnessBudgetConfig → ℕ → Ledger
new_ledger run_id budget at = record {
  run_id = run_id;
  max_retrieval_rounds = budget.max_retrieval_rounds;
  max_queries_per_round = budget.max_queries_per_round;
  max_tool_attempts = budget.max_tool_attempts;
  max_model_attempts = budget.max_model_attempts;
  max_embedding_attempts = budget.max_embedding_attempts;
  max_retry_per_operation = budget.max_retry_per_operation;
  evidence_top_k = budget.evidence_top_k;
  retrieval_rounds_used = 0;
  queries_used = 0;
  tool_attempts_used = 0;
  model_attempts_used = 0;
  embedding_attempts_used = 0;
  revision = 0;
  updated_at = at;
}

unfoldable pub question_message : Creation → NewIds → Db → Message
question_message c ids db = record {
  message_id = ids.message_id;
  session_id = c.session_id;
  user_id = c.principal.user_id;
  role = user;
  content = c.request.question;
  run_id = ids.run_id;
  ordinal = next_message_ordinal c.session_id db.messages;
}

unfoldable pub queued_event : Creation → Binding → NewIds → Clock → Event
queued_event c b ids clock = record {
  run_id = ids.run_id;
  sequence = 1;
  event_type = run_queued;
  safe_payload =
      ("status", text "queued")
      ∷ ("scope_id", text c.principal.scope_id)
      ∷ ("snapshot_id", text b.snapshot_id)
      ∷ ("snapshot_revision", number b.revision)
      ∷ ("profile_id", text c.principal.profile_id)
      ∷ ("boundary_fingerprint", text b.boundary_fingerprint)
      ∷ [];
  created_at = clock.start;
}

-- INSERT INTO runs and run_budget_ledgers: their keys are the new run's.
unfoldable pub insert_run : Run → Ledger → Db → Result Db
insert_run r l db =
    if is_some (find_by run_key r.run_id db.runs)
      || is_some (find_by ledger_key l.run_id db.ledgers)
    then err integrity
    else ok (record db { runs = r ∷ db.runs; ledgers = l ∷ db.ledgers })

-- INSERT INTO idempotency_keys.
unfoldable pub insert_key : IdempotencyKey → Db → Result Db
insert_key k db =
    if is_some (find_key k.user_id k.session_id k.idempotency_key db.keys)
    then err integrity
    else ok (record db { keys = k ∷ db.keys })

unfoldable pub new_key : Creation → NewIds → ℕ → ℕ → IdempotencyKey
new_key c ids ttl now = record {
  user_id = c.principal.user_id;
  session_id = c.session_id;
  idempotency_key = c.idempotency_key;
  request_hash = c.request.request_hash c.parent_run_id;
  run_id = ids.run_id;
  expires_at = now + ttl;
}

-- What follows once no key answers: the checks, and the five rows of a new run.
unfoldable pub create_fresh :
    HarnessBudgetConfig
    → ℕ
    → Creation
    → Option Binding
    → NewIds
    → Clock
    → Session
    → Db
    → Result ((RunRecord × Bool) × Db)
create_fresh budget ttl c frozen ids clock session db = do
  require (is_open session.status) session_inactive
  check_parent c db
  check_no_active c db
  b ← check_binding c frozen
  with_run ← insert_run (new_run c b ids clock) (new_ledger ids.run_id budget clock.start) db
  with_message ← insert_message (question_message c ids db) with_run
  with_key ← insert_key (new_key c ids ttl clock.now) with_message
  db' ← insert_event (queued_event c b ids clock) with_key
  row ← owned_run_row ids.run_id c.principal.user_id db'
  answer ← run_record row db'
  ok ((answer, false), db')

-- A key that has not expired: the run that it is bound to.
unfoldable pub replay : Creation → IdempotencyKey → Db → Result ((RunRecord × Bool) × Db)
replay c k db = do
  require (k.request_hash =t= c.request.request_hash c.parent_run_id) idempotency_conflict
  row ← (elim (owned_run_row k.run_id c.principal.user_id db) [
    | ok row ↦ ok row
    | err e ↦ err data_error
  ])
  answer ← embedded_run_record row db
  ok ((answer, true), db)

-- `create_run`; the answer's second part tells a replay.
unfoldable pub create_run :
    HarnessBudgetConfig
    → ℕ
    → Creation
    → Option Binding
    → NewIds
    → Clock
    → Db
    → Result ((RunRecord × Bool) × Db)
create_run budget ttl c frozen ids clock db = do
  canonical_identifier c.session_id 36
  canonical_identifier c.idempotency_key 255
  canonical_identifier c.graph_version 64
  elim c.parent_run_id [ none ↦ ok tt | some id ↦ canonical_identifier id 36 ]
  session ← owned_session c.session_id c.principal.user_id db
  elim (find_key c.principal.user_id c.session_id c.idempotency_key db.keys) [
    | none ↦ create_fresh budget ttl c frozen ids clock session db
    | some k ↦
        if ltb clock.now k.expires_at
        then replay c k db
        else create_fresh budget ttl c frozen ids clock session (record db {
          keys = delete_key c.principal.user_id c.session_id c.idempotency_key clock.now db.keys;
        })
  ]
