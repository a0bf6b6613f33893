-- ===== src/Runs/Service/Budget.antt =====
-- RunService: get_budget, begin_retrieval_round and reserve_attempt.
use legal_rag_agent.Prelude.{
  ℕ, ◌+◌, ◌*◌, max, Option, none, some, List, [], ◌∷◌, String, ltb, leb, is_some, if◌then◌else◌,
  find_by, put_by,
}
use legal_rag_agent.Runs.Result.{
  Result, ok, err, not_found, data_error, budget_exhausted, integrity, require, ◌>>=◌, ◌>>◌,
}
use legal_rag_agent.Runs.Validate.{
  canonical_identifier, canonical_sha256_identifier, canonical_positive_integer,
  canonical_integer_up_to,
}
use legal_rag_agent.Runs.Tables.{
  OperationKind, model, embedding, tool, reserved, Attempt, Ledger, Db, ledger_key, attempt_key,
  of_key, run_key,
}
use legal_rag_agent.Runs.Service.{run_row, assert_worker_lease, assert_execution_deadline}

-- `BudgetSnapshot`: the ledger with the run's absolute deadline.
pub record BudgetSnapshot : Type 0 where
  pub ledger : Ledger
  pub execution_deadline_at : ℕ

-- `_budget_snapshot`.
unfoldable pub budget_snapshot : Ledger → Option ℕ → Result BudgetSnapshot
budget_snapshot l none = err data_error
budget_snapshot l (some deadline) = ok (record { ledger = l; execution_deadline_at = deadline })

-- The ledger of a run, for a caller that needs it.
unfoldable pub ledger_of : String → Db → Result Ledger
ledger_of id db = elim (find_by ledger_key id db.ledgers) [ none ↦ err data_error | some l ↦ ok l ]

unfoldable pub get_budget : String → Db → Result BudgetSnapshot
get_budget run_id db = do
  canonical_identifier run_id 36
  elim (find_by ledger_key run_id db.ledgers) [
    | none ↦ err not_found
    | some l ↦ elim (find_by run_key run_id db.runs) [
      | none ↦ err not_found
      | some row ↦ budget_snapshot l row.execution_deadline_at
    ]
  ]

unfoldable pub with_round : ℕ → ℕ → Ledger → Ledger
with_round query_count now l = record l {
  retrieval_rounds_used = l.retrieval_rounds_used + 1;
  queries_used = l.queries_used + query_count;
  revision = l.revision + 1;
  updated_at = now;
}

unfoldable pub begin_retrieval_round :
    String → String → ℕ → ℕ → ℕ → Db → Result (BudgetSnapshot × Db)
begin_retrieval_round run_id worker_id lease_epoch query_count now db = do
  canonical_identifier run_id 36
  canonical_identifier worker_id 128
  canonical_positive_integer lease_epoch
  canonical_integer_up_to query_count 32
  row ← run_row run_id db
  assert_worker_lease row worker_id now (some lease_epoch)
  assert_execution_deadline row now
  l ← ledger_of run_id db
  require (leb query_count l.max_queries_per_round) (budget_exhausted "max_queries_per_round")
  require (ltb l.retrieval_rounds_used l.max_retrieval_rounds)
      (budget_exhausted "max_retrieval_rounds")
  require (leb (l.queries_used + query_count) (l.max_retrieval_rounds * l.max_queries_per_round))
      (budget_exhausted "max_queries")
  snapshot ← budget_snapshot (with_round query_count now l) row.execution_deadline_at
  ok (snapshot, record db { ledgers = put_by ledger_key (with_round query_count now l) db.ledgers })

-- `func.max(attempt_no)` of one operation key of a run; 0 where there is none.
unfoldable pub last_attempt_no : String → String → List Attempt → ℕ
last_attempt_no id key [] = 0
last_attempt_no id key (a ∷ attempts) =
    let rest = last_attempt_no id key attempts in
    if of_key id key a then max a.attempt_no rest else rest

-- The ledger's columns of one kind of operation: used and maximum.
unfoldable pub used : OperationKind → Ledger → ℕ
used model l = l.model_attempts_used
used embedding l = l.embedding_attempts_used
used tool l = l.tool_attempts_used

unfoldable pub maximum : OperationKind → Ledger → ℕ
maximum model l = l.max_model_attempts
maximum embedding l = l.max_embedding_attempts
maximum tool l = l.max_tool_attempts

abbrev pub max_column : OperationKind → String
max_column model = "max_model_attempts"
max_column embedding = "max_embedding_attempts"
max_column tool = "max_tool_attempts"

with_used : OperationKind → Ledger → Ledger
with_used model l = record l { model_attempts_used = l.model_attempts_used + 1 }
with_used embedding l = record l { embedding_attempts_used = l.embedding_attempts_used + 1 }
with_used tool l = record l { tool_attempts_used = l.tool_attempts_used + 1 }

unfoldable pub spent : OperationKind → ℕ → Ledger → Ledger
unfolding with_used
spent kind now l = record (with_used kind l) { revision = l.revision + 1; updated_at = now }

-- The caller's operation: operation_key, operation_kind, operation_name and request_hash.
pub record Operation : Type 0 where
  pub key : String
  pub kind : OperationKind
  pub name : String
  pub request_hash : String

unfoldable pub reserved_attempt : String → String → ℕ → Operation → ℕ → ℕ → Attempt
reserved_attempt attempt_id run_id lease_epoch op attempt_no now = record {
  attempt_id = attempt_id;
  run_id = run_id;
  lease_epoch = lease_epoch;
  operation_key = op.key;
  operation_kind = op.kind;
  operation_name = op.name;
  attempt_no = attempt_no;
  request_hash = op.request_hash;
  provider_request_id = none;
  status = reserved;
  retryable = none;
  error_code = none;
  result_ref = none;
  result_hash = none;
  reserved_at = now;
  dispatched_at = none;
  completed_at = none;
}

-- INSERT INTO run_external_attempts.
unfoldable pub insert_attempt : Attempt → Db → Result Db
insert_attempt a db =
    if is_some (find_by attempt_key a.attempt_id db.attempts)
    then err integrity
    else ok (record db { attempts = a ∷ db.attempts })

-- `reserve_attempt`; the answer is the row that it inserts.
unfoldable pub reserve_attempt :
    String → String → ℕ → Operation → String → ℕ → Db → Result (Attempt × Db)
reserve_attempt run_id worker_id lease_epoch op attempt_id now db = do
  canonical_identifier run_id 36
  canonical_identifier worker_id 128
  canonical_positive_integer lease_epoch
  canonical_identifier op.key 255
  canonical_identifier op.name 64
  canonical_sha256_identifier op.request_hash
  row ← run_row run_id db
  assert_worker_lease row worker_id now (some lease_epoch)
  assert_execution_deadline row now
  l ← ledger_of run_id db
  let attempt_no = last_attempt_no run_id op.key db.attempts + 1
  require (leb attempt_no (l.max_retry_per_operation + 1))
      (budget_exhausted "max_retry_per_operation")
  require (ltb (used op.kind l) (maximum op.kind l)) (budget_exhausted (max_column op.kind))
  let attempt = reserved_attempt attempt_id run_id lease_epoch op attempt_no now
  db' ←
      insert_attempt attempt
        (record db { ledgers = put_by ledger_key (spent op.kind now l) db.ledgers })
  ok (attempt, db')
