-- ===== src/Runs/Service/Attempts.antt =====
-- RunService: mark_attempt_dispatched, finish_attempt and has_outcome_unknown.
use Prim.Native.String.{◌++◌ as concat}
use legal_rag_agent.Prelude.{
  ℕ, Bool, true, false, ◌&&◌, Option, none, some, [], ◌∷◌, String, leb, ◌==◌, ◌=t=◌, codes, length,
  if◌then◌else◌, find_by, put_by, count_by,
}
use legal_rag_agent.Runs.Result.{
  Result, ok, err, contract, not_found, invalid_state, lease_lost, require, ◌>>=◌, ◌>>◌,
}
use legal_rag_agent.Runs.Validate.{
  canonical_identifier, canonical_sha256_identifier, canonical_positive_integer,
  canonical_error_code,
}
use legal_rag_agent.Runs.Tables.{
  AttemptStatus, reserved, dispatched, succeeded, failed, outcome_unknown,
  abandoned_before_dispatch, attempt_outcome_unknown, text, flag, Attempt, Db, attempt_key,
}
use legal_rag_agent.Runs.Service.{
  run_row, transition_with_event, assert_worker_lease, assert_execution_deadline,
}

-- The attempt of an ID, for a caller that needs it.
unfoldable pub attempt_row : String → Db → Result Attempt
attempt_row id db = elim (find_by attempt_key id db.attempts) [
  | none ↦ err not_found
  | some a ↦ ok a
]

abbrev pub same_status : AttemptStatus → AttemptStatus → Bool
same_status reserved reserved = true
same_status dispatched dispatched = true
same_status succeeded succeeded = true
same_status failed failed = true
same_status outcome_unknown outcome_unknown = true
same_status abandoned_before_dispatch abandoned_before_dispatch = true
same_status _ _ = false

unfoldable pub dispatched_attempt : String → ℕ → Attempt → Attempt
dispatched_attempt attempt_id now a = record a {
  status = dispatched;
  provider_request_id = some (concat "attempt:" attempt_id);
  dispatched_at = some now;
}

unfoldable pub mark_attempt_dispatched : String → String → ℕ → ℕ → Db → Result (Unit {0} × Db)
mark_attempt_dispatched attempt_id worker_id lease_epoch now db = do
  canonical_identifier attempt_id 36
  canonical_identifier worker_id 128
  canonical_positive_integer lease_epoch
  a ← attempt_row attempt_id db
  row ← run_row a.run_id db
  assert_worker_lease row worker_id now (some lease_epoch)
  assert_execution_deadline row now
  require (a.lease_epoch == lease_epoch) lease_lost
  if same_status a.status dispatched then ok (tt, db) else (do
    require (same_status a.status reserved) invalid_state
    ok (
      tt,
      record db { attempts = put_by attempt_key (dispatched_attempt attempt_id now a) db.attempts },
    ))

-- How a caller says that an attempt ended.
pub record Completion : Type 0 where
  pub status : AttemptStatus
  pub retryable : Option Bool
  pub error_code : Option String
  pub result_ref : Option String
  pub result_hash : Option String
  pub possible_duplicate_cost : Bool

abbrev pub is_completion : AttemptStatus → Bool
is_completion succeeded = true
is_completion failed = true
is_completion outcome_unknown = true
is_completion _ = false

-- `result_ref or default`: an empty text counts as none.
or_default : Option String → String → String
or_default none default = default
or_default (some s) default = if length (codes s) == 0 then default else s

-- The checked `values`, as a change of the row; `made_ref` stands where no result_ref is given.
unfoldable pub success_values : Completion → String → Result (Attempt → Attempt)
unfolding or_default
success_values c made_ref = elim c.result_hash [
  | none ↦ err contract
  | some digest ↦ do
    canonical_sha256_identifier digest
    ok λ a. record a {
      status = succeeded;
      retryable = none;
      error_code = none;
      result_hash = some digest;
      result_ref = some (or_default c.result_ref made_ref);
    }
]

unfoldable pub failure_values : Completion → Result (Attempt → Attempt)
failure_values c = elim c.retryable [
  | none ↦ err contract
  | some again ↦ elim c.error_code [
    | none ↦ err contract
    | some code ↦ do
      canonical_error_code code
      ok λ a. record a {
        status = c.status;
        retryable = some again;
        error_code = some code;
        result_ref = none;
        result_hash = none;
      }
  ]
]

unfoldable pub completion_values : Completion → String → Result (Attempt → Attempt)
completion_values c made_ref =
    if same_status c.status succeeded then success_values c made_ref else failure_values c

unfoldable pub finished_attempt : (Attempt → Attempt) → ℕ → Attempt → Attempt
finished_attempt values now a = record (values a) { completed_at = some now }

unfoldable pub finish_attempt : String → String → ℕ → Completion → ℕ → Db → Result (Unit {0} × Db)
finish_attempt attempt_id worker_id lease_epoch c now db = do
  canonical_identifier attempt_id 36
  canonical_identifier worker_id 128
  canonical_positive_integer lease_epoch
  require (is_completion c.status) contract
  values ← completion_values c (concat "attempt-result:" attempt_id)
  a ← attempt_row attempt_id db
  row ← run_row a.run_id db
  assert_worker_lease row worker_id now (some lease_epoch)
  require (a.lease_epoch == lease_epoch) lease_lost
  if same_status a.status c.status then ok (tt, db) else (do
    require (same_status a.status dispatched) invalid_state
    let closed = record db {
      attempts = put_by attempt_key (finished_attempt values now a) db.attempts;
    }
    if same_status c.status outcome_unknown
        then (do
          db' ←
              transition_with_event row (λ r. r) attempt_outcome_unknown
                (("status", text "outcome_unknown")
                  ∷ ("possible_duplicate_cost", flag c.possible_duplicate_cost)
                  ∷ ("budget_refunded", flag false)
                  ∷ [])
                now closed
          ok (tt, db'))
        else ok (tt, closed))

unfoldable pub has_outcome_unknown : String → String → Db → Result Bool
has_outcome_unknown run_id operation_name db = do
  canonical_identifier run_id 36
  canonical_identifier operation_name 64
  ok (
      leb 1 (
        count_by
          (λ a.
            a.run_id =t= run_id
            && (a.operation_name =t= operation_name && same_status a.status outcome_unknown))
          db.attempts))
