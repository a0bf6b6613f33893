-- ===== src/Runs/Service/Lifecycle.antt =====
-- RunService: get_run, list_events, cancel_run, heartbeat_run, assert_execution_fence,
-- append_stage_event and fail_run.
use legal_rag_agent.Prelude.{
  ℕ, ◌+◌, ◌*◌, Bool, true, false, ◌&&◌, Option, none, some, List, [], ◌∷◌, String, ltb, ◌=t=◌, take,
  if◌then◌else◌, put_by,
}
use legal_rag_agent.Runs.Result.{Result, ok, err, contract, invalid_state, require, ◌>>=◌, ◌>>◌}
use legal_rag_agent.Runs.Validate.{
  canonical_identifier, canonical_positive_integer, canonical_integer_up_to, canonical_error_code,
}
use legal_rag_agent.Runs.Tables.{
  failed, cancelled, is_active, is_terminal, EventType, retrieval_completed, generation_started,
  verification_completed, run_failed, run_cancelled, text, Payload, Run, Event, Db, run_key,
}
use legal_rag_agent.Runs.Service.{
  owned_run_record, RunRecord, run_row, owned_run_row, reread, as_it_is, transition_with_event,
  event_of, assert_worker_lease, assert_epoch_or_published_terminal,
}

abbrev pub seconds : ℕ → ℕ
seconds n = n * 1000000

unfoldable pub get_run : String → String → Db → Result RunRecord
get_run user_id run_id db = do canonical_identifier run_id 36; owned_run_record run_id user_id db

-- ORDER BY sequence.
unfoldable pub place_event : Event → List Event → List Event
place_event e [] = e ∷ []
place_event e (f ∷ fs) = if ltb f.sequence e.sequence then f ∷ place_event e fs else e ∷ f ∷ fs

unfoldable pub events_after : String → ℕ → List Event → List Event
unfolding place_event
events_after id after [] = []
events_after id after (e ∷ es) =
    let rest = events_after id after es in
    if e.run_id =t= id && ltb after e.sequence then place_event e rest else rest

-- `list_events`; a number is never negative here.
unfoldable pub list_events : String → String → ℕ → ℕ → Db → Result (List Event)
list_events user_id run_id after_sequence limit db = do
  canonical_identifier run_id 36
  canonical_integer_up_to limit 500
  row ← owned_run_row run_id user_id db
  ok (take limit (events_after run_id after_sequence db.events))

unfoldable pub cancelled_row : ℕ → Run → Run
cancelled_row now row = record row {
  status = cancelled;
  finished_at = some now;
  lease_owner = none;
  lease_expires_at = none;
  error_code = none;
}

unfoldable pub cancel_run : String → String → ℕ → Db → Result (RunRecord × Db)
cancel_run user_id run_id now db = do
  canonical_identifier run_id 36
  row ← owned_run_row run_id user_id db
  if is_terminal row.status then as_it_is row db else (do
    require (is_active row.status) invalid_state
    db' ←
        transition_with_event row (cancelled_row now) run_cancelled
          (("status", text "cancelled") ∷ ("reason", text "user_requested") ∷ []) now db
    reread run_id db')

-- The row of a lease that is extended.
unfoldable pub extended : ℕ → ℕ → Run → Run
extended lease_seconds now row = record row {
  lease_expires_at = some (now + seconds lease_seconds);
  updated_at = now;
  revision = row.revision + 1;
}

-- `heartbeat_run`. Its UPDATE meets the row that was read, so that it counts one row.
unfoldable pub heartbeat_run : String → String → ℕ → ℕ → ℕ → Db → Result (RunRecord × Db)
heartbeat_run run_id worker_id lease_epoch lease_seconds now db = do
  canonical_identifier run_id 36
  canonical_identifier worker_id 128
  canonical_positive_integer lease_epoch
  canonical_integer_up_to lease_seconds 86400
  row ← run_row run_id db
  assert_worker_lease row worker_id now (some lease_epoch)
  reread run_id (record db { runs = put_by run_key (extended lease_seconds now row) db.runs })

unfoldable pub assert_execution_fence : String → String → ℕ → ℕ → Db → Result (Unit {0})
assert_execution_fence run_id worker_id lease_epoch now db = do
  canonical_identifier run_id 36
  canonical_identifier worker_id 128
  canonical_positive_integer lease_epoch
  row ← run_row run_id db
  assert_epoch_or_published_terminal row worker_id lease_epoch now db

-- STAGE_EVENT_TYPES.
abbrev pub is_stage_event : EventType → Bool
is_stage_event retrieval_completed = true
is_stage_event generation_started = true
is_stage_event verification_completed = true
is_stage_event _ = false

-- `append_stage_event`, of the payload that `_safe_stage_event_payload` makes, if it makes one.
unfoldable pub append_stage_event :
    String → EventType → Option Payload → String → Option ℕ → ℕ → Db → Result (Event × Db)
append_stage_event run_id kind safe_payload worker_id lease_epoch now db = do
  canonical_identifier run_id 36
  canonical_identifier worker_id 128
  require (is_stage_event kind) contract
  elim safe_payload [
    | none ↦ err contract
    | some payload ↦ do
      row ← run_row run_id db
      assert_worker_lease row worker_id now lease_epoch
      db' ← transition_with_event row (λ r. r) kind payload now db
      ok (event_of row kind payload now, db')
  ]

unfoldable pub failed_row : String → ℕ → Run → Run
failed_row error_code now row = record row {
  status = failed;
  finished_at = some now;
  lease_owner = none;
  lease_expires_at = none;
  error_code = some error_code;
}

abbrev pub has_failed_by : String → Run → Bool
has_failed_by code row = elim row.status [
  | failed ↦ elim row.error_code [ none ↦ false | some c ↦ c =t= code ]
  | _ ↦ false
]

-- `fail_run`, of the details that `_safe_failure_payload` makes, if it makes any.
unfoldable pub fail_run :
    String → String → String → Option Payload → Option ℕ → ℕ → Db → Result (RunRecord × Db)
fail_run run_id worker_id error_code details lease_epoch now db = do
  canonical_identifier run_id 36
  canonical_identifier worker_id 128
  canonical_error_code error_code
  elim details [
    | none ↦ err contract
    | some payload ↦ do
      row ← run_row run_id db
      if has_failed_by error_code row then as_it_is row db else (do
        assert_worker_lease row worker_id now lease_epoch
        db' ← transition_with_event row (failed_row error_code now) run_failed payload now db
        reread run_id db')
  ]
