-- ===== src/Runs/Service.antt =====
-- RunService of legal_rag/services/run_service.py: what its operations share. Each operation is a
-- function of its arguments, of the clock's readings, of the IDs that it draws and of the tables.
pub mod Lifecycle
pub mod Claim
pub mod Recover
pub mod Budget
pub mod Attempts
pub mod Publish
pub mod Create
pub mod Checkpoints
pub mod Artifacts
use legal_rag_agent.Prelude.{
  ℕ, ◌+◌, Bool, true, false, ◌&&◌, not, Option, none, some, List, [], ◌∷◌, String, ltb, ◌==◌, ◌=t=◌,
  is_some, if◌then◌else◌, find_by, put_by,
}
use legal_rag_agent.Runs.Result.{
  Result, ok, err, not_found, invalid_state, lease_lost, data_error, integrity, budget_exhausted,
  require, ◌>>=◌, ◌>>◌,
}
use legal_rag_agent.Runs.Tables.{
  Run, Event, EventType, Payload, ResultRow, Message, Db, Status, is_running, is_answer_bearing,
  run_key, result_key, message_key, has_event,
}

pub record RunResultRecord : Type 0 where
  pub run_id : String
  pub final_message_id : String
  pub answer_text : String
  pub answer_payload : String
  pub evidence_payload : String
  pub verification_payload : String

-- `RunRecord`: the run's columns and its result.
pub record RunRecord : Type 0 where
  pub row : Run
  pub result : Option RunResultRecord

-- `_run_row`, for a caller that needs the row.
unfoldable pub run_row : String → Db → Result Run
run_row id db = elim (find_by run_key id db.runs) [ none ↦ err not_found | some row ↦ ok row ]

-- `_owned_run_row`, for a caller that needs the row.
unfoldable pub owned_run_row : String → String → Db → Result Run
owned_run_row id user_id db = elim (find_by run_key id db.runs) [
  | none ↦ err not_found
  | some row ↦ if row.user_id =t= user_id then ok row else err not_found
]

-- `_run_result_record`: the result joined with its message.
unfoldable pub run_result_record : String → Db → Option RunResultRecord
run_result_record id db = elim (find_by result_key id db.results) [
  | none ↦ none
  | some r ↦ elim (find_by message_key r.final_message_id db.messages) [
    | none ↦ none
    | some m ↦ some (record {
      run_id = r.run_id;
      final_message_id = r.final_message_id;
      answer_text = m.content;
      answer_payload = r.answer_payload;
      evidence_payload = r.evidence_payload;
      verification_payload = r.verification_payload;
    })
  ]
]

-- `_build_run_record`: a result stands with an answer-bearing run and with no other.
unfoldable pub build_run_record : Run → Option RunResultRecord → Result RunRecord
build_run_record row result =
    if is_answer_bearing row.status
    then if is_some result then ok (record { row = row; result = result }) else err data_error
    else if is_some result
    then err data_error
    else ok (record { row = row; result = result })

-- `_run_record`.
unfoldable pub run_record : Run → Db → Result RunRecord
run_record row db = build_run_record row (run_result_record row.run_id db)

-- `_embedded_run_result_record`, of the outer joins of `_owned_run_record`: a result without its
-- message is an error.
unfoldable pub embedded_run_result_record : String → Db → Result (Option RunResultRecord)
embedded_run_result_record id db = elim (find_by result_key id db.results) [
  | none ↦ ok none
  | some r ↦ elim (find_by message_key r.final_message_id db.messages) [
    | none ↦ err data_error
    | some m ↦ ok (
        some (record {
          run_id = r.run_id;
          final_message_id = r.final_message_id;
          answer_text = m.content;
          answer_payload = r.answer_payload;
          evidence_payload = r.evidence_payload;
          verification_payload = r.verification_payload;
        }))
  ]
]

-- What `_owned_run_record` makes of a row.
unfoldable pub embedded_run_record : Run → Db → Result RunRecord
embedded_run_record row db = do
  result ← embedded_run_result_record row.run_id db
  build_run_record row result

-- `_owned_run_record`, for a caller that needs the run.
unfoldable pub owned_run_record : String → String → Db → Result RunRecord
owned_run_record id user_id db = do row ← owned_run_row id user_id db; embedded_run_record row db

-- The row read again at the end of an operation, with the tables to commit.
unfoldable pub reread : String → Db → Result (RunRecord × Db)
reread id db = elim (find_by run_key id db.runs) [
  | none ↦ err data_error
  | some row ↦ do answer ← run_record row db; ok (answer, db)
]

-- What an operation answers that finds nothing to do.
unfoldable pub as_it_is : Run → Db → Result (RunRecord × Db)
as_it_is row db = do answer ← run_record row db; ok (answer, db)

-- INSERT INTO run_events.
unfoldable pub insert_event : Event → Db → Result Db
insert_event e db =
    if has_event e.run_id e.sequence db.events
    then err integrity
    else ok (record db { events = e ∷ db.events })

-- The row that a transition writes: its values, the next revision and the next event.
unfoldable pub advanced : Run → (Run → Run) → ℕ → Run → Run
advanced row values now current = record (values current) {
  event_sequence = row.event_sequence + 1;
  revision = row.revision + 1;
  updated_at = now;
}

abbrev pub event_of : Run → EventType → Payload → ℕ → Event
event_of row kind payload now = record {
  run_id = row.run_id;
  sequence = row.event_sequence + 1;
  event_type = kind;
  safe_payload = payload;
  created_at = now;
}

-- `_transition_with_event`. Every event type is one of RUN_EVENT_TYPES.
unfoldable pub transition_with_event : Run → (Run → Run) → EventType → Payload → ℕ → Db → Result Db
transition_with_event row values kind payload now db = elim (find_by run_key row.run_id db.runs) [
  | none ↦ err invalid_state
  | some current ↦
      if current.revision == row.revision && current.event_sequence == row.event_sequence
      then insert_event (event_of row kind payload now)
          (record db { runs = put_by run_key (advanced row values now current) db.runs })
      else err invalid_state
]

-- `_assert_worker_lease`.
unfoldable pub assert_worker_lease : Run → String → ℕ → Option ℕ → Result (Unit {0})
assert_worker_lease row worker_id now lease_epoch = do
  require
      (is_running row.status
        && (elim row.lease_owner [ none ↦ false | some w ↦ w =t= worker_id ]
            && is_some row.lease_expires_at))
      lease_lost
  require (elim lease_epoch [ none ↦ true | some n ↦ row.lease_epoch == n ]) lease_lost
  require (elim row.lease_expires_at [ none ↦ false | some t ↦ ltb now t ]) lease_lost

-- `_assert_execution_deadline`.
unfoldable pub assert_execution_deadline : Run → ℕ → Result (Unit {0})
assert_execution_deadline row now = elim row.execution_deadline_at [
  | none ↦ err data_error
  | some deadline ↦ require (ltb now deadline) (budget_exhausted "deadline_exceeded")
]

-- `_assert_epoch_or_published_terminal`.
unfoldable pub assert_epoch_or_published_terminal : Run → String → ℕ → ℕ → Db → Result (Unit {0})
assert_epoch_or_published_terminal row worker_id lease_epoch now db =
    if is_answer_bearing row.status
      && (row.lease_epoch == lease_epoch && is_some (run_result_record row.run_id db))
    then ok tt
    else assert_worker_lease row worker_id now (some lease_epoch)
