-- ===== src/Runs/Service/Publish.antt =====
-- RunService: publish_success, publish_terminal_result and _publish_terminal_result.
use legal_rag_agent.Prelude.{
  ℕ, ◌+◌, max, Bool, true, false, ◌&&◌, Option, none, some, List, [], ◌∷◌, String, ◌==◌, ◌=t=◌,
  is_some, if◌then◌else◌, find_by, count_by,
}
use legal_rag_agent.Runs.Result.{
  Result, ok, err, contract, invalid_state, data_error, integrity, require, ◌>>=◌, ◌>>◌,
}
use legal_rag_agent.Runs.Validate.{canonical_identifier, canonical_positive_integer}
use legal_rag_agent.Runs.Tables.{
  Status, succeeded, completed_with_limits, needs_clarification, is_answer_bearing, EventType,
  answer_final, run_completed_with_limits, run_needs_clarification, text, null, Payload, assistant,
  Run, Message, ResultRow, Db, message_key, result_key, is_answer_of,
}
use legal_rag_agent.Runs.Service.{
  RunRecord, RunResultRecord, run_row, run_result_record, reread, as_it_is, transition_with_event,
  assert_worker_lease,
}

-- `_PreparedSafeRunResult`.
pub record SafeResult : Type 0 where
  pub answer_text : String
  pub answer_payload : String
  pub evidence_payload : String
  pub verification_payload : String

-- `_safe_result_matches`, of canonical texts.
unfoldable pub safe_result_matches : RunResultRecord → SafeResult → Bool
safe_result_matches existing candidate =
    existing.answer_text =t= candidate.answer_text
    && (existing.answer_payload =t= candidate.answer_payload
        && (existing.evidence_payload =t= candidate.evidence_payload
            && existing.verification_payload =t= candidate.verification_payload))

abbrev pub same_answer_status : Status → Status → Bool
same_answer_status succeeded succeeded = true
same_answer_status completed_with_limits completed_with_limits = true
same_answer_status needs_clarification needs_clarification = true
same_answer_status _ _ = false

abbrev pub same_text : Option String → Option String → Bool
same_text none none = true
same_text (some a) (some b) = a =t= b
same_text _ _ = false

abbrev pub completion_event : Status → EventType
completion_event completed_with_limits = run_completed_with_limits
completion_event needs_clarification = run_needs_clarification
completion_event _ = answer_final

abbrev pub status_text : Status → String
status_text completed_with_limits = "completed_with_limits"
status_text needs_clarification = "needs_clarification"
status_text _ = "succeeded"

-- The greatest ordinal of a session's messages.
unfoldable pub last_ordinal : String → List Message → ℕ
last_ordinal session [] = 0
last_ordinal session (m ∷ ms) =
    let rest = last_ordinal session ms in
    if m.session_id =t= session then max m.ordinal rest else rest

-- `_next_message_ordinal`.
unfoldable pub next_message_ordinal : String → List Message → ℕ
next_message_ordinal session ms = last_ordinal session ms + 1

-- INSERT INTO messages, and INTO run_results.
unfoldable pub insert_message : Message → Db → Result Db
insert_message m db =
    if is_some (find_by message_key m.message_id db.messages)
    then err integrity
    else ok (record db { messages = m ∷ db.messages })

unfoldable pub insert_result : ResultRow → Db → Result Db
insert_result r db =
    if is_some (find_by result_key r.run_id db.results)
    then err integrity
    else ok (record db { results = r ∷ db.results })

unfoldable pub answer_message : String → Run → SafeResult → Db → Message
answer_message message_id row result db = record {
  message_id = message_id;
  session_id = row.session_id;
  user_id = row.user_id;
  role = assistant;
  content = result.answer_text;
  run_id = row.run_id;
  ordinal = next_message_ordinal row.session_id db.messages;
}

unfoldable pub result_row : String → Run → SafeResult → ResultRow
result_row message_id row result = record {
  run_id = row.run_id;
  final_message_id = message_id;
  answer_payload = result.answer_payload;
  evidence_payload = result.evidence_payload;
  verification_payload = result.verification_payload;
}

-- completion_status and stop_reason, which stand together.
pub record Outcome : Type 0 where
  pub status : Status
  pub stop_reason : Option String

unfoldable pub published_row : Outcome → ℕ → Run → Run
published_row outcome now row = record row {
  status = outcome.status;
  finished_at = some now;
  lease_owner = none;
  lease_expires_at = none;
  error_code = none;
  stop_reason = outcome.stop_reason;
}

published_payload : Outcome → String → Payload
published_payload outcome message_id =
    ("status", text (status_text outcome.status))
    ∷ ("message_id", text message_id)
    ∷ ("stop_reason", elim outcome.stop_reason [ none ↦ null | some s ↦ text s ])
    ∷ []

-- A run that is answered already: the same answer again, or a conflict.
unfoldable pub published_again : Outcome → SafeResult → Run → Db → Result (RunRecord × Db)
published_again outcome result row db = elim (run_result_record row.run_id db) [
  | none ↦ err data_error
  | some existing ↦ do
    require
        (same_answer_status row.status outcome.status
          && (same_text row.stop_reason outcome.stop_reason && safe_result_matches existing result))
        invalid_state
    as_it_is row db
]

-- Message, result and terminal state, in one transaction.
unfoldable pub publish_first :
    Outcome → SafeResult → String → String → Option ℕ → ℕ → Run → Db → Result (RunRecord × Db)
unfolding published_payload
publish_first outcome result message_id worker_id lease_epoch now row db = do
  assert_worker_lease row worker_id now lease_epoch
  require (count_by (is_answer_of row.run_id) db.messages == 0) data_error
  with_message ← insert_message (answer_message message_id row result db) db
  with_result ← insert_result (result_row message_id row result) with_message
  db' ←
      transition_with_event row (published_row outcome now) (completion_event outcome.status)
        (published_payload outcome message_id) now with_result
  reread row.run_id db'

-- `_publish_terminal_result`, of the result that `_coerce_safe_result` makes, if it makes one.
unfoldable pub publish_result :
    String
    → String
    → Option ℕ
    → Option SafeResult
    → Outcome
    → String
    → ℕ
    → Db
    → Result (RunRecord × Db)
publish_result run_id worker_id lease_epoch safe_result outcome message_id now db = do
  require (is_answer_bearing outcome.status) contract
  elim outcome.stop_reason [ none ↦ ok tt | some s ↦ canonical_identifier s 64 ]
  canonical_identifier run_id 36
  canonical_identifier worker_id 128
  elim safe_result [
    | none ↦ err contract
    | some result ↦ do
      row ← run_row run_id db
      if is_answer_bearing row.status
          then published_again outcome result row db
          else publish_first outcome result message_id worker_id lease_epoch now row db
  ]

unfoldable pub publish_success :
    String → String → Option ℕ → Option SafeResult → String → ℕ → Db → Result (RunRecord × Db)
publish_success run_id worker_id lease_epoch safe_result message_id now db =
    publish_result run_id worker_id lease_epoch safe_result
      (record { status = succeeded; stop_reason = none }) message_id now db

unfoldable pub publish_terminal_result :
    String → String → ℕ → Option SafeResult → Outcome → String → ℕ → Db → Result (RunRecord × Db)
publish_terminal_result run_id worker_id lease_epoch safe_result outcome message_id now db = do
  canonical_positive_integer lease_epoch
  publish_result run_id worker_id (some lease_epoch) safe_result outcome message_id now db
