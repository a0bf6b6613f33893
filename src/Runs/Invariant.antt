-- ===== src/Runs/Invariant.antt =====
-- What the tables of the run service keep in every state.
pub mod Events
pub mod Rows
pub mod Results
pub mod Limits
pub mod Writes
use legal_rag_agent.Prelude.{
  ℕ, ◌+◌, ◌*◌, ◌≤◌, ◌≡◌, Bool, true, false, ◌&&◌, Option, none, some, List, String, all, ltb, leb,
  ◌=t=◌, is_some, indicator, find_by, count_by, Distinct,
}
use legal_rag_agent.Runs.Tables.{
  is_answer_bearing, OperationKind, Session, Run, Ledger, Attempt, Message, ResultRow, Event, Db,
  session_key, run_key, ledger_key, message_key, result_key, attempt_key, has_event, of_kind,
  of_key, is_active_in, is_answer_of,
}
use legal_rag_agent.Runs.Service.Budget.{used, maximum, last_attempt_no}
use legal_rag_agent.Runs.Spec.{row_ok}

abbrev pub sequence_of : Option Run → ℕ
sequence_of none = 0
sequence_of (some r) = r.event_sequence

-- A run's events are numbered from 1 to its event_sequence, with no gap.
abbrev pub Timeline : List Run → List Event → Type 0
Timeline runs events =
    (id : String) (n : ℕ)
    → has_event id n events ≡ (ltb 0 n && leb n (sequence_of (find_by run_key id runs)))

abbrev pub is_owned : List Session → Run → Bool
is_owned sessions r = elim (find_by session_key r.session_id sessions) [
  | none ↦ false
  | some s ↦ s.user_id =t= r.user_id
]

-- A run's row keeps its rules, its user is its session's, and a session has one active run at most.
pub record Sessions (sessions : List Session) (runs : List Run) : Type 0 where
  pub keyed : Distinct run_key runs
  pub rows : all row_ok runs ≡ true
  pub owned : all (is_owned sessions) runs ≡ true
  pub one_active : (session : String) → count_by (is_active_in session) runs ≤ 1

abbrev pub is_answered : Option Run → Bool
is_answered none = false
is_answered (some r) = is_answer_bearing r.status

-- The message of a result is there.
abbrev pub has_answer : String → List ResultRow → List Message → Bool
has_answer id results messages = elim (find_by result_key id results) [
  | none ↦ false
  | some r ↦ is_some (find_by message_key r.final_message_id messages)
]

-- An answer-bearing run has its result and one assistant message; no other has either.
pub record Published (runs : List Run) (messages : List Message) (results : List ResultRow)
    : Type 0 where
  pub answers :
      (id : String) → has_answer id results messages ≡ is_answered (find_by run_key id runs)
  pub stored :
      (id : String)
      → is_some (find_by result_key id results) ≡ is_answered (find_by run_key id runs)
  pub said :
      (id : String)
      → count_by (is_answer_of id) messages ≡ indicator (is_answered (find_by run_key id runs))

abbrev pub used_of : OperationKind → Option Ledger → ℕ
used_of kind none = 0
used_of kind (some l) = used kind l

abbrev pub retries_of : Option Ledger → ℕ
retries_of none = 0
retries_of (some l) = l.max_retry_per_operation + 1

pub record WithinLimits (l : Ledger) : Type 0 where
  pub rounds : l.retrieval_rounds_used ≤ l.max_retrieval_rounds
  pub queries : l.queries_used ≤ l.max_retrieval_rounds * l.max_queries_per_round
  pub attempts : (kind : OperationKind) → used kind l ≤ maximum kind l

-- The ledger counts a run's attempts of each kind and is within its limits; the attempts of one
-- operation key are numbered in a row, within the limit on retries.
pub record Budgets (ledgers : List Ledger) (attempts : List Attempt) : Type 0 where
  pub counted :
      (id : String) (kind : OperationKind)
      → count_by (of_kind id kind) attempts ≡ used_of kind (find_by ledger_key id ledgers)
  pub within : (id : String) (l : Ledger) → find_by ledger_key id ledgers ≡ some l → WithinLimits l
  pub numbered :
      (id key : String) → count_by (of_key id key) attempts ≡ last_attempt_no id key attempts
  pub retried :
      (id key : String)
      → last_attempt_no id key attempts ≤ retries_of (find_by ledger_key id ledgers)

pub record IsValid (db : Db) : Type 0 where
  pub timeline : Timeline db.runs db.events
  pub sessions : Sessions db.sessions db.runs
  pub published : Published db.runs db.messages db.results
  pub budgets : Budgets db.ledgers db.attempts
