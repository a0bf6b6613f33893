-- ===== src/Runs/Spec.antt =====
-- The run service as an abstract machine: what one write may do to the tables, whichever operation
-- of legal_rag/services/run_service.py makes it.
use legal_rag_agent.Prelude.{
  ℕ, ◌+◌, ◌*◌, ◌≤◌, ◌<◌, ◌≡◌, Bool, true, false, ◌&&◌, not, none, some, List, ◌∷◌, map, ◌=t=◌, ◌==◌,
  is_some, if◌then◌else◌, find_by, put_by,
}
use legal_rag_agent.Runs.Tables.{
  Status, queued, running, interrupted, cancelled, is_running, is_answer_bearing, is_terminal,
  OperationKind, user, Session, Run, Ledger, Attempt, Checkpoint, Artifact, artifact_key, Message,
  ResultRow, IdempotencyKey, Event, Db, session_key, run_key, ledger_key, attempt_key, message_key,
  result_key, is_answer_of,
}
use legal_rag_agent.Runs.Service.Claim.{oldest}
use legal_rag_agent.Runs.Service.Budget.{used, maximum, spent, last_attempt_no}
use legal_rag_agent.Runs.Service.Create.{is_active_of}

-- The life cycle of a run.
unfoldable pub may_turn : Status → Status → Bool
may_turn queued running = true
may_turn queued cancelled = true
may_turn running queued = false
may_turn running _ = true
may_turn interrupted running = true
may_turn interrupted interrupted = true
may_turn interrupted cancelled = true
may_turn _ _ = false

-- A lease stands with a running run only, an end with a terminal one only, and a run that has been
-- claimed has an absolute deadline.
unfoldable pub row_ok : Run → Bool
row_ok r =
    (if is_running r.status
      then is_some r.lease_owner && is_some r.lease_expires_at
      else not (is_some r.lease_owner) && not (is_some r.lease_expires_at))
    && ((if is_terminal r.status then is_some r.finished_at else not (is_some r.finished_at))
        && (if r.lease_epoch == 0
            then not (is_some r.execution_deadline_at)
            else is_some r.execution_deadline_at))

-- What a run is from its creation on: everything but the columns that a write may set.
unfoldable pub frozen : Run → Run
frozen r = record r {
  status = queued;
  checkpoint_namespace = none;
  last_checkpoint_id = none;
  last_completed_node = none;
  execution_deadline_at = none;
  stop_reason = none;
  started_at = none;
  finished_at = none;
  updated_at = 0;
  error_code = none;
  revision = 0;
  event_sequence = 0;
  lease_owner = none;
  lease_expires_at = none;
  lease_epoch = 0;
  resume_requested_at = none;
}

-- The same with all that an event tells: everything but a lease's end and the checkpoint pointer.
unfoldable pub told : Run → Run
told r = record r {
  checkpoint_namespace = none;
  last_checkpoint_id = none;
  last_completed_node = none;
  updated_at = 0;
  revision = 0;
  lease_expires_at = none;
}

abbrev pub enters : Run → Run → Bool
enters r r' = is_running r'.status && not (is_running r.status)

-- A transition with its event.
pub record Turns (r r' : Run) : Type 0 where
  pub same : frozen r' ≡ frozen r
  pub turn : may_turn r.status r'.status ≡ true
  pub sequence : r'.event_sequence ≡ r.event_sequence + 1
  pub revision : r'.revision ≡ r.revision + 1
  pub epoch : r'.lease_epoch ≡ (if enters r r' then r.lease_epoch + 1 else r.lease_epoch)
  pub deadline :
      is_some r.execution_deadline_at ≡ true → r'.execution_deadline_at ≡ r.execution_deadline_at
  pub fits : row_ok r ≡ true → row_ok r' ≡ true

-- A write with no event.
pub record Refreshes (r r' : Run) : Type 0 where
  pub same : told r' ≡ told r
  pub revision : r'.revision ≡ r.revision + 1
  pub fits : row_ok r ≡ true → row_ok r' ≡ true

pub record Tells (r r' : Run) (e : Event) : Type 0 where
  pub run : e.run_id ≡ r'.run_id
  pub sequence : e.sequence ≡ r'.event_sequence

-- A ledger's limits, which no write changes.
pub record SameLimits (l l' : Ledger) : Type 0 where
  pub rounds : l'.max_retrieval_rounds ≡ l.max_retrieval_rounds
  pub queries : l'.max_queries_per_round ≡ l.max_queries_per_round
  pub attempts : (kind : OperationKind) → maximum kind l' ≡ maximum kind l
  pub retries : l'.max_retry_per_operation ≡ l.max_retry_per_operation

-- One more round of retrieval, within the limits.
pub record Rounds (l l' : Ledger) : Type 0 where
  pub limits : SameLimits l l'
  pub rounds : l'.retrieval_rounds_used ≡ l.retrieval_rounds_used + 1
  pub within_rounds : l'.retrieval_rounds_used ≤ l.max_retrieval_rounds
  pub queries : l.queries_used ≤ l'.queries_used
  pub within_queries : l'.queries_used ≤ l.max_retrieval_rounds * l.max_queries_per_round
  pub attempts : (kind : OperationKind) → used kind l' ≡ used kind l

-- What an attempt is from its reservation on.
pub record SameAttempt (a a' : Attempt) : Type 0 where
  pub attempt : a'.attempt_id ≡ a.attempt_id
  pub run : a'.run_id ≡ a.run_id
  pub key : a'.operation_key ≡ a.operation_key
  pub kind : a'.operation_kind ≡ a.operation_kind
  pub number : a'.attempt_no ≡ a.attempt_no
  pub epoch : a'.lease_epoch ≡ a.lease_epoch

-- A new attempt, the next of its key, within the limits.
pub record Reserves (db : Db) (l : Ledger) (a : Attempt) : Type 0 where
  pub fresh : find_by attempt_key a.attempt_id db.attempts ≡ none
  pub run : a.run_id ≡ l.run_id
  pub number : a.attempt_no ≡ last_attempt_no a.run_id a.operation_key db.attempts + 1
  pub retries : a.attempt_no ≤ l.max_retry_per_operation + 1
  pub room : used a.operation_kind l < maximum a.operation_kind l

-- A new run with its rows.
pub record Begins (db : Db) (r : Run) (l : Ledger) (m : Message) (e : Event) : Type 0 where
  pub absent : find_by run_key r.run_id db.runs ≡ none
  pub no_ledger : find_by ledger_key r.run_id db.ledgers ≡ none
  pub status : r.status ≡ queued
  pub sequence : r.event_sequence ≡ 1
  pub fits : row_ok r ≡ true
  pub session :
      (s : Session) × (find_by session_key r.session_id db.sessions ≡ some s)
      × ((s.user_id =t= r.user_id) ≡ true)
  pub no_active : oldest (is_active_of r.session_id r.user_id) db.runs ≡ none
  pub ledger : l.run_id ≡ r.run_id
  pub no_rounds : l.retrieval_rounds_used ≡ 0
  pub no_queries : l.queries_used ≡ 0
  pub no_attempts : (kind : OperationKind) → used kind l ≡ 0
  pub message : find_by message_key m.message_id db.messages ≡ none
  pub question : m.role ≡ user
  pub tells : Tells r r e

-- An answer with its message.
pub record Answers (db : Db) (r' : Run) (m : Message) (answer : ResultRow) : Type 0 where
  pub answered : is_answer_bearing r'.status ≡ true
  pub message : find_by message_key m.message_id db.messages ≡ none
  pub result : find_by result_key r'.run_id db.results ≡ none
  pub counts : is_answer_of r'.run_id m ≡ true
  pub of_run : answer.run_id ≡ r'.run_id
  pub of_message : answer.final_message_id ≡ m.message_id

pub data Move (db : Db) : Db → Type 0 where
  open_session :
      (s : Session)
      → find_by session_key s.session_id db.sessions ≡ none
      → Move db (record db { sessions = s ∷ db.sessions })
  begin :
      (r : Run) (l : Ledger) (m : Message) (keys : List IdempotencyKey) (e : Event)
      → Begins db r l m e
      → Move db (record db {
        runs = r ∷ db.runs;
        ledgers = l ∷ db.ledgers;
        messages = m ∷ db.messages;
        keys = keys;
        events = e ∷ db.events;
      })
  turn :
      (r r' : Run) (e : Event)
      → find_by run_key r'.run_id db.runs ≡ some r
      → Turns r r'
      → is_answer_bearing r'.status ≡ false
      → Tells r r' e
      → Move db (record db { runs = put_by run_key r' db.runs; events = e ∷ db.events })
  refresh :
      (r r' : Run)
      → find_by run_key r'.run_id db.runs ≡ some r
      → Refreshes r r'
      → Move db (record db { runs = put_by run_key r' db.runs })
  answer :
      (r r' : Run) (m : Message) (result : ResultRow) (e : Event)
      → find_by run_key r'.run_id db.runs ≡ some r
      → Turns r r'
      → Answers db r' m result
      → Tells r r' e
      → Move db (record db {
        runs = put_by run_key r' db.runs;
        messages = m ∷ db.messages;
        results = result ∷ db.results;
        events = e ∷ db.events;
      })
  round :
      (l l' : Ledger)
      → find_by ledger_key l'.run_id db.ledgers ≡ some l
      → Rounds l l'
      → Move db (record db { ledgers = put_by ledger_key l' db.ledgers })
  reserve :
      (l : Ledger) (a : Attempt) (now : ℕ)
      → find_by ledger_key l.run_id db.ledgers ≡ some l
      → Reserves db l a
      → Move db (record db {
        ledgers = put_by ledger_key (spent a.operation_kind now l) db.ledgers;
        attempts = a ∷ db.attempts;
      })
  settle :
      (a a' : Attempt)
      → find_by attempt_key a'.attempt_id db.attempts ≡ some a
      → SameAttempt a a'
      → Move db (record db { attempts = put_by attempt_key a' db.attempts })
  settle_all :
      (change : Attempt → Attempt)
      → ((a : Attempt) → SameAttempt a (change a))
      → Move db (record db { attempts = map change db.attempts })
  keep_artifact :
      (a : Artifact)
      → find_by artifact_key a.artifact_id db.artifacts ≡ none
      → Move db (record db { artifacts = a ∷ db.artifacts })
  checkpoint : (c : Checkpoint) → Move db (record db { checkpoints = c ∷ db.checkpoints })

-- What several writes do, one after the other.
pub data Moves (db : Db) : Db → Type 0 where
  none_left : Moves db db
  one_more : {mid : Db} {db' : Db} → Moves db mid → Move mid db' → Moves db db'

pub Moves-append : {a b : Db} {c : Db} → Moves a b → Moves b c → Moves a c
Moves-append ms none_left = ms
Moves-append ms (one_more ns n) = one_more (Moves-append ms ns) n

pub Moves-one : {a b : Db} → Move a b → Moves a b
Moves-one m = one_more none_left m
