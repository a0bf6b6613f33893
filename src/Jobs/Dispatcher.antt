-- ===== src/Jobs/Dispatcher.antt =====
-- dispatch_once and _observe_dispatch of legal_rag/jobs/dispatcher.py: the relay from the outbox to
-- the broker. Each call of the store is a transaction of its own with a clock of its own. The
-- publisher and the store's UUIDs are parameters; durations are not modelled.

pub mod Reports
use Prim.Native.String.{◌++◌ as str_append}
use legal_rag_agent.Prelude.{
  ℕ, zero, suc, ◌+◌, ◌-◌, ◌≤◌, ◌≡◌, refl, Bool, true, false, ◌||◌, not, Option, none, some, List,
  [], ◌∷◌, ◌++◌, String, length, arith, ltb, ◌==◌, ◌=t=◌, if◌then◌else◌,
}
use legal_rag_agent.Jobs.Result.{Result, ok, err, value_error, ◌>>=◌, ◌>>◌}
use legal_rag_agent.Jobs.Tables.{Db}
use legal_rag_agent.Jobs.Store.{Clock}
use legal_rag_agent.Jobs.Store.Delivery.{
  OutboxRecord, claim_outbox, mark_outbox_delivered, mark_outbox_retry,
}
use legal_rag_agent.Jobs.Store.Requeue.{requeue_expired_jobs}
use legal_rag_agent.Jobs.Invariant.{IsValid, Keeps}
use legal_rag_agent.Jobs.Invariant.Delivery.{
  claim_outbox-Keeps, mark_outbox_delivered-Keeps, mark_outbox_retry-Keeps,
}
use legal_rag_agent.Jobs.Invariant.Requeue.{requeue_expired_jobs-Keeps}

pub record DispatchReport : Type 0 where
  pub recovered : ℕ
  pub attempted : ℕ
  pub delivered : ℕ
  pub deferred : ℕ

-- What a call of `observer.record` is given.
pub record Observation : Type 0 where
  pub job_id : String
  pub name : String
  pub status : String
  pub retry_count : ℕ
  pub error_category : Option String

abbrev pub observation : OutboxRecord → Bool → Option String → Bool → Observation
observation r delivered category retry_recorded = record {
  job_id = r.job_id;
  name = if retry_recorded then "job.retry" else "tool.completed";
  status = if delivered then "succeeded" else if retry_recorded then "retrying" else "failed";
  retry_count = r.attempts - 1;
  error_category = category;
}

-- The settings of one call.
pub record Dispatch : Type 0 where
  pub dispatcher_id : String
  pub limit : ℕ
  pub lease_seconds : ℕ
  pub retry_delay_seconds : ℕ

abbrev pub dispatch_allowed : Dispatch → Bool
dispatch_allowed d = not (
    d.dispatcher_id =t= ""
    || (ltb d.limit 1 || (ltb d.lease_seconds 1 || ltb d.retry_delay_seconds 1)))

-- The tables, the broker, what the observer was given, and how many were delivered and deferred.
pub record World (B : Type 0) : Type 0 where
  pub db : Db
  pub broker : B
  pub observed : List Observation
  pub delivered : ℕ
  pub deferred : ℕ

-- The world before the loop.
abbrev pub idle : {B : Type 0} → B → Db → World B
idle broker db = record { db = db; broker = broker; observed = []; delivered = 0; deferred = 0 }

-- A broker in a state of type `B`: whether a publication raised, and what it makes of the broker.
-- `clock k` is the clock of the transaction for the k-th last record.
module _ {B : Type 0} (publish : B → String → ℕ → String → Bool × B) (clock : ℕ → Clock) where
  -- `mark_outbox_retry`, the count and the observation of a message that was not delivered.
  unfoldable pub defer :
      Dispatch → Clock → OutboxRecord → String → String → World B → Result (Unit {0}) × World B
  defer d at r code category w =
      elim (mark_outbox_retry r.id d.dispatcher_id r.lease_epoch code d.retry_delay_seconds at
        w.db) [
          | err e ↦ (err e, w)
          | ok (recorded, db) ↦ (
            ok tt,
            record w {
              db = db;
              observed = w.observed ++ (observation r false (some category) recorded ∷ []);
              deferred = w.deferred + 1;
            },
          )
        ]

  -- `mark_outbox_delivered`; a claim that was lost meanwhile counts nowhere.
  unfoldable pub settle : Dispatch → Clock → OutboxRecord → World B → Result (Unit {0}) × World B
  settle d at r w = elim (mark_outbox_delivered r.id d.dispatcher_id r.lease_epoch at w.db) [
    | err e ↦ (err e, w)
    | ok (false, db) ↦ (ok tt, record w { db = db })
    | ok (true, db) ↦ (
      ok tt,
      record w {
        db = db;
        observed = w.observed ++ (observation r true none false ∷ []);
        delivered = w.delivered + 1;
      },
    )
  ]

  -- The body of the loop.
  unfoldable pub dispatch_record :
      Dispatch → Clock → OutboxRecord → World B → Result (Unit {0}) × World B
  dispatch_record d at r w =
      if not (r.schema_version == 1)
      then defer d at r "unsupported_message_schema" "validation_failed" w
      else (let (raised, broker) =
            publish w.broker r.job_id r.schema_version (str_append "legal-rag-job-" r.job_id) in
          if raised
          then defer d at r "broker_unavailable" "broker_unavailable" (record w { broker = broker })
          else settle d at r (record w { broker = broker }))

  unfoldable pub dispatch_records :
      Dispatch → List OutboxRecord → World B → Result (Unit {0}) × World B
  dispatch_records d [] w = (ok tt, w)
  dispatch_records d (r ∷ rs) w =
      let (done, w') = dispatch_record d (clock (length rs)) r w in
      elim done [ err e ↦ (err e, w') | ok _ ↦ dispatch_records d rs w' ]

  -- `dispatch_once`, with the store's defaults of `requeue_expired_jobs`. An exception of the store
  -- ends it, and what the earlier transactions committed stays.
  unfoldable pub dispatch_once :
      Dispatch
      → (String → Bool)
      → (String → Bool)
      → (String → String)
      → Clock
      → Clock
      → Db
      → B
      → Result DispatchReport × World B
  dispatch_once d busy_jobs busy_messages new_id at_requeue at_claim db broker =
      if not (dispatch_allowed d)
      then (err value_error, idle broker db)
      else elim (requeue_expired_jobs busy_jobs new_id d.limit 30 3600 5 at_requeue db) [
        | err e ↦ (err e, idle broker db)
        | ok (recovered, db') ↦
            elim (claim_outbox busy_messages d.dispatcher_id d.limit d.lease_seconds none at_claim
              db') [
                | err e ↦ (err e, idle broker db')
                | ok (records, db'') ↦
                    let (done, w) = dispatch_records d records (idle broker db'') in
                    (
                      (done
                          >> ok (record {
                            recovered = length recovered;
                            attempted = length records;
                            delivered = w.delivered;
                            deferred = w.deferred;
                          })),
                      w,
                    )
              ]
      ]
