-- ===== src/Jobs/Store.antt =====
-- JobStore of legal_rag/jobs/store.py: what its operations share. Each operation is a function of
-- its arguments, of the transaction's clock readings and of the tables; its result carries the
-- value that the method returns and the tables that it commits.
pub mod Create
pub mod Claim
pub mod Delivery
pub mod Requeue
pub mod Progress
pub mod Items
pub mod Finish
use Prim.Native.Nat.{Ordering}
use Prim.Native.String.{compare}
use legal_rag_agent.Prelude.{
  ℕ, ◌-◌, Bool, true, false, ◌&&◌, ◌||◌, Option, none, some, List, [], ◌∷◌, String, ltb, ◌==◌,
  ◌=t=◌, if◌then◌else◌,
}
use legal_rag_agent.Jobs.Result.{Result, ok}
use legal_rag_agent.Jobs.Tables.{Kind, Status, is_running, Job, Outbox, Db, find_job}

-- The database clock in one transaction: `now()`, its start; `clock_timestamp()` where a row is
-- locked and its lease compared; and `clock_timestamp()` where values are written.
pub record Clock : Type 0 where
  pub start : ℕ
  pub read_at : ℕ
  pub write_at : ℕ

-- The arguments job_id, worker_id and lease_epoch by which a worker shows its lease.
pub record Lease : Type 0 where
  pub job_id : String
  pub worker_id : String
  pub epoch : ℕ

pub record JobRecord : Type 0 where
  pub job_id : String
  pub owner_id : String
  pub kind : Kind
  pub status : Status
  pub request_ref : String
  pub request_hash : String
  pub total : ℕ
  pub completed : ℕ
  pub failed : ℕ
  pub pending : ℕ
  pub stage : String
  pub cancel_requested : Bool
  pub lease_epoch : ℕ
  pub claim_count : ℕ
  pub lease_expires_at : Option ℕ
  pub created_at : ℕ
  pub started_at : Option ℕ
  pub finished_at : Option ℕ
  pub outbox_delivered : Option Bool
  pub outbox_error_code : Option String
  pub error_code : Option String

-- ORDER BY created_at, outbox_id.
unfoldable pub older : Outbox → Outbox → Bool
older a b =
    ltb a.created_at b.created_at
    || (a.created_at == b.created_at
        && elim (compare a.outbox_id b.outbox_id) [ Ordering.lt ↦ true | _ ↦ false ])

-- The lateral join: the job's newest message.
latest : String → Option Outbox → List Outbox → Option Outbox
unfolding older
latest id best [] = best
latest id none (o ∷ os) = latest id (if o.job_id =t= id then some o else none) os
latest id (some b) (o ∷ os) = latest id (some (if o.job_id =t= id && older b o then o else b)) os

-- `_job_record`. `completed + failed` never passes `total`, so the subtractions are exact.
job_record : Job → Option Outbox → JobRecord
job_record j newest = record {
  job_id = j.job_id;
  owner_id = j.owner_id;
  kind = j.kind;
  status = j.status;
  request_ref = j.request_ref;
  request_hash = j.request_hash;
  total = j.total;
  completed = j.completed;
  failed = j.failed;
  pending = j.total - j.completed - j.failed;
  stage = j.stage;
  cancel_requested = j.cancel_requested;
  lease_epoch = j.lease_epoch;
  claim_count = j.claim_count;
  lease_expires_at = j.lease_expires_at;
  created_at = j.created_at;
  started_at = j.started_at;
  finished_at = j.finished_at;
  outbox_delivered = elim newest [ none ↦ none | some o ↦ some o.delivered ];
  outbox_error_code = elim newest [ none ↦ none | some o ↦ o.last_error_code ];
  error_code = j.error_code;
}

-- `_read_job`; with an owner, another owner's job is not there.
unfoldable pub read_job : String → Option String → Db → Option JobRecord
unfolding latest job_record
read_job id owner db = elim (find_job id db.jobs) [
  | none ↦ none
  | some j ↦
      if elim owner [ none ↦ true | some o ↦ j.owner_id =t= o ]
      then some (job_record j (latest id none db.outbox))
      else none
]

-- The lease test of `_locked_active_job`.
unfoldable pub is_active : Lease → ℕ → Job → Bool
is_active lease at j =
    is_running j.status
    && (elim j.lease_owner [ none ↦ false | some w ↦ w =t= lease.worker_id ]
        && (j.lease_epoch == lease.epoch
            && elim j.lease_expires_at [ none ↦ false | some t ↦ ltb at t ]))

-- `_locked_active_job`: the row, if it is running under this very lease, still valid.
unfoldable pub locked_active_job : Lease → ℕ → Db → Option Job
locked_active_job lease at db = elim (find_job lease.job_id db.jobs) [
  | none ↦ none
  | some j ↦ if is_active lease at j then some j else none
]

-- A write under a lease: if the lease is lost, the method returns `refusal` and writes nothing.
unfoldable pub under_lease {ℓ} :
    {A : Type ℓ} → Lease → Clock → A → (Job → Db → Result (A × Db)) → Db → Result (A × Db)
under_lease lease clock refusal body db = elim (locked_active_job lease clock.read_at db) [
  | none ↦ ok (refusal, db)
  | some j ↦ body j db
]
