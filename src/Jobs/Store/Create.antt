-- ===== src/Jobs/Store/Create.antt =====
-- JobStore.create_job, and `get_job`, `get_job_internal`.
use legal_rag_agent.Prelude.{
  ℕ, Bool, true, false, not, ◌&&◌, Option, none, some, ◌∷◌, String, ◌=t=◌, is_some, if◌then◌else◌,
}
use legal_rag_agent.Jobs.Result.{Result, ok, err, conflict, integrity, ◌>>=◌, ◌>>◌}
use legal_rag_agent.Jobs.Validate.{required_string, opaque_id, hash, count}
use legal_rag_agent.Jobs.Tables.{
  Kind, queued, Job, Outbox, Db, job_ok, find_job, find_key, insert_outbox,
}
use legal_rag_agent.Jobs.Store.{Clock, JobRecord, read_job}

-- The arguments of `create_job`.
pub record Submission : Type 0 where
  pub owner_id : String
  pub kind : Kind
  pub request_ref : String
  pub request_hash : String
  pub total : ℕ
  pub idempotency_key : Option String

abbrev pub optional_id : Option String → Result (Unit {0})
optional_id none = ok tt
optional_id (some key) = opaque_id key

unfoldable pub check_submission : Submission → Result (Unit {0})
check_submission s = do
  required_string s.owner_id 128
  opaque_id s.request_ref
  hash s.request_hash
  count s.total 0 1000000
  optional_id s.idempotency_key

-- The row of the INSERT, with the columns' defaults.
abbrev pub new_job : Submission → String → Clock → Job
new_job s id clock = record {
  job_id = id;
  owner_id = s.owner_id;
  kind = s.kind;
  request_ref = s.request_ref;
  request_hash = s.request_hash;
  idempotency_key = s.idempotency_key;
  status = queued;
  stage = "received";
  total = s.total;
  completed = 0;
  failed = 0;
  cancel_requested = false;
  lease_owner = none;
  lease_epoch = 0;
  claim_count = 0;
  lease_expires_at = none;
  error_code = none;
  recovery_queued_at = none;
  created_at = clock.start;
  updated_at = clock.start;
  started_at = none;
  finished_at = none;
}

-- A fresh message of a job, `OUTBOX_SCHEMA_VERSION` being 1.
abbrev pub new_outbox : String → String → Clock → Outbox
new_outbox outbox_id job_id clock = record {
  outbox_id = outbox_id;
  job_id = job_id;
  schema_version = 1;
  delivered = false;
  claim_owner = none;
  claim_epoch = 0;
  claim_expires_at = none;
  delivery_attempts = 0;
  next_attempt_at = clock.start;
  last_error_code = none;
  created_at = clock.start;
  delivered_at = none;
}

-- `INSERT ... ON CONFLICT (owner_id, kind, idempotency_key) DO NOTHING`: whether a row went in.
-- The primary key is no part of the conflict that is passed over.
unfoldable pub insert_job : Job → Db → Result (Bool × Db)
insert_job j db =
    if not (job_ok j)
    then err integrity
    else if is_some (find_key j.owner_id j.kind j.idempotency_key db.jobs)
    then ok (false, db)
    else if is_some (find_job j.job_id db.jobs)
    then err integrity
    else ok (true, record db { jobs = j ∷ db.jobs })

-- The job that the key binds is returned if it asks for the same, and is a conflict if not.
unfoldable pub existing_job : Submission → Db → Result (Option JobRecord × Db)
existing_job s db = elim (find_key s.owner_id s.kind s.idempotency_key db.jobs) [
  | none ↦ err integrity
  | some j ↦
      if j.request_ref =t= s.request_ref && j.request_hash =t= s.request_hash
      then ok (read_job j.job_id none db, db)
      else err conflict
]

unfoldable pub after_insert :
    Submission → String → String → Clock → Bool → Db → Result (Option JobRecord × Db)
after_insert s new_id outbox_id clock false db = existing_job s db
after_insert s new_id outbox_id clock true db = do
  db' ← insert_outbox (new_outbox outbox_id new_id clock) db
  ok (read_job new_id none db', db')

-- `new_id` and `outbox_id` are the two values of `uuid.uuid4()`.
unfoldable pub create_job :
    Submission → String → String → Clock → Db → Result (Option JobRecord × Db)
unfolding after_insert
create_job s new_id outbox_id clock db = do
  check_submission s
  (inserted, db') ← insert_job (new_job s new_id clock) db
  after_insert s new_id outbox_id clock inserted db'

-- `get_job`: a job of another owner is not there.
unfoldable pub get_job : String → String → Db → Result (Option JobRecord)
get_job job_id owner_id db = do
  required_string job_id 36
  required_string owner_id 128
  ok (read_job job_id (some owner_id) db)

-- `get_job_internal`.
unfoldable pub get_job_internal : String → Db → Result (Option JobRecord)
get_job_internal job_id db = do required_string job_id 36; ok (read_job job_id none db)
