-- ===== src/Jobs/Tables.antt =====
-- The tables jobs, job_items and job_outbox of migration 0007 and the rows of store.py. A table is
-- a list of rows; a primary key finds and replaces its first row, and an insertion of a key that
-- is there is refused. Instants are numbers of microseconds.

pub mod Laws
use legal_rag_agent.Prelude.{
  ℕ, ◌+◌, ◌*◌, Bool, true, false, ◌&&◌, ◌||◌, not, Option, none, some, List, [], ◌∷◌, String, all,
  codes, ltb, leb, ◌==◌, ◌=t=◌, is_some, indicator, if◌then◌else◌,
}
use legal_rag_agent.Jobs.Result.{Result, ok, err, integrity}
use legal_rag_agent.Jobs.Validate.{opaque_re, hash_re, stage_re}

pub data Kind : Type 0 where
  evaluation ingestion : Kind

pub data Status : Type 0 where
  queued running succeeded failed cancelled : Status

pub data ItemStatus : Type 0 where
  pending running succeeded failed : ItemStatus

pub record Job : Type 0 where
  pub job_id : String
  pub owner_id : String
  pub kind : Kind
  pub request_ref : String
  pub request_hash : String
  pub idempotency_key : Option String
  pub status : Status
  pub stage : String
  pub total : ℕ
  pub completed : ℕ
  pub failed : ℕ
  pub cancel_requested : Bool
  pub lease_owner : Option String
  pub lease_epoch : ℕ
  pub claim_count : ℕ
  pub lease_expires_at : Option ℕ
  pub error_code : Option String
  pub recovery_queued_at : Option ℕ
  pub created_at : ℕ
  pub updated_at : ℕ
  pub started_at : Option ℕ
  pub finished_at : Option ℕ

pub record Item : Type 0 where
  pub job_id : String
  pub item_key : String
  pub status : ItemStatus
  pub attempt_count : ℕ
  pub max_attempts : ℕ
  pub lease_epoch : ℕ
  pub result_ref : Option String
  pub error_code : Option String

pub record Outbox : Type 0 where
  pub outbox_id : String
  pub job_id : String
  pub schema_version : ℕ
  pub delivered : Bool  -- the column `status`, 'pending' or 'delivered'
  pub claim_owner : Option String
  pub claim_epoch : ℕ
  pub claim_expires_at : Option ℕ
  pub delivery_attempts : ℕ
  pub next_attempt_at : ℕ
  pub last_error_code : Option String
  pub created_at : ℕ
  pub delivered_at : Option ℕ

pub record Db : Type 0 where
  pub jobs : List Job
  pub items : List Item
  pub outbox : List Outbox

-- `make_interval(secs => n)`.
abbrev pub seconds : ℕ → ℕ
seconds n = n * 1000000

abbrev pub same_kind : Kind → Kind → Bool
same_kind evaluation evaluation = true
same_kind ingestion ingestion = true
same_kind _ _ = false

abbrev pub is_running : Status → Bool
is_running Status.running = true
is_running _ = false

-- `status in _TERMINAL`.
abbrev pub is_terminal : Status → Bool
is_terminal queued = false
is_terminal Status.running = false
is_terminal _ = true

abbrev pub is_succeeded : ItemStatus → Bool
is_succeeded ItemStatus.succeeded = true
is_succeeded _ = false

abbrev pub is_failed : ItemStatus → Bool
is_failed ItemStatus.failed = true
is_failed _ = false

abbrev pub any_status : ItemStatus → Bool
any_status _ = true

-- The CHECK constraints of jobs on text columns. Of `btrim(owner_id) <> ''`, blanks are spaces.
unfoldable pub row_text_ok : String → String → String → String → Bool
row_text_ok owner ref digest stage =
    not (all (λ c. c == 32) (codes owner))
    && (opaque_re (codes ref) && (hash_re (codes digest) && stage_re (codes stage)))

-- The other CHECK constraints of jobs: progress, lease pair and finished_at.
abbrev pub progress_ok : Job → Bool
progress_ok j = leb (j.completed + j.failed) j.total

abbrev pub lease_pair_ok : Job → Bool
lease_pair_ok j =
    if is_running j.status
    then is_some j.lease_owner && is_some j.lease_expires_at
    else not (is_some j.lease_owner) && not (is_some j.lease_expires_at)

abbrev pub finished_ok : Job → Bool
finished_ok j = if is_terminal j.status then is_some j.finished_at else not (is_some j.finished_at)

unfoldable pub job_ok : Job → Bool
job_ok j =
    row_text_ok j.owner_id j.request_ref j.request_hash j.stage
    && (progress_ok j && (lease_pair_ok j && finished_ok j))

-- The CHECK constraints of job_items.
unfoldable pub item_ok : Item → Bool
item_ok i =
    hash_re (codes i.item_key)
    && ((leb 1 i.max_attempts && leb i.max_attempts 10)
        && ((leb 1 i.attempt_count && leb i.attempt_count i.max_attempts)
            && (ltb 0 i.lease_epoch
                && (if is_succeeded i.status
                    then is_some i.result_ref
                    else not (is_some i.result_ref)))))

-- The CHECK constraints of job_outbox.
unfoldable pub outbox_ok : Outbox → Bool
outbox_ok o =
    o.schema_version == 1
    && ((if is_some o.claim_owner
          then is_some o.claim_expires_at
          else not (is_some o.claim_expires_at))
        && (if o.delivered then is_some o.delivered_at else not (is_some o.delivered_at)))

-- `SELECT ... FROM jobs WHERE job_id = :job_id`.
unfoldable pub find_job : String → List Job → Option Job
find_job id [] = none
find_job id (j ∷ js) = if j.job_id =t= id then some j else find_job id js

unfoldable pub set_job : Job → List Job → List Job
set_job j' [] = []
set_job j' (j ∷ js) = if j.job_id =t= j'.job_id then j' ∷ js else j ∷ set_job j' js

abbrev pub at_key : String → String → Item → Bool
at_key id key i = i.job_id =t= id && i.item_key =t= key

unfoldable pub find_item : String → String → List Item → Option Item
find_item id key [] = none
find_item id key (i ∷ is) = if at_key id key i then some i else find_item id key is

unfoldable pub set_item : Item → List Item → List Item
set_item i' [] = []
set_item i' (i ∷ is) = if at_key i'.job_id i'.item_key i then i' ∷ is else i ∷ set_item i' is

-- `SELECT count(*) FROM job_items WHERE job_id = :job_id AND ...`.
unfoldable pub count_items : (ItemStatus → Bool) → String → List Item → ℕ
count_items p id [] = 0
count_items p id (i ∷ is) = indicator (i.job_id =t= id && p i.status) + count_items p id is

unfoldable pub find_outbox : String → List Outbox → Option Outbox
find_outbox id [] = none
find_outbox id (o ∷ os) = if o.outbox_id =t= id then some o else find_outbox id os

unfoldable pub set_outbox : Outbox → List Outbox → List Outbox
set_outbox o' [] = []
set_outbox o' (o ∷ os) = if o.outbox_id =t= o'.outbox_id then o' ∷ os else o ∷ set_outbox o' os

-- How many messages of a job pass a test.
unfoldable pub count_outbox : (Outbox → Bool) → String → List Outbox → ℕ
count_outbox p id [] = 0
count_outbox p id (o ∷ os) = indicator (o.job_id =t= id && p o) + count_outbox p id os

abbrev pub is_pending : Outbox → Bool
is_pending o = not o.delivered

abbrev pub any_message : Outbox → Bool
any_message o = true

-- The job that a (owner, kind, idempotency key) binds; a NULL key binds none.
unfoldable pub find_key : String → Kind → Option String → List Job → Option Job
find_key owner kind none js = none
find_key owner kind (some key) [] = none
find_key owner kind (some key) (j ∷ js) =
    if j.owner_id =t= owner
      && (same_kind j.kind kind && elim j.idempotency_key [ none ↦ false | some k ↦ k =t= key ])
    then some j
    else find_key owner kind (some key) js

-- `UPDATE jobs SET ... WHERE job_id = ...`, with the row's new value.
unfoldable pub update_job : Job → Db → Result Db
update_job j db = if job_ok j then ok (record db { jobs = set_job j db.jobs }) else err integrity

unfoldable pub update_item : Item → Db → Result Db
update_item i db =
    if item_ok i then ok (record db { items = set_item i db.items }) else err integrity

-- `INSERT INTO job_items`: the key is new, the job is there, and the row keeps the constraints.
unfoldable pub insert_item : Item → Db → Result Db
insert_item i db =
    if item_ok i
      && (not (is_some (find_item i.job_id i.item_key db.items))
          && is_some (find_job i.job_id db.jobs))
    then ok (record db { items = i ∷ db.items })
    else err integrity

-- `INSERT INTO job_outbox`: also, a job has one pending message at most.
unfoldable pub insert_outbox : Outbox → Db → Result Db
insert_outbox o db =
    if outbox_ok o
      && (not (is_some (find_outbox o.outbox_id db.outbox))
          && (is_some (find_job o.job_id db.jobs)
              && (o.delivered || count_outbox is_pending o.job_id db.outbox == 0)))
    then ok (record db { outbox = o ∷ db.outbox })
    else err integrity

-- `UPDATE job_outbox`: the row's status only ever becomes 'delivered'.
unfoldable pub update_outbox : Outbox → Db → Result Db
update_outbox o db =
    if outbox_ok o then ok (record db { outbox = set_outbox o db.outbox }) else err integrity
