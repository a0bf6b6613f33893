-- ===== src/Jobs/Store/Progress.antt =====
-- JobStore.heartbeat, set_total, set_stage and request_cancel.
use legal_rag_agent.Prelude.{
  ℕ, suc, ◌+◌, Bool, true, false, ◌&&◌, ◌||◌, Option, none, some, List, [], ◌∷◌, String, codes, leb,
  ◌==◌, ◌=t=◌, if◌then◌else◌,
}
use legal_rag_agent.Jobs.Result.{
  Result, ok, err, contract, conflict, value_error, require, ◌>>=◌, ◌>>◌,
}
use legal_rag_agent.Jobs.Validate.{required_string, stage_re, count}
use legal_rag_agent.Jobs.Tables.{
  Kind, evaluation, ingestion, Status, queued, running, cancelled, Job, Db, seconds, find_job,
  update_job,
}
use legal_rag_agent.Jobs.Store.{Clock, Lease, JobRecord, read_job, under_lease}

abbrev pub extend : ℕ → Clock → Job → Job
extend lease_seconds clock j = record j {
  lease_expires_at = some (clock.write_at + seconds lease_seconds);
  updated_at = clock.write_at;
}

unfoldable pub heartbeat : Lease → ℕ → Clock → Db → Result (Bool × Db)
heartbeat lease lease_seconds clock db = do
  count lease_seconds 1 3600
  under_lease lease clock false
      (λ j db. do db' ← update_job (extend lease_seconds clock j) db; ok (true, db')) db

-- The total is fixed once it is not 0, and covers the progress made.
unfoldable pub total_allowed : ℕ → Job → Bool
total_allowed total j = (j.total == 0 || j.total == total) && leb (j.completed + j.failed) total

unfoldable pub set_total : Lease → ℕ → Clock → Db → Result (Bool × Db)
unfolding total_allowed
set_total lease total clock db = do
  count total 0 1000000
  under_lease lease clock false
      (λ j db. do
        require (total_allowed total j) conflict
        db' ← update_job (record j { total = total; updated_at = clock.write_at }) db
        ok (true, db'))
      db

-- `_INGESTION_STAGES` and `_EVALUATION_STAGES`.
abbrev pub stages : Kind → List String
stages ingestion = "received" ∷ "parsed" ∷ "embedded" ∷ "indexed" ∷ "validated" ∷ "activated" ∷ []
stages evaluation = "received" ∷ "evaluating" ∷ "aggregating" ∷ "completed" ∷ []

-- `tuple.index`, with `none` for its ValueError.
unfoldable pub index_of : String → List String → Option ℕ
index_of s [] = none
index_of s (t ∷ ts) =
    if t =t= s then some 0 else elim (index_of s ts) [ none ↦ none | some n ↦ some (suc n) ]

-- `stage in allowed` and `allowed.index(stage) >= allowed.index(job["stage"])`.
unfoldable pub check_stage : String → Job → Result (Unit {0})
check_stage stage j = elim (index_of stage (stages j.kind)) [
  | none ↦ err contract
  | some n ↦ elim (index_of j.stage (stages j.kind)) [
    | none ↦ err value_error
    | some m ↦ require (leb m n) contract
  ]
]

unfoldable pub set_stage : Lease → String → Clock → Db → Result (Bool × Db)
set_stage lease stage clock db = do
  require (stage_re (codes stage)) contract
  under_lease lease clock false
      (λ j db. do
        check_stage stage j
        db' ← update_job (record j { stage = stage; updated_at = clock.write_at }) db
        ok (true, db'))
      db

-- The row after a cancellation is asked for: a queued job ends at once.
unfoldable pub cancel_row : Clock → Job → Status → Db → Result Db
cancel_row clock j queued db =
    update_job
      (record j {
        status = cancelled;
        cancel_requested = true;
        finished_at = some clock.write_at;
        updated_at = clock.write_at;
      })
      db
cancel_row clock j running db =
    update_job (record j { cancel_requested = true; updated_at = clock.write_at }) db
cancel_row clock j _ db = ok db

-- The row of the job, if the owner is the job's.
unfoldable pub owned_job : String → String → Db → Option Job
owned_job job_id owner_id db = elim (find_job job_id db.jobs) [
  | none ↦ none
  | some j ↦ if j.owner_id =t= owner_id then some j else none
]

unfoldable pub request_cancel : String → String → Clock → Db → Result (Option JobRecord × Db)
request_cancel job_id owner_id clock db = do
  required_string owner_id 128
  elim (owned_job job_id owner_id db) [
    | none ↦ ok (none, db)
    | some j ↦ do
      db' ← cancel_row clock j j.status db
      ok (read_job job_id (some owner_id) db', db')
  ]
