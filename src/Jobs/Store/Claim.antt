-- ===== src/Jobs/Store/Claim.antt =====
-- JobStore.claim_job.
use legal_rag_agent.Prelude.{
  ℕ, ◌+◌, Bool, false, ◌&&◌, Option, none, some, String, ltb, leb, ◌=t=◌, coalesce, if◌then◌else◌,
}
use legal_rag_agent.Jobs.Result.{Result, ok, ◌>>=◌, ◌>>◌}
use legal_rag_agent.Jobs.Validate.{required_string, count}
use legal_rag_agent.Jobs.Tables.{
  running, failed, cancelled, is_running, is_terminal, Job, Db, seconds, find_job, update_job,
}
use legal_rag_agent.Jobs.Store.{Clock, JobRecord, read_job}

-- Another worker still holds the job.
unfoldable pub is_held : ℕ → Job → Bool
is_held at j = is_running j.status && elim j.lease_expires_at [ none ↦ false | some t ↦ ltb at t ]

-- The row of a job whose claims are used up.
unfoldable pub exhausted : Clock → Job → Job
exhausted clock j = record j {
  status = if j.cancel_requested then cancelled else failed;
  error_code = if j.cancel_requested then none else some "worker_attempts_exhausted";
  lease_owner = none;
  lease_expires_at = none;
  finished_at = some clock.write_at;
  updated_at = clock.write_at;
}

-- The row under a new lease.
unfoldable pub leased : String → ℕ → Clock → Job → Job
leased worker_id lease_seconds clock j = record j {
  status = running;
  lease_owner = some worker_id;
  lease_epoch = j.lease_epoch + 1;
  claim_count = j.claim_count + 1;
  lease_expires_at = some (clock.write_at + seconds lease_seconds);
  started_at = some (coalesce j.started_at clock.write_at);
  recovery_queued_at = none;
  error_code = elim j.error_code [
    | none ↦ none
    | some e ↦ if e =t= "delivery_unconfirmed" then none else some e
  ];
  updated_at = clock.write_at;
}

unfoldable pub claim_row : String → ℕ → ℕ → Clock → Job → Db → Result (Option JobRecord × Db)
claim_row worker_id lease_seconds max_claims clock j db =
    if is_terminal j.status
    then ok (none, db)
    else if is_held clock.read_at j
    then ok (none, db)
    else if leb max_claims j.claim_count
    then (do db' ← update_job (exhausted clock j) db; ok (none, db'))
    else (do
      db' ← update_job (leased worker_id lease_seconds clock j) db
      ok (read_job j.job_id none db', db'))

unfoldable pub claim_job : String → String → ℕ → ℕ → Clock → Db → Result (Option JobRecord × Db)
claim_job job_id worker_id lease_seconds max_claims clock db = do
  required_string worker_id 128
  count lease_seconds 1 3600
  count max_claims 1 100
  elim (find_job job_id db.jobs) [
    | none ↦ ok (none, db)
    | some j ↦ claim_row worker_id lease_seconds max_claims clock j db
  ]
