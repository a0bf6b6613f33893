-- ===== src/Jobs/History/Methods.antt =====
-- The methods of JobStore that write a job's row alone let rows grow only.
use legal_rag_agent.Prelude.{
  ℕ, ◌≤◌, ◌≡◌, refl, Bool, true, false, Option, none, some, String, arith, codes, leb, ◌⊎◌,
  Option-cases, inl, inr,
}
use legal_rag_agent.Jobs.Result.{ok, contract, conflict, require, ◌>>=◌}
use legal_rag_agent.Jobs.Validate.{required_string, error_code, stage_re, count}
use legal_rag_agent.Jobs.Tables.{Status, queued, running, is_terminal, Job, Db, find_job}
use legal_rag_agent.Jobs.Tables.Laws.{find_job_self}
use legal_rag_agent.Jobs.Store.{Clock, Lease, is_active, read_job}
use legal_rag_agent.Jobs.Store.Claim.{is_held, exhausted, leased, claim_row, claim_job}
use legal_rag_agent.Jobs.Store.Progress.{
  extend, heartbeat, total_allowed, set_total, stages, index_of, check_stage, set_stage, cancel_row,
  owned_job, request_cancel,
}
use legal_rag_agent.Jobs.Store.Finish.{finish_allowed, finished, finish_job}
use legal_rag_agent.Jobs.Invariant.Progress.{owned_job-find}
use legal_rag_agent.Jobs.History.{StageLe, JobGrows, JobGrows-refl, Grows-refl}
use legal_rag_agent.Jobs.History.Rules.{
  Steps, Steps-check, Steps-if, Steps-found, Steps-last, Steps-under_lease,
}

-- The row of an active job may take new counters of no less, a lease, a status and an error code.
pub live-JobGrows :
    (j j' : Job)
    → is_terminal j.status ≡ false
    → j'.job_id ≡ j.job_id
    → j'.owner_id ≡ j.owner_id
    → j'.kind ≡ j.kind
    → j'.request_ref ≡ j.request_ref
    → j'.request_hash ≡ j.request_hash
    → j'.idempotency_key ≡ j.idempotency_key
    → (j.lease_epoch ≤ j'.lease_epoch)
      × (j.claim_count ≤ j'.claim_count)
      × (j.completed ≤ j'.completed)
    → (j.cancel_requested ≡ true → j'.cancel_requested ≡ true)
    → (j.total ≡ 0) ⊎ (j'.total ≡ j.total)
    → StageLe (index_of j.stage (stages j.kind)) (index_of j'.stage (stages j.kind))
    → JobGrows j j'
live-JobGrows j j' live id owner kind ref digest key counters cancel total stage = record {
  owner_id = owner;
  kind = kind;
  request_ref = ref;
  request_hash = digest;
  idempotency_key = key;
  lease_epoch = counters.0;
  claim_count = counters.1;
  completed = counters.2;
  cancel = cancel;
  total = total;
  stage = stage;
  terminal = λ h. ground arith;
}

-- The same where only counters, the lease, the status and times are written.
pub write-JobGrows :
    (j : Job) (s : Status) (completed failed epoch claims : ℕ) (cancel : Bool)
    (owner code : Option String) (expires queued_at started finished : Option ℕ) (at : ℕ)
    → is_terminal j.status ≡ false
    → (j.lease_epoch ≤ epoch) × (j.claim_count ≤ claims) × (j.completed ≤ completed)
    → (j.cancel_requested ≡ true → cancel ≡ true)
    → JobGrows j (record j {
      status = s;
      completed = completed;
      failed = failed;
      lease_epoch = epoch;
      claim_count = claims;
      cancel_requested = cancel;
      lease_owner = owner;
      error_code = code;
      lease_expires_at = expires;
      recovery_queued_at = queued_at;
      started_at = started;
      finished_at = finished;
      updated_at = at;
    })
write-JobGrows j s completed failed epoch claims cancel owner code expires queued_at started
      finished at live counters keeps =
    live-JobGrows j _ live refl refl refl refl refl refl counters keeps (inr refl)
      (JobGrows-refl j).stage

pub active_live :
    (lease : Lease) (at : ℕ) (j : Job) → is_active lease at j ≡ true → is_terminal j.status ≡ false
unfolding is_active
active_live lease at j a = ground arith

pub heartbeat-Steps :
    (lease : Lease) (n : ℕ) (clock : Clock) (db : Db) → Steps db (heartbeat lease n clock db)
unfolding heartbeat
heartbeat-Steps lease n clock db = Steps-check db (count n 1 3600) _ λ _.
    Steps-under_lease db lease clock false _ λ j e a.
      Steps-last db j (extend n clock j) db (λ _. true) (Grows-refl db)
        (find_job_self lease.job_id db.jobs j e)
        (write-JobGrows j _ _ _ _ _ _ _ _ _ _ _ _ _ (active_live lease clock.read_at j a)
          (omega arith) (λ h. h))

pub set_total-Steps :
    (lease : Lease) (total : ℕ) (clock : Clock) (db : Db)
    → Steps db (set_total lease total clock db)
unfolding set_total
set_total-Steps lease total clock db = Steps-check db (count total 0 1000000) _ λ _.
    Steps-under_lease db lease clock false _ λ j e a.
      Steps-check db (require (total_allowed total j) conflict) _ λ fits.
        Steps-last db j (record j { total = total; updated_at = clock.write_at }) db (λ _. true)
          (Grows-refl db) (find_job_self lease.job_id db.jobs j e)
          (live-JobGrows j _ (active_live lease clock.read_at j a) refl refl refl refl refl refl
            (omega arith) (λ h. h) (ground arith) (JobGrows-refl j).stage)

-- A stage that is let through does not come before the job's.
check_stage-order :
    (stage : String) (j : Job)
    → check_stage stage j ≡ ok tt
    → (m : ℕ) × (n : ℕ) × (index_of j.stage (stages j.kind) ≡ some m)
      × (index_of stage (stages j.kind) ≡ some n)
      × (m ≤ n)
unfolding check_stage
check_stage-order stage j h = elim (Option-cases (index_of stage (stages j.kind))) [
  | inl e ↦ absurd (ground arith)
  | inr (n, e) ↦ elim (Option-cases (index_of j.stage (stages j.kind))) [
    | inl f ↦ absurd (ground arith)
    | inr (m, f) ↦ (m, n, f, e, ground arith)
  ]
]

pub set_stage-Steps :
    (lease : Lease) (stage : String) (clock : Clock) (db : Db)
    → Steps db (set_stage lease stage clock db)
unfolding set_stage
set_stage-Steps lease stage clock db =
    Steps-check db (require (stage_re (codes stage)) contract) _ λ _.
      Steps-under_lease db lease clock false _ λ j e a.
        Steps-check db (check_stage stage j) _ λ later.
          let (m, n, f, g, le) = check_stage-order stage j later in
          Steps-last db j (record j { stage = stage; updated_at = clock.write_at }) db (λ _. true)
            (Grows-refl db) (find_job_self lease.job_id db.jobs j e)
            (live-JobGrows j _ (active_live lease clock.read_at j a) refl refl refl refl refl refl
              (omega arith) (λ h. h) (inr refl) (rw (f, g) le))

pub finish_job-Steps :
    (lease : Lease) (status : Status) (code : Option String) (clock : Clock) (db : Db)
    → Steps db (finish_job lease status code clock db)
unfolding finish_job
finish_job-Steps lease status code clock db =
    Steps-check db (require (is_terminal status) contract) _ λ _.
      Steps-check db (error_code code) _ λ _. Steps-under_lease db lease clock none _ λ j e a.
        Steps-check db (require (finish_allowed status j) conflict) _ λ _.
          Steps-last db j (finished status code clock j) db (read_job lease.job_id none)
            (Grows-refl db) (find_job_self lease.job_id db.jobs j e)
            (write-JobGrows j _ _ _ _ _ _ _ _ _ _ _ _ _ (active_live lease clock.read_at j a)
              (omega arith) (λ h. h))

cancel_row-Steps :
    {A : Type 0} (clock : Clock) (j : Job) (s : Status) (db : Db) (answer : Db → A)
    → j.status ≡ s
    → find_job j.job_id db.jobs ≡ some j
    → Steps db (cancel_row clock j s db >>= λ db'. ok (answer db', db'))
unfolding cancel_row
cancel_row-Steps clock j queued db answer is e =
    Steps-last db j _ db answer (Grows-refl db) e
      (write-JobGrows j _ _ _ _ _ _ _ _ _ _ _ _ _ (ground arith) (omega arith) (λ _. refl))
cancel_row-Steps clock j running db answer is e =
    Steps-last db j _ db answer (Grows-refl db) e
      (write-JobGrows j _ _ _ _ _ _ _ _ _ _ _ _ _ (ground arith) (omega arith) (λ _. refl))
cancel_row-Steps clock j _ db answer is e = Grows-refl db

pub request_cancel-Steps :
    (job_id owner_id : String) (clock : Clock) (db : Db)
    → Steps db (request_cancel job_id owner_id clock db)
unfolding request_cancel
request_cancel-Steps job_id owner_id clock db = Steps-check db (required_string owner_id 128) _ λ _.
    Steps-found db (owned_job job_id owner_id db) _ _ (λ _. Grows-refl db)
      λ j e.
        cancel_row-Steps clock j j.status db _ refl
          (find_job_self job_id db.jobs j (owned_job-find job_id owner_id db j e))

claim_row-Steps :
    (worker : String) (n most : ℕ) (clock : Clock) (j : Job) (db : Db)
    → find_job j.job_id db.jobs ≡ some j
    → Steps db (claim_row worker n most clock j db)
unfolding claim_row exhausted leased
claim_row-Steps worker n most clock j db e =
    Steps-if db (is_terminal j.status) _ _ (λ _. Grows-refl db)
      λ live.
        Steps-if db (is_held clock.read_at j) _ _ (λ _. Grows-refl db)
          λ free.
            Steps-if db (leb most j.claim_count) _ _
              (λ _.
                Steps-last db j (exhausted clock j) db (λ _. none) (Grows-refl db) e
                  (write-JobGrows j _ _ _ _ _ _ _ _ _ _ _ _ _ live (omega arith) (λ h. h)))
              (λ _.
                Steps-last db j (leased worker n clock j) db (read_job j.job_id none)
                  (Grows-refl db) e
                  (write-JobGrows j _ _ _ _ _ _ _ _ _ _ _ _ _ live (omega arith) (λ h. h)))

pub claim_job-Steps :
    (job_id worker : String) (n most : ℕ) (clock : Clock) (db : Db)
    → Steps db (claim_job job_id worker n most clock db)
unfolding claim_job
claim_job-Steps job_id worker n most clock db = Steps-check db (required_string worker 128) _ λ _.
    Steps-check db (count n 1 3600) _ λ _. Steps-check db (count most 1 100) _ λ _.
      Steps-found db (find_job job_id db.jobs) _ _ (λ _. Grows-refl db)
        λ j e. claim_row-Steps worker n most clock j db (find_job_self job_id db.jobs j e)
