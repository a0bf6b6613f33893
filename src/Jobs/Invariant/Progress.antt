-- ===== src/Jobs/Invariant/Progress.antt =====
-- heartbeat, set_total, set_stage, request_cancel and claim_job keep the invariant.
use legal_rag_agent.Prelude.{
  ℕ, ◌≡◌, refl, true, false, none, some, String, arith, codes, leb, is_some, ◌⊎◌,
}
use legal_rag_agent.Jobs.Result.{ok, err, contract, ◌>>=◌}
use legal_rag_agent.Jobs.Validate.{stage_re}
use legal_rag_agent.Jobs.Tables.{
  Status, queued, running, is_terminal, Job, Db, job_ok, row_text_ok, find_job,
}
use legal_rag_agent.Jobs.Tables.Laws.{find_job_self}
use legal_rag_agent.Jobs.Store.{Clock, Lease, is_active, read_job}
use legal_rag_agent.Jobs.Store.Claim.{is_held, exhausted, leased, claim_row, claim_job}
use legal_rag_agent.Jobs.Store.Progress.{
  extend, heartbeat, total_allowed, set_total, stages, index_of, check_stage, set_stage, cancel_row,
  owned_job, request_cancel,
}
use legal_rag_agent.Jobs.Invariant.{IsValid, Keeps}
use legal_rag_agent.Jobs.Invariant.Rules.{
  require-IsCheck, conflict-IsCheck, count-IsCheck, required_string-IsCheck, Keeps-check,
  IsCheck-cases, Keeps-under_lease, Keeps-found, Keeps-if, Keeps-update_job,
}

pub heartbeat-Keeps :
    (lease : Lease) (n : ℕ) (clock : Clock) (db : Db)
    → IsValid db
    → Keeps (heartbeat lease n clock db)
unfolding heartbeat
heartbeat-Keeps lease n clock db v = Keeps-check _ _ (count-IsCheck n 1 3600) λ _.
    Keeps-under_lease lease clock false _ db v λ j e a.
      let old = v.jobs lease.job_id j e in
      Keeps-update_job j (extend n clock j) (λ _. true) v (find_job_self lease.job_id db.jobs j e)
        (unfold job_ok is_active in ground (arith, old))

pub set_total-Keeps :
    (lease : Lease) (total : ℕ) (clock : Clock) (db : Db)
    → IsValid db
    → Keeps (set_total lease total clock db)
unfolding set_total
set_total-Keeps lease total clock db v = Keeps-check _ _ (count-IsCheck total 0 1000000) λ _.
    Keeps-under_lease lease clock false _ db v λ j e a.
      let old = v.jobs lease.job_id j e in
      Keeps-check _ _ (conflict-IsCheck (total_allowed total j)) λ fits.
        Keeps-update_job j (record j { total = total; updated_at = clock.write_at }) (λ _. true) v
          (find_job_self lease.job_id db.jobs j e) (unfold job_ok is_active in ground (arith, old))

check_stage-cases :
    (stage : String) (j : Job)
    → is_some (index_of j.stage (stages j.kind)) ≡ true
    → (check_stage stage j ≡ ok tt) ⊎ (check_stage stage j ≡ err contract)
unfolding check_stage
check_stage-cases stage j staged = ground arith

-- A stage that is let through is one of the kind's.
pub check_stage-staged :
    (stage : String) (j : Job)
    → check_stage stage j ≡ ok tt
    → is_some (index_of stage (stages j.kind)) ≡ true
unfolding check_stage
check_stage-staged stage j h = ground arith

pub set_stage-Keeps :
    (lease : Lease) (stage : String) (clock : Clock) (db : Db)
    → IsValid db
    → Keeps (set_stage lease stage clock db)
unfolding set_stage
set_stage-Keeps lease stage clock db v =
    Keeps-check _ _ (require-IsCheck (stage_re (codes stage))) λ named.
      Keeps-under_lease lease clock false _ db v λ j e a.
        let old = v.jobs lease.job_id j e in
        Keeps-check _ _ (IsCheck-cases _ (check_stage-cases stage j old.staged)) λ later.
          Keeps-update_job j (record j { stage = stage; updated_at = clock.write_at }) (λ _. true) v
            (find_job_self lease.job_id db.jobs j e)
            (unfold job_ok row_text_ok in ground (arith, old, check_stage-staged stage j later))

cancel_row-Keeps :
    {A : Type 0} (clock : Clock) (j : Job) (s : Status) (db : Db) (answer : Db → A)
    → j.status ≡ s
    → find_job j.job_id db.jobs ≡ some j
    → IsValid db
    → Keeps (cancel_row clock j s db >>= λ db'. ok (answer db', db'))
unfolding cancel_row
cancel_row-Keeps clock j queued db answer is e v =
    let old = v.jobs j.job_id j e in
    Keeps-update_job j _ answer v e (unfold job_ok in ground (arith, old))
cancel_row-Keeps clock j running db answer is e v =
    let old = v.jobs j.job_id j e in
    Keeps-update_job j _ answer v e (unfold job_ok in ground (arith, old))
cancel_row-Keeps clock j _ db answer is e v = v

pub owned_job-find :
    (job_id owner_id : String) (db : Db) (j : Job)
    → owned_job job_id owner_id db ≡ some j
    → find_job job_id db.jobs ≡ some j
unfolding owned_job
owned_job-find job_id owner_id db j h = ground arith

pub request_cancel-Keeps :
    (job_id owner_id : String) (clock : Clock) (db : Db)
    → IsValid db
    → Keeps (request_cancel job_id owner_id clock db)
unfolding request_cancel
request_cancel-Keeps job_id owner_id clock db v =
    Keeps-check _ _ (required_string-IsCheck owner_id 128) λ _.
      Keeps-found (owned_job job_id owner_id db) _ _ (λ _. v)
        λ j e.
          cancel_row-Keeps clock j j.status db _ refl
            (find_job_self job_id db.jobs j (owned_job-find job_id owner_id db j e)) v

claim_row-Keeps :
    (worker : String) (n most : ℕ) (clock : Clock) (j : Job) (db : Db)
    → find_job j.job_id db.jobs ≡ some j
    → IsValid db
    → Keeps (claim_row worker n most clock j db)
unfolding claim_row exhausted leased
claim_row-Keeps worker n most clock j db e v =
    let old = v.jobs j.job_id j e in
    Keeps-if (is_terminal j.status) _ _ (λ _. v)
      λ live.
        Keeps-if (is_held clock.read_at j) _ _ (λ _. v)
          λ free.
            Keeps-if (leb most j.claim_count) _ _
              (λ _.
                Keeps-update_job j (exhausted clock j) (λ _. none) v e
                  (unfold job_ok exhausted in ground (arith, old)))
              (λ _.
                Keeps-update_job j (leased worker n clock j) (read_job j.job_id none) v e
                  (unfold job_ok leased in ground (arith, old)))

pub claim_job-Keeps :
    (job_id worker : String) (n most : ℕ) (clock : Clock) (db : Db)
    → IsValid db
    → Keeps (claim_job job_id worker n most clock db)
unfolding claim_job
claim_job-Keeps job_id worker n most clock db v =
    Keeps-check _ _ (required_string-IsCheck worker 128) λ _.
      Keeps-check _ _ (count-IsCheck n 1 3600) λ _. Keeps-check _ _ (count-IsCheck most 1 100) λ _.
        Keeps-found (find_job job_id db.jobs) _ _ (λ _. v)
          λ j e. claim_row-Keeps worker n most clock j db (find_job_self job_id db.jobs j e) v
