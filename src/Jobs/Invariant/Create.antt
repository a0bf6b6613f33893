-- ===== src/Jobs/Invariant/Create.antt =====
-- create_job and finish_job keep the invariant.
use legal_rag_agent.Prelude.{
  ◌≡◌, refl, sym, ◌∙◌, true, false, ◌&&◌, Option, none, some, ◌∷◌, String, arith, codes, ◌=t=◌,
  is_some, eq_iff, eq_refl, Bool-cases, inl, inr, ◌⊎◌,
}
use legal_rag_agent.Jobs.Result.{ok}
use legal_rag_agent.Jobs.Validate.{stage_re, required_string-visible, opaque_id-re, hash-re}
use legal_rag_agent.Jobs.Tables.{
  Kind, evaluation, ingestion, Status, is_terminal, is_succeeded, is_failed, is_pending, Job, Db,
  row_text_ok, job_ok, outbox_ok, find_job, find_key, find_outbox, count_outbox, insert_outbox,
}
use legal_rag_agent.Jobs.Tables.Laws.{
  find_job_self, find_job-any, count_items-le_all, count_outbox-le_all,
}
use legal_rag_agent.Jobs.Store.{Clock, Lease, read_job}
use legal_rag_agent.Jobs.Store.Create.{
  Submission, optional_id, check_submission, new_job, new_outbox, insert_job, existing_job,
  after_insert, create_job,
}
use legal_rag_agent.Jobs.Store.Progress.{index_of, stages}
use legal_rag_agent.Jobs.Store.Finish.{finish_allowed, finished, finish_job}
use legal_rag_agent.Jobs.Invariant.{IsValid, Keeps}
use legal_rag_agent.Jobs.Invariant.Items.{exclusive}
use legal_rag_agent.Jobs.Invariant.Rules.{
  IsCheck, require-IsCheck, conflict-IsCheck, count-IsCheck, required_string-IsCheck,
  opaque_id-IsCheck, hash-IsCheck, error_code-IsCheck, IsCheck-and, Keeps-check, Keeps-under_lease,
  Keeps-update_job, Keeps-found, Keeps-if,
}

pub finish_job-Keeps :
    (lease : Lease) (status : Status) (code : Option String) (clock : Clock) (db : Db)
    → IsValid db
    → Keeps (finish_job lease status code clock db)
unfolding finish_job
finish_job-Keeps lease status code clock db v =
    Keeps-check _ _ (require-IsCheck (is_terminal status)) λ ends.
      Keeps-check _ _ (error_code-IsCheck code) λ _.
        Keeps-under_lease lease clock none _ db v λ j e a.
          let old = v.jobs lease.job_id j e in
          Keeps-check _ _ (conflict-IsCheck (finish_allowed status j)) λ fits.
            Keeps-update_job j (finished status code clock j) (read_job lease.job_id none) v
              (find_job_self lease.job_id db.jobs j e) (unfold job_ok in ground (arith, old))

optional_id-IsCheck : (key : Option String) → IsCheck (optional_id key)
optional_id-IsCheck none = tt
optional_id-IsCheck (some key) = opaque_id-IsCheck key

check_submission-IsCheck : (s : Submission) → IsCheck (check_submission s)
unfolding check_submission
check_submission-IsCheck s = IsCheck-and _ _ (required_string-IsCheck s.owner_id 128) (
    IsCheck-and _ _ (opaque_id-IsCheck s.request_ref) (
      IsCheck-and _ _ (hash-IsCheck s.request_hash) (
        IsCheck-and _ _ (count-IsCheck s.total 0 1000000) (optional_id-IsCheck s.idempotency_key))))

received_text : stage_re (codes "received") ≡ true
unfolding stage_re
received_text = refl

received_staged : (k : Kind) → is_some (index_of "received" (stages k)) ≡ true
unfolding index_of
received_staged evaluation = refl
received_staged ingestion = refl

-- The row of a checked submission keeps the table's constraints.
pub new_job_ok :
    (s : Submission) (id : String) (clock : Clock)
    → check_submission s ≡ ok tt
    → job_ok (new_job s id clock) ≡ true
unfolding check_submission job_ok row_text_ok
new_job_ok s id clock passed = ground (
  arith,
  received_text,
  required_string-visible s.owner_id 128,
  opaque_id-re s.request_ref,
  hash-re s.request_hash,
)

-- A new job's row, which has no item and no message yet.
new_job-IsValid :
    (s : Submission) (id : String) (clock : Clock) (db : Db)
    → IsValid db
    → check_submission s ≡ ok tt
    → find_job id db.jobs ≡ none
    → IsValid (record db { jobs = new_job s id clock ∷ db.jobs })
new_job-IsValid s id clock db v passed fresh = record {
  jobs = λ k j e.
      unfold find_job in
      ground (
        arith,
        eq_iff id k,
        v.jobs k j,
        new_job_ok s id clock passed,
        received_staged s.kind,
        v.no_orphan id,
        count_items-le_all is_succeeded is_failed id db.items exclusive,
      );
  distinct = (sym (find_job-any id db.jobs) ∙ rw fresh, v.distinct);
  items = v.items;
  no_orphan = λ k e. unfold find_job in ground (arith, v.no_orphan k);
  no_stray = λ k e. unfold find_job in ground (arith, v.no_stray k);
  messages = v.messages;
  one_pending = v.one_pending;
}

-- A fresh message of a job that has none pending.
pub insert_outbox-IsValid :
    (outbox_id : String) (j : Job) (clock : Clock) (db : Db)
    → IsValid db
    → find_outbox outbox_id db.outbox ≡ none
    → find_job j.job_id db.jobs ≡ some j
    → count_outbox is_pending j.job_id db.outbox ≡ 0
    → (insert_outbox (new_outbox outbox_id j.job_id clock) db
        ≡ ok (record db { outbox = new_outbox outbox_id j.job_id clock ∷ db.outbox }))
      × IsValid (record db { outbox = new_outbox outbox_id j.job_id clock ∷ db.outbox })
unfolding insert_outbox outbox_ok
insert_outbox-IsValid outbox_id j clock db v fresh e idle = (
  rw (fresh, e, idle),
  record {
    jobs = v.jobs;
    distinct = v.distinct;
    items = v.items;
    no_orphan = v.no_orphan;
    no_stray = λ k e'. unfold count_outbox in ground (arith, eq_iff j.job_id k, v.no_stray k);
    messages = λ k o e'. unfold find_outbox in ground (arith, v.messages k o);
    one_pending = λ k. unfold count_outbox in ground (arith, eq_iff j.job_id k, v.one_pending k);
  },
)

insert_job-cases :
    (j : Job) (db : Db)
    → job_ok j ≡ true
    → find_job j.job_id db.jobs ≡ none
    → ((insert_job j db ≡ ok (false, db))
        × (is_some (find_key j.owner_id j.kind j.idempotency_key db.jobs) ≡ true))
      ⊎ (insert_job j db ≡ ok (true, record db { jobs = j ∷ db.jobs }))
unfolding insert_job
insert_job-cases j db fits fresh =
    elim (Bool-cases (is_some (find_key j.owner_id j.kind j.idempotency_key db.jobs))) [
      | inl bound ↦ inl (ground arith, bound)
      | inr free ↦ inr (ground arith)
    ]

existing_job-Keeps :
    (s : Submission) (db : Db)
    → IsValid db
    → is_some (find_key s.owner_id s.kind s.idempotency_key db.jobs) ≡ true
    → Keeps (existing_job s db)
unfolding existing_job
existing_job-Keeps s db v bound =
    Keeps-found (find_key s.owner_id s.kind s.idempotency_key db.jobs) _ _
      (λ e. absurd (ground arith))
      λ j e.
        Keeps-if (j.request_ref =t= s.request_ref && j.request_hash =t= s.request_hash) _ _ (λ _. v)
          (λ _. tt)

-- With fresh IDs, a submission ends in a job, in the job that its key binds, or in an error of the
-- contract.
pub create_job-Keeps :
    (s : Submission) (new_id outbox_id : String) (clock : Clock) (db : Db)
    → IsValid db
    → find_job new_id db.jobs ≡ none
    → find_outbox outbox_id db.outbox ≡ none
    → Keeps (create_job s new_id outbox_id clock db)
unfolding create_job after_insert
create_job-Keeps s new_id outbox_id clock db v fresh unused =
    Keeps-check _ _ (check_submission-IsCheck s) λ passed.
      elim (insert_job-cases (new_job s new_id clock) db (new_job_ok s new_id clock passed) fresh) [
        | inl (e, bound) ↦ rw e (existing_job-Keeps s db v bound)
        | inr e ↦
            let db' : Db = record db { jobs = new_job s new_id clock ∷ db.jobs } in
            let (sent, after) =
              insert_outbox-IsValid outbox_id (new_job s new_id clock) clock db'
                (new_job-IsValid s new_id clock db v passed fresh) unused
                (unfold find_job in rw eq_refl refl)
                (omega (
                  arith,
                  v.no_stray new_id fresh,
                  count_outbox-le_all is_pending new_id db.outbox,
                )) in
            rw (e, sent) after
      ]
