-- ===== src/Jobs/Idempotency.antt =====
-- JobStore.create_job of legal_rag/jobs/store.py: submissions under idempotency keys.
use legal_rag_agent.Prelude.{
  ◌≡◌, refl, ◌∙◌, true, ◌&&◌, none, some, ◌∷◌, String, arith, ◌=t=◌, if◌then◌else◌, eq_refl,
}
use legal_rag_agent.Jobs.Result.{ok, err, conflict, ◌>>=◌}
use legal_rag_agent.Jobs.Tables.{
  Kind, evaluation, ingestion, Job, Db, same_kind, outbox_ok, find_job, find_key, find_outbox,
  count_outbox, is_pending, insert_outbox,
}
use legal_rag_agent.Jobs.Tables.Laws.{count_outbox-le_all}
use legal_rag_agent.Jobs.Store.{Clock, read_job}
use legal_rag_agent.Jobs.Store.Create.{
  Submission, check_submission, new_job, new_outbox, insert_job, existing_job, after_insert,
  create_job,
}
use legal_rag_agent.Jobs.Invariant.{IsValid}
use legal_rag_agent.Jobs.Invariant.Create.{new_job_ok}

existing_job-eq :
    (s : Submission) (db : Db) (j : Job)
    → find_key s.owner_id s.kind s.idempotency_key db.jobs ≡ some j
    → existing_job s db ≡ (
        if j.request_ref =t= s.request_ref && j.request_hash =t= s.request_hash
        then ok (read_job j.job_id none db, db)
        else err conflict)
unfolding existing_job
existing_job-eq s db j bound = rw (bound, existing_job) refl

-- A checked submission whose owner, kind and key already bind a job never inserts: the tables stay,
-- and the answer is that job if the request reference and digest are the same, a conflict if not.
pub create_job_again :
    (s : Submission) (new_id outbox_id : String) (clock : Clock) (db : Db) (j : Job)
    → check_submission s ≡ ok tt
    → find_key s.owner_id s.kind s.idempotency_key db.jobs ≡ some j
    → create_job s new_id outbox_id clock db ≡ (
        if j.request_ref =t= s.request_ref && j.request_hash =t= s.request_hash
        then ok (read_job j.job_id none db, db)
        else err conflict)
unfolding create_job insert_job after_insert
create_job_again s new_id outbox_id clock db j passed bound =
    rw (passed, new_job_ok s new_id clock passed, bound) (existing_job-eq s db j bound)

-- In a valid state, a checked submission under a key that binds no job yet, with fresh IDs, adds
-- the queued job's row and its one pending message in the same transaction, and returns the job.
pub create_job_fresh :
    (s : Submission) (new_id outbox_id : String) (clock : Clock) (db : Db)
    → IsValid db
    → check_submission s ≡ ok tt
    → find_key s.owner_id s.kind s.idempotency_key db.jobs ≡ none
    → find_job new_id db.jobs ≡ none
    → find_outbox outbox_id db.outbox ≡ none
    → let db' : Db = record db {
      jobs = new_job s new_id clock ∷ db.jobs;
      outbox = new_outbox outbox_id new_id clock ∷ db.outbox;
    } in
      create_job s new_id outbox_id clock db ≡ ok (read_job new_id none db', db')
unfolding create_job insert_job after_insert insert_outbox outbox_ok find_job
create_job_fresh s new_id outbox_id clock db v passed free fresh unused =
    let idle : count_outbox is_pending new_id db.outbox ≡ 0 =
      ground (arith, v.no_stray new_id fresh, count_outbox-le_all is_pending new_id db.outbox) in
    rw (passed, new_job_ok s new_id clock passed, free, fresh, unused, idle, eq_refl new_id) refl

find_key-new :
    (s : Submission) (key id : String) (clock : Clock) (db : Db)
    → s.idempotency_key ≡ some key
    → find_key s.owner_id s.kind s.idempotency_key (new_job s id clock ∷ db.jobs)
      ≡ some (new_job s id clock)
unfolding find_key
find_key-new s key id clock db e = rw (e, eq_refl s.owner_id, eq_refl key, same s.kind) refl
  where
    same : (k : Kind) → same_kind k k ≡ true
    same evaluation = refl
    same ingestion = refl

-- A submission under a key that is sent a second time (at any later clock, whatever IDs are drawn)
-- directly after the first inserted its job returns that first job, and adds no row.
pub create_job_twice :
    (s : Submission) (key new_id outbox_id new_id' outbox_id' : String) (clock clock' : Clock)
    (db : Db)
    → IsValid db
    → check_submission s ≡ ok tt
    → s.idempotency_key ≡ some key
    → find_key s.owner_id s.kind s.idempotency_key db.jobs ≡ none
    → find_job new_id db.jobs ≡ none
    → find_outbox outbox_id db.outbox ≡ none
    → (create_job s new_id outbox_id clock db >>= λ r. create_job s new_id' outbox_id' clock' r.1)
      ≡ create_job s new_id outbox_id clock db
create_job_twice s key new_id outbox_id new_id' outbox_id' clock clock' db v passed keyed free fresh
      unused =
    let db' : Db = record db {
      jobs = new_job s new_id clock ∷ db.jobs;
      outbox = new_outbox outbox_id new_id clock ∷ db.outbox;
    } in
    rw (create_job_fresh s new_id outbox_id clock db v passed free fresh unused) (
      create_job_again s new_id' outbox_id' clock' db' (new_job s new_id clock) passed
        (find_key-new s key new_id clock db keyed)
      ∙ rw (eq_refl s.request_ref, eq_refl s.request_hash) refl)
