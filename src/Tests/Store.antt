-- ===== src/Tests/Store.antt =====
-- Runs of the job store: a job is submitted, leased, worked on and finished.
use mathlib.Core.Path.{subst}
use legal_rag_agent.Prelude.{
  ℕ, ◌<◌, ◌≡◌, ◌≢◌, refl, true, false, Option, none, some, [], ◌∷◌, String, arith,
}
use legal_rag_agent.Jobs.Result.{ok, err, value_error, integrity, ◌>>=◌}
use legal_rag_agent.Jobs.Tables.{
  evaluation, Status, Job, Outbox, Db, find_job, find_outbox, count_items, is_succeeded, any_status,
  count_outbox, find_key, row_text_ok, job_ok, outbox_ok, set_job, set_outbox, update_job,
  insert_outbox, update_outbox,
}
use legal_rag_agent.Jobs.Validate.{
  is_space, opaque_re, hash_re, stage_re, required_string, opaque_id, hash, error_code, count,
}
use legal_rag_agent.Jobs.Store.{
  Clock, Lease, JobRecord, read_job, is_active, locked_active_job, under_lease,
}
use legal_rag_agent.Jobs.Store.Create.{
  Submission, check_submission, insert_job, after_insert, create_job, new_job, new_outbox,
}
use legal_rag_agent.Jobs.Store.Claim.{is_held, leased, claim_row, claim_job}
use legal_rag_agent.Jobs.Store.Finish.{finish_allowed, finished, finish_job}
use legal_rag_agent.Jobs.Store.Delivery.{
  holds_claim, mark_outbox, mark_outbox_delivered, is_due, place, due, claim_one, claim_rows,
  claim_outbox,
}
use legal_rag_agent.Jobs.Store.Requeue.{
  requeue_one, requeue_row, requeue_rows, requeue_expired_jobs, backoff_seconds, is_lost, lost_jobs,
  place_job, last_delivered_at,
}
use legal_rag_agent.Jobs.Methods.{
  create, lease_job, write, beat, finish, lease_messages, delivered, run, after, empty, Reach,
  start, then, cancel, Later, at_once, call,
}
use legal_rag_agent.Jobs.Methods.Safety.{Reach-IsValid, run_never_refused}
use legal_rag_agent.Jobs.Methods.Growth.{after-Grows, superseded_lease_lost}
use legal_rag_agent.Jobs.Invariant.{IsValid}
use legal_rag_agent.Jobs.History.{Grows}
use legal_rag_agent.Jobs.Lease.{
  lost_lease_writes_nothing, TakesOver, claim_job-TakesOver, finish_succeeded_complete,
}
use legal_rag_agent.Jobs.Idempotency.{create_job_fresh, create_job_twice}
use legal_rag_agent.Jobs.Redelivery.{delivered_once}
use legal_rag_agent.Jobs.Rounds.{Within, Lost, requeue_expired_jobs_bound}

abbrev digest : String
digest = "0123456789abcdef0123456789abcdef0123456789abcdef0123456789abcdef"

abbrev submission : Submission
submission = record {
  owner_id = "ann";
  kind = evaluation;
  request_ref = "set-1";
  request_hash = digest;
  total = 0;
  idempotency_key = some "key-1";
}

abbrev pub clock_at : ℕ → Clock
clock_at t = record { start = t; read_at = t; write_at = t }

abbrev pub submitted : Db
submitted = record {
  jobs = new_job submission "job-1" (clock_at 10) ∷ [];
  items = [];
  outbox = new_outbox "msg-1" "job-1" (clock_at 10) ∷ [];
}

abbrev worked : Db
worked = record submitted {
  jobs = leased "w1" 60 (clock_at 20) (new_job submission "job-1" (clock_at 10)) ∷ [];
}

submission_passes : check_submission submission ≡ ok tt
unfolding check_submission required_string opaque_id hash count is_space opaque_re hash_re
submission_passes = refl

submitted_eq : after (create submission "job-1" "msg-1") (clock_at 10) empty ≡ submitted
unfolding after run create_job check_submission required_string opaque_id hash count is_space
    opaque_re hash_re insert_job after_insert job_ok row_text_ok stage_re find_key find_job
    find_outbox insert_outbox outbox_ok count_outbox
submitted_eq = refl

worked_eq : after (lease_job "job-1" "w1" 60 10) (clock_at 20) submitted ≡ worked
unfolding after run claim_job required_string count is_space claim_row is_held leased find_job
    update_job set_job job_ok row_text_ok opaque_re hash_re stage_re
worked_eq = refl

pub submitted-Reach : Reach submitted
unfolding find_job find_outbox
submitted-Reach =
    subst (λ (db : Db). Reach db) submitted_eq
      (then (create submission "job-1" "msg-1") (clock_at 10) start (refl, refl))

worked-Reach : Reach worked
worked-Reach =
    subst (λ (db : Db). Reach db) worked_eq
      (then (lease_job "job-1" "w1" 60 10) (clock_at 20) submitted-Reach tt)

abbrev lease : Lease
lease = record { job_id = "job-1"; worker_id = "w1"; epoch = 1 }

abbrev other_lease : Lease
other_lease = record { job_id = "job-1"; worker_id = "w2"; epoch = 0 }

Reach-IsValid_example : IsValid worked
Reach-IsValid_example = Reach-IsValid worked-Reach

run_never_refused_example :
    (run (write lease (finish Status.succeeded none)) (clock_at 30) worked ≢ err integrity)
    × (run (write lease (finish Status.succeeded none)) (clock_at 30) worked ≢ err value_error)
run_never_refused_example =
    run_never_refused (write lease (finish Status.succeeded none)) (clock_at 30) worked-Reach tt

after-Grows_example :
    Grows worked (after (write lease (finish Status.succeeded none)) (clock_at 30) worked)
after-Grows_example =
    after-Grows (write lease (finish Status.succeeded none)) (clock_at 30) worked-Reach tt

other_lost : locked_active_job other_lease 30 worked ≡ none
unfolding locked_active_job is_active find_job leased
other_lost = refl

lost_lease_writes_nothing_example :
    after (write other_lease (beat 60)) (clock_at 30) worked ≡ worked
lost_lease_writes_nothing_example =
    lost_lease_writes_nothing other_lease (beat 60) (clock_at 30) worked other_lost

abbrev job : Job
job = new_job submission "job-1" (clock_at 10)

held_job : find_job "job-1" worked.jobs ≡ some (leased "w1" 60 (clock_at 20) job)
unfolding find_job leased
held_job = refl

held_epoch : 0 < (leased "w1" 60 (clock_at 20) job).lease_epoch
unfolding leased
held_epoch = omega arith

superseded_lease_lost_example :
    locked_active_job other_lease 40 (after (cancel "job-1" "ann") (clock_at 30) worked) ≡ none
superseded_lease_lost_example =
    superseded_lease_lost other_lease 40 (leased "w1" 60 (clock_at 20) job) worked-Reach
      (call (cancel "job-1" "ann") (clock_at 30) at_once tt) held_job held_epoch

claim_answer : Option JobRecord
unfolding read_job leased
claim_answer = read_job "job-1" none worked

-- The record that the claim returns.
abbrev claimed_record : JobRecord
claimed_record = record {
  job_id = "job-1";
  owner_id = "ann";
  kind = evaluation;
  status = Status.running;
  request_ref = "set-1";
  request_hash = digest;
  total = 0;
  completed = 0;
  failed = 0;
  pending = 0;
  stage = "received";
  cancel_requested = false;
  lease_epoch = 1;
  claim_count = 1;
  lease_expires_at = some 60000020;
  created_at = 10;
  started_at = some 20;
  finished_at = none;
  outbox_delivered = some false;
  outbox_error_code = none;
  error_code = none;
}

claims : claim_job "job-1" "w1" 60 10 (clock_at 20) submitted ≡ ok (some claimed_record, worked)
unfolding claim_job required_string count is_space claim_row is_held leased find_job update_job
    set_job job_ok row_text_ok opaque_re hash_re stage_re read_job
claims = refl

claim_job-TakesOver_example : TakesOver "job-1" "w1" 60 10 (clock_at 20) submitted worked
claim_job-TakesOver_example =
    claim_job-TakesOver "job-1" "w1" 60 10 (clock_at 20) submitted worked claimed_record claims

abbrev finished_record : JobRecord
finished_record = record claimed_record {
  status = Status.succeeded;
  lease_expires_at = none;
  finished_at = some 30;
}

abbrev done : Db
done = record worked {
  jobs = finished Status.succeeded none (clock_at 30) (leased "w1" 60 (clock_at 20) job) ∷ [];
}

finishes :
    finish_job lease Status.succeeded none (clock_at 30) worked ≡ ok (some finished_record, done)
unfolding finish_job error_code under_lease locked_active_job is_active finish_allowed leased
    find_job update_job set_job job_ok row_text_ok opaque_re hash_re stage_re read_job
finishes = refl

finish_succeeded_complete_example :
    (j : Job) × (find_job "job-1" worked.jobs ≡ some j)
    × (j.cancel_requested ≡ false)
    × (count_items is_succeeded "job-1" worked.items ≡ j.total)
    × (count_items any_status "job-1" worked.items ≡ j.total)
finish_succeeded_complete_example =
    finish_succeeded_complete lease none (clock_at 30) worked done finished_record
      (Reach-IsValid worked-Reach) finishes

empty-IsValid : IsValid empty
empty-IsValid = Reach-IsValid start

free_key : find_key submission.owner_id submission.kind submission.idempotency_key empty.jobs ≡ none
unfolding find_key
free_key = refl

free_id : find_job "job-1" empty.jobs ≡ none
unfolding find_job
free_id = refl

free_message : find_outbox "msg-1" empty.outbox ≡ none
unfolding find_outbox
free_message = refl

create_job_fresh_example :
    create_job submission "job-1" "msg-1" (clock_at 10) empty
    ≡ ok (read_job "job-1" none submitted, submitted)
create_job_fresh_example =
    create_job_fresh submission "job-1" "msg-1" (clock_at 10) empty empty-IsValid submission_passes
      free_key free_id free_message

create_job_twice_example :
    (create_job submission "job-1" "msg-1" (clock_at 10) empty >>= λ r.
    create_job submission "job-2" "msg-2" (clock_at 50) r.1)
    ≡ create_job submission "job-1" "msg-1" (clock_at 10) empty
create_job_twice_example =
    create_job_twice submission "key-1" "job-1" "msg-1" "job-2" "msg-2" (clock_at 10) (clock_at 50)
      empty empty-IsValid submission_passes refl free_key free_id free_message

-- The message is claimed by a dispatcher and marked.
abbrev message : Outbox
message = record (new_outbox "msg-1" "job-1" (clock_at 10)) {
  claim_owner = some "d1";
  claim_epoch = 1;
  delivery_attempts = 1;
  claim_expires_at = some 30000020;
}

abbrev claimed_db : Db
claimed_db = record submitted { outbox = message ∷ [] }

abbrev delivered_db : Db
delivered_db = record submitted {
  outbox =
      record message {
        delivered = true;
        delivered_at = some 30;
        claim_owner = none;
        claim_expires_at = none;
      }
      ∷ [];
}

claims_message :
    after (lease_messages (λ _. false) "d1" 20 30 none) (clock_at 20) submitted ≡ claimed_db
unfolding after run claim_outbox required_string count is_space is_due find_job due place claim_rows
    claim_one find_outbox update_outbox outbox_ok set_outbox
claims_message = refl

marks : mark_outbox_delivered "msg-1" "d1" 1 (clock_at 30) claimed_db ≡ ok (true, delivered_db)
unfolding mark_outbox_delivered mark_outbox holds_claim find_outbox update_outbox outbox_ok
    set_outbox
marks = refl

claimed_db-Reach : Reach claimed_db
claimed_db-Reach =
    subst (λ (db : Db). Reach db) claims_message
      (then (lease_messages (λ _. false) "d1" 20 30 none) (clock_at 20) submitted-Reach tt)

marked_eq : after (delivered "msg-1" "d1" 1) (clock_at 30) claimed_db ≡ delivered_db
unfolding after run mark_outbox_delivered mark_outbox holds_claim find_outbox update_outbox
    outbox_ok set_outbox
marked_eq = refl

delivered_db-Reach : Reach delivered_db
delivered_db-Reach =
    subst (λ (db : Db). Reach db) marked_eq
      (then (delivered "msg-1" "d1" 1) (clock_at 30) claimed_db-Reach tt)

delivered_once_example :
    ((o : Outbox) × (find_outbox "msg-1" claimed_db.outbox ≡ some o)
      × (holds_claim "d1" 1 30 o ≡ true))
    × ((last : Db) (other : String) (epoch' : ℕ) (later : Clock)
        → Later delivered_db last
        → mark_outbox_delivered "msg-1" other epoch' later last ≡ ok (false, last))
delivered_once_example =
    delivered_once "msg-1" "d1" 1 (clock_at 30) claimed_db delivered_db claimed_db-Reach marks

abbrev requeued_db : Db
requeued_db = record delivered_db {
  jobs = record job { recovery_queued_at = some 2000040; updated_at = 2000040 } ∷ [];
  outbox = new_outbox "msg-2" "job-1" (clock_at 2000040) ∷ delivered_db.outbox;
}

requeues :
    requeue_expired_jobs (λ _. false) (λ _. "msg-2") 10 1 60 5 (clock_at 2000040) delivered_db
    ≡ ok ("job-1" ∷ [], requeued_db)
unfolding requeue_expired_jobs requeue_rows requeue_one requeue_row count_outbox find_job update_job
    set_job job_ok row_text_ok opaque_re hash_re stage_re insert_outbox outbox_ok find_outbox count
    lost_jobs place_job is_lost last_delivered_at backoff_seconds
requeues = refl

requeue_expired_jobs_bound_example :
    Within
      (Lost (λ _. false) 1 60 (clock_at 2000040) delivered_db)
      5
      "job-1"
      delivered_db
      requeued_db
requeue_expired_jobs_bound_example =
    requeue_expired_jobs_bound (λ _. false) (λ _. "msg-2") 10 1 60 5 (clock_at 2000040) delivered_db
      requeued_db ("job-1" ∷ []) "job-1" delivered_db-Reach requeues
