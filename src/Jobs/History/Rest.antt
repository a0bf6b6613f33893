-- ===== src/Jobs/History/Rest.antt =====
-- reconcile_item, fail_item, create_job and the methods on messages let rows grow only.
use legal_rag_agent.Prelude.{
  ℕ, ◌+◌, ◌-◌, ◌≡◌, refl, ap, ◌∙◌, Bool, true, false, ◌&&◌, Option, none, some, List, [], ◌∷◌,
  String, arith, leb, ◌==◌, ◌=t=◌, Bool-cases, inl, inr, ◌⊎◌, eq_iff, map, take,
}
use legal_rag_agent.Jobs.Result.{ok, err, integrity}
use legal_rag_agent.Jobs.Validate.{hash, result_ref, error_code, required_string, count}
use legal_rag_agent.Jobs.Tables.{
  ItemStatus, is_terminal, any_status, Job, Item, Outbox, Db, find_job, find_key, find_item,
  find_outbox, count_items,
}
use legal_rag_agent.Jobs.Tables.Laws.{find_outbox-id, find_job_self}
use legal_rag_agent.Jobs.Store.{Clock, Lease}
use legal_rag_agent.Jobs.Store.Create.{
  Submission, check_submission, new_job, new_outbox, insert_job, existing_job, after_insert,
  create_job,
}
use legal_rag_agent.Jobs.Store.Items.{
  artifact_row, credit, reconcile_new, reconcile_found, reconcile_body, reconcile_item, is_final,
  fail_running, fail_found, fail_body, fail_item,
}
use legal_rag_agent.Jobs.Store.Delivery.{
  claim_one, claim_rows, claim_outbox, optional_job, is_due, due, claimed, outbox_record,
  holds_claim, mark_outbox, delivered, mark_outbox_delivered, retried, mark_outbox_retry,
}
use legal_rag_agent.Jobs.Invariant.Items.{item_self}
use legal_rag_agent.Jobs.History.{JobGrows-refl, ItemGrows-refl, Grows, Grows-refl}
use legal_rag_agent.Jobs.History.Methods.{active_live}
use legal_rag_agent.Jobs.History.Items.{
  both-Steps, insert_both-Steps, open_item-ItemGrows, item_alone-Steps, same_result-Steps,
}
use legal_rag_agent.Jobs.History.Rules.{
  Steps, Steps-check, Steps-if, Steps-found, Steps-bind, Steps-update_item, Steps-update_outbox,
  Steps-insert_outbox, Steps-under_lease, Steps-map,
}

reconcile_found-Steps :
    (lease : Lease) (ref : String) (clock : Clock) (j : Job) (i : Item) (s : ItemStatus) (db : Db)
    → i.status ≡ s
    → is_terminal j.status ≡ false
    → find_job j.job_id db.jobs ≡ some j
    → find_item i.job_id i.item_key db.items ≡ some i
    → Steps db (reconcile_found lease ref clock j i s db)
unfolding reconcile_found credit
reconcile_found-Steps lease ref clock j i ItemStatus.succeeded db is live stored e =
    same_result-Steps i.result_ref ref db
reconcile_found-Steps lease ref clock j i ItemStatus.failed db is live stored e =
    let i' : Item = record i {
      status = ItemStatus.succeeded;
      lease_epoch = lease.epoch;
      result_ref = some ref;
      error_code = none;
    } in
    let grows = open_item-ItemGrows i i' (ground arith) (omega arith) refl in
    elim (Bool-cases (j.failed == 0)) [
      | inl none_failed ↦ rw none_failed (
          Steps-update_item db i i' db (λ db'. err integrity) (Grows-refl db) e grows
            (λ db' same g. tt))
      | inr some_failed ↦ rw some_failed (
          both-Steps clock j db live stored (j.completed + 1) (j.failed - 1) i i' true (omega arith)
            e grows)
    ]
reconcile_found-Steps lease ref clock j i ItemStatus.running db is live stored e =
    both-Steps clock j db live stored (j.completed + 1) j.failed i
      (record i {
        status = ItemStatus.succeeded;
        lease_epoch = lease.epoch;
        result_ref = some ref;
        error_code = none;
      })
      true (omega arith) e (open_item-ItemGrows i _ (ground arith) (omega arith) refl)
reconcile_found-Steps lease ref clock j i ItemStatus.pending db is live stored e =
    both-Steps clock j db live stored (j.completed + 1) j.failed i
      (record i {
        status = ItemStatus.succeeded;
        lease_epoch = lease.epoch;
        result_ref = some ref;
        error_code = none;
      })
      true (omega arith) e (open_item-ItemGrows i _ (ground arith) (omega arith) refl)

pub reconcile_item-Steps :
    (lease : Lease) (key ref : String) (clock : Clock) (db : Db)
    → Steps db (reconcile_item lease key ref clock db)
unfolding reconcile_item reconcile_body reconcile_new
reconcile_item-Steps lease key ref clock db = Steps-check db (hash key) _ λ _.
    Steps-check db (result_ref ref) _ λ _. Steps-under_lease db lease clock _ _ λ j e a.
      let live = active_live lease clock.read_at j a in
      let stored = find_job_self lease.job_id db.jobs j e in
      Steps-found db (find_item lease.job_id key db.items) _ _
        (λ free.
          Steps-if db (leb j.total (count_items any_status lease.job_id db.items)) _ _
            (λ _. Grows-refl db)
            λ _.
              insert_both-Steps clock j db live stored (j.completed + 1) j.failed
                (artifact_row lease key ref) true (omega arith) free)
        (λ i f.
          reconcile_found-Steps lease ref clock j i i.status db refl live stored
            (item_self lease.job_id key db i f))

fail_running-Steps :
    (code : Option String) (retryable : Bool) (clock : Clock) (j : Job) (i : Item) (db : Db)
    → i.status ≡ ItemStatus.running
    → is_terminal j.status ≡ false
    → find_job j.job_id db.jobs ≡ some j
    → find_item i.job_id i.item_key db.items ≡ some i
    → Steps db (fail_running code retryable clock j i db)
unfolding fail_running
fail_running-Steps code retryable clock j i db is live stored e =
    elim (Bool-cases (is_final retryable i)) [
      | inl final ↦ rw final (
          both-Steps clock j db live stored j.completed (j.failed + 1) i
            (record i { status = ItemStatus.failed; error_code = code }) true (omega arith) e
            (open_item-ItemGrows i _ (ground arith) (omega arith) refl))
      | inr again ↦ rw again (
          item_alone-Steps i (record i { status = ItemStatus.pending; error_code = code }) true db e
            (open_item-ItemGrows i _ (ground arith) (omega arith) refl))
    ]

fail_found-Steps :
    (lease : Lease) (code : Option String) (retryable : Bool) (clock : Clock) (j : Job) (i : Item)
    (s : ItemStatus) (db : Db)
    → i.status ≡ s
    → is_terminal j.status ≡ false
    → find_job j.job_id db.jobs ≡ some j
    → find_item i.job_id i.item_key db.items ≡ some i
    → Steps db (fail_found lease code retryable clock j i s db)
unfolding fail_found
fail_found-Steps lease code retryable clock j i ItemStatus.running db is live stored e =
    Steps-if db (i.lease_epoch == lease.epoch) _ _
      (λ _. fail_running-Steps code retryable clock j i db is live stored e) (λ _. Grows-refl db)
fail_found-Steps lease code retryable clock j i _ db is live stored e = Grows-refl db

pub fail_item-Steps :
    (lease : Lease) (key : String) (code : Option String) (retryable : Bool) (clock : Clock)
    (db : Db)
    → Steps db (fail_item lease key code retryable clock db)
unfolding fail_item fail_body
fail_item-Steps lease key code retryable clock db = Steps-check db (hash key) _ λ _.
    Steps-check db (error_code code) _ λ _. Steps-under_lease db lease clock _ _ λ j e a.
      Steps-found db (find_item lease.job_id key db.items) _ _ (λ _. Grows-refl db)
        λ i f.
          fail_found-Steps lease code retryable clock j i i.status db refl
            (active_live lease clock.read_at j a) (find_job_self lease.job_id db.jobs j e)
            (item_self lease.job_id key db i f)

-- A new row stands at an ID that was free, so what was found before is found again.
Grows-new_job :
    (j : Job) (db : Db)
    → find_job j.job_id db.jobs ≡ none
    → Grows db (record db { jobs = j ∷ db.jobs })
Grows-new_job j db free = record {
  jobs = λ id k e. (k, unfold find_job in ground (arith, eq_iff j.job_id id), JobGrows-refl k);
  items = λ id key i e. (i, e, ItemGrows-refl i);
  outbox = λ id o e d. (o, e, d);
}

insert_job-cases :
    (j : Job) (db : Db)
    → (insert_job j db ≡ err integrity)
      ⊎ (insert_job j db ≡ ok (false, db))
      ⊎ ((insert_job j db ≡ ok (true, record db { jobs = j ∷ db.jobs }))
          × (find_job j.job_id db.jobs ≡ none))
unfolding insert_job
insert_job-cases j db = ground arith

pub create_job-Steps :
    (s : Submission) (new_id outbox_id : String) (clock : Clock) (db : Db)
    → Steps db (create_job s new_id outbox_id clock db)
unfolding create_job after_insert existing_job
create_job-Steps s new_id outbox_id clock db = Steps-check db (check_submission s) _ λ _.
    elim (insert_job-cases (new_job s new_id clock) db) [
      | inl e ↦ rw e tt
      | inr (inl e) ↦ rw e (
          Steps-found db (find_key s.owner_id s.kind s.idempotency_key db.jobs) _ _ (λ _. tt)
            λ j _.
              Steps-if db (j.request_ref =t= s.request_ref && j.request_hash =t= s.request_hash) _ _
                (λ _. Grows-refl db) (λ _. tt))
      | inr (inr (e, free)) ↦ rw e (
          Steps-insert_outbox db (new_outbox outbox_id new_id clock) _ _
            (Grows-new_job (new_job s new_id clock) db free) (λ db' g. g))
    ]

mark_outbox-Steps :
    (id dispatcher : String) (epoch : ℕ) (clock : Clock) (change : Outbox → Outbox) (db : Db)
    → ((o : Outbox) → (change o).outbox_id ≡ o.outbox_id)
    → ((o : Outbox) → o.delivered ≡ true → (change o).delivered ≡ true)
    → Steps db (mark_outbox id dispatcher epoch clock change db)
unfolding mark_outbox
mark_outbox-Steps id dispatcher epoch clock change db same stays =
    Steps-found db (find_outbox id db.outbox) _ _ (λ _. Grows-refl db)
      λ o e.
        Steps-if db (holds_claim dispatcher epoch clock.read_at o) _ _
          (λ _.
            Steps-update_outbox db o (change o) db (λ db'. ok (true, db')) (Grows-refl db)
              (ap (λ i. find_outbox i db.outbox) (same o ∙ find_outbox-id id db.outbox o e) ∙ e)
              (stays o) (λ db' g. g))
          (λ _. Grows-refl db)

pub mark_outbox_delivered-Steps :
    (id dispatcher : String) (epoch : ℕ) (clock : Clock) (db : Db)
    → Steps db (mark_outbox_delivered id dispatcher epoch clock db)
unfolding mark_outbox_delivered
mark_outbox_delivered-Steps id dispatcher epoch clock db =
    mark_outbox-Steps id dispatcher epoch clock (delivered clock) db (λ o. refl) (λ o d. refl)

pub mark_outbox_retry-Steps :
    (id dispatcher : String) (epoch : ℕ) (code : String) (delay : ℕ) (clock : Clock) (db : Db)
    → Steps db (mark_outbox_retry id dispatcher epoch code delay clock db)
unfolding mark_outbox_retry
mark_outbox_retry-Steps id dispatcher epoch code delay clock db =
    Steps-check db (error_code (some code)) _ λ _. Steps-check db (count delay 0 3600) _ λ _.
      mark_outbox-Steps id dispatcher epoch clock (retried code delay clock) db (λ o. refl)
        (λ o d. d)

claim_one-Steps :
    (base : Db) (dispatcher : String) (n : ℕ) (clock : Clock) (id : String) (db : Db)
    → Grows base db
    → Steps base (claim_one dispatcher n clock id db)
unfolding claim_one
claim_one-Steps base dispatcher n clock id db g =
    Steps-found base (find_outbox id db.outbox) _ _ (λ _. tt)
      λ o e.
        Steps-update_outbox base o (claimed dispatcher n clock o) db
          (λ db'. ok (outbox_record (claimed dispatcher n clock o), db')) g
          (ap (λ i. find_outbox i db.outbox) (find_outbox-id id db.outbox o e) ∙ e) (λ d. d)
          (λ db' g'. g')

claim_rows-Steps :
    (base : Db) (dispatcher : String) (n : ℕ) (clock : Clock) (ids : List String) (db : Db)
    → Grows base db
    → Steps base (claim_rows dispatcher n clock ids db)
unfolding claim_rows
claim_rows-Steps base dispatcher n clock [] db g = g
claim_rows-Steps base dispatcher n clock (id ∷ ids) db g =
    Steps-bind base (claim_one dispatcher n clock id db) _
      (claim_one-Steps base dispatcher n clock id db g)
      λ c db' g'.
        Steps-map base (claim_rows dispatcher n clock ids db') _
          (claim_rows-Steps base dispatcher n clock ids db' g')

pub claim_outbox-Steps :
    (busy : String → Bool) (dispatcher : String) (limit n : ℕ) (job_id : Option String)
    (clock : Clock) (db : Db)
    → Steps db (claim_outbox busy dispatcher limit n job_id clock db)
unfolding claim_outbox
claim_outbox-Steps busy dispatcher limit n job_id clock db =
    Steps-check db (required_string dispatcher 128) _ λ _.
      Steps-check db (count limit 1 1000) _ λ _. Steps-check db (count n 1 3600) _ λ _.
        Steps-check db (optional_job job_id) _ λ _.
          claim_rows-Steps db dispatcher n clock
            (map (λ o. o.outbox_id)
              (take limit (due (is_due busy job_id clock.read_at db) db.outbox)))
            db (Grows-refl db)
