-- ===== src/Jobs/History/Items.antt =====
-- The item methods of JobStore let rows grow only.
use legal_rag_agent.Prelude.{
  ℕ, ◌+◌, ◌≤◌, ◌≡◌, refl, ap, ◌∙◌, true, false, Option, none, some, String, arith, leb, ◌==◌, ◌=t=◌,
}
use legal_rag_agent.Jobs.Result.{ok, ◌>>=◌}
use legal_rag_agent.Jobs.Validate.{hash, result_ref, count}
use legal_rag_agent.Jobs.Tables.{
  ItemStatus, is_terminal, is_succeeded, any_status, Job, Item, Db, find_job, find_item,
  count_items, update_job, update_item, insert_item,
}
use legal_rag_agent.Jobs.Tables.Laws.{find_job_self}
use legal_rag_agent.Jobs.Store.{Clock, Lease}
use legal_rag_agent.Jobs.Store.Items.{
  item_claim, running, failed, first_claim, claim_new, claim_again, claim_found, claim_body,
  claim_item, same_result, credit, complete_found, complete_body, complete_item,
}
use legal_rag_agent.Jobs.Invariant.Items.{counted, item_self}
use legal_rag_agent.Jobs.History.{ItemGrows, Grows, Grows-refl}
use legal_rag_agent.Jobs.History.Methods.{write-JobGrows, active_live}
use legal_rag_agent.Jobs.History.Rules.{
  Steps, Steps-check, Steps-if, Steps-found, Steps-last, Steps-update_item, Steps-insert_item,
  Steps-under_lease,
}

-- A job's row that is live and where it is stored.
module _ (clock : Clock) (j : Job) (db : Db) (live : is_terminal j.status ≡ false)
    (stored : find_job j.job_id db.jobs ≡ some j) where
  -- The counters are written after an item.
  count_after :
      {A : Type 0} (c f : ℕ) (answer : A) (db' : Db)
      → j.completed ≤ c
      → db'.jobs ≡ db.jobs
      → Grows db db'
      → Steps db (update_job (counted clock c f j) db' >>= λ db''. ok (answer, db''))
  count_after c f answer db' more same g =
      Steps-last db j (counted clock c f j) db' (λ _. answer) g
        (ap (λ js. find_job j.job_id js) same ∙ stored)
        (write-JobGrows j _ _ _ _ _ _ _ _ _ _ _ _ _ live (omega arith) (λ h. h))

  -- An item's row and then the counters.
  pub both-Steps :
      {A : Type 0} (c f : ℕ) (i i' : Item) (answer : A)
      → j.completed ≤ c
      → find_item i'.job_id i'.item_key db.items ≡ some i
      → ItemGrows i i'
      → Steps db (
          update_item i' db >>= λ db'.
          update_job (counted clock c f j) db' >>= λ db''. ok (answer, db''))
  both-Steps c f i i' answer more e grows =
      Steps-update_item db i i' db _ (Grows-refl db) e grows
        (λ db' same g. count_after c f answer db' more same g)

  pub insert_both-Steps :
      {A : Type 0} (c f : ℕ) (i' : Item) (answer : A)
      → j.completed ≤ c
      → find_item i'.job_id i'.item_key db.items ≡ none
      → Steps db (
          insert_item i' db >>= λ db'.
          update_job (counted clock c f j) db' >>= λ db''. ok (answer, db''))
  insert_both-Steps c f i' answer more free =
      Steps-insert_item db i' db _ (Grows-refl db) free
        (λ db' same g. count_after c f answer db' more same g)

-- A row of an item that has not succeeded may become any with no fewer attempts.
pub open_item-ItemGrows :
    (i i' : Item)
    → is_succeeded i.status ≡ false
    → i.attempt_count ≤ i'.attempt_count
    → i'.max_attempts ≡ i.max_attempts
    → ItemGrows i i'
open_item-ItemGrows i i' ns attempts limit = record {
  attempts = attempts;
  limit = limit;
  succeeded = λ s. ground arith;
}

pub item_alone-Steps :
    {A : Type 0} (i i' : Item) (answer : A) (db : Db)
    → find_item i'.job_id i'.item_key db.items ≡ some i
    → ItemGrows i i'
    → Steps db (update_item i' db >>= λ db'. ok (answer, db'))
item_alone-Steps i i' answer db e grows =
    Steps-update_item db i i' db (λ db'. ok (answer, db')) (Grows-refl db) e grows (λ db' same g. g)

claim_again-Steps :
    (lease : Lease) (clock : Clock) (j : Job) (i : Item) (db : Db)
    → is_terminal j.status ≡ false
    → find_job j.job_id db.jobs ≡ some j
    → find_item i.job_id i.item_key db.items ≡ some i
    → is_succeeded i.status ≡ false
    → Steps db (claim_again lease clock j i db)
unfolding claim_again
claim_again-Steps lease clock j i db live stored e ns =
    Steps-if db (leb i.max_attempts i.attempt_count) _ _
      (λ _.
        both-Steps clock j db live stored j.completed (j.failed + 1) i
          (record i { status = ItemStatus.failed; error_code = some "attempts_exhausted" })
          (item_claim false failed i.attempt_count) (omega arith) e
          (open_item-ItemGrows i _ ns (omega arith) refl))
      (λ _.
        item_alone-Steps i
          (record i {
            status = ItemStatus.running;
            attempt_count = i.attempt_count + 1;
            lease_epoch = lease.epoch;
            error_code = none;
          })
          (item_claim true running (i.attempt_count + 1)) db e
          (open_item-ItemGrows i _ ns (omega arith) refl))

claim_found-Steps :
    (lease : Lease) (clock : Clock) (j : Job) (i : Item) (s : ItemStatus) (db : Db)
    → i.status ≡ s
    → is_terminal j.status ≡ false
    → find_job j.job_id db.jobs ≡ some j
    → find_item i.job_id i.item_key db.items ≡ some i
    → Steps db (claim_found lease clock j i s db)
unfolding claim_found
claim_found-Steps lease clock j i ItemStatus.succeeded db is live stored e = Grows-refl db
claim_found-Steps lease clock j i ItemStatus.failed db is live stored e = Grows-refl db
claim_found-Steps lease clock j i ItemStatus.running db is live stored e =
    Steps-if db (i.lease_epoch == lease.epoch) _ _ (λ _. Grows-refl db)
      λ _. claim_again-Steps lease clock j i db live stored e (ground arith)
claim_found-Steps lease clock j i ItemStatus.pending db is live stored e =
    claim_again-Steps lease clock j i db live stored e (ground arith)

pub claim_item-Steps :
    (lease : Lease) (key : String) (most : ℕ) (clock : Clock) (db : Db)
    → Steps db (claim_item lease key most clock db)
unfolding claim_item claim_body claim_new
claim_item-Steps lease key most clock db = Steps-check db (hash key) _ λ _.
    Steps-check db (count most 1 10) _ λ _. Steps-under_lease db lease clock _ _ λ j e a.
      Steps-if db j.cancel_requested _ _ (λ _. Grows-refl db)
        λ _.
          Steps-found db (find_item lease.job_id key db.items) _ _
            (λ free.
              Steps-if db (leb j.total (count_items any_status lease.job_id db.items)) _ _
                (λ _. Grows-refl db)
                λ _.
                  Steps-insert_item db (first_claim lease key most) db
                    (λ db'. ok (item_claim true running 1, db')) (Grows-refl db) free
                    (λ db' same g. g))
            (λ i f.
              claim_found-Steps lease clock j i i.status db refl
                (active_live lease clock.read_at j a) (find_job_self lease.job_id db.jobs j e)
                (item_self lease.job_id key db i f))

pub same_result-Steps :
    (old : Option String) (ref : String) (db : Db) → Steps db (same_result old ref db)
unfolding same_result
same_result-Steps none ref db = tt
same_result-Steps (some o) ref db = Steps-if db (o =t= ref) _ _ (λ _. Grows-refl db) (λ _. tt)

complete_found-Steps :
    (lease : Lease) (ref : String) (clock : Clock) (j : Job) (i : Item) (s : ItemStatus) (db : Db)
    → i.status ≡ s
    → is_terminal j.status ≡ false
    → find_job j.job_id db.jobs ≡ some j
    → find_item i.job_id i.item_key db.items ≡ some i
    → Steps db (complete_found lease ref clock j i s db)
unfolding complete_found credit
complete_found-Steps lease ref clock j i ItemStatus.succeeded db is live stored e =
    same_result-Steps i.result_ref ref db
complete_found-Steps lease ref clock j i ItemStatus.running db is live stored e =
    Steps-if db (i.lease_epoch == lease.epoch) _ _
      (λ _.
        both-Steps clock j db live stored (j.completed + 1) j.failed i
          (record i { status = ItemStatus.succeeded; result_ref = some ref; error_code = none })
          true (omega arith) e (open_item-ItemGrows i _ (ground arith) (omega arith) refl))
      (λ _. Grows-refl db)
complete_found-Steps lease ref clock j i _ db is live stored e = Grows-refl db

pub complete_item-Steps :
    (lease : Lease) (key ref : String) (clock : Clock) (db : Db)
    → Steps db (complete_item lease key ref clock db)
unfolding complete_item complete_body
complete_item-Steps lease key ref clock db = Steps-check db (hash key) _ λ _.
    Steps-check db (result_ref ref) _ λ _. Steps-under_lease db lease clock _ _ λ j e a.
      Steps-found db (find_item lease.job_id key db.items) _ _ (λ _. Grows-refl db)
        λ i f.
          complete_found-Steps lease ref clock j i i.status db refl
            (active_live lease clock.read_at j a) (find_job_self lease.job_id db.jobs j e)
            (item_self lease.job_id key db i f)
