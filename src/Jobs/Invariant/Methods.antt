-- ===== src/Jobs/Invariant/Methods.antt =====
-- claim_item, complete_item, reconcile_item and fail_item keep the invariant.
use legal_rag_agent.Prelude.{
  ℕ, ◌+◌, ◌-◌, ◌<◌, ◌≡◌, refl, sym, ◌∙◌, Bool, true, false, Option, none, some, String, arith, leb,
  ◌==◌, ◌=t=◌, Bool-cases, Option-cases, inl, inr,
}
use legal_rag_agent.Jobs.Result.{Result, ok}
use legal_rag_agent.Jobs.Validate.{hash, hash-re, count}
use legal_rag_agent.Jobs.Tables.{
  ItemStatus, is_succeeded, is_failed, any_status, Job, Item, Db, item_ok, find_job, find_item,
  count_items,
}
use legal_rag_agent.Jobs.Tables.Laws.{find_job_self, find_job-id, count-set_item}
use legal_rag_agent.Jobs.Store.{Clock, Lease, is_active}
use legal_rag_agent.Jobs.Store.Items.{
  first_claim, artifact_row, claim_new, claim_again, claim_found, claim_body, claim_item,
  same_result, credit, complete_found, complete_body, complete_item, reconcile_new, reconcile_found,
  reconcile_body, reconcile_item, is_final, fail_running, fail_found, fail_body, fail_item,
}
use legal_rag_agent.Jobs.Invariant.{IsValid, Keeps}
use legal_rag_agent.Jobs.Invariant.Items.{
  Keeps-both, Keeps-item, Held, Found, Found-row, epoch_pos, Keeps-insert, Keeps-insert_succeeded,
}
use legal_rag_agent.Jobs.Invariant.Rules.{
  count-IsCheck, hash-IsCheck, result_ref-IsCheck, error_code-IsCheck, Keeps-check,
  Keeps-under_lease, Keeps-if,
}

claim_again-Keeps :
    (lease : Lease) (key : String) (clock : Clock) (j : Job) (i : Item) (db : Db)
    → Held lease clock.read_at j db
    → Found lease key i db
    → is_succeeded i.status ≡ false
    → is_failed i.status ≡ false
    → Keeps (claim_again lease clock j i db)
unfolding claim_again
claim_again-Keeps lease key clock j i db h f ns nf =
    Keeps-if (leb i.max_attempts i.attempt_count) _ _
      (λ out.
        Keeps-both clock j.completed (j.failed + 1) j i
          (record i { status = ItemStatus.failed; error_code = some "attempts_exhausted" }) db _
          h.valid h.stored f.row (f.of_job ∙ sym h.same_id)
          (unfold item_ok in ground (arith, f.fits)) (ground arith) (ground arith))
      (λ left.
        Keeps-item j i
          (record i {
            status = ItemStatus.running;
            attempt_count = i.attempt_count + 1;
            lease_epoch = lease.epoch;
            error_code = none;
          })
          db _ h.valid h.stored f.row (f.of_job ∙ sym h.same_id)
          (unfold item_ok in ground (arith, f.fits, epoch_pos lease clock.read_at j db h))
          (ground arith) (ground arith))

claim_new-Keeps :
    (lease : Lease) (key : String) (most : ℕ) (clock : Clock) (j : Job) (db : Db)
    → Held lease clock.read_at j db
    → find_item lease.job_id key db.items ≡ none
    → hash key ≡ ok tt
    → count most 1 10 ≡ ok tt
    → Keeps (claim_new lease key most j db)
unfolding claim_new
claim_new-Keeps lease key most clock j db h free named range =
    Keeps-if (leb j.total (count_items any_status lease.job_id db.items)) _ _ (λ _. h.valid)
      λ room.
        Keeps-insert clock j (first_claim lease key most) h.valid h.stored free (sym h.same_id)
          (unfold item_ok count in
            ground (arith, hash-re key named, epoch_pos lease clock.read_at j db h))
          (rw h.same_id (ground arith)) _ refl refl

claim_found-Keeps :
    (lease : Lease) (key : String) (clock : Clock) (j : Job) (i : Item) (s : ItemStatus) (db : Db)
    → i.status ≡ s
    → Held lease clock.read_at j db
    → Found lease key i db
    → Keeps (claim_found lease clock j i s db)
unfolding claim_found
claim_found-Keeps lease key clock j i ItemStatus.succeeded db is h f = h.valid
claim_found-Keeps lease key clock j i ItemStatus.failed db is h f = h.valid
claim_found-Keeps lease key clock j i ItemStatus.running db is h f =
    Keeps-if (i.lease_epoch == lease.epoch) _ _ (λ _. h.valid)
      λ _. claim_again-Keeps lease key clock j i db h f (ground arith) (ground arith)
claim_found-Keeps lease key clock j i ItemStatus.pending db is h f =
    claim_again-Keeps lease key clock j i db h f (ground arith) (ground arith)

pub Held-row :
    (lease : Lease) (at : ℕ) (j : Job) (db : Db)
    → IsValid db
    → find_job lease.job_id db.jobs ≡ some j
    → is_active lease at j ≡ true
    → Held lease at j db
Held-row lease at j db v e a = record {
  valid = v;
  stored = find_job_self lease.job_id db.jobs j e;
  active = a;
  same_id = find_job-id lease.job_id db.jobs j e;
}

pub claim_item-Keeps :
    (lease : Lease) (key : String) (most : ℕ) (clock : Clock) (db : Db)
    → IsValid db
    → Keeps (claim_item lease key most clock db)
unfolding claim_item claim_body
claim_item-Keeps lease key most clock db v = Keeps-check _ _ (hash-IsCheck key) λ named.
    Keeps-check _ _ (count-IsCheck most 1 10) λ range.
      Keeps-under_lease lease clock _ _ db v λ j e a.
        let h = Held-row lease clock.read_at j db v e a in
        Keeps-if j.cancel_requested _ _ (λ _. v)
          λ _. elim (Option-cases (find_item lease.job_id key db.items)) [
            | inl free ↦ rw free (claim_new-Keeps lease key most clock j db h free named range)
            | inr (i, at) ↦ rw at (
                claim_found-Keeps lease key clock j i i.status db refl h
                  (Found-row lease key i db v at))
          ]

same_result-Keeps :
    (old : Option String) (ref : String) (db : Db) → IsValid db → Keeps (same_result old ref db)
unfolding same_result
same_result-Keeps none ref db v = tt
same_result-Keeps (some o) ref db v = Keeps-if (o =t= ref) _ _ (λ _. v) (λ _. tt)

-- The row of an item that succeeds under a lease epoch.
abbrev succeeded_row : ℕ → String → Item → Item
succeeded_row epoch ref i = record i {
  status = ItemStatus.succeeded;
  lease_epoch = epoch;
  result_ref = some ref;
  error_code = none;
}

credit-Keeps :
    (lease : Lease) (key ref : String) (epoch : ℕ) (clock : Clock) (j : Job) (i : Item) (db : Db)
    → Held lease clock.read_at j db
    → Found lease key i db
    → is_succeeded i.status ≡ false
    → is_failed i.status ≡ false
    → 0 < epoch
    → Keeps (credit clock j (succeeded_row epoch ref i) db)
unfolding credit
credit-Keeps lease key ref epoch clock j i db h f ns nf pos =
    Keeps-both clock (j.completed + 1) j.failed j i (succeeded_row epoch ref i) db true h.valid
      h.stored f.row (f.of_job ∙ sym h.same_id) (unfold item_ok in ground (arith, f.fits))
      (ground arith) (ground arith)

complete_found-Keeps :
    (lease : Lease) (key ref : String) (clock : Clock) (j : Job) (i : Item) (s : ItemStatus)
    (db : Db)
    → i.status ≡ s
    → Held lease clock.read_at j db
    → Found lease key i db
    → Keeps (complete_found lease ref clock j i s db)
unfolding complete_found
complete_found-Keeps lease key ref clock j i ItemStatus.succeeded db is h f =
    same_result-Keeps i.result_ref ref db h.valid
complete_found-Keeps lease key ref clock j i ItemStatus.running db is h f =
    Keeps-if (i.lease_epoch == lease.epoch) _ _
      (λ mine.
        credit-Keeps lease key ref i.lease_epoch clock j i db h f (ground arith) (ground arith)
          (unfold item_ok in ground (arith, f.fits)))
      (λ _. h.valid)
complete_found-Keeps lease key ref clock j i _ db is h f = h.valid

-- A body that looks an item up keeps the invariant if it does on the row found and on none.
item_lookup-Keeps :
    {A : Type 0} (lease : Lease) (key : String) (clock : Clock) (j : Job) (db : Db)
    (missing : Result (A × Db)) (found : Item → Result (A × Db))
    → Held lease clock.read_at j db
    → (find_item lease.job_id key db.items ≡ none → Keeps missing)
    → ((i : Item) → Found lease key i db → Keeps (found i))
    → Keeps (elim (find_item lease.job_id key db.items) [ none ↦ missing | some i ↦ found i ])
item_lookup-Keeps lease key clock j db missing found h hm hf =
    elim (Option-cases (find_item lease.job_id key db.items)) [
      | inl free ↦ rw free (hm free)
      | inr (i, at) ↦ rw at (hf i (Found-row lease key i db h.valid at))
    ]

pub complete_item-Keeps :
    (lease : Lease) (key ref : String) (clock : Clock) (db : Db)
    → IsValid db
    → Keeps (complete_item lease key ref clock db)
unfolding complete_item complete_body
complete_item-Keeps lease key ref clock db v = Keeps-check _ _ (hash-IsCheck key) λ named.
    Keeps-check _ _ (result_ref-IsCheck ref) λ _. Keeps-under_lease lease clock _ _ db v λ j e a.
      let h = Held-row lease clock.read_at j db v e a in
      item_lookup-Keeps lease key clock j db _ _ h (λ _. v)
        λ i f. complete_found-Keeps lease key ref clock j i i.status db refl h f

reconcile_found-Keeps :
    (lease : Lease) (key ref : String) (clock : Clock) (j : Job) (i : Item) (s : ItemStatus)
    (db : Db)
    → i.status ≡ s
    → Held lease clock.read_at j db
    → Found lease key i db
    → Keeps (reconcile_found lease ref clock j i s db)
unfolding reconcile_found
reconcile_found-Keeps lease key ref clock j i ItemStatus.succeeded db is h f =
    same_result-Keeps i.result_ref ref db h.valid
reconcile_found-Keeps lease key ref clock j i ItemStatus.failed db is h f =
    let some_failed : (j.failed == 0) ≡ false = ground (
      arith,
      h.valid.jobs j.job_id j h.stored,
      count-set_item is_failed i (succeeded_row lease.epoch ref i) db.items f.row,
    ) in
    rw some_failed (
      Keeps-both clock (j.completed + 1) (j.failed - 1) j i (succeeded_row lease.epoch ref i) db
        true h.valid h.stored f.row (f.of_job ∙ sym h.same_id)
        (unfold item_ok in ground (arith, f.fits, epoch_pos lease clock.read_at j db h))
        (ground arith) (ground arith))
reconcile_found-Keeps lease key ref clock j i ItemStatus.running db is h f =
    credit-Keeps lease key ref lease.epoch clock j i db h f (ground arith) (ground arith)
      (epoch_pos lease clock.read_at j db h)
reconcile_found-Keeps lease key ref clock j i ItemStatus.pending db is h f =
    credit-Keeps lease key ref lease.epoch clock j i db h f (ground arith) (ground arith)
      (epoch_pos lease clock.read_at j db h)

reconcile_new-Keeps :
    (lease : Lease) (key ref : String) (clock : Clock) (j : Job) (db : Db)
    → Held lease clock.read_at j db
    → find_item lease.job_id key db.items ≡ none
    → hash key ≡ ok tt
    → Keeps (reconcile_new lease key ref clock j db)
unfolding reconcile_new
reconcile_new-Keeps lease key ref clock j db h free named =
    Keeps-if (leb j.total (count_items any_status lease.job_id db.items)) _ _ (λ _. h.valid)
      λ room.
        Keeps-insert_succeeded clock j (artifact_row lease key ref) h.valid h.stored free
          (sym h.same_id)
          (unfold item_ok in
            ground (arith, hash-re key named, epoch_pos lease clock.read_at j db h))
          (rw h.same_id (ground arith)) true refl

pub reconcile_item-Keeps :
    (lease : Lease) (key ref : String) (clock : Clock) (db : Db)
    → IsValid db
    → Keeps (reconcile_item lease key ref clock db)
unfolding reconcile_item reconcile_body
reconcile_item-Keeps lease key ref clock db v = Keeps-check _ _ (hash-IsCheck key) λ named.
    Keeps-check _ _ (result_ref-IsCheck ref) λ _. Keeps-under_lease lease clock _ _ db v λ j e a.
      let h = Held-row lease clock.read_at j db v e a in
      item_lookup-Keeps lease key clock j db _ _ h
        (λ free. reconcile_new-Keeps lease key ref clock j db h free named)
        λ i f. reconcile_found-Keeps lease key ref clock j i i.status db refl h f

fail_running-Keeps :
    (lease : Lease) (key : String) (code : Option String) (retryable : Bool) (clock : Clock)
    (j : Job) (i : Item) (db : Db)
    → Held lease clock.read_at j db
    → Found lease key i db
    → i.status ≡ ItemStatus.running
    → Keeps (fail_running code retryable clock j i db)
unfolding fail_running
fail_running-Keeps lease key code retryable clock j i db h f is =
    elim (Bool-cases (is_final retryable i)) [
      | inl final ↦ rw final (
          Keeps-both clock j.completed (j.failed + 1) j i
            (record i { status = ItemStatus.failed; error_code = code }) db true h.valid h.stored
            f.row (f.of_job ∙ sym h.same_id) (unfold item_ok in ground (arith, f.fits))
            (ground arith) (ground arith))
      | inr again ↦ rw again (
          Keeps-item j i (record i { status = ItemStatus.pending; error_code = code }) db true
            h.valid h.stored f.row (f.of_job ∙ sym h.same_id)
            (unfold item_ok in ground (arith, f.fits)) (ground arith) (ground arith))
    ]

fail_found-Keeps :
    (lease : Lease) (key : String) (code : Option String) (retryable : Bool) (clock : Clock)
    (j : Job) (i : Item) (s : ItemStatus) (db : Db)
    → i.status ≡ s
    → Held lease clock.read_at j db
    → Found lease key i db
    → Keeps (fail_found lease code retryable clock j i s db)
unfolding fail_found
fail_found-Keeps lease key code retryable clock j i ItemStatus.running db is h f =
    Keeps-if (i.lease_epoch == lease.epoch) _ _
      (λ _. fail_running-Keeps lease key code retryable clock j i db h f is) (λ _. h.valid)
fail_found-Keeps lease key code retryable clock j i _ db is h f = h.valid

pub fail_item-Keeps :
    (lease : Lease) (key : String) (code : Option String) (retryable : Bool) (clock : Clock)
    (db : Db)
    → IsValid db
    → Keeps (fail_item lease key code retryable clock db)
unfolding fail_item fail_body
fail_item-Keeps lease key code retryable clock db v = Keeps-check _ _ (hash-IsCheck key) λ _.
    Keeps-check _ _ (error_code-IsCheck code) λ _. Keeps-under_lease lease clock _ _ db v λ j e a.
      let h = Held-row lease clock.read_at j db v e a in
      item_lookup-Keeps lease key clock j db _ _ h (λ _. v)
        λ i f. fail_found-Keeps lease key code retryable clock j i i.status db refl h f
