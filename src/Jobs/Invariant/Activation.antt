-- ===== src/Jobs/Invariant/Activation.antt =====
-- activate_ingestion_job keeps the invariant: the job's last item and its status are one write.
use legal_rag_agent.Prelude.{
  ◌+◌, ◌≡◌, refl, sym, ◌∙◌, true, Option, none, some, String, arith, ◌⊎◌, inl, inr, Bool-cases,
  Option-cases,
}
use legal_rag_agent.Jobs.Result.{
  Result, ok, err, Error, contract, conflict, value_error, integrity, callback, require, ◌>>=◌,
  ◌>>◌,
}
use legal_rag_agent.Jobs.Methods.{catalog_write}
use legal_rag_agent.Jobs.Invariant.Rules.{
  IsCheck, hash-IsCheck, result_ref-IsCheck, conflict-IsCheck, Keeps-under_lease,
}
use legal_rag_agent.Jobs.Invariant.Methods.{Held-row}
use legal_rag_agent.Jobs.Validate.{result_ref, hash}
use legal_rag_agent.Jobs.Tables.{
  Status, ItemStatus, is_succeeded, is_failed, any_status, Job, Item, Db, job_ok, item_ok, set_job,
  find_item, set_item, update_job, update_item,
}
use legal_rag_agent.Jobs.Tables.Laws.{set_job-DistinctJobs, count-set_item, count_items-le_all}
use legal_rag_agent.Jobs.Store.{Clock, Lease, JobRecord, read_job}
use legal_rag_agent.Jobs.Store.Finish.{
  finished, activation_allowed, claimed_item, activate_item, activate_body, activate_ingestion_job,
}
use legal_rag_agent.Jobs.Invariant.{JobInv, IsValid, Keeps, SameJobs-set}
use legal_rag_agent.Jobs.Invariant.Items.{exclusive, Held, Found, Found-row}
use legal_rag_agent.Jobs.Invariant.Rows.{set_item-IsValid}

-- The rows that an activation writes.
abbrev pub activated_item : String → Item → Item
activated_item ref i = record i {
  status = ItemStatus.succeeded;
  result_ref = some ref;
  error_code = none;
}

abbrev pub activated_job : Clock → Job → Job
activated_job clock j = record (finished Status.succeeded none clock j) {
  completed = j.completed + 1;
}

pub claimed_item-cases :
    (lease : Lease) (key : String) (db : Db) (i : Item)
    → claimed_item lease key db ≡ some i
    → (find_item lease.job_id key db.items ≡ some i)
      × (i.status ≡ ItemStatus.running)
      × (i.lease_epoch ≡ lease.epoch)
unfolding claimed_item
claimed_item-cases lease key db i h = ground arith

activated-JobInv :
    (lease : Lease) (key ref : String) (clock : Clock) (j : Job) (i : Item) (db : Db)
    → Held lease clock.read_at j db
    → Found lease key i db
    → i.status ≡ ItemStatus.running
    → JobInv (set_item (activated_item ref i) db.items) (activated_job clock j)
unfolding job_ok
activated-JobInv lease key ref clock j i db h f is =
    let same = f.of_job ∙ sym h.same_id in
    ground (
      arith,
      h.valid.jobs j.job_id j h.stored,
      count-set_item is_succeeded i (activated_item ref i) db.items f.row,
      count-set_item is_failed i (activated_item ref i) db.items f.row,
      count-set_item any_status i (activated_item ref i) db.items f.row,
      count_items-le_all is_succeeded is_failed j.job_id (set_item (activated_item ref i) db.items)
          exclusive,
    )

module _ {C : Type 0} (activate : C → Result (String × C)) where
  -- After the catalog's write, the two rows are written and nothing refuses them.
  pub activate_item-eq :
      (lease : Lease) (key : String) (clock : Clock) (j : Job) (i : Item) (db : Db) (catalog : C)
      (ref : String) (catalog' : C)
      → Held lease clock.read_at j db
      → Found lease key i db
      → i.status ≡ ItemStatus.running
      → activate catalog ≡ ok (ref, catalog')
      → result_ref ref ≡ ok tt
      → let db' : Db = record db {
        jobs = set_job (activated_job clock j) db.jobs;
        items = set_item (activated_item ref i) db.items;
      } in
        (activate_item activate lease clock j i db catalog
          ≡ ok (read_job lease.job_id none db', (db', catalog')))
        × IsValid db'
  unfolding activate_item update_item update_job
  activate_item-eq lease key clock j i db catalog ref catalog' h f is done named =
      let new = activated-JobInv lease key ref clock j i db h f is in
      let fits : item_ok (activated_item ref i) ≡ true = unfold item_ok in ground (arith, f.fits) in
      (
        rw (done, named, fits, new.row),
        set_item-IsValid (set_job (activated_job clock j) db.jobs) (activated_job clock j) i
            (activated_item ref i) h.valid (SameJobs-set (activated_job clock j) j db.jobs h.stored)
            (set_job-DistinctJobs (activated_job clock j) db.jobs h.valid.distinct)
            (sym (f.of_job ∙ sym h.same_id)) fits new,
      )

-- What a transaction over the tables and a catalog commits keeps the invariant, and no constraint
-- refuses it.
abbrev KeepsBoth : {A C : Type 0} → Result (A × (Db × C)) → Type 0
KeepsBoth (ok (a, (db, catalog))) = IsValid db
KeepsBoth (err contract) = Unit
KeepsBoth (err conflict) = Unit
KeepsBoth (err callback) = Unit
KeepsBoth (err value_error) = ⊥
KeepsBoth (err integrity) = ⊥

module _ {A C : Type 0} where
  KeepsBoth-check :
      (m : Result (Unit {0})) (k : Result (A × (Db × C)))
      → IsCheck m
      → KeepsBoth k
      → KeepsBoth (m >> k)
  KeepsBoth-check (ok tt) k c h = h
  KeepsBoth-check (err contract) k c h = tt
  KeepsBoth-check (err conflict) k c h = tt
  KeepsBoth-check (err callback) k c h = tt
  KeepsBoth-check (err value_error) k c h = absurd c
  KeepsBoth-check (err integrity) k c h = absurd c

  Keeps-together :
      (m : Result (A × (Db × C)))
      → KeepsBoth m
      → Keeps {A = A × C} (m >>= λ (a, (db, catalog)). ok ((a, catalog), db))
  Keeps-together (ok r) h = h
  Keeps-together (err contract) h = tt
  Keeps-together (err conflict) h = tt
  Keeps-together (err callback) h = tt
  Keeps-together (err value_error) h = absurd h
  Keeps-together (err integrity) h = absurd h

  KeepsBoth-apart :
      (m : Result ((A × C) × Db))
      → Keeps m
      → KeepsBoth (m >>= λ ((a, catalog), db). ok (a, (db, catalog)))
  KeepsBoth-apart (ok r) h = h
  KeepsBoth-apart (err contract) h = tt
  KeepsBoth-apart (err conflict) h = tt
  KeepsBoth-apart (err callback) h = tt
  KeepsBoth-apart (err value_error) h = absurd h
  KeepsBoth-apart (err integrity) h = absurd h

  Keeps-tables :
      (m : Result (A × (Db × C))) → KeepsBoth m → Keeps {A = Unit {0}} (m >>= λ r. ok (tt, r.1.0))
  Keeps-tables (ok r) h = h
  Keeps-tables (err contract) h = tt
  Keeps-tables (err conflict) h = tt
  Keeps-tables (err callback) h = tt
  Keeps-tables (err value_error) h = absurd h
  Keeps-tables (err integrity) h = absurd h

-- A check passes, or the whole is its error.
check-cases :
    (m : Result (Unit {0}))
    → IsCheck m
    → (m ≡ ok tt)
      ⊎ ((e : Error) × (m ≡ err e) × KeepsBoth {A = Option JobRecord} {C = Unit {0}} (err e))
check-cases (ok tt) c = inl refl
check-cases (err contract) c = inr (contract, refl, tt)
check-cases (err conflict) c = inr (conflict, refl, tt)
check-cases (err callback) c = inr (callback, refl, tt)
check-cases (err value_error) c = absurd c
check-cases (err integrity) c = absurd c

activate_item-KeepsBoth :
    (outcome : Option String) (lease : Lease) (key : String) (clock : Clock) (j : Job) (i : Item)
    (db : Db)
    → Held lease clock.read_at j db
    → Found lease key i db
    → i.status ≡ ItemStatus.running
    → KeepsBoth (activate_item (catalog_write outcome) lease clock j i db tt)
unfolding activate_item
activate_item-KeepsBoth none lease key clock j i db h f is = tt
activate_item-KeepsBoth (some ref) lease key clock j i db h f is =
    elim (check-cases (result_ref ref) (result_ref-IsCheck ref)) [
      | inl named ↦
          let (same, valid) =
            activate_item-eq (catalog_write (some ref)) lease key clock j i db tt ref tt h f is refl
              named in
          rw same valid
      | inr (e, refused, harmless) ↦ rw (refused, activate_item) harmless
    ]

activate_body-KeepsBoth :
    (outcome : Option String) (lease : Lease) (key digest : String) (clock : Clock) (j : Job)
    (db : Db)
    → Held lease clock.read_at j db
    → KeepsBoth (activate_body (catalog_write outcome) lease key digest clock tt j db)
unfolding activate_body activation_allowed
activate_body-KeepsBoth outcome lease key digest clock j db h =
    elim (Bool-cases j.cancel_requested) [
      | inl asked ↦ rw asked h.valid
      | inr unasked ↦ rw unasked (
          KeepsBoth-check (require (activation_allowed digest j) conflict) _ (conflict-IsCheck _)
            (elim (Option-cases (claimed_item lease key db)) [
              | inl free ↦ rw free tt
              | inr (i, claimed) ↦
                  let (row, is, epoch) = claimed_item-cases lease key db i claimed in
                  rw claimed (
                    activate_item-KeepsBoth outcome lease key clock j i db h
                      (Found-row lease key i db h.valid row) is)
            ]))
    ]

pub activate-Keeps :
    (lease : Lease) (key digest : String) (outcome : Option String) (clock : Clock) (db : Db)
    → IsValid db
    → Keeps {A = Unit {0}} (
        activate_ingestion_job (catalog_write outcome) lease key digest clock db tt >>= λ r.
        ok (tt, r.1.0))
unfolding activate_ingestion_job
activate-Keeps lease key digest outcome clock db v = Keeps-tables _ (
    KeepsBoth-check (hash key) _ (hash-IsCheck key) (
      KeepsBoth-check (hash digest) _ (hash-IsCheck digest) (
        KeepsBoth-apart _ (
          Keeps-under_lease lease clock (none, tt) _ db v
            λ j e a. Keeps-together _ (
              activate_body-KeepsBoth outcome lease key digest clock j db
                (Held-row lease clock.read_at j db v e a))))))
