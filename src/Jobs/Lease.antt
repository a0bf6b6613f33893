-- ===== src/Jobs/Lease.antt =====
-- The lease protocol of a job: who may write, and when another worker takes over.
use legal_rag_agent.Prelude.{
  ℕ, ◌+◌, ◌<◌, ◌≡◌, refl, sym, ◌∙◌, true, false, Option, none, some, String, arith, leb, eq_refl,
  Bool-cases, Option-cases, inl, inr,
}
use legal_rag_agent.Jobs.Result.{
  Result, ok, err, require, contract, conflict, ◌>>=◌, ◌>>◌, >>-eq-ok,
}
use legal_rag_agent.Jobs.Validate.{required_string, count, hash, result_ref, error_code}
use legal_rag_agent.Jobs.Tables.{
  Status, is_terminal, is_succeeded, is_failed, any_status, Job, Db, seconds, job_ok, find_job,
  count_items, update_job,
}
use legal_rag_agent.Jobs.Tables.Laws.{find_job-id, find_job_self, find-set_job, count_items-le_all}
use legal_rag_agent.Jobs.Store.{Clock, Lease, JobRecord, is_active, locked_active_job, under_lease}
use legal_rag_agent.Jobs.Store.Claim.{is_held, exhausted, leased, claim_row, claim_job}
use legal_rag_agent.Jobs.Store.Progress.{heartbeat, set_total, set_stage}
use legal_rag_agent.Jobs.Store.Items.{claim_item, complete_item, reconcile_item, fail_item}
use legal_rag_agent.Jobs.Store.Finish.{finish_allowed, finish_job}
use legal_rag_agent.Jobs.Methods.{
  Write, beat, total, stage, claim, complete, reconcile, fail, finish, write, run_write, run, after,
}
use legal_rag_agent.Jobs.Invariant.{IsValid}
use legal_rag_agent.Jobs.Invariant.Items.{exclusive}
use legal_rag_agent.Jobs.Invariant.Rules.{locked-cases, under_lease_lost, under_lease_held}

-- A result that commits nothing but the tables it found.
Still : {A : Type 0} → Db → Result (A × Db) → Type 0
Still db (ok (a, db')) = db' ≡ db
Still db (err e) = Unit

Still-check :
    {A : Type 0} (db : Db) (m : Result (Unit {0})) (k : Result (A × Db))
    → Still db k
    → Still db (m >> k)
unfolding Still
Still-check db (ok tt) k h = h
Still-check db (err e) k h = tt

Still-lost :
    {A : Type 0} (lease : Lease) (clock : Clock) (refusal : A) (body : Job → Db → Result (A × Db))
    (db : Db)
    → locked_active_job lease clock.read_at db ≡ none
    → Still db (under_lease lease clock refusal body db)
unfolding Still
Still-lost lease clock refusal body db lost =
    rw (under_lease_lost lease clock refusal body db lost) refl

Still-map :
    {A B : Type 0} (db : Db) (m : Result (A × Db)) (g : A → B)
    → Still db m
    → Still db (m >>= λ r. ok (g r.0, r.1))
unfolding Still
Still-map db (ok (a, db')) g h = h
Still-map db (err e) g h = tt

run_write-Still :
    (lease : Lease) (w : Write) (clock : Clock) (db : Db)
    → locked_active_job lease clock.read_at db ≡ none
    → Still db (run_write lease w clock db)
unfolding run_write heartbeat set_total set_stage claim_item complete_item reconcile_item fail_item
    finish_job
run_write-Still lease (beat n) clock db l =
    Still-map db _ _ (Still-check db (count n 1 3600) _ (Still-lost lease clock _ _ db l))
run_write-Still lease (total n) clock db l =
    Still-map db _ _ (Still-check db (count n 0 1000000) _ (Still-lost lease clock _ _ db l))
run_write-Still lease (stage s) clock db l =
    Still-map db _ _ (Still-check db (require _ contract) _ (Still-lost lease clock _ _ db l))
run_write-Still lease (claim key n) clock db l = Still-map db _ _ (
    Still-check db (hash key) _ (Still-check db (count n 1 10) _ (Still-lost lease clock _ _ db l)))
run_write-Still lease (complete key ref) clock db l = Still-map db _ _ (
    Still-check db (hash key) _
      (Still-check db (result_ref ref) _ (Still-lost lease clock _ _ db l)))
run_write-Still lease (reconcile key ref) clock db l = Still-map db _ _ (
    Still-check db (hash key) _
      (Still-check db (result_ref ref) _ (Still-lost lease clock _ _ db l)))
run_write-Still lease (fail key code again) clock db l = Still-map db _ _ (
    Still-check db (hash key) _
      (Still-check db (error_code code) _ (Still-lost lease clock _ _ db l)))
run_write-Still lease (finish s code) clock db l = Still-map db _ _ (
    Still-check db (require (is_terminal s) contract) _
      (Still-check db (error_code code) _ (Still-lost lease clock _ _ db l)))

Still-after :
    (r : Result (Unit {0} × Db)) (db : Db) → Still db r → elim r [ ok s ↦ s.1 | err e ↦ db ] ≡ db
unfolding Still
Still-after (ok s) db h = h
Still-after (err e) db h = refl

-- A worker whose lease does not hold when the job's row is locked (the job is gone, not running, of
-- another worker or epoch, or the lease has expired) changes nothing: after each of the eight writes
-- under a lease, the tables are as they were.
pub lost_lease_writes_nothing :
    (lease : Lease) (w : Write) (clock : Clock) (db : Db)
    → locked_active_job lease clock.read_at db ≡ none
    → after (write lease w) clock db ≡ db
unfolding after run
lost_lease_writes_nothing lease w clock db lost =
    Still-after (run_write lease w clock db) db (run_write-Still lease w clock db lost)

module _ (worker : String) (n most : ℕ) (clock : Clock) (j : Job) (db db' : Db)
    (r : JobRecord) where
  exhausted_none :
      is_terminal j.status ≡ false
      → is_held clock.read_at j ≡ false
      → leb most j.claim_count ≡ true
      → claim_row worker n most clock j db ≡ ok (some r, db')
      → ⊥
  unfolding claim_row update_job
  exhausted_none live free over h = elim (Bool-cases (job_ok (exhausted clock j))) [
    | inl fits ↦ let z = rw (live, free, over, fits) at h in cc
    | inr bad ↦ let z = rw (live, free, over, bad) at h in cc
  ]

  leased_row :
      find_job j.job_id db.jobs ≡ some j
      → is_terminal j.status ≡ false
      → is_held clock.read_at j ≡ false
      → leb most j.claim_count ≡ false
      → claim_row worker n most clock j db ≡ ok (some r, db')
      → find_job j.job_id db'.jobs ≡ some (leased worker n clock j)
  unfolding claim_row update_job leased
  leased_row e live free under h = elim (Bool-cases (job_ok (leased worker n clock j))) [
    | inl fits ↦
        let z = rw (live, free, under, fits) at h in
        ground (arith, find-set_job j.job_id (leased worker n clock j) db.jobs, eq_refl j.job_id)
    | inr bad ↦ absurd (let z = rw (live, free, under, bad) at h in cc)
  ]

claim_row-ok :
    (worker : String) (n most : ℕ) (clock : Clock) (j : Job) (db db' : Db) (r : JobRecord)
    → find_job j.job_id db.jobs ≡ some j
    → claim_row worker n most clock j db ≡ ok (some r, db')
    → (is_terminal j.status ≡ false)
      × (is_held clock.read_at j ≡ false)
      × (j.claim_count < most)
      × (find_job j.job_id db'.jobs ≡ some (leased worker n clock j))
unfolding claim_row update_job leased exhausted
claim_row-ok worker n most clock j db db' r e h = elim (Bool-cases (is_terminal j.status)) [
  | inl ended ↦ absurd (ground arith)
  | inr live ↦ elim (Bool-cases (is_held clock.read_at j)) [
    | inl held ↦ absurd (ground arith)
    | inr free ↦ elim (Bool-cases (leb most j.claim_count)) [
      | inl over ↦ absurd (exhausted_none worker n most clock j db db' r live free over h)
      | inr under ↦
          (live, free, ground arith, leased_row worker n most clock j db db' r e live free under h)
    ]
  ]
]

-- What a claim that returns a job has done.
abbrev pub TakesOver : String → String → ℕ → ℕ → Clock → Db → Db → Type 0
TakesOver id worker n most clock db db' =
    (j : Job) × (j' : Job) × (find_job id db.jobs ≡ some j)
    × (is_terminal j.status ≡ false)
    × (is_held clock.read_at j ≡ false)
    × (j.claim_count < most)
    × (find_job id db'.jobs ≡ some j')
    × (j'.lease_epoch ≡ j.lease_epoch + 1)
    × (j'.claim_count ≡ j.claim_count + 1)
    × ((at : ℕ)
        → at < clock.write_at + seconds n
        → is_active (record { job_id = id; worker_id = worker; epoch = j'.lease_epoch }) at j'
          ≡ true)

-- A claim that returns a job took it over from nobody who still held it: the job was not terminal,
-- no lease on it was valid, and its claims were below the limit; afterwards the next lease epoch is
-- the worker's, one more claim is counted, and the lease is active at any time before
-- `write_at` + `lease_seconds`.
pub claim_job-TakesOver :
    (id worker : String) (n most : ℕ) (clock : Clock) (db db' : Db) (r : JobRecord)
    → claim_job id worker n most clock db ≡ ok (some r, db')
    → TakesOver id worker n most clock db db'
unfolding claim_job leased is_active
claim_job-TakesOver id worker n most clock db db' r h =
    let (_, h1) = >>-eq-ok (required_string worker 128) _ h in
    let (_, h2) = >>-eq-ok (count n 1 3600) _ h1 in
    let (_, h3) = >>-eq-ok (count most 1 100) _ h2 in
    elim (Option-cases (find_job id db.jobs)) [
      | inl e ↦ absurd (ground (arith))
      | inr (j, e) ↦
          let same = find_job-id id db.jobs j e in
          let (live, free, room, found) =
            claim_row-ok worker n most clock j db db' r (find_job_self id db.jobs j e)
              (ground arith) in
          (
            j,
            leased worker n clock j,
            e,
            live,
            free,
            room,
            ground arith,
            refl,
            refl,
            λ at before. ground (arith, eq_refl worker),
          )
    ]

finish_allowed-succeeded :
    (j : Job)
    → require (finish_allowed Status.succeeded j) conflict ≡ ok tt
    → (j.cancel_requested ≡ false) × (j.completed ≡ j.total)
unfolding finish_allowed
finish_allowed-succeeded j h = ground arith

-- In a valid state, a job that `finish_job` ends as succeeded has every item of it succeeded, as
-- many as its total, and nobody asked to cancel it.
pub finish_succeeded_complete :
    (lease : Lease) (code : Option String) (clock : Clock) (db db' : Db) (r : JobRecord)
    → IsValid db
    → finish_job lease Status.succeeded code clock db ≡ ok (some r, db')
    → (j : Job) × (find_job lease.job_id db.jobs ≡ some j)
      × (j.cancel_requested ≡ false)
      × (count_items is_succeeded lease.job_id db.items ≡ j.total)
      × (count_items any_status lease.job_id db.items ≡ j.total)
unfolding finish_job
finish_succeeded_complete lease code clock db db' r v h =
    let (_, h1) = >>-eq-ok (error_code code) _ h in
    elim (locked-cases lease clock.read_at db) [
      | inl lost ↦
          absurd (let z = sym (under_lease_lost lease clock none _ db lost) ∙ h1 in ground arith)
      | inr (j, e, a, found) ↦
          let (fits, _) =
            >>-eq-ok (require (finish_allowed Status.succeeded j) conflict) _
              (sym (under_lease_held lease clock none _ db j found) ∙ h1) in
          let (asked, all_done) = finish_allowed-succeeded j fits in
          let old = v.jobs lease.job_id j e in
          (
            j,
            e,
            asked,
            ground (arith, find_job-id lease.job_id db.jobs j e, old),
            ground (
              arith,
              find_job-id lease.job_id db.jobs j e,
              old,
              count_items-le_all is_succeeded is_failed lease.job_id db.items exclusive,
            ),
          )
    ]
