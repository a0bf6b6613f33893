-- ===== src/Jobs/Invariant/Requeue.antt =====
-- requeue_expired_jobs keeps the invariant: no round meets the unique index of pending messages.
use legal_rag_agent.Prelude.{
  ℕ, ◌≡◌, Bool, true, false, none, some, List, [], ◌∷◌, Each, Each-take, Each-imp, any, take,
  String, arith, leb, ◌=t=◌, eq_iff, eq_refl, Bool-cases, Option-cases, inl, inr,
}
use legal_rag_agent.Jobs.Result.{ok, contract, require}
use legal_rag_agent.Jobs.Tables.{
  Job, Outbox, Db, is_pending, any_message, job_ok, find_job, set_job, find_outbox, count_outbox,
}
use legal_rag_agent.Jobs.Tables.Laws.{
  DistinctJobs, has_id, find_job_self, find-set_job, find_job-id,
}
use legal_rag_agent.Jobs.Validate.{count}
use legal_rag_agent.Jobs.Store.{Clock}
use legal_rag_agent.Jobs.Store.Create.{new_outbox}
use legal_rag_agent.Jobs.Store.Delivery.{job_is_live}
use legal_rag_agent.Jobs.Store.Requeue.{
  is_lost, lost_jobs, unconfirmed, requeue_row, requeue_one, requeue_rows, selected,
  requeue_expired_jobs,
}
use legal_rag_agent.Jobs.Invariant.{IsValid, Keeps, update_job-IsValid}
use legal_rag_agent.Jobs.Invariant.Selection.{
  lost_jobs-Each, lost_jobs-DistinctJobs, take-DistinctJobs, table_found,
}
use legal_rag_agent.Jobs.Invariant.Create.{insert_outbox-IsValid}
use legal_rag_agent.Jobs.History.{
  Grows, Grows-refl, Grows-trans, Grows-set_job, Grows-insert_outbox,
}
use legal_rag_agent.Jobs.History.Rules.{Steps, Steps-check, Steps-map}
use legal_rag_agent.Jobs.History.Methods.{write-JobGrows}
use legal_rag_agent.Jobs.Invariant.Rules.{require-IsCheck, count-IsCheck, Keeps-check, Keeps-map}

-- The other rows have other jobs.
abbrev Apart : String → List (String × ℕ) → Type 0
Apart id rows = Each (λ r. (r.0 =t= id) ≡ false) rows

-- A selected row's job is there and has nothing pending, and its message's ID is fresh.
module _ (new_id : String → String) (injective : (a b : String) → new_id a ≡ new_id b → a ≡ b) where
  abbrev Idle : Db → String × ℕ → Type 0
  Idle db r =
      (job_is_live r.0 db ≡ true)
      × (count_outbox is_pending r.0 db.outbox ≡ 0)
      × (find_outbox (new_id r.0) db.outbox ≡ none)

  abbrev Ready : Db → List (String × ℕ) → Type 0
  Ready db [] = Unit
  Ready db (r ∷ rows) = Idle db r × Apart r.0 rows × Ready db rows

  Ready-imp :
      (id : String) (db db' : Db) (rows : List (String × ℕ))
      → ((r : String × ℕ) → (r.0 =t= id) ≡ false → Idle db r → Idle db' r)
      → Apart id rows
      → Ready db rows
      → Ready db' rows
  Ready-imp id db db' [] f apart ready = tt
  Ready-imp id db db' (r ∷ rows) f apart ready =
      (f r apart.0 ready.0, ready.1, Ready-imp id db db' rows f apart.1 ready.2)

  -- One round: what it returns, the invariant after it, and other rows as idle as before.
  abbrev Round : ℕ → ℕ → Clock → String → Db → Type 0
  Round issued most clock id db =
      (sent : Bool) × (db' : Db) × (requeue_one issued most (new_id id) clock id db
        ≡ ok (sent, db'))
      × IsValid db'
      × Grows db db'
      × ((r : String × ℕ) → (r.0 =t= id) ≡ false → Idle db r → Idle db' r)

  -- The bound is reached: the job waits with a warning.
  Round-stops :
      (issued most : ℕ) (clock : Clock) (id : String) (db : Db) (j : Job)
      → IsValid db
      → Idle db (id, issued)
      → find_job id db.jobs ≡ some j
      → leb most issued ≡ true
      → Round issued most clock id db
  unfolding requeue_one requeue_row
  Round-stops issued most clock id db j v idle e over =
      let self = find_job_self id db.jobs j e in
      let (done, after) =
        update_job-IsValid j (unconfirmed clock j) v self
          (unfold job_ok in ground (arith, v.jobs id j e)) in
      (
        false,
        record db { jobs = set_job (unconfirmed clock j) db.jobs },
        rw (e, requeue_one) (rw (over, done)),
        after,
        Grows-set_job j (unconfirmed clock j) db self (
            write-JobGrows j _ _ _ _ _ _ _ _ _ _ _ _ _ (ground (arith, idle.0)) (omega arith)
              (λ h. h)),
        λ r ne h. (
          ground (
            arith,
            find-set_job r.0 (unconfirmed clock j) db.jobs,
            find_job-id id db.jobs j e,
            eq_iff r.0 id,
            eq_iff id r.0,
          ),
          h.1,
          h.2,
        ),
      )

  -- A new message goes out.
  Round-sends :
      (issued most : ℕ) (clock : Clock) (id : String) (db : Db) (j : Job)
      → IsValid db
      → Idle db (id, issued)
      → find_job id db.jobs ≡ some j
      → leb most issued ≡ false
      → Round issued most clock id db
  unfolding requeue_one requeue_row
  Round-sends issued most clock id db j v idle e under =
      let self = find_job_self id db.jobs j e in
      let at_id = find_job-id id db.jobs j e in
      let j' : Job = record j {
        recovery_queued_at = some clock.write_at;
        updated_at = clock.write_at;
      } in
      let mid : Db = record db { jobs = set_job j' db.jobs } in
      let (done, after) =
        update_job-IsValid j j' v self (unfold job_ok in ground (arith, v.jobs id j e)) in
      let (sent, last) =
        insert_outbox-IsValid (new_id id) j' clock mid after idle.2
          (ground (arith, find-set_job j.job_id j' db.jobs, eq_refl j.job_id)) (rw at_id idle.1) in
      (
        true,
        record mid { outbox = new_outbox (new_id id) j.job_id clock ∷ db.outbox },
        rw (e, requeue_one) (rw (under, done, sent)),
        last,
        Grows-trans db mid _
            (Grows-set_job j j' db self (
              write-JobGrows j _ _ _ _ _ _ _ _ _ _ _ _ _ (ground (arith, idle.0)) (omega arith)
                (λ h. h)))
            (Grows-insert_outbox (new_outbox (new_id id) j.job_id clock) mid idle.2),
        λ r ne h. (
          ground (arith, find-set_job r.0 j' db.jobs, at_id, eq_iff r.0 id, eq_iff id r.0),
          unfold count_outbox in ground (arith, h.1, at_id, eq_iff r.0 id, eq_iff id r.0),
          unfold find_outbox in
              ground (arith, h.2, eq_iff (new_id id) (new_id r.0), injective id r.0, eq_iff r.0 id),
        ),
      )

  round :
      (issued most : ℕ) (clock : Clock) (id : String) (db : Db)
      → IsValid db
      → Idle db (id, issued)
      → Round issued most clock id db
  round issued most clock id db v idle = elim (Option-cases (find_job id db.jobs)) [
    | inl e ↦ absurd (ground (arith, idle.0))
    | inr (j, e) ↦ elim (Bool-cases (leb most issued)) [
      | inl over ↦ Round-stops issued most clock id db j v idle e over
      | inr under ↦ Round-sends issued most clock id db j v idle e under
    ]
  ]

  requeue_rows-Keeps :
      (most : ℕ) (clock : Clock) (rows : List (String × ℕ)) (start db : Db)
      → IsValid db
      → Grows start db
      → Ready db rows
      → Keeps (requeue_rows most new_id clock rows db)
        × Steps start (requeue_rows most new_id clock rows db)
  unfolding requeue_rows
  requeue_rows-Keeps most clock [] start db v g ready = (v, g)
  requeue_rows-Keeps most clock ((id, issued) ∷ rows) start db v g ready =
      let (sent, db', done, after, grows, others) = round issued most clock id db v ready.0 in
      let (kept, grown) =
        requeue_rows-Keeps most clock rows start db' after (Grows-trans start db db' g grows)
          (Ready-imp id db db' rows others ready.1 ready.2) in
      rw done (
        Keeps-map (requeue_rows most new_id clock rows db') _ kept,
        Steps-map start (requeue_rows most new_id clock rows db') _ grown,
      )

module _ (new_id : String → String) (injective : (a b : String) → new_id a ≡ new_id b → a ≡ b) where
  selected-Apart :
      (os : List Outbox) (id : String) (js : List Job)
      → any (has_id id) js ≡ false
      → Apart id (selected os js)
  selected-Apart os id [] h = tt
  selected-Apart os id (j ∷ js) h = (ground arith, selected-Apart os id js (ground arith))

  selected-Ready :
      (db : Db) (os : List Outbox) (js : List Job)
      → DistinctJobs js
      → Each (λ j. Idle new_id injective db (j.job_id, count_outbox any_message j.job_id os)) js
      → Ready new_id injective db (selected os js)
  selected-Ready db os [] d h = tt
  selected-Ready db os (j ∷ js) d h =
      (h.0, selected-Apart os j.job_id js d.0, selected-Ready db os js d.1 h.1)

  -- The rounds from a valid state: the invariant after them, and rows that only grew.
  selected-rows :
      (busy : String → Bool) (limit least most bound : ℕ) (clock : Clock) (db : Db)
      → IsValid db
      → ((id : String) → find_outbox (new_id id) db.outbox ≡ none)
      → let lost = is_lost busy least most clock.read_at db.outbox in
        let rows = selected db.outbox (take limit (lost_jobs lost db.jobs)) in
        Keeps (requeue_rows bound new_id clock rows db)
        × Steps db (requeue_rows bound new_id clock rows db)
  selected-rows busy limit least most bound clock db v fresh =
      let lost = is_lost busy least most clock.read_at db.outbox in
      let chosen = take limit (lost_jobs lost db.jobs) in
      let stored = λ (j : Job). (find_job j.job_id db.jobs ≡ some j) × (lost j ≡ true) in
      requeue_rows-Keeps new_id injective bound clock (selected db.outbox chosen) db db v
        (Grows-refl db)
        (selected-Ready db db.outbox chosen
          (take-DistinctJobs limit (lost_jobs lost db.jobs)
            (lost_jobs-DistinctJobs lost db.jobs v.distinct))
          (Each-imp stored
            (λ j. Idle new_id injective db (j.job_id, count_outbox any_message j.job_id db.outbox))
            (λ j h.
              unfold is_lost in (ground (arith, h.0, h.1), ground (arith, h.1), fresh j.job_id))
            chosen
            (Each-take stored limit (lost_jobs lost db.jobs) (
              lost_jobs-Each (λ j. find_job j.job_id db.jobs ≡ some j) lost db.jobs
                (table_found db.jobs v.distinct)))))

  module _ (busy : String → Bool) (limit least most bound : ℕ) (clock : Clock) (db : Db)
      (v : IsValid db) (fresh : (id : String) → find_outbox (new_id id) db.outbox ≡ none) where
    pub requeue_expired_jobs-Keeps :
        Keeps (requeue_expired_jobs busy new_id limit least most bound clock db)
    unfolding requeue_expired_jobs
    requeue_expired_jobs-Keeps = Keeps-check _ _ (count-IsCheck limit 1 1000) λ _.
        Keeps-check _ _ (count-IsCheck least 1 3600) λ _.
          Keeps-check _ _ (count-IsCheck most 1 86400) λ _.
            Keeps-check _ _ (count-IsCheck bound 1 100) λ _.
              Keeps-check _ _ (require-IsCheck (leb least most))
                λ _. (selected-rows busy limit least most bound clock db v fresh).0

    pub requeue_expired_jobs-Steps :
        Steps db (requeue_expired_jobs busy new_id limit least most bound clock db)
    unfolding requeue_expired_jobs
    requeue_expired_jobs-Steps = Steps-check db (count limit 1 1000) _ λ _.
        Steps-check db (count least 1 3600) _ λ _. Steps-check db (count most 1 86400) _ λ _.
          Steps-check db (count bound 1 100) _ λ _.
            Steps-check db (require (leb least most) contract) _
              λ _. (selected-rows busy limit least most bound clock db v fresh).1
