-- ===== src/Jobs/Rounds.antt =====
-- JobStore.requeue_expired_jobs of legal_rag/jobs/store.py: how many messages it sends, and for whom.
use mathlib.Core.Path.{subst}
use legal_rag_agent.Prelude.{
  ℕ, ◌+◌, ◌<◌, ◌≡◌, refl, sym, ap, ◌∙◌, Bool, true, false, some, List, [], ◌∷◌, String, Each,
  Each-imp, Each-take, take, any, arith, leb, ◌=t=◌, eq_iff, Bool-cases, Option-cases, inl, inr,
  ◌⊎◌,
}
use legal_rag_agent.Jobs.Result.{ok, >>=-eq-ok, >>-eq-ok, require, contract}
use legal_rag_agent.Jobs.Validate.{count}
use legal_rag_agent.Jobs.Tables.{
  Job, Outbox, Db, any_message, find_job, count_outbox, update_job, insert_outbox,
}
use legal_rag_agent.Jobs.Tables.Laws.{find_job-id, DistinctJobs, has_id}
use legal_rag_agent.Jobs.Store.{Clock}
use legal_rag_agent.Jobs.Store.Create.{new_outbox}
use legal_rag_agent.Jobs.Store.Requeue.{
  unconfirmed, requeue_row, requeue_one, requeue_rows, selected, is_lost, lost_jobs,
  requeue_expired_jobs,
}
use legal_rag_agent.Jobs.Methods.{Reach}
use legal_rag_agent.Jobs.Methods.Safety.{Reach-IsValid}
use legal_rag_agent.Jobs.Invariant.Selection.{
  lost_jobs-Each, lost_jobs-DistinctJobs, take-DistinctJobs, table_found,
}
use legal_rag_agent.Jobs.Redelivery.{requeue_one_bound, update_job-outbox}

insert_outbox-other :
    (outbox_id id other : String) (clock : Clock) (db db' : Db)
    → (id =t= other) ≡ false
    → insert_outbox (new_outbox outbox_id id clock) db ≡ ok db'
    → count_outbox any_message other db'.outbox ≡ count_outbox any_message other db.outbox
unfolding insert_outbox count_outbox
insert_outbox-other outbox_id id other clock db db' apart h = ground (arith, apart)

module _ (issued most : ℕ) (outbox_id id other : String) (clock : Clock) (db db' : Db) (sent : Bool)
    (apart : (id =t= other) ≡ false) where
  requeue_row_other :
      (j : Job)
      → j.job_id ≡ id
      → requeue_row issued most outbox_id clock j db ≡ ok (sent, db')
      → count_outbox any_message other db'.outbox ≡ count_outbox any_message other db.outbox
  unfolding requeue_row
  requeue_row_other j same h = elim (Bool-cases (leb most issued)) [
    | inl over ↦
        let (tables, h1, h2) = >>=-eq-ok (update_job (unconfirmed clock j) db) _ (rw over at h) in
        ground (arith, update_job-outbox (unconfirmed clock j) db tables h1)
    | inr under ↦
        let j' : Job = record j {
          recovery_queued_at = some clock.write_at;
          updated_at = clock.write_at;
        } in
        let (tables, h1, h2) = >>=-eq-ok (update_job j' db) _ (rw under at h) in
        let (last, h3, h4) =
          >>=-eq-ok (insert_outbox (new_outbox outbox_id j.job_id clock) tables) _ h2 in
        let apart' : (j.job_id =t= other) ≡ false = ap (λ i. i =t= other) same ∙ apart in
        ground (
          arith,
          update_job-outbox j' db tables h1,
          insert_outbox-other outbox_id j.job_id other clock tables last apart' h3,
        )
  ]

  requeue_one_other :
      requeue_one issued most outbox_id clock id db ≡ ok (sent, db')
      → count_outbox any_message other db'.outbox ≡ count_outbox any_message other db.outbox
  unfolding requeue_one
  requeue_one_other h = elim (Option-cases (find_job id db.jobs)) [
    | inl e ↦ let z = rw (e, requeue_one) at h in ground arith
    | inr (j, e) ↦ requeue_row_other j (find_job-id id db.jobs j e) (rw (e, requeue_one) at h)
  ]

-- The other rows have other jobs.
abbrev Apart : String → List (String × ℕ) → Type 0
Apart id rows = Each (λ r. (r.0 =t= id) ≡ false) rows

-- Rows of different jobs with a property, each with its number of messages.
abbrev Chosen : (String → Type 0) → Db → List (String × ℕ) → Type 0
Chosen P db [] = Unit
Chosen P db (r ∷ rows) =
    (r.1 ≡ count_outbox any_message r.0 db.outbox) × P r.0 × Apart r.0 rows × Chosen P db rows

-- The number of a job's messages stays, or it is one more and was below the bound.
abbrev pub Within : (String → Type 0) → ℕ → String → Db → Db → Type 0
Within P most id db db' =
    (count_outbox any_message id db'.outbox ≡ count_outbox any_message id db.outbox)
    ⊎ ((count_outbox any_message id db'.outbox ≡ count_outbox any_message id db.outbox + 1)
        × (count_outbox any_message id db.outbox < most)
        × P id)

flip : (a b : String) → (a =t= b) ≡ false → (b =t= a) ≡ false
flip a b h = ground (arith, h, eq_iff a b, eq_iff b a)

module _ (most : ℕ) (new_id : String → String) (clock : Clock) (P : String → Type 0) where
  Chosen-round :
      (id : String) (issued : ℕ) (db db' : Db) (sent : Bool) (rows : List (String × ℕ))
      → requeue_one issued most (new_id id) clock id db ≡ ok (sent, db')
      → Apart id rows
      → Chosen P db rows
      → Chosen P db' rows
  Chosen-round id issued db db' sent [] h apart c = tt
  Chosen-round id issued db db' sent (r ∷ rows) h (here, there) (count_is, p, others, c) = (
    count_is
        ∙ sym (
            requeue_one_other issued most (new_id id) id r.0 clock db db' sent (flip r.0 id here)
              h),
    p,
    others,
    Chosen-round id issued db db' sent rows h there c,
  )

  requeue_rows_other :
      (id : String) (rows : List (String × ℕ)) (db db' : Db) (sent : List String)
      → Apart id rows
      → requeue_rows most new_id clock rows db ≡ ok (sent, db')
      → count_outbox any_message id db'.outbox ≡ count_outbox any_message id db.outbox
  unfolding requeue_rows
  requeue_rows_other id [] db db' sent apart h = ground arith
  requeue_rows_other id ((k, issued) ∷ rows) db db' sent (here, there) h =
      let ((one, mid), h1, h2) = >>=-eq-ok (requeue_one issued most (new_id k) clock k db) _ h in
      let ((rest, last), h3, h4) = >>=-eq-ok (requeue_rows most new_id clock rows mid) _ h2 in
      let same : last ≡ db' = cc in
      ap (λ (d : Db). count_outbox any_message id d.outbox) (sym same)
      ∙ requeue_rows_other id rows mid last rest there h3
      ∙ requeue_one_other issued most (new_id k) k id clock db mid one here h1

  requeue_rows_bound :
      (id : String) (rows : List (String × ℕ)) (db db' : Db) (sent : List String)
      → Chosen P db rows
      → requeue_rows most new_id clock rows db ≡ ok (sent, db')
      → Within P most id db db'
  unfolding requeue_rows
  requeue_rows_bound id [] db db' sent chosen h = inl (ground arith)
  requeue_rows_bound id ((k, issued) ∷ rows) db db' sent (count_is, p, apart, chosen) h =
      let ((one, mid), h1, h2) = >>=-eq-ok (requeue_one issued most (new_id k) clock k db) _ h in
      let ((rest, last), h3, h4) = >>=-eq-ok (requeue_rows most new_id clock rows mid) _ h2 in
      let same : last ≡ db' = cc in
      subst (λ (d : Db). Within P most id db d) same
        (elim (Bool-cases (k =t= id)) [
          | inl here ↦
              let at : k ≡ id = ground (arith, here, eq_iff k id) in
              let others = requeue_rows_other k rows mid last rest apart h3 in
              let (grown, below) =
                requeue_one_bound most (new_id k) k clock db mid one
                  (ap (λ n. requeue_one n most (new_id k) clock k db) (sym count_is) ∙ h1) in
              subst (λ i. Within P most i db last) at
                (elim (Bool-cases one) [
                  | inl goes ↦ inr (ground (arith, grown, others, goes), below goes, p)
                  | inr stays ↦ inl (ground (arith, grown, others, stays))
                ])
          | inr there ↦
              let unchanged =
                requeue_one_other issued most (new_id k) k id clock db mid one there h1 in
              elim (requeue_rows_bound id rows mid last rest
                (Chosen-round k issued db mid one rows h1 apart chosen) h3) [
                  | inl stays ↦ inl (stays ∙ unchanged)
                  | inr (goes, below, q) ↦
                      inr (ground (arith, goes, unchanged), ground (arith, below, unchanged), q)
                ]
        ])

selected-Apart :
    (os : List Outbox) (id : String) (js : List Job)
    → any (has_id id) js ≡ false
    → Apart id (selected os js)
selected-Apart os id [] h = tt
selected-Apart os id (j ∷ js) h = (ground arith, selected-Apart os id js (ground arith))

selected-Chosen :
    (P : String → Type 0) (db : Db) (js : List Job)
    → DistinctJobs js
    → Each (λ j. P j.job_id) js
    → Chosen P db (selected db.outbox js)
selected-Chosen P db [] d h = tt
selected-Chosen P db (j ∷ js) d h =
    (refl, h.0, selected-Apart db.outbox j.job_id js d.0, selected-Chosen P db js d.1 h.1)

-- A stored job that the SELECT takes for lost.
abbrev pub Lost : (String → Bool) → ℕ → ℕ → Clock → Db → String → Type 0
Lost busy least most clock db id =
    (j : Job) × (find_job id db.jobs ≡ some j)
    × (is_lost busy least most clock.read_at db.outbox j ≡ true)

-- A call of `requeue_expired_jobs` in a reachable state leaves each job with as many messages as it
-- had, or with one more; and one more only if the job has fewer messages than max_auto_deliveries
-- and its row passes the WHERE of the SELECT: it is queued or its lease has expired, the pause since
-- its last delivery is over (or it was running and is recovered for the first time), and nothing of
-- it is pending. So automatic redelivery never takes a job from within the bound to beyond it.
pub requeue_expired_jobs_bound :
    (busy : String → Bool) (new_id : String → String) (limit least most bound : ℕ) (clock : Clock)
    (db db' : Db) (sent : List String) (id : String)
    → Reach db
    → requeue_expired_jobs busy new_id limit least most bound clock db ≡ ok (sent, db')
    → Within (Lost busy least most clock db) bound id db db'
unfolding requeue_expired_jobs
requeue_expired_jobs_bound busy new_id limit least most bound clock db db' sent id r h =
    let v = Reach-IsValid r in
    let lost = is_lost busy least most clock.read_at db.outbox in
    let chosen = take limit (lost_jobs lost db.jobs) in
    let stored = λ (j : Job). (find_job j.job_id db.jobs ≡ some j) × (lost j ≡ true) in
    let (_, h1) = >>-eq-ok (count limit 1 1000) _ h in
    let (_, h2) = >>-eq-ok (count least 1 3600) _ h1 in
    let (_, h3) = >>-eq-ok (count most 1 86400) _ h2 in
    let (_, h4) = >>-eq-ok (count bound 1 100) _ h3 in
    let (_, h5) = >>-eq-ok (require (leb least most) contract) _ h4 in
    requeue_rows_bound bound new_id clock (Lost busy least most clock db) id
      (selected db.outbox chosen) db db' sent
      (selected-Chosen (Lost busy least most clock db) db chosen
        (take-DistinctJobs limit (lost_jobs lost db.jobs)
          (lost_jobs-DistinctJobs lost db.jobs v.distinct))
        (Each-imp stored (λ j. Lost busy least most clock db j.job_id) (λ j e. (j, e.0, e.1)) chosen
          (Each-take stored limit (lost_jobs lost db.jobs) (
            lost_jobs-Each (λ j. find_job j.job_id db.jobs ≡ some j) lost db.jobs
              (table_found db.jobs v.distinct)))))
      h5
