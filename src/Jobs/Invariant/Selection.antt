-- ===== src/Jobs/Invariant/Selection.antt =====
-- The rows that requeue_expired_jobs selects: rows of the table that pass its test, no job twice.
use legal_rag_agent.Prelude.{
  ℕ, zero, suc, ◌≡◌, refl, Bool, true, false, ◌||◌, some, List, [], ◌∷◌, Each, Each-imp, any, take,
  String, arith, eq_iff, eq_refl, Bool-cases, inl, inr,
}
use legal_rag_agent.Jobs.Tables.{Job, find_job}
use legal_rag_agent.Jobs.Tables.Laws.{DistinctJobs, has_id, find_job-any}
use legal_rag_agent.Jobs.Store.Requeue.{place_job, lost_jobs, earlier}

place_job-Each :
    (P : Job → Type 0) (j : Job) (js : List Job) → P j → Each P js → Each P (place_job j js)
unfolding place_job
place_job-Each P j [] h hs = (h, tt)
place_job-Each P j (k ∷ js) h hs = elim (Bool-cases (earlier j k)) [
  | inl first ↦ rw first (h, hs)
  | inr later ↦ rw later (hs.0, place_job-Each P j js h hs.1)
]

pub lost_jobs-Each :
    (P : Job → Type 0) (p : Job → Bool) (js : List Job)
    → Each P js
    → Each (λ j. P j × (p j ≡ true)) (lost_jobs p js)
unfolding lost_jobs
lost_jobs-Each P p [] hs = tt
lost_jobs-Each P p (j ∷ js) hs = elim (Bool-cases (p j)) [
  | inl passes ↦ rw passes (
      place_job-Each (λ k. P k × (p k ≡ true)) j (lost_jobs p js) (hs.0, passes)
        (lost_jobs-Each P p js hs.1))
  | inr fails ↦ rw fails (lost_jobs-Each P p js hs.1)
]

any-place_job :
    (id : String) (j : Job) (js : List Job)
    → any (has_id id) (place_job j js) ≡ (has_id id j || any (has_id id) js)
unfolding place_job
any-place_job id j [] = refl
any-place_job id j (k ∷ js) = ground (arith, any-place_job id j js)

any-lost_jobs :
    (id : String) (p : Job → Bool) (js : List Job)
    → any (has_id id) js ≡ false
    → any (has_id id) (lost_jobs p js) ≡ false
unfolding lost_jobs
any-lost_jobs id p [] h = refl
any-lost_jobs id p (j ∷ js) h =
    ground (arith, any-place_job id j (lost_jobs p js), any-lost_jobs id p js)

place_job-DistinctJobs :
    (j : Job) (js : List Job)
    → any (has_id j.job_id) js ≡ false
    → DistinctJobs js
    → DistinctJobs (place_job j js)
unfolding place_job
place_job-DistinctJobs j [] h d = (refl, tt)
place_job-DistinctJobs j (k ∷ js) h d = elim (Bool-cases (earlier j k)) [
  | inl first ↦ rw first (h, d)
  | inr later ↦ rw later (
    ground (
      arith,
      any-place_job k.job_id j js,
      d.0,
      eq_iff k.job_id j.job_id,
      eq_iff j.job_id k.job_id,
    ),
    place_job-DistinctJobs j js (ground arith) d.1,
  )
]

pub lost_jobs-DistinctJobs :
    (p : Job → Bool) (js : List Job) → DistinctJobs js → DistinctJobs (lost_jobs p js)
unfolding lost_jobs
lost_jobs-DistinctJobs p [] d = tt
lost_jobs-DistinctJobs p (j ∷ js) d = elim (Bool-cases (p j)) [
  | inl passes ↦ rw passes (
      place_job-DistinctJobs j (lost_jobs p js) (any-lost_jobs j.job_id p js d.0)
        (lost_jobs-DistinctJobs p js d.1))
  | inr fails ↦ rw fails (lost_jobs-DistinctJobs p js d.1)
]

pub take-DistinctJobs : (n : ℕ) (js : List Job) → DistinctJobs js → DistinctJobs (take n js)
take-DistinctJobs zero js d = tt
take-DistinctJobs (suc n) [] d = tt
take-DistinctJobs (suc n) (j ∷ js) d = (any-take j.job_id n js d.0, take-DistinctJobs n js d.1)
  where
    any-take :
        (id : String) (n : ℕ) (js : List Job)
        → any (has_id id) js ≡ false
        → any (has_id id) (take n js) ≡ false
    any-take id zero js h = refl
    any-take id (suc n) [] h = refl
    any-take id (suc n) (j ∷ js) h = ground (arith, any-take id n js)

-- With no job twice, each row of the table is the row that its ID finds.
pub table_found : (js : List Job) → DistinctJobs js → Each (λ j. find_job j.job_id js ≡ some j) js
unfolding find_job
table_found [] d = tt
table_found (j ∷ js) d = (
  rw eq_refl refl,
  Each-imp (λ k. find_job k.job_id js ≡ some k) (λ k. find_job k.job_id (j ∷ js) ≡ some k)
      (λ k e. ground (arith, find_job-any k.job_id js, d.0, eq_iff j.job_id k.job_id)) js
      (table_found js d.1),
)
