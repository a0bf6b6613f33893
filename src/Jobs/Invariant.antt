-- ===== src/Jobs/Invariant.antt =====
-- What holds of the job tables between two transactions.
pub mod Rows
pub mod Rules
pub mod Progress
pub mod Items
pub mod Activation
pub mod Requeue
pub mod Selection
pub mod Delivery
pub mod Create
pub mod Methods
use legal_rag_agent.Prelude.{
  ℕ, ◌+◌, ◌≤◌, ◌<◌, ◌≡◌, refl, sym, ◌∙◌, Bool, true, false, ◌&&◌, Option, none, some, List, [], ◌∷◌,
  String, arith, eq_iff, eq_refl, ◌=t=◌, =t=→eq, is_some, Bool-cases, inl, inr, if◌then◌else◌,
}
use legal_rag_agent.Jobs.Result.{
  Result, ok, err, contract, conflict, value_error, integrity, callback,
}
use legal_rag_agent.Jobs.Tables.{
  is_running, is_succeeded, is_failed, any_status, is_pending, any_message, Job, Item, Outbox, Db,
  job_ok, item_ok, outbox_ok, find_job, set_job, at_key, find_item, set_item, count_items,
  find_outbox, count_outbox, update_job,
}
use legal_rag_agent.Jobs.Tables.Laws.{
  DistinctJobs, set_job-DistinctJobs, find_job-id, find-set_job, find_item-key, find-set_item,
  count-set_item_ne,
}
use legal_rag_agent.Jobs.Store.Progress.{index_of, stages}

-- A job's row keeps the table's constraints, counts its items, has room for them in its total, has
-- a lease epoch once it runs, and is in a stage of its kind.
pub record JobInv (items : List Item) (j : Job) : Type 0 where
  pub row : job_ok j ≡ true
  pub completed_counts : j.completed ≡ count_items is_succeeded j.job_id items
  pub failed_counts : j.failed ≡ count_items is_failed j.job_id items
  pub room : count_items any_status j.job_id items ≤ j.total
  pub leased : is_running j.status ≡ true → 0 < j.lease_epoch
  pub staged : is_some (index_of j.stage (stages j.kind)) ≡ true

pub record IsValid (db : Db) : Type 0 where
  pub jobs : (id : String) (j : Job) → find_job id db.jobs ≡ some j → JobInv db.items j
  pub distinct : DistinctJobs db.jobs
  pub items : (id key : String) (i : Item) → find_item id key db.items ≡ some i → item_ok i ≡ true
  pub no_orphan :
      (id : String) → find_job id db.jobs ≡ none → count_items any_status id db.items ≡ 0
  pub no_stray :
      (id : String) → find_job id db.jobs ≡ none → count_outbox any_message id db.outbox ≡ 0
  pub messages : (id : String) (o : Outbox) → find_outbox id db.outbox ≡ some o → outbox_ok o ≡ true
  pub one_pending : (id : String) → count_outbox is_pending id db.outbox ≤ 1

-- A transaction keeps the invariant, and if it raises, what it raises is an error of the contract:
-- neither the database nor `tuple.index` refuses anything.
abbrev pub Keeps {ℓ} : {A : Type ℓ} → Result (A × Db) → Type 0
Keeps (ok (a, db)) = IsValid db
Keeps (err contract) = Unit
Keeps (err conflict) = Unit
Keeps (err callback) = Unit
Keeps (err value_error) = ⊥
Keeps (err integrity) = ⊥

-- The invariant speaks of the jobs' table through lookups only.
abbrev pub SameJobs : List Job → List Job → Job → Type 0
SameJobs js' js j' =
    (id : String) → find_job id js' ≡ (if j'.job_id =t= id then some j' else find_job id js)

pub SameJobs-set :
    (j' j : Job) (js : List Job) → find_job j'.job_id js ≡ some j → SameJobs (set_job j' js) js j'
SameJobs-set j' j js h id = find-set_job id j' js ∙ ground (arith, eq_iff j'.job_id id)

pub SameJobs-self : (j : Job) (js : List Job) → find_job j.job_id js ≡ some j → SameJobs js js j
SameJobs-self j js h id = ground (arith, eq_iff j.job_id id)

-- A job's row replaced, the items as they were.
pub update_job-IsValid :
    {db : Db} (j j' : Job)
    → IsValid db
    → find_job j'.job_id db.jobs ≡ some j
    → JobInv db.items j'
    → (update_job j' db ≡ ok (record db { jobs = set_job j' db.jobs }))
      × IsValid (record db { jobs = set_job j' db.jobs })
unfolding update_job
update_job-IsValid {db} j j' v h new = (
  rw (new.row),
  record {
    jobs =
        λ id k e. ground (arith, eq_iff j'.job_id id, SameJobs-set j' j db.jobs h id, v.jobs id k);
    distinct = set_job-DistinctJobs j' db.jobs v.distinct;
    items = v.items;
    no_orphan =
        λ id e. ground (arith, eq_iff j'.job_id id, SameJobs-set j' j db.jobs h id, v.no_orphan id);
    no_stray =
        λ id e. ground (arith, eq_iff j'.job_id id, SameJobs-set j' j db.jobs h id, v.no_stray id);
    messages = v.messages;
    one_pending = v.one_pending;
  },
)
