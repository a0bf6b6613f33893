-- ===== src/Jobs/Invariant/Rows.antt =====
-- The invariant under a write of one item and of its job's row.
use legal_rag_agent.Prelude.{
  ◌≡◌, sym, ◌∙◌, Bool, true, false, some, List, ◌∷◌, String, arith, ◌=t=◌, Bool-cases, inl, inr,
}
use legal_rag_agent.Jobs.Tables.{
  ItemStatus, is_succeeded, is_failed, any_status, Job, Item, Db, item_ok, find_job, find_item,
  set_item, count_items,
}
use legal_rag_agent.Jobs.Tables.Laws.{DistinctJobs, find_job-id, find-set_item, count-set_item_ne}
use legal_rag_agent.Jobs.Invariant.{JobInv, IsValid, SameJobs}

-- A job whose counts are the same in other items.
JobInv-recount :
    {items : List Item} (items' : List Item) (k : Job)
    → ((p : ItemStatus → Bool) → count_items p k.job_id items' ≡ count_items p k.job_id items)
    → JobInv items k
    → JobInv items' k
JobInv-recount items' k same v = record {
  row = v.row;
  completed_counts = v.completed_counts ∙ sym (same is_succeeded);
  failed_counts = v.failed_counts ∙ sym (same is_failed);
  room = omega (arith, same any_status, v.room);
  leased = v.leased;
  staged = v.staged;
}

-- The items of one job change: what is left to show is the invariant of its new row.
module _ {db : Db} (js' : List Job) (j' : Job) (is' : List Item) (v : IsValid db)
    (jobs : SameJobs js' db.jobs j') (new : JobInv is' j')
    (others : (p : ItemStatus → Bool) (id : String)
      → (j'.job_id =t= id) ≡ false
      → count_items p id is' ≡ count_items p id db.items)
    (keyed : DistinctJobs js')
    (rows : (id key : String) (i : Item) → find_item id key is' ≡ some i → item_ok i ≡ true) where
  job_after : (id : String) (k : Job) → find_job id js' ≡ some k → JobInv is' k
  job_after id k e = elim (Bool-cases (j'.job_id =t= id)) [
    | inl here ↦ let same : j' ≡ k = ground (arith, jobs id) in rw (← same) new
    | inr there ↦
        let old : find_job id db.jobs ≡ some k = ground (arith, jobs id) in
        let at_id : k.job_id ≡ id = find_job-id id db.jobs k old in
        JobInv-recount is' k (λ p. rw at_id (others p id there)) (v.jobs id k old)
  ]

  pub items_change-IsValid : IsValid (record db { jobs = js'; items = is' })
  items_change-IsValid = record {
    jobs = job_after;
    distinct = keyed;
    items = rows;
    no_orphan = λ id e. elim (Bool-cases (j'.job_id =t= id)) [
      | inl here ↦ ground (arith, jobs id)
      | inr there ↦ ground (arith, jobs id, others any_status id, v.no_orphan id)
    ];
    no_stray = λ id e. elim (Bool-cases (j'.job_id =t= id)) [
      | inl here ↦ ground (arith, jobs id)
      | inr there ↦ ground (arith, jobs id, v.no_stray id)
    ];
    messages = v.messages;
    one_pending = v.one_pending;
  }

-- An item's row replaced.
pub set_item-IsValid :
    {db : Db} (js' : List Job) (j' : Job) (i i' : Item)
    → IsValid db
    → SameJobs js' db.jobs j'
    → DistinctJobs js'
    → j'.job_id ≡ i'.job_id
    → item_ok i' ≡ true
    → JobInv (set_item i' db.items) j'
    → IsValid (record db { jobs = js'; items = set_item i' db.items })
set_item-IsValid {db} js' j' i i' v jobs keyed same fits new =
    items_change-IsValid js' j' (set_item i' db.items) v jobs new
      (λ p id ne. count-set_item_ne p id i' db.items (rw same at ne)) keyed
      (λ id key k e. ground (arith, find-set_item id key i' db.items, v.items id key k))

-- A new item.
pub insert_item-IsValid :
    {db : Db} (js' : List Job) (j' : Job) (i' : Item)
    → IsValid db
    → SameJobs js' db.jobs j'
    → DistinctJobs js'
    → j'.job_id ≡ i'.job_id
    → item_ok i' ≡ true
    → JobInv (i' ∷ db.items) j'
    → IsValid (record db { jobs = js'; items = i' ∷ db.items })
insert_item-IsValid {db} js' j' i' v jobs keyed same fits new =
    items_change-IsValid js' j' (i' ∷ db.items) v jobs new
      (λ p id ne. unfold count_items in ground arith) keyed
      (λ id key k e. unfold find_item in ground (arith, v.items id key k))
