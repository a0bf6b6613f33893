-- ===== src/Jobs/Invariant/Items.antt =====
-- What the item methods share on the way to the invariant.
use legal_rag_agent.Prelude.{
  ℕ, ◌+◌, ◌≤◌, ◌<◌, ◌≡◌, ◌∙◌, true, false, none, some, ◌∷◌, String, arith, indicator, eq_refl,
}
use mathlib.Core.Path.{ap₂}
use legal_rag_agent.Jobs.Result.{ok, ◌>>=◌}
use legal_rag_agent.Jobs.Tables.{
  ItemStatus, is_succeeded, is_failed, any_status, Job, Item, Db, job_ok, item_ok, find_job,
  set_job, find_item, set_item, count_items, update_job, update_item, insert_item,
}
use legal_rag_agent.Jobs.Tables.Laws.{
  set_job-DistinctJobs, find_item-key, count-set_item, count_items-le_all,
}
use legal_rag_agent.Jobs.Store.{Clock, Lease, is_active}
use legal_rag_agent.Jobs.Invariant.{JobInv, IsValid, Keeps, SameJobs-set, SameJobs-self}
use legal_rag_agent.Jobs.Invariant.Rows.{set_item-IsValid, insert_item-IsValid}

pub exclusive : (s : ItemStatus) → indicator (is_succeeded s) + indicator (is_failed s) ≤ 1
exclusive s = ground arith

-- The job's row beside items that changed, where its counters move as the items' statuses do.
abbrev pub counted : Clock → ℕ → ℕ → Job → Job
counted clock c f j = record j { completed = c; failed = f; updated_at = clock.write_at }

set_item-JobInv :
    (clock : Clock) (c f : ℕ) (j : Job) (i i' : Item) (db : Db)
    → JobInv db.items j
    → find_item i'.job_id i'.item_key db.items ≡ some i
    → i'.job_id ≡ j.job_id
    → c + indicator (is_succeeded i.status) ≡ j.completed + indicator (is_succeeded i'.status)
    → f + indicator (is_failed i.status) ≡ j.failed + indicator (is_failed i'.status)
    → JobInv (set_item i' db.items) (counted clock c f j)
unfolding job_ok
set_item-JobInv clock c f j i i' db old found same succ fail = ground (
  arith,
  old,
  count-set_item is_succeeded i i' db.items found,
  count-set_item is_failed i i' db.items found,
  count-set_item any_status i i' db.items found,
  count_items-le_all is_succeeded is_failed j.job_id (set_item i' db.items) exclusive,
)

-- Both rows are written, and then an answer.
pub Keeps-both :
    {A : Type 0} (clock : Clock) (c f : ℕ) (j : Job) (i i' : Item) (db : Db) (answer : A)
    → IsValid db
    → find_job j.job_id db.jobs ≡ some j
    → find_item i'.job_id i'.item_key db.items ≡ some i
    → i'.job_id ≡ j.job_id
    → item_ok i' ≡ true
    → c + indicator (is_succeeded i.status) ≡ j.completed + indicator (is_succeeded i'.status)
    → f + indicator (is_failed i.status) ≡ j.failed + indicator (is_failed i'.status)
    → Keeps (
        update_item i' db >>= λ db'.
        update_job (counted clock c f j) db' >>= λ db''. ok (answer, db''))
unfolding update_item update_job
Keeps-both clock c f j i i' db answer v e found same fits succ fail =
    let new = set_item-JobInv clock c f j i i' db (v.jobs j.job_id j e) found same succ fail in
    rw (fits, new.row)
      (set_item-IsValid (set_job (counted clock c f j) db.jobs) (counted clock c f j) i i' v
        (SameJobs-set (counted clock c f j) j db.jobs e)
        (set_job-DistinctJobs (counted clock c f j) db.jobs v.distinct) (ground arith) fits new)

-- An item is written that neither succeeds nor fails by it; the job's row stays.
pub Keeps-item :
    {A : Type 0} (j : Job) (i i' : Item) (db : Db) (answer : A)
    → IsValid db
    → find_job j.job_id db.jobs ≡ some j
    → find_item i'.job_id i'.item_key db.items ≡ some i
    → i'.job_id ≡ j.job_id
    → item_ok i' ≡ true
    → indicator (is_succeeded i.status) ≡ indicator (is_succeeded i'.status)
    → indicator (is_failed i.status) ≡ indicator (is_failed i'.status)
    → Keeps (update_item i' db >>= λ db'. ok (answer, db'))
unfolding update_item
Keeps-item j i i' db answer v e found same fits succ fail = rw fits (
    set_item-IsValid db.jobs j i i' v (SameJobs-self j db.jobs e) v.distinct (ground arith) fits (
      ground (
        arith,
        v.jobs j.job_id j e,
        count-set_item is_succeeded i i' db.items found,
        count-set_item is_failed i i' db.items found,
        count-set_item any_status i i' db.items found,
      )))

-- What a method knows of the row that its lease holds and of an item that it found.
pub record Held (lease : Lease) (at : ℕ) (j : Job) (db : Db) : Type 0 where
  pub valid : IsValid db
  pub stored : find_job j.job_id db.jobs ≡ some j
  pub active : is_active lease at j ≡ true
  pub same_id : j.job_id ≡ lease.job_id

pub record Found (lease : Lease) (key : String) (i : Item) (db : Db) : Type 0 where
  pub row : find_item i.job_id i.item_key db.items ≡ some i
  pub fits : item_ok i ≡ true
  pub of_job : i.job_id ≡ lease.job_id
  pub at_key : i.item_key ≡ key

pub item_self :
    (id key : String) (db : Db) (i : Item)
    → find_item id key db.items ≡ some i
    → find_item i.job_id i.item_key db.items ≡ some i
item_self id key db i e =
    let (same_id, same_key) = find_item-key id key db.items i e in
    ap₂ (λ a b. find_item a b db.items) same_id same_key ∙ e

pub Found-row :
    (lease : Lease) (key : String) (i : Item) (db : Db)
    → IsValid db
    → find_item lease.job_id key db.items ≡ some i
    → Found lease key i db
Found-row lease key i db v e =
    let (id, k) = find_item-key lease.job_id key db.items i e in
    record {
      row = item_self lease.job_id key db i e;
      fits = v.items lease.job_id key i e;
      of_job = id;
      at_key = k;
    }

pub epoch_pos : (lease : Lease) (at : ℕ) (j : Job) (db : Db) → Held lease at j db → 0 < lease.epoch
unfolding is_active
epoch_pos lease at j db h = ground (arith, h.active, h.valid.jobs j.job_id j h.stored)

-- A new item is inserted where its key is free, and the job's row is written with it.
module _ (clock : Clock) (j : Job) (i' : Item) {db : Db} (v : IsValid db)
    (e : find_job j.job_id db.jobs ≡ some j)
    (free : find_item i'.job_id i'.item_key db.items ≡ none) (same : i'.job_id ≡ j.job_id)
    (fits : item_ok i' ≡ true) (below : count_items any_status j.job_id db.items < j.total) where
  pub insert_item_ok : insert_item i' db ≡ ok (record db { items = i' ∷ db.items })
  unfolding insert_item
  insert_item_ok = rw (fits, free, same, e)

  pub Keeps-insert :
      {A : Type 0} (answer : A)
      → is_succeeded i'.status ≡ false
      → is_failed i'.status ≡ false
      → Keeps (insert_item i' db >>= λ db'. ok (answer, db'))
  Keeps-insert answer ns nf = rw insert_item_ok (
      insert_item-IsValid db.jobs j i' v (SameJobs-self j db.jobs e) v.distinct (ground arith) fits
        (unfold count_items in ground (arith, v.jobs j.job_id j e, eq_refl j.job_id)))

  pub Keeps-insert_succeeded :
      {A : Type 0} (answer : A)
      → i'.status ≡ ItemStatus.succeeded
      → Keeps (
          insert_item i' db >>= λ db'.
          update_job (counted clock (j.completed + 1) j.failed j) db' >>= λ db''. ok (answer, db''))
  unfolding update_job
  Keeps-insert_succeeded answer s =
      let new : JobInv (i' ∷ db.items) (counted clock (j.completed + 1) j.failed j) =
        unfold count_items job_ok in
        ground (
          arith,
          v.jobs j.job_id j e,
          eq_refl j.job_id,
          count_items-le_all is_succeeded is_failed j.job_id db.items exclusive,
        ) in
      rw (insert_item_ok, new.row)
        (insert_item-IsValid (set_job (counted clock (j.completed + 1) j.failed j) db.jobs)
          (counted clock (j.completed + 1) j.failed j) i' v
          (SameJobs-set (counted clock (j.completed + 1) j.failed j) j db.jobs e)
          (set_job-DistinctJobs (counted clock (j.completed + 1) j.failed j) db.jobs v.distinct)
          (ground arith) fits new)
