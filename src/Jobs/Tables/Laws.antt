-- ===== src/Jobs/Tables/Laws.antt =====
-- Lookups and counts after a row is replaced or inserted.
use legal_rag_agent.Prelude.{
  ◌+◌, ◌≤◌, ◌≡◌, refl, ap, ◌∙◌, Bool, false, ◌&&◌, some, List, [], ◌∷◌, String, arith, eq_iff,
  eq_refl, ◌=t=◌, =t=→eq, any, Bool-cases, inl, inr, indicator, is_some, if◌then◌else◌,
}
use legal_rag_agent.Jobs.Tables.{
  Job, Item, Outbox, ItemStatus, any_status, find_job, set_job, at_key, find_item, set_item,
  count_items, count_outbox, any_message, find_outbox, set_outbox,
}

-- A row that is found has the key that was looked for.
pub find_job-id : (id : String) (js : List Job) (j : Job) → find_job id js ≡ some j → j.job_id ≡ id
unfolding find_job
find_job-id id [] j h = cc
find_job-id id (k ∷ js) j h = ground (arith, eq_iff k.job_id id, find_job-id id js j)

pub find_job_self :
    (id : String) (js : List Job) (j : Job)
    → find_job id js ≡ some j
    → find_job j.job_id js ≡ some j
find_job_self id js j h = ap (λ k. find_job k js) (find_job-id id js j h) ∙ h

pub find-set_job :
    (id : String) (j' : Job) (js : List Job)
    → find_job id (set_job j' js)
      ≡ (if j'.job_id =t= id && is_some (find_job id js) then some j' else find_job id js)
unfolding find_job set_job
find-set_job id j' [] = ground arith
find-set_job id j' (j ∷ js) = ground (
  arith,
  eq_iff j.job_id id,
  eq_iff j'.job_id id,
  eq_iff j.job_id j'.job_id,
  find-set_job id j' js,
)

pub find_item-key :
    (id key : String) (is : List Item) (i : Item)
    → find_item id key is ≡ some i
    → (i.job_id ≡ id) × (i.item_key ≡ key)
unfolding find_item
find_item-key id key [] i h = cc
find_item-key id key (k ∷ is) i h =
    ground (arith, eq_iff k.job_id id, eq_iff k.item_key key, find_item-key id key is i)

pub find-set_item :
    (id key : String) (i' : Item) (is : List Item)
    → find_item id key (set_item i' is)
      ≡ (if at_key id key i' && is_some (find_item id key is) then some i' else find_item id key is)
unfolding find_item set_item
find-set_item id key i' [] = ground arith
find-set_item id key i' (i ∷ is) = ground (
  arith,
  eq_iff i.job_id id,
  eq_iff i'.job_id id,
  eq_iff i.job_id i'.job_id,
  eq_iff i.item_key key,
  eq_iff i'.item_key key,
  eq_iff i.item_key i'.item_key,
  find-set_item id key i' is,
)

-- Replacing a row moves a count by what the row's two values count.
pub count-set_item :
    (p : ItemStatus → Bool) (i i' : Item) (is : List Item)
    → find_item i'.job_id i'.item_key is ≡ some i
    → count_items p i'.job_id (set_item i' is) + indicator (p i.status)
      ≡ count_items p i'.job_id is + indicator (p i'.status)
unfolding count_items find_item set_item
count-set_item p i i' [] h = cc
count-set_item p i i' (k ∷ is) h = elim (Bool-cases (at_key i'.job_id i'.item_key k)) [
  | inl here ↦ ground (arith, eq_refl i'.job_id)
  | inr there ↦ ground (arith, count-set_item p i i' is)
]

-- The counts of other jobs stay.
pub count-set_item_ne :
    (p : ItemStatus → Bool) (id : String) (i' : Item) (is : List Item)
    → (i'.job_id =t= id) ≡ false
    → count_items p id (set_item i' is) ≡ count_items p id is
unfolding count_items set_item
count-set_item_ne p id i' [] h = refl
count-set_item_ne p id i' (k ∷ is) h = ground (
  arith,
  eq_iff k.job_id id,
  eq_iff i'.job_id id,
  eq_iff k.job_id i'.job_id,
  count-set_item_ne p id i' is,
)

-- A status counted alone is counted at most as often as all of them.
pub count_items-le_all :
    (p q : ItemStatus → Bool) (id : String) (is : List Item)
    → ((s : ItemStatus) → indicator (p s) + indicator (q s) ≤ 1)
    → count_items p id is + count_items q id is ≤ count_items any_status id is
unfolding count_items
count_items-le_all p q id [] h = omega arith
count_items-le_all p q id (k ∷ is) h = ground (arith, h k.status, count_items-le_all p q id is h)

pub find_outbox-id :
    (id : String) (os : List Outbox) (o : Outbox) → find_outbox id os ≡ some o → o.outbox_id ≡ id
unfolding find_outbox
find_outbox-id id [] o h = cc
find_outbox-id id (k ∷ os) o h = ground (arith, eq_iff k.outbox_id id, find_outbox-id id os o)

-- As for items, where the replaced row stays with its job.
pub count-set_outbox :
    (p : Outbox → Bool) (id : String) (o o' : Outbox) (os : List Outbox)
    → find_outbox o'.outbox_id os ≡ some o
    → o'.job_id ≡ o.job_id
    → count_outbox p id (set_outbox o' os) + indicator (o.job_id =t= id && p o)
      ≡ count_outbox p id os + indicator (o'.job_id =t= id && p o')
unfolding count_outbox find_outbox set_outbox
count-set_outbox p id o o' [] h e = cc
count-set_outbox p id o o' (k ∷ os) h e = elim (Bool-cases (k.outbox_id =t= o'.outbox_id)) [
  | inl here ↦ ground arith
  | inr there ↦ ground (arith, count-set_outbox p id o o' os)
]

pub count_outbox-le_all :
    (p : Outbox → Bool) (id : String) (os : List Outbox)
    → count_outbox p id os ≤ count_outbox any_message id os
unfolding count_outbox
count_outbox-le_all p id [] = omega arith
count_outbox-le_all p id (k ∷ os) = ground (arith, count_outbox-le_all p id os)

-- The primary key of jobs: no two rows have one job_id.
abbrev pub has_id : String → Job → Bool
has_id id j = j.job_id =t= id

abbrev pub DistinctJobs : List Job → Type 0
DistinctJobs [] = Unit
DistinctJobs (j ∷ js) = (any (has_id j.job_id) js ≡ false) × DistinctJobs js

any-set_job :
    (id : String) (j' : Job) (js : List Job) → any (has_id id) (set_job j' js) ≡ any (has_id id) js
unfolding set_job
any-set_job id j' [] = refl
any-set_job id j' (k ∷ js) = ground (
  arith,
  any-set_job id j' js,
  eq_iff k.job_id j'.job_id,
  eq_iff k.job_id id,
  eq_iff j'.job_id id,
)

pub set_job-DistinctJobs :
    (j' : Job) (js : List Job) → DistinctJobs js → DistinctJobs (set_job j' js)
unfolding set_job
set_job-DistinctJobs j' [] d = tt
set_job-DistinctJobs j' (k ∷ js) d = elim (Bool-cases (k.job_id =t= j'.job_id)) [
  | inl here ↦ rw here (rw (← =t=→eq k.job_id j'.job_id here) d.0, d.1)
  | inr there ↦ rw there (any-set_job k.job_id j' js ∙ d.0, set_job-DistinctJobs j' js d.1)
]

-- A row is looked up if and only if there is one.
pub find_job-any : (id : String) (js : List Job) → is_some (find_job id js) ≡ any (has_id id) js
unfolding find_job
find_job-any id [] = refl
find_job-any id (k ∷ js) = ground (arith, find_job-any id js)

pub find-set_outbox :
    (id : String) (o' : Outbox) (os : List Outbox)
    → find_outbox id (set_outbox o' os)
      ≡ (if o'.outbox_id =t= id && is_some (find_outbox id os) then some o' else find_outbox id os)
unfolding find_outbox set_outbox
find-set_outbox id o' [] = ground arith
find-set_outbox id o' (o ∷ os) = ground (
  arith,
  eq_iff o.outbox_id id,
  eq_iff o'.outbox_id id,
  eq_iff o.outbox_id o'.outbox_id,
  find-set_outbox id o' os,
)
