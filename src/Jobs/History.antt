-- ===== src/Jobs/History.antt =====
-- How rows may change from one transaction to the next: what a row was is never lost.

pub mod Rules
pub mod Rest
pub mod Items
pub mod Methods
pub mod Activation
use legal_rag_agent.Prelude.{
  ℕ, ◌+◌, ◌≤◌, ◌≡◌, refl, ◌∙◌, Bool, true, false, ◌&&◌, Option, none, some, List, ◌∷◌, String,
  arith, eq_iff, eq_refl, ◌=t=◌, is_some, ◌⊎◌, inl, inr, Bool-cases, Option-cases, if◌then◌else◌,
}
use mathlib.Core.Path.{subst}
use legal_rag_agent.Jobs.Result.{Result, ok, err, ◌>>=◌, ◌>>◌, integrity}
use legal_rag_agent.Jobs.Tables.{
  Kind, is_terminal, is_succeeded, Job, Item, Db, job_ok, item_ok, find_job, set_job, at_key,
  find_item, set_item, Outbox, find_outbox, set_outbox, update_job, update_item, insert_item,
}
use legal_rag_agent.Jobs.Tables.Laws.{find-set_job, find-set_item, find_job-id, find-set_outbox}
use legal_rag_agent.Jobs.Store.{Clock, Lease, is_active, locked_active_job, under_lease}
use legal_rag_agent.Jobs.Store.Progress.{index_of, stages}
use legal_rag_agent.Jobs.Invariant.Rules.{locked-cases, under_lease_lost, under_lease_held}

-- A stage does not come before another of the kind.
abbrev pub StageLe : Option ℕ → Option ℕ → Type 0
StageLe none b = Unit
StageLe (some m) none = ⊥
StageLe (some m) (some n) = m ≤ n

-- What the request was stays, counters and the lease epoch do not fall, a cancellation stays asked
-- for, a total that is set stays, the stage does not move back, and a terminal row does not change.
pub record JobGrows (j j' : Job) : Type 0 where
  pub owner_id : j'.owner_id ≡ j.owner_id
  pub kind : j'.kind ≡ j.kind
  pub request_ref : j'.request_ref ≡ j.request_ref
  pub request_hash : j'.request_hash ≡ j.request_hash
  pub idempotency_key : j'.idempotency_key ≡ j.idempotency_key
  pub lease_epoch : j.lease_epoch ≤ j'.lease_epoch
  pub claim_count : j.claim_count ≤ j'.claim_count
  pub completed : j.completed ≤ j'.completed
  pub cancel : j.cancel_requested ≡ true → j'.cancel_requested ≡ true
  pub total : (j.total ≡ 0) ⊎ (j'.total ≡ j.total)
  pub stage : StageLe (index_of j.stage (stages j.kind)) (index_of j'.stage (stages j.kind))
  pub terminal : is_terminal j.status ≡ true → j' ≡ j

-- Attempts do not fall, their limit stays, and a succeeded item does not change.
pub record ItemGrows (i i' : Item) : Type 0 where
  pub attempts : i.attempt_count ≤ i'.attempt_count
  pub limit : i'.max_attempts ≡ i.max_attempts
  pub succeeded : is_succeeded i.status ≡ true → i' ≡ i

pub record Grows (db db' : Db) : Type 0 where
  pub jobs :
      (id : String) (j : Job)
      → find_job id db.jobs ≡ some j
      → (j' : Job) × (find_job id db'.jobs ≡ some j') × JobGrows j j'
  pub items :
      (id key : String) (i : Item)
      → find_item id key db.items ≡ some i
      → (i' : Item) × (find_item id key db'.items ≡ some i') × ItemGrows i i'
  pub outbox :
      (id : String) (o : Outbox)
      → find_outbox id db.outbox ≡ some o
      → o.delivered ≡ true
      → (o' : Outbox) × (find_outbox id db'.outbox ≡ some o') × (o'.delivered ≡ true)

StageLe-refl : (a : Option ℕ) → StageLe a a
StageLe-refl none = tt
StageLe-refl (some m) = omega arith

StageLe-trans : (a b c : Option ℕ) → StageLe a b → StageLe b c → StageLe a c
StageLe-trans none b c h k = tt
StageLe-trans (some m) none c h k = absurd h
StageLe-trans (some m) (some n) none h k = k
StageLe-trans (some m) (some n) (some o) h k = omega arith

pub JobGrows-refl : (j : Job) → JobGrows j j
JobGrows-refl j = record {
  owner_id = refl;
  kind = refl;
  request_ref = refl;
  request_hash = refl;
  idempotency_key = refl;
  lease_epoch = omega arith;
  claim_count = omega arith;
  completed = omega arith;
  cancel = λ h. h;
  total = inr refl;
  stage = StageLe-refl _;
  terminal = λ h. refl;
}

pub JobGrows-trans : (i j k : Job) → JobGrows i j → JobGrows j k → JobGrows i k
JobGrows-trans i j k a b = record {
  owner_id = b.owner_id ∙ a.owner_id;
  kind = b.kind ∙ a.kind;
  request_ref = b.request_ref ∙ a.request_ref;
  request_hash = b.request_hash ∙ a.request_hash;
  idempotency_key = b.idempotency_key ∙ a.idempotency_key;
  lease_epoch = omega (arith, a.lease_epoch, b.lease_epoch);
  claim_count = omega (arith, a.claim_count, b.claim_count);
  completed = omega (arith, a.completed, b.completed);
  cancel = λ h. b.cancel (a.cancel h);
  total = ground (arith, a.total, b.total);
  stage = StageLe-trans _ (index_of j.stage (stages i.kind)) _ a.stage (
      subst (λ (x : Kind). StageLe (index_of j.stage (stages x)) (index_of k.stage (stages x)))
        a.kind b.stage);
  terminal = λ h. ground (arith, a.terminal h, b.terminal);
}

pub ItemGrows-refl : (i : Item) → ItemGrows i i
ItemGrows-refl i = record { attempts = omega arith; limit = refl; succeeded = λ h. refl }

pub Grows-refl : (db : Db) → Grows db db
Grows-refl db = record {
  jobs = λ id j e. (j, e, JobGrows-refl j);
  items = λ id key i e. (i, e, ItemGrows-refl i);
  outbox = λ id o e d. (o, e, d);
}

pub Grows-trans : (a b c : Db) → Grows a b → Grows b c → Grows a c
Grows-trans a b c g h = record {
  jobs = λ id j e.
      let (k, f, gk) = g.jobs id j e in
      let (l, f', gl) = h.jobs id k f in (l, f', JobGrows-trans j k l gk gl);
  items = λ id key i e.
      let (k, f, gk) = g.items id key i e in
      let (l, f', gl) = h.items id key k f in
      (
        l,
        f',
        record {
          attempts = omega (arith, gk.attempts, gl.attempts);
          limit = gl.limit ∙ gk.limit;
          succeeded = λ s. ground (arith, gk.succeeded s, gl.succeeded);
        },
      );
  outbox = λ id o e d. let (k, f, d') = g.outbox id o e d in h.outbox id k f d';
}

-- A row replaced by one that it may become.
pub Grows-set_job :
    (j j' : Job) (db : Db)
    → find_job j'.job_id db.jobs ≡ some j
    → JobGrows j j'
    → Grows db (record db { jobs = set_job j' db.jobs })
Grows-set_job j j' db e g = record {
  jobs = λ id k f. elim (Bool-cases (j'.job_id =t= id)) [
    | inl here ↦
        let same : k ≡ j = ground (arith, eq_iff j'.job_id id) in
        (j', find-set_job id j' db.jobs ∙ rw (here, f), rw same g)
    | inr there ↦ (k, find-set_job id j' db.jobs ∙ rw (there, f), JobGrows-refl k)
  ];
  items = λ id key i f. (i, f, ItemGrows-refl i);
  outbox = λ id o f d. (o, f, d);
}

pub Grows-set_item :
    (i i' : Item) (db : Db)
    → find_item i'.job_id i'.item_key db.items ≡ some i
    → ItemGrows i i'
    → Grows db (record db { items = set_item i' db.items })
Grows-set_item i i' db e g = record {
  jobs = λ id j f. (j, f, JobGrows-refl j);
  items = λ id key k f. elim (Bool-cases (at_key id key i')) [
    | inl here ↦
        let same : k ≡ i = ground (arith, eq_iff i'.job_id id, eq_iff i'.item_key key) in
        (i', find-set_item id key i' db.items ∙ rw (here, f), rw same g)
    | inr there ↦ (k, find-set_item id key i' db.items ∙ rw (there, f), ItemGrows-refl k)
  ];
  outbox = λ id o f d. (o, f, d);
}

-- A new item stands at a key that was free.
pub Grows-insert_item :
    (i' : Item) (db : Db)
    → find_item i'.job_id i'.item_key db.items ≡ none
    → Grows db (record db { items = i' ∷ db.items })
Grows-insert_item i' db free = record {
  jobs = λ id j f. (j, f, JobGrows-refl j);
  items = λ id key k f. (
    k,
    unfold find_item in ground (arith, eq_iff i'.job_id id, eq_iff i'.item_key key),
    ItemGrows-refl k,
  );
  outbox = λ id o f d. (o, f, d);
}

-- A message replaced by one that is delivered if the old one was, and a new message.
pub Grows-set_outbox :
    (o o' : Outbox) (db : Db)
    → find_outbox o'.outbox_id db.outbox ≡ some o
    → (o.delivered ≡ true → o'.delivered ≡ true)
    → Grows db (record db { outbox = set_outbox o' db.outbox })
Grows-set_outbox o o' db e stays = record {
  jobs = λ id j f. (j, f, JobGrows-refl j);
  items = λ id key i f. (i, f, ItemGrows-refl i);
  outbox = λ id k f d. elim (Bool-cases (o'.outbox_id =t= id)) [
    | inl here ↦
        let same : k ≡ o = ground (arith, eq_iff o'.outbox_id id) in
        (o', find-set_outbox id o' db.outbox ∙ rw (here, f), stays (rw same at d))
    | inr there ↦ (k, find-set_outbox id o' db.outbox ∙ rw (there, f), d)
  ];
}

pub Grows-insert_outbox :
    (o' : Outbox) (db : Db)
    → find_outbox o'.outbox_id db.outbox ≡ none
    → Grows db (record db { outbox = o' ∷ db.outbox })
Grows-insert_outbox o' db free = record {
  jobs = λ id j f. (j, f, JobGrows-refl j);
  items = λ id key i f. (i, f, ItemGrows-refl i);
  outbox = λ id k f d. (k, unfold find_outbox in ground (arith, eq_iff o'.outbox_id id), d);
}
