-- ===== src/Jobs/Publication.antt =====
-- JobStore.activate_ingestion_job of legal_rag/jobs/store.py: the catalog and the job.
use mathlib.Core.Path.{subst}
use legal_rag_agent.Prelude.{
  ◌≡◌, refl, sym, ◌∙◌, Bool, true, false, Option, none, some, String, Bool-cases, Option-cases, inl,
  inr, ◌⊎◌,
}
use legal_rag_agent.Jobs.Result.{Result, ok, conflict, require, ◌>>=◌, >>-eq-ok, >>=-eq-ok}
use legal_rag_agent.Jobs.Validate.{hash, result_ref}
use legal_rag_agent.Jobs.Tables.{Job, Item, Db, find_job, set_job, set_item}
use legal_rag_agent.Jobs.Store.{Clock, Lease, JobRecord, is_active}
use legal_rag_agent.Jobs.Store.Finish.{
  activation_allowed, claimed_item, activate_item, activate_body, activate_ingestion_job,
}
use legal_rag_agent.Jobs.Invariant.{IsValid}
use legal_rag_agent.Jobs.Invariant.Items.{Found-row}
use legal_rag_agent.Jobs.Invariant.Methods.{Held-row}
use legal_rag_agent.Jobs.Invariant.Activation.{
  activated_item, activated_job, claimed_item-cases, activate_item-eq,
}
use legal_rag_agent.Jobs.Invariant.Rules.{locked-cases, under_lease_lost, under_lease_held}

module _ {C : Type 0} (activate : C → Result (String × C)) where
  -- What an activation that writes has done.
  pub record Activated (lease : Lease) (key digest : String) (clock : Clock) (db : Db) (catalog : C)
      (db' : Db) (catalog' : C) : Type 0 where
    pub job : Job
    pub item : Item
    pub ref : String
    pub stored : find_job lease.job_id db.jobs ≡ some job
    pub active : is_active lease clock.read_at job ≡ true
    pub uncancelled : job.cancel_requested ≡ false
    pub allowed : activation_allowed digest job ≡ true
    pub claimed : claimed_item lease key db ≡ some item
    pub published : activate catalog ≡ ok (ref, catalog')
    pub tables : db' ≡ record db {
      jobs = set_job (activated_job clock job) db.jobs;
      items = set_item (activated_item ref item) db.items;
    }
    pub valid : IsValid db'

  module _ (lease : Lease) (key digest : String) (clock : Clock) (db : Db) (catalog : C)
      (answer : Option JobRecord) (db' : Db) (catalog' : C) (v : IsValid db) where
    abbrev Outcome : Type 0
    Outcome =
        ((answer ≡ none) × (db' ≡ db) × (catalog' ≡ catalog))
        ⊎ Activated lease key digest clock db catalog db' catalog'

    -- The write itself, its two rows accepted.
    item_Activated :
        (j : Job) (i : Item)
        → find_job lease.job_id db.jobs ≡ some j
        → is_active lease clock.read_at j ≡ true
        → j.cancel_requested ≡ false
        → activation_allowed digest j ≡ true
        → claimed_item lease key db ≡ some i
        → activate_item activate lease clock j i db catalog ≡ ok (answer, (db', catalog'))
        → Activated lease key digest clock db catalog db' catalog'
    unfolding activate_item
    item_Activated j i e a u fits c h =
        let ((ref, cat), done, h1) = >>=-eq-ok (activate catalog) _ h in
        let (named, _) = >>-eq-ok (result_ref ref) _ h1 in
        let (row, is, epoch) = claimed_item-cases lease key db i c in
        let (eq, after) =
          activate_item-eq activate lease key clock j i db catalog ref cat
            (Held-row lease clock.read_at j db v e a) (Found-row lease key i db v row) is done
            named in
        let same = sym eq ∙ h in
        let written : Db = record db {
          jobs = set_job (activated_job clock j) db.jobs;
          items = set_item (activated_item ref i) db.items;
        } in
        let tables : db' ≡ written = cc in
        record {
          job = j;
          item = i;
          ref = ref;
          stored = e;
          active = a;
          uncancelled = u;
          allowed = fits;
          claimed = c;
          published = done ∙ cc;
          tables = tables;
          valid = subst (λ (x : Db). IsValid x) (sym tables) after;
        }

    body_Outcome :
        (j : Job)
        → find_job lease.job_id db.jobs ≡ some j
        → is_active lease clock.read_at j ≡ true
        → activate_body activate lease key digest clock catalog j db ≡ ok (answer, (db', catalog'))
        → Outcome
    unfolding activate_body activation_allowed
    body_Outcome j e a h = elim (Bool-cases j.cancel_requested) [
      | inl asked ↦ let z = rw asked at h in inl (cc, cc, cc)
      | inr unasked ↦
          let (fits, h1) =
            >>-eq-ok (require (activation_allowed digest j) conflict) _ (rw unasked at h) in
          elim (Option-cases (claimed_item lease key db)) [
            | inl e' ↦ absurd (let z = rw e' at h1 in cc)
            | inr (i, e') ↦
                inr (item_Activated j i e a unasked (allowed-eq _ fits) e' (rw e' at h1))
          ]
    ]
      where
        allowed-eq : (b : Bool) → require b conflict ≡ ok tt → b ≡ true
        allowed-eq true z = refl
        allowed-eq false z = cc

    -- What runs under the lease.
    abbrev body : Job → Db → Result ((Option JobRecord × C) × Db)
    body j db = do
      (answer, (db', catalog')) ← activate_body activate lease key digest clock catalog j db
      ok ((answer, catalog'), db')

    -- From a valid state, an activation that returns did all or nothing: either its answer is none
    -- and neither the tables nor the catalog changed, or the catalog's write is in, and with it, in
    -- the same transaction, the job's last item is succeeded under the catalog's reference and the
    -- job is succeeded, its lease active and uncancelled; and the state is valid again.
    pub activation_all_or_nothing :
        activate_ingestion_job activate lease key digest clock db catalog
          ≡ ok (answer, (db', catalog'))
        → ((answer ≡ none) × (db' ≡ db) × (catalog' ≡ catalog))
          ⊎ Activated lease key digest clock db catalog db' catalog'
    unfolding activate_ingestion_job
    activation_all_or_nothing h =
        let (_, h1) = >>-eq-ok (hash key) _ h in
        let (_, h2) = >>-eq-ok (hash digest) _ h1 in
        elim (locked-cases lease clock.read_at db) [
          | inl lost ↦
              let z = rw (under_lease_lost lease clock (none, catalog) body db lost) at h2 in
              inl (cc, cc, cc)
          | inr (j, e, a, found) ↦
              let z = rw (under_lease_held lease clock (none, catalog) body db j found) at h2 in
              let ((shown, tables), h3, h4) = >>=-eq-ok (body j db) _ z in
              let (out, h5, h6) =
                >>=-eq-ok (activate_body activate lease key digest clock catalog j db) _ h3 in
              body_Outcome j e a (h5 ∙ cc)
        ]
