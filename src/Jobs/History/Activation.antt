-- ===== src/Jobs/History/Activation.antt =====
-- activate_ingestion_job lets rows grow only.
use mathlib.Core.Path.{subst}
use legal_rag_agent.Prelude.{◌≡◌, refl, sym, true, Option, String, arith, inl, inr}
use legal_rag_agent.Jobs.Result.{Result, ok, err, ◌>>=◌}
use legal_rag_agent.Jobs.Tables.{ItemStatus, Job, Item, Db, set_job}
use legal_rag_agent.Jobs.Tables.Laws.{find_job_self}
use legal_rag_agent.Jobs.Store.{Clock, Lease, JobRecord, is_active}
use legal_rag_agent.Jobs.Store.Finish.{activate_ingestion_job}
use legal_rag_agent.Jobs.Methods.{catalog_write}
use legal_rag_agent.Jobs.Invariant.{IsValid}
use legal_rag_agent.Jobs.Invariant.Items.{Found-row}
use legal_rag_agent.Jobs.Invariant.Activation.{activated_item, activated_job, claimed_item-cases}
use legal_rag_agent.Jobs.Publication.{Activated, activation_all_or_nothing}
use legal_rag_agent.Jobs.History.{
  JobGrows, ItemGrows, Grows, Grows-refl, Grows-trans, Grows-set_job, Grows-set_item, JobGrows-refl,
}
use legal_rag_agent.Jobs.History.Rules.{Steps}

module _ (lease : Lease) (key digest : String) (outcome : Option String) (clock : Clock) (db : Db)
    (v : IsValid db) where
  abbrev Written : Db → Unit {0} → Type 0
  Written db' catalog = Activated (catalog_write outcome) lease key digest clock db tt db' catalog

  activated-JobGrows :
      (j : Job) → is_active lease clock.read_at j ≡ true → JobGrows j (activated_job clock j)
  unfolding is_active
  activated-JobGrows j a =
      let g = JobGrows-refl j in
      record {
        owner_id = refl;
        kind = refl;
        request_ref = refl;
        request_hash = refl;
        idempotency_key = refl;
        lease_epoch = omega arith;
        claim_count = omega arith;
        completed = omega arith;
        cancel = λ h. h;
        total = inr refl;
        stage = g.stage;
        terminal = λ h. absurd (ground arith);
      }

  activated-ItemGrows :
      (ref : String) (i : Item) → i.status ≡ ItemStatus.running → ItemGrows i (activated_item ref i)
  activated-ItemGrows ref i is = record {
    attempts = omega arith;
    limit = refl;
    succeeded = λ h. absurd (ground arith);
  }

  Activated-Grows : (db' : Db) (catalog : Unit {0}) → Written db' catalog → Grows db db'
  Activated-Grows db' catalog w =
      let (row, is, epoch) = claimed_item-cases lease key db w.item w.claimed in
      let found = Found-row lease key w.item db v row in
      let first : Grows db (record db { jobs = set_job (activated_job clock w.job) db.jobs }) =
        Grows-set_job w.job (activated_job clock w.job) db
          (find_job_self lease.job_id db.jobs w.job w.stored) (activated-JobGrows w.job w.active) in
      let mid : Db = record db { jobs = set_job (activated_job clock w.job) db.jobs } in
      let second =
        Grows-set_item w.item (activated_item w.ref w.item) mid found.row
          (activated-ItemGrows w.ref w.item is) in
      subst (λ (d : Db). Grows db d) (sym w.tables) (Grows-trans db mid _ first second)

  pub activate-Steps : Steps {A = Unit {0}} db (
      activate_ingestion_job (catalog_write outcome) lease key digest clock db tt >>= λ r.
      ok (tt, r.1.0))
  activate-Steps =
      go (activate_ingestion_job (catalog_write outcome) lease key digest clock db tt) refl
    where
      go :
          (m : Result (Option JobRecord × (Db × Unit {0})))
          → activate_ingestion_job (catalog_write outcome) lease key digest clock db tt ≡ m
          → Steps {A = Unit {0}} db (m >>= λ r. ok (tt, r.1.0))
      go (err e) h = tt
      go (ok (answer, (db', catalog))) h =
          elim (activation_all_or_nothing (catalog_write outcome) lease key digest clock db tt
            answer db' catalog v h) [
              | inl (unanswered, same, unwritten) ↦
                  subst (λ (d : Db). Grows db d) (sym same) (Grows-refl db)
              | inr w ↦ Activated-Grows db' catalog w
            ]
