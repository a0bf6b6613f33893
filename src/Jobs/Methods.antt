-- ===== src/Jobs/Methods.antt =====
-- The public methods of JobStore that write, with their arguments, and what a transaction leaves in
-- the tables: what the method commits, or on an error what was there before (rollback).
pub mod Safety
pub mod Growth
use legal_rag_agent.Prelude.{ℕ, ◌≡◌, Bool, Option, none, some, List, [], String}
use legal_rag_agent.Jobs.Result.{Result, ok, err, callback, ◌>>=◌}
use legal_rag_agent.Jobs.Tables.{Status, Db, find_job, find_outbox}
use legal_rag_agent.Jobs.Store.{Clock, Lease}
use legal_rag_agent.Jobs.Store.Create.{Submission, create_job}
use legal_rag_agent.Jobs.Store.Claim.{claim_job}
use legal_rag_agent.Jobs.Store.Progress.{heartbeat, set_total, set_stage, request_cancel}
use legal_rag_agent.Jobs.Store.Items.{claim_item, complete_item, reconcile_item, fail_item}
use legal_rag_agent.Jobs.Store.Finish.{finish_job, activate_ingestion_job}
use legal_rag_agent.Jobs.Store.Delivery.{claim_outbox, mark_outbox_delivered, mark_outbox_retry}
use legal_rag_agent.Jobs.Store.Requeue.{requeue_expired_jobs}

-- What a worker does under its lease.
pub data Write : Type 0 where
  beat : ℕ → Write
  total : ℕ → Write
  stage : String → Write
  claim : String → ℕ → Write
  complete : String → String → Write
  reconcile : String → String → Write
  fail : String → Option String → Bool → Write
  finish : Status → Option String → Write

pub data Method : Type 0 where
  create : Submission → String → String → Method
  lease_job : String → String → ℕ → ℕ → Method
  cancel : String → String → Method
  write : Lease → Write → Method
  lease_messages : (String → Bool) → String → ℕ → ℕ → Option String → Method
  delivered : String → String → ℕ → Method
  retry : String → String → ℕ → String → ℕ → Method
  activate : Lease → String → String → Option String → Method
  requeue : (String → Bool) → (String → String) → ℕ → ℕ → ℕ → ℕ → Method

-- The write of the catalog in an activation, of which a call is told what it does: it returns a
-- reference, or it raises. The catalog's own tables are none of these.
abbrev pub catalog_write : Option String → Unit {0} → Result (String × Unit {0})
catalog_write none catalog = err callback
catalog_write (some ref) catalog = ok (ref, catalog)

-- A method's result without its answer.
abbrev forget : {A : Type 0} → Result (A × Db) → Result (Unit {0} × Db)
forget m = m >>= λ r. ok (tt, r.1)

unfoldable pub run_write : Lease → Write → Clock → Db → Result (Unit {0} × Db)
run_write lease (beat n) clock db = forget (heartbeat lease n clock db)
run_write lease (total n) clock db = forget (set_total lease n clock db)
run_write lease (stage s) clock db = forget (set_stage lease s clock db)
run_write lease (claim key n) clock db = forget (claim_item lease key n clock db)
run_write lease (complete key ref) clock db = forget (complete_item lease key ref clock db)
run_write lease (reconcile key ref) clock db = forget (reconcile_item lease key ref clock db)
run_write lease (fail key code again) clock db = forget (fail_item lease key code again clock db)
run_write lease (finish s code) clock db = forget (finish_job lease s code clock db)

unfoldable pub run : Method → Clock → Db → Result (Unit {0} × Db)
run (create s id outbox_id) clock db = forget (create_job s id outbox_id clock db)
run (lease_job id worker n most) clock db = forget (claim_job id worker n most clock db)
run (cancel id owner) clock db = forget (request_cancel id owner clock db)
run (write lease w) clock db = run_write lease w clock db
run (lease_messages busy dispatcher limit n job_id) clock db =
    forget (claim_outbox busy dispatcher limit n job_id clock db)
run (delivered id dispatcher epoch) clock db =
    forget (mark_outbox_delivered id dispatcher epoch clock db)
run (retry id dispatcher epoch code delay) clock db =
    forget (mark_outbox_retry id dispatcher epoch code delay clock db)
run (activate lease key digest outcome) clock db =
    activate_ingestion_job (catalog_write outcome) lease key digest clock db tt >>= λ r.
    ok (tt, r.1.0)
run (requeue busy new_id limit least most bound) clock db =
    forget (requeue_expired_jobs busy new_id limit least most bound clock db)

-- The tables after a transaction: what it commits, or, where it raises, the tables before.
unfoldable pub after : Method → Clock → Db → Db
after m clock db = elim (run m clock db) [ ok r ↦ r.1 | err e ↦ db ]

-- What `uuid.uuid4()` is relied on for: the IDs that a call draws are not in the tables, and those
-- that one call draws for two jobs differ.
abbrev pub DrawsFresh : Method → Db → Type 0
DrawsFresh (create s id outbox_id) db =
    (find_job id db.jobs ≡ none) × (find_outbox outbox_id db.outbox ≡ none)
DrawsFresh (requeue busy new_id limit least most bound) db =
    ((a b : String) → new_id a ≡ new_id b → a ≡ b)
    × ((id : String) → find_outbox (new_id id) db.outbox ≡ none)
DrawsFresh _ db = Unit

-- The empty tables, and what any calls of the methods can make of them.
abbrev pub empty : Db
empty = record { jobs = []; items = []; outbox = [] }

pub data Reach : Db → Type 0 where
  start : Reach empty
  then :
      {db : Db} (m : Method) (clock : Clock) → Reach db → DrawsFresh m db → Reach (after m clock db)

-- What any calls make of tables.
pub data Later (db : Db) : Db → Type 0 where
  at_once : Later db db
  call :
      {db' : Db} (m : Method) (clock : Clock)
      → Later db db'
      → DrawsFresh m db'
      → Later db (after m clock db')
