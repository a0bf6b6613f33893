-- ===== src/Jobs/Methods/Growth.antt =====
-- How the methods of legal_rag/jobs/store.py change rows, and what that means for old leases.
use legal_rag_agent.Prelude.{ℕ, ◌≡◌, arith, ◌<◌, none, some}
use legal_rag_agent.Jobs.Result.{Result, ok, err}
use legal_rag_agent.Jobs.Tables.{Job, Db, find_job}
use legal_rag_agent.Jobs.Store.{Clock, Lease, is_active, locked_active_job}
use legal_rag_agent.Jobs.Methods.{
  Write, beat, total, stage, claim, complete, reconcile, fail, finish, Method, create, lease_job,
  cancel, write, lease_messages, delivered, retry, activate, requeue, run_write, run, after,
  DrawsFresh, Reach, then, Later, at_once, call,
}
use legal_rag_agent.Jobs.Methods.Safety.{Reach-IsValid}
use legal_rag_agent.Jobs.Invariant.{IsValid}
use legal_rag_agent.Jobs.Invariant.Requeue.{requeue_expired_jobs-Steps}
use legal_rag_agent.Jobs.History.{Grows, Grows-refl, Grows-trans}
use legal_rag_agent.Jobs.History.Rules.{Steps, Steps-map}
use legal_rag_agent.Jobs.History.Methods.{
  heartbeat-Steps, set_total-Steps, set_stage-Steps, finish_job-Steps, request_cancel-Steps,
  claim_job-Steps,
}
use legal_rag_agent.Jobs.History.Items.{claim_item-Steps, complete_item-Steps}
use legal_rag_agent.Jobs.History.Activation.{activate-Steps}
use legal_rag_agent.Jobs.History.Rest.{
  reconcile_item-Steps, fail_item-Steps, create_job-Steps, mark_outbox_delivered-Steps,
  mark_outbox_retry-Steps, claim_outbox-Steps,
}

run_write-Steps :
    (lease : Lease) (w : Write) (clock : Clock) (db : Db) → Steps db (run_write lease w clock db)
unfolding run_write
run_write-Steps lease (beat n) clock db = Steps-map db _ _ (heartbeat-Steps lease n clock db)
run_write-Steps lease (total n) clock db = Steps-map db _ _ (set_total-Steps lease n clock db)
run_write-Steps lease (stage s) clock db = Steps-map db _ _ (set_stage-Steps lease s clock db)
run_write-Steps lease (claim key n) clock db =
    Steps-map db _ _ (claim_item-Steps lease key n clock db)
run_write-Steps lease (complete key ref) clock db =
    Steps-map db _ _ (complete_item-Steps lease key ref clock db)
run_write-Steps lease (reconcile key ref) clock db =
    Steps-map db _ _ (reconcile_item-Steps lease key ref clock db)
run_write-Steps lease (fail key code again) clock db =
    Steps-map db _ _ (fail_item-Steps lease key code again clock db)
run_write-Steps lease (finish s code) clock db =
    Steps-map db _ _ (finish_job-Steps lease s code clock db)

run-Steps :
    (m : Method) (clock : Clock) (db : Db)
    → IsValid db
    → DrawsFresh m db
    → Steps db (run m clock db)
unfolding run
run-Steps (create s id outbox_id) clock db v f =
    Steps-map db _ _ (create_job-Steps s id outbox_id clock db)
run-Steps (lease_job id worker n most) clock db v f =
    Steps-map db _ _ (claim_job-Steps id worker n most clock db)
run-Steps (cancel id owner) clock db v f = Steps-map db _ _ (request_cancel-Steps id owner clock db)
run-Steps (write lease w) clock db v f = run_write-Steps lease w clock db
run-Steps (lease_messages busy dispatcher limit n job_id) clock db v f =
    Steps-map db _ _ (claim_outbox-Steps busy dispatcher limit n job_id clock db)
run-Steps (delivered id dispatcher epoch) clock db v f =
    Steps-map db _ _ (mark_outbox_delivered-Steps id dispatcher epoch clock db)
run-Steps (retry id dispatcher epoch code delay) clock db v f =
    Steps-map db _ _ (mark_outbox_retry-Steps id dispatcher epoch code delay clock db)
run-Steps (activate lease key digest outcome) clock db v f =
    activate-Steps lease key digest outcome clock db v
run-Steps (requeue busy new_id limit least most bound) clock db v f =
    Steps-map db _ _
      (requeue_expired_jobs-Steps new_id f.0 busy limit least most bound clock db v f.1)

Steps-after :
    (r : Result (Unit {0} × Db)) (db : Db)
    → Steps db r
    → Grows db (elim r [ ok s ↦ s.1 | err e ↦ db ])
Steps-after (ok s) db g = g
Steps-after (err e) db g = Grows-refl db

-- From a reachable state, a call of any method with fresh IDs keeps every job and every item, under
-- the growth that JobGrows and ItemGrows state: a job's owner, kind, request and key stay; its lease
-- epoch, claim count and completed count do not fall; a requested cancellation stays requested; a
-- total other than 0 stays; the stage does not move back; a terminal job's row does not change at
-- all; an item's attempts do not fall, and a succeeded item's row does not change; and a message
-- that is marked as delivered stays so.
pub after-Grows :
    {db : Db} (m : Method) (clock : Clock)
    → Reach db
    → DrawsFresh m db
    → Grows db (after m clock db)
unfolding after
after-Grows {db} m clock r fresh =
    Steps-after (run m clock db) db (run-Steps m clock db (Reach-IsValid r) fresh)

pub Later-Reach : {db db' : Db} → Reach db → Later db db' → Reach db'
Later-Reach r at_once = r
Later-Reach r (call m clock l fresh) = then m clock (Later-Reach r l) fresh

pub Later-Grows : {db db' : Db} → Reach db → Later db db' → Grows db db'
Later-Grows {db} r at_once = Grows-refl db
Later-Grows {db} r (call {db' = mid} m clock l fresh) =
    Grows-trans db mid (after m clock mid) (Later-Grows r l)
      (after-Grows m clock (Later-Reach r l) fresh)

-- A lease of a reachable state whose epoch is below the job's is lost for good: after any further
-- calls of the methods with fresh IDs, by whom and when it may be, its holder finds no active job,
-- at any time.
pub superseded_lease_lost :
    {db db' : Db} (lease : Lease) (at : ℕ) (j : Job)
    → Reach db
    → Later db db'
    → find_job lease.job_id db.jobs ≡ some j
    → lease.epoch < j.lease_epoch
    → locked_active_job lease at db' ≡ none
unfolding locked_active_job is_active
superseded_lease_lost lease at j r l e below =
    let (j', f, grows) = (Later-Grows r l).jobs lease.job_id j e in
    ground (arith, grows.lease_epoch)
