-- ===== src/Jobs/Methods/Safety.antt =====
-- The invariant and the refusals of constraints along the methods of legal_rag/jobs/store.py.
use legal_rag_agent.Prelude.{◌≢◌, refl, arith}
use legal_rag_agent.Jobs.Result.{
  Result, ok, err, contract, conflict, value_error, integrity, callback,
}
use legal_rag_agent.Jobs.Tables.{Db, find_job, find_item, find_outbox, count_items, count_outbox}
use legal_rag_agent.Jobs.Store.{Clock, Lease}
use legal_rag_agent.Jobs.Methods.{
  Write, beat, total, stage, claim, complete, reconcile, fail, finish, Method, create, lease_job,
  cancel, write, lease_messages, delivered, retry, activate, requeue, run_write, run, after,
  DrawsFresh, empty, Reach, start, then,
}
use legal_rag_agent.Jobs.Invariant.{IsValid, Keeps}
use legal_rag_agent.Jobs.Invariant.Rules.{Keeps-map}
use legal_rag_agent.Jobs.Invariant.Progress.{
  heartbeat-Keeps, set_total-Keeps, set_stage-Keeps, request_cancel-Keeps, claim_job-Keeps,
}
use legal_rag_agent.Jobs.Invariant.Methods.{
  claim_item-Keeps, complete_item-Keeps, reconcile_item-Keeps, fail_item-Keeps,
}
use legal_rag_agent.Jobs.Invariant.Create.{create_job-Keeps, finish_job-Keeps}
use legal_rag_agent.Jobs.Invariant.Delivery.{
  claim_outbox-Keeps, mark_outbox_delivered-Keeps, mark_outbox_retry-Keeps,
}
use legal_rag_agent.Jobs.Invariant.Activation.{activate-Keeps}
use legal_rag_agent.Jobs.Invariant.Requeue.{requeue_expired_jobs-Keeps}

run_write-Keeps :
    (lease : Lease) (w : Write) (clock : Clock) (db : Db)
    → IsValid db
    → Keeps (run_write lease w clock db)
unfolding run_write
run_write-Keeps lease (beat n) clock db v = Keeps-map _ _ (heartbeat-Keeps lease n clock db v)
run_write-Keeps lease (total n) clock db v = Keeps-map _ _ (set_total-Keeps lease n clock db v)
run_write-Keeps lease (stage s) clock db v = Keeps-map _ _ (set_stage-Keeps lease s clock db v)
run_write-Keeps lease (claim key n) clock db v =
    Keeps-map _ _ (claim_item-Keeps lease key n clock db v)
run_write-Keeps lease (complete key ref) clock db v =
    Keeps-map _ _ (complete_item-Keeps lease key ref clock db v)
run_write-Keeps lease (reconcile key ref) clock db v =
    Keeps-map _ _ (reconcile_item-Keeps lease key ref clock db v)
run_write-Keeps lease (fail key code again) clock db v =
    Keeps-map _ _ (fail_item-Keeps lease key code again clock db v)
run_write-Keeps lease (finish s code) clock db v =
    Keeps-map _ _ (finish_job-Keeps lease s code clock db v)

run-Keeps :
    (m : Method) (clock : Clock) (db : Db) → IsValid db → DrawsFresh m db → Keeps (run m clock db)
unfolding run
run-Keeps (create s id outbox_id) clock db v f =
    Keeps-map _ _ (create_job-Keeps s id outbox_id clock db v f.0 f.1)
run-Keeps (lease_job id worker n most) clock db v f =
    Keeps-map _ _ (claim_job-Keeps id worker n most clock db v)
run-Keeps (cancel id owner) clock db v f = Keeps-map _ _ (request_cancel-Keeps id owner clock db v)
run-Keeps (write lease w) clock db v f = run_write-Keeps lease w clock db v
run-Keeps (lease_messages busy dispatcher limit n job_id) clock db v f =
    Keeps-map _ _ (claim_outbox-Keeps busy dispatcher limit n job_id clock db v)
run-Keeps (delivered id dispatcher epoch) clock db v f =
    Keeps-map _ _ (mark_outbox_delivered-Keeps id dispatcher epoch clock db v)
run-Keeps (retry id dispatcher epoch code delay) clock db v f =
    Keeps-map _ _ (mark_outbox_retry-Keeps id dispatcher epoch code delay clock db v)
run-Keeps (activate lease key digest outcome) clock db v f =
    activate-Keeps lease key digest outcome clock db v
run-Keeps (requeue busy new_id limit least most bound) clock db v f =
    Keeps-map _ _ (requeue_expired_jobs-Keeps new_id f.0 busy limit least most bound clock db v f.1)

empty-IsValid : IsValid empty
unfolding find_job find_item find_outbox count_items count_outbox
empty-IsValid = record {
  jobs = λ id j e. cc;
  distinct = tt;
  items = λ id key i e. cc;
  no_orphan = λ id e. refl;
  no_stray = λ id e. refl;
  messages = λ id o e. cc;
  one_pending = λ id. omega arith;
}

Keeps-after :
    (r : Result (Unit {0} × Db)) (db : Db)
    → IsValid db
    → Keeps r
    → IsValid (elim r [ ok s ↦ s.1 | err e ↦ db ])
Keeps-after (ok s) db v k = k
Keeps-after (err e) db v k = v

-- In every state that calls of the methods reach from empty tables, with fresh IDs, the invariant
-- holds: each job's row satisfies the table's constraints, its `completed` and `failed` count its
-- succeeded and failed items, its items fit its total, a running job has a positive lease epoch,
-- its stage is one of its kind's, and it has at most one pending message.
pub Reach-IsValid : {db : Db} → Reach db → IsValid db
unfolding after
Reach-IsValid start = empty-IsValid
Reach-IsValid (then {db} m clock r fresh) =
    let v = Reach-IsValid r in Keeps-after (run m clock db) db v (run-Keeps m clock db v fresh)

Keeps-refusals :
    (r : Result (Unit {0} × Db)) → Keeps r → (r ≢ err integrity) × (r ≢ err value_error)
Keeps-refusals (ok s) k = (λ e. cc, λ e. cc)
Keeps-refusals (err contract) k = (λ e. cc, λ e. cc)
Keeps-refusals (err conflict) k = (λ e. cc, λ e. cc)
Keeps-refusals (err callback) k = (λ e. cc, λ e. cc)
Keeps-refusals (err value_error) k = absurd k
Keeps-refusals (err integrity) k = absurd k

-- In a reachable state, no method call with fresh IDs is refused by a constraint of the tables, and
-- none raises the ValueError of `tuple.index`.
pub run_never_refused :
    {db : Db} (m : Method) (clock : Clock)
    → Reach db
    → DrawsFresh m db
    → (run m clock db ≢ err integrity) × (run m clock db ≢ err value_error)
run_never_refused {db} m clock r fresh =
    Keeps-refusals (run m clock db) (run-Keeps m clock db (Reach-IsValid r) fresh)
