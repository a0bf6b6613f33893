-- ===== src/Runs/Calls/Safety.antt =====
-- The public methods against the abstract machine, and the states that they reach.
use legal_rag_agent.Prelude.{ℕ, refl, none, some, String, arith, find_by, Distinct, count_by}
use legal_rag_agent.Runs.Result.{Result, ok, err, Gives-bind, Gives-ok}
use legal_rag_agent.Runs.Tables.{Db, run_key}
use legal_rag_agent.Runs.Service.Budget.{last_attempt_no}
use legal_rag_agent.Runs.Spec.{Moves, none_left}
use legal_rag_agent.Runs.Refines.{Refines}
use legal_rag_agent.Runs.Refines.Lifecycle.{
  cancel_run-Refines, heartbeat_run-Refines, append_stage_event-Refines, fail_run-Refines,
}
use legal_rag_agent.Runs.Refines.Scheduling.{claim_next_run-Refines, resume_run-Refines}
use legal_rag_agent.Runs.Refines.Recovery.{recover_stale_runs-Refines}
use legal_rag_agent.Runs.Refines.Spending.{
  begin_retrieval_round-Refines, reserve_attempt-Refines, mark_attempt_dispatched-Refines,
  finish_attempt-Refines,
}
use legal_rag_agent.Runs.Refines.Answers.{publish_success-Refines, publish_terminal_result-Refines}
use legal_rag_agent.Runs.Refines.Creation.{
  create_session-Refines, create_run-Refines, bind_checkpoint-Refines,
}
use legal_rag_agent.Runs.Refines.Artifacts.{save_node_artifact-Refines}
use legal_rag_agent.Runs.Invariant.{IsValid}
use legal_rag_agent.Runs.Invariant.Writes.{Moves-IsValid}
use legal_rag_agent.Runs.Calls.{
  Setting, Work, heartbeat, round, reserve, stage, publish, fail, AttemptWork, dispatch, finish,
  Call, start_session, create, cancel, resume, claim, recover, work, on_attempt, bind,
  publish_any_epoch, stage_any_epoch, fail_any_epoch, artifact, forget, run_work, run_attempt_work,
  run, after, empty, Reach, start, step,
}

forget-Refines : {A : Type 0} (db : Db) (m : Result (A × Db)) → Refines db m → Refines db (forget m)
unfolding forget
forget-Refines db m h = Gives-bind m _ λ r e. Gives-ok (tt, r.1) (h.given r e)

run_work-Refines :
    (id worker : String) (epoch : ℕ) (w : Work) (now : ℕ) (db : Db)
    → Refines db (run_work id worker epoch w now db)
unfolding run_work
run_work-Refines id worker epoch (heartbeat seconds) now db =
    forget-Refines db _ (heartbeat_run-Refines id worker epoch seconds now db)
run_work-Refines id worker epoch (round queries) now db =
    forget-Refines db _ (begin_retrieval_round-Refines id worker epoch queries now db)
run_work-Refines id worker epoch (reserve op attempt_id) now db =
    forget-Refines db _ (reserve_attempt-Refines id worker epoch op attempt_id now db)
run_work-Refines id worker epoch (stage kind payload) now db =
    forget-Refines db _ (append_stage_event-Refines id kind payload worker (some epoch) now db)
run_work-Refines id worker epoch (publish safe outcome message_id) now db =
    forget-Refines db _
      (publish_terminal_result-Refines id worker epoch safe outcome message_id now db)
run_work-Refines id worker epoch (fail code details) now db =
    forget-Refines db _ (fail_run-Refines id worker code details (some epoch) now db)
run_work-Refines id worker epoch (artifact kind payload artifact_id) now db =
    forget-Refines db _ (save_node_artifact-Refines id worker epoch kind payload artifact_id now db)

run_attempt_work-Refines :
    (id worker : String) (epoch : ℕ) (w : AttemptWork) (now : ℕ) (db : Db)
    → Refines db (run_attempt_work id worker epoch w now db)
unfolding run_attempt_work
run_attempt_work-Refines id worker epoch dispatch now db =
    forget-Refines db _ (mark_attempt_dispatched-Refines id worker epoch now db)
run_attempt_work-Refines id worker epoch (finish c) now db =
    forget-Refines db _ (finish_attempt-Refines id worker epoch c now db)

run-Refines :
    (x : Setting) (c : Call) (db : Db) → Distinct run_key db.runs → Refines db (run x c db)
unfolding run
run-Refines x (start_session principal title id) db keyed =
    forget-Refines db _ (create_session-Refines principal title id db)
run-Refines x (create c frozen ids clock) db keyed =
    forget-Refines db _ (create_run-Refines x.budget x.ttl c frozen ids clock db)
run-Refines x (cancel user id now) db keyed =
    forget-Refines db _ (cancel_run-Refines user id now db)
run-Refines x (resume user id now) db keyed =
    forget-Refines db _ (resume_run-Refines x.external user id now db)
run-Refines x (claim busy worker seconds now) db keyed =
    forget-Refines db _ (claim_next_run-Refines busy x.budget worker seconds now db keyed)
run-Refines x (recover busy limit cutoff) db keyed =
    forget-Refines db _ (recover_stale_runs-Refines busy limit cutoff db keyed)
run-Refines x (work id worker epoch w now) db keyed = run_work-Refines id worker epoch w now db
run-Refines x (on_attempt id worker epoch w now) db keyed =
    run_attempt_work-Refines id worker epoch w now db
run-Refines x (bind id worker epoch namespace checkpoint parent state now) db keyed =
    forget-Refines db _
      (bind_checkpoint-Refines x.external id worker epoch namespace checkpoint parent state now db)
run-Refines x (publish_any_epoch id worker safe message_id now) db keyed =
    forget-Refines db _ (publish_success-Refines id worker none safe message_id now db)
run-Refines x (stage_any_epoch id worker kind payload now) db keyed =
    forget-Refines db _ (append_stage_event-Refines id kind payload worker none now db)
run-Refines x (fail_any_epoch id worker code details now) db keyed =
    forget-Refines db _ (fail_run-Refines id worker code details none now db)

-- Where run_id is the primary key of the runs, whatever a method of the run service commits, the
-- writes of the abstract machine (Runs/Spec) make too; on an error nothing is written.
pub after-Moves :
    (x : Setting) (c : Call) (db : Db) → Distinct run_key db.runs → Moves db (after x c db)
unfolding after
after-Moves x c db keyed = go (run x c db) (run-Refines x c db keyed)
  where
    go : (m : Result (Unit {0} × Db)) → Refines db m → Moves db (elim m [ ok r ↦ r.1 | err e ↦ db ])
    go (ok r) h = h.given r refl
    go (err e) h = none_left

empty-IsValid : IsValid empty
unfolding find_by count_by last_attempt_no
empty-IsValid = record {
  timeline = λ id n. ground arith;
  sessions = record { keyed = tt; rows = refl; owned = refl; one_active = λ s. omega arith };
  published = record { answers = λ id. refl; stored = λ id. refl; said = λ id. refl };
  budgets = record {
    counted = λ id kind. refl;
    within = λ id l h. cc;
    numbered = λ id key. refl;
    retried = λ id key. omega arith;
  };
}

-- In every state that calls of the run service reach from the empty tables: the events of a run are
-- numbered from 1 to its event_sequence with no gap; rows keep their rules, a run's user is its
-- session's, and no session has two active runs; a run has a result and an assistant message
-- exactly if it is answer-bearing; and ledgers count the attempts, within the limits.
pub Call-IsValid : {x : Setting} {db : Db} → Reach x db → IsValid db
Call-IsValid start = empty-IsValid
Call-IsValid {x} (step {db} c reached) =
    let v = Call-IsValid reached in Moves-IsValid v (after-Moves x c db v.sessions.keyed)
