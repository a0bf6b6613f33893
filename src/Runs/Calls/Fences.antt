-- ===== src/Runs/Calls/Fences.antt =====
-- What a worker can do to a run whose lease it has lost.
use legal_rag_agent.Prelude.{
  ℕ, ◌<◌, ◌≡◌, ◌≢◌, refl, ap, Option, none, some, String, arith, find_by, Distinct, Option-cases,
  inl, inr,
}
use legal_rag_agent.Runs.Result.{
  Result, ok, err, ◌>>=◌, ◌>>◌, require, Gives, Gives-bind, Gives-check, Gives-checked, Gives-if,
  Gives-ok, Gives-err,
}
use legal_rag_agent.Runs.Tables.{
  Run, Db, run_key, attempt_key, Attempt, is_answer_bearing, EventType, Payload,
}
use legal_rag_agent.Runs.Service.{
  run_row, as_it_is, run_record, run_result_record, assert_worker_lease,
}
use legal_rag_agent.Runs.Service.Lifecycle.{
  heartbeat_run, append_stage_event, fail_run, has_failed_by,
}
use legal_rag_agent.Runs.Service.Budget.{begin_retrieval_round, reserve_attempt}
use legal_rag_agent.Runs.Service.Attempts.{attempt_row, mark_attempt_dispatched, finish_attempt}
use legal_rag_agent.Runs.Service.Publish.{
  SafeResult, Outcome, publish_result, publish_terminal_result, published_again, publish_first,
}
use legal_rag_agent.Runs.Calls.{
  Work, heartbeat, round, reserve, stage, publish, fail, artifact, AttemptWork, dispatch, finish,
  Call, work, on_attempt, forget, run_work, run_attempt_work, run, Setting, after,
}
use legal_rag_agent.Runs.Service.Artifacts.{save_node_artifact}
use legal_rag_agent.Runs.Calls.Growth.{Call-Grows}

-- What commits nothing.
abbrev Keeps : {A : Type 0} → Db → Result (A × Db) → Type 0
Keeps db m = Gives (λ r. r.1 ≡ db) m

forget-Keeps : {A : Type 0} (db : Db) (m : Result (A × Db)) → Keeps db m → Keeps db (forget m)
unfolding forget
forget-Keeps db m h = Gives-bind m _ λ r e. Gives-ok (tt, r.1) (h.given r e)

as_it_is-Keeps : (row : Run) (db : Db) → Keeps db (as_it_is row db)
unfolding as_it_is
as_it_is-Keeps row db = Gives-bind (run_record row db) _ λ answer e. Gives-ok (answer, db) refl

-- The worker's lease on the run is lost: the row that is there does not pass the test.
abbrev pub NotHeld : String → String → ℕ → ℕ → Db → Type 0
NotHeld id worker epoch now db =
    (row : Run)
    → find_by run_key id db.runs ≡ some row
    → assert_worker_lease row worker now (some epoch) ≢ ok tt

run_row_lem :
    (id : String) (db : Db) (row : Run)
    → run_row id db ≡ ok row
    → find_by run_key id db.runs ≡ some row
unfolding run_row
run_row_lem id db row e = ground arith

module _ (id worker : String) (epoch now : ℕ) (db : Db)
    (lost : NotHeld id worker epoch now db) where
  refused :
      {A : Type 0} (row : Run) (rest : Result (A × Db))
      → run_row id db ≡ ok row
      → Keeps db (assert_worker_lease row worker now (some epoch) >> rest)
  refused row rest e =
      Gives-checked _ _ λ leased. absurd (lost row (run_row_lem id db row e) leased)

  published_again-Keeps :
      (row : Run) (result : SafeResult) (outcome : Outcome)
      → Keeps db (published_again outcome result row db)
  unfolding published_again
  published_again-Keeps row result outcome = elim (Option-cases (run_result_record row.run_id db)) [
    | inl missing ↦ rw (missing, published_again) (Gives-err _)
    | inr (existing, there) ↦ rw (there, published_again) (Gives-check _ _ (as_it_is-Keeps row db))
  ]

  publish-Keeps :
      (safe : Option SafeResult) (outcome : Outcome) (message_id : String)
      → Keeps db (publish_result id worker (some epoch) safe outcome message_id now db)
  unfolding publish_result publish_first
  publish-Keeps none outcome message_id =
      Gives-check _ _ (Gives-check _ _ (Gives-check _ _ (Gives-check _ _ (Gives-err _))))
  publish-Keeps (some result) outcome message_id = Gives-check _ _ (
      Gives-check _ _ (
        Gives-check _ _ (
          Gives-check _ _ (
            Gives-bind _ _ λ row e.
              Gives-if (is_answer_bearing row.status) _ _
                (λ t. published_again-Keeps row result outcome) λ t. refused row _ e))))

  fail-Keeps :
      (code : String) (details : Option Payload)
      → Keeps db (fail_run id worker code details (some epoch) now db)
  unfolding fail_run
  fail-Keeps code none = Gives-check _ _ (Gives-check _ _ (Gives-check _ _ (Gives-err _)))
  fail-Keeps code (some payload) = Gives-check _ _ (
      Gives-check _ _ (
        Gives-check _ _ (
          Gives-bind _ _ λ row e.
            Gives-if (has_failed_by code row) _ _ (λ t. as_it_is-Keeps row db)
              λ t. refused row _ e)))

  stage-Keeps :
      (kind : EventType) (safe : Option Payload)
      → Keeps db (append_stage_event id kind safe worker (some epoch) now db)
  unfolding append_stage_event
  stage-Keeps kind none = Gives-check _ _ (Gives-check _ _ (Gives-check _ _ (Gives-err _)))
  stage-Keeps kind (some payload) =
      Gives-check _ _ (Gives-check _ _ (Gives-check _ _ (Gives-bind _ _ λ row e. refused row _ e)))

  artifact-Keeps :
      (kind : String) (payload : Option (String × String)) (artifact_id : String)
      → Keeps db (save_node_artifact id worker epoch kind payload artifact_id now db)
  unfolding save_node_artifact
  artifact-Keeps kind none artifact_id =
      Gives-check _ _ (Gives-check _ _ (Gives-check _ _ (Gives-bind _ _ λ identity i. Gives-err _)))
  artifact-Keeps kind (some (payload, digest)) artifact_id = Gives-check _ _ (
      Gives-check _ _
        (Gives-check _ _ (Gives-bind _ _ λ identity i. Gives-bind _ _ λ row e. refused row _ e)))

  work-Keeps : (w : Work) → Keeps db (run_work id worker epoch w now db)
  unfolding run_work heartbeat_run begin_retrieval_round reserve_attempt publish_terminal_result
  work-Keeps (heartbeat seconds) = forget-Keeps db _ (
      Gives-check _ _ (
        Gives-check _ _
          (Gives-check _ _ (Gives-check _ _ (Gives-bind _ _ λ row e. refused row _ e)))))
  work-Keeps (round queries) = forget-Keeps db _ (
      Gives-check _ _ (
        Gives-check _ _
          (Gives-check _ _ (Gives-check _ _ (Gives-bind _ _ λ row e. refused row _ e)))))
  work-Keeps (reserve op attempt_id) = forget-Keeps db _ (
      Gives-check _ _ (
        Gives-check _ _ (
          Gives-check _ _ (
            Gives-check _ _
              (Gives-check _ _ (Gives-check _ _ (Gives-bind _ _ λ row e. refused row _ e)))))))
  work-Keeps (stage kind payload) = forget-Keeps db _ (stage-Keeps kind payload)
  work-Keeps (publish safe outcome message_id) =
      forget-Keeps db _ (Gives-check _ _ (publish-Keeps safe outcome message_id))
  work-Keeps (fail code details) = forget-Keeps db _ (fail-Keeps code details)
  work-Keeps (artifact kind payload artifact_id) =
      forget-Keeps db _ (artifact-Keeps kind payload artifact_id)

  -- A worker that has lost its lease on a run (another owner or epoch, an expired lease, or a run
  -- that is not running) changes nothing by a heartbeat, a retrieval round, a reservation, a stage
  -- event, a publication, a failure of the run or a node's artifact.
  pub lost_run_writes_nothing :
      (x : Setting) (w : Work) → after x (work id worker epoch w now) db ≡ db
  unfolding after run
  lost_run_writes_nothing x w = go (run_work id worker epoch w now db) (work-Keeps w)
    where
      go : (m : Result (Unit {0} × Db)) → Keeps db m → elim m [ ok r ↦ r.1 | err e ↦ db ] ≡ db
      go (ok r) h = h.given r refl
      go (err e) h = refl

-- The same for an attempt of the run.
attempt-Keeps :
    (attempt_id worker : String) (epoch now : ℕ) (db : Db)
    → ((a : Attempt)
        → find_by attempt_key attempt_id db.attempts ≡ some a
        → NotHeld a.run_id worker epoch now db)
    → (w : AttemptWork) → Keeps db (run_attempt_work attempt_id worker epoch w now db)
unfolding run_attempt_work mark_attempt_dispatched finish_attempt attempt_row
attempt-Keeps attempt_id worker epoch now db lost dispatch = forget-Keeps db _ (
    Gives-check _ _ (
      Gives-check _ _ (
        Gives-check _ _ (
          Gives-bind _ _ λ a f.
            Gives-bind _ _
              λ row e. refused a.run_id worker epoch now db (lost a (ground arith)) row _ e))))
attempt-Keeps attempt_id worker epoch now db lost (finish c) = forget-Keeps db _ (
    Gives-check _ _ (
      Gives-check _ _ (
        Gives-check _ _ (
          Gives-check _ _ (
            Gives-bind _ _ λ values v. Gives-bind _ _ λ a f.
              Gives-bind _ _
                λ row e. refused a.run_id worker epoch now db (lost a (ground arith)) row _ e)))))

-- A worker that has lost its lease on an attempt's run changes nothing by dispatching or finishing
-- the attempt.
pub lost_attempt_writes_nothing :
    (x : Setting) (attempt_id worker : String) (epoch now : ℕ) (db : Db) (w : AttemptWork)
    → ((a : Attempt)
        → find_by attempt_key attempt_id db.attempts ≡ some a
        → NotHeld a.run_id worker epoch now db)
    → after x (on_attempt attempt_id worker epoch w now) db ≡ db
unfolding after run
lost_attempt_writes_nothing x attempt_id worker epoch now db w lost =
    go (run_attempt_work attempt_id worker epoch w now db)
      (attempt-Keeps attempt_id worker epoch now db lost w)
  where
    go : (m : Result (Unit {0} × Db)) → Keeps db m → elim m [ ok r ↦ r.1 | err e ↦ db ] ≡ db
    go (ok r) h = h.given r refl
    go (err e) h = refl

stale_epoch :
    (row : Run) (worker : String) (epoch now : ℕ)
    → epoch < row.lease_epoch
    → assert_worker_lease row worker now (some epoch) ≢ ok tt
unfolding assert_worker_lease ◌>>=◌ require
stale_epoch row worker epoch now h = ground arith

-- Once a run has passed to a later epoch, a lease of the earlier epoch is lost after every further
-- call, whatever it is.
pub superseded_stays_lost :
    (x : Setting) (c : Call) (db : Db) (row : Run) (id worker : String) (epoch now : ℕ)
    → Distinct run_key db.runs
    → find_by run_key id db.runs ≡ some row
    → epoch < row.lease_epoch
    → NotHeld id worker epoch now (after x c db)
superseded_stays_lost x c db row id worker epoch now keyed found older row' found' =
    let (next, at, grows) = (Call-Grows x c db keyed).runs id row found in
    let same : next ≡ row' = ground arith in
    stale_epoch row' worker epoch now
      (ground (arith, grows.epoch, ap (λ (r : Run). r.lease_epoch) same))
