-- ===== src/Runs/Refines/Lifecycle.antt =====
-- cancel_run, heartbeat_run, append_stage_event and fail_run as writes of the abstract machine.
use legal_rag_agent.Prelude.{ℕ, ◌≡◌, refl, true, Option, none, some, String, arith, find_by, put_by}
use legal_rag_agent.Runs.Validate.{
  canonical_identifier, canonical_positive_integer, canonical_integer_up_to,
}
use legal_rag_agent.Runs.Result.{
  ok, ◌>>=◌, require, Gives-bind, Gives-check, Gives-checked, Gives-if, Gives-require, Gives-ok,
  Gives-err,
}
use legal_rag_agent.Runs.Tables.{
  Status, is_active, is_terminal, EventType, Payload, Run, Db, run_key,
}
use legal_rag_agent.Runs.Service.{run_row, advanced, assert_worker_lease}
use legal_rag_agent.Runs.Service.Lifecycle.{
  cancelled_row, cancel_run, extended, heartbeat_run, append_stage_event, failed_row, fail_run,
  has_failed_by,
}
use legal_rag_agent.Runs.Spec.{frozen, told, may_turn, row_ok, Refreshes, refresh, Moves-one}
use legal_rag_agent.Runs.Refines.{
  run_row-found, owned_run_row-found, Refines, TurnsPlain, reread-Refines, as_it_is-Refines,
  transition-Moves,
}

cancelled_row-Turns :
    (row : Run) (now : ℕ)
    → is_active row.status ≡ true
    → TurnsPlain row (advanced row (cancelled_row now) now row)
unfolding advanced cancelled_row frozen may_turn row_ok
cancelled_row-Turns row now h = (
  record {
    same = refl;
    turn = ground arith;
    sequence = refl;
    revision = refl;
    epoch = ground arith;
    deadline = λ e. refl;
    fits = λ e. ground arith;
  },
  ground arith,
)

pub cancel_run-Refines :
    (user id : String) (now : ℕ) (db : Db) → Refines db (cancel_run user id now db)
unfolding cancel_run
cancel_run-Refines user id now db = Gives-check _ _ (
    Gives-bind _ _ λ row e.
      Gives-if (is_terminal row.status) _ _ (λ t. as_it_is-Refines row db)
        λ t. Gives-require _ _ _ λ a. Gives-bind _ _ λ db' done. reread-Refines id db' (
          transition-Moves row _ _ _ now db db' (owned_run_row-found id user db row e) done
            (cancelled_row-Turns row now a)))

-- A valid lease is a running run's.
pub lease-running :
    (row : Run) (worker : String) (now : ℕ) (epoch : Option ℕ)
    → assert_worker_lease row worker now epoch ≡ ok tt
    → row.status ≡ Status.running
unfolding assert_worker_lease ◌>>=◌ require
lease-running row worker now epoch h = ground arith

extended-Refreshes :
    (row : Run) (seconds now : ℕ)
    → row.status ≡ Status.running
    → Refreshes row (extended seconds now row)
unfolding extended told row_ok
extended-Refreshes row seconds now h = record {
  same = refl;
  revision = refl;
  fits = λ e. ground arith;
}

extended-found :
    (row : Run) (seconds now : ℕ) (db : Db)
    → find_by run_key row.run_id db.runs ≡ some row
    → find_by run_key (extended seconds now row).run_id db.runs ≡ some row
unfolding extended
extended-found row seconds now db e = e

pub heartbeat_run-Refines :
    (id worker : String) (epoch seconds now : ℕ) (db : Db)
    → Refines db (heartbeat_run id worker epoch seconds now db)
unfolding heartbeat_run
heartbeat_run-Refines id worker epoch seconds now db = Gives-check (canonical_identifier id 36) _ (
    Gives-check (canonical_identifier worker 128) _ (
      Gives-check (canonical_positive_integer epoch) _ (
        Gives-check (canonical_integer_up_to seconds 86400) _ (
          Gives-bind (run_row id db) _ λ row e. Gives-checked _ _ λ leased.
            reread-Refines id
              (record db { runs = put_by run_key (extended seconds now row) db.runs })
              (Moves-one (
                refresh row (extended seconds now row)
                  (extended-found row seconds now db (run_row-found id db row e))
                  (extended-Refreshes row seconds now
                    (lease-running row worker now (some epoch) leased))))))))

-- An event alone.
pub noted-Turns :
    (row : Run) (now : ℕ)
    → row.status ≡ Status.running
    → TurnsPlain row (advanced row (λ r. r) now row)
unfolding advanced frozen may_turn row_ok
noted-Turns row now h = (
  record {
    same = refl;
    turn = ground arith;
    sequence = refl;
    revision = refl;
    epoch = ground arith;
    deadline = λ e. refl;
    fits = λ e. ground arith;
  },
  ground arith,
)

pub append_stage_event-Refines :
    (id : String) (kind : EventType) (safe_payload : Option Payload) (worker : String)
    (epoch : Option ℕ) (now : ℕ) (db : Db)
    → Refines db (append_stage_event id kind safe_payload worker epoch now db)
unfolding append_stage_event
append_stage_event-Refines id kind none worker epoch now db =
    Gives-check _ _ (Gives-check _ _ (Gives-check _ _ (Gives-err _)))
append_stage_event-Refines id kind (some payload) worker epoch now db = Gives-check _ _ (
    Gives-check _ _ (
      Gives-check _ _ (
        Gives-bind _ _ λ row e. Gives-checked _ _ λ leased. Gives-bind _ _ λ db' done.
          let running = lease-running row worker now epoch leased in
          Gives-ok _ (
            transition-Moves row _ kind payload now db db' (run_row-found id db row e) done
              (noted-Turns row now running)))))

failed_row-Turns :
    (row : Run) (code : String) (now : ℕ)
    → row.status ≡ Status.running
    → TurnsPlain row (advanced row (failed_row code now) now row)
unfolding advanced failed_row frozen may_turn row_ok
failed_row-Turns row code now h = (
  record {
    same = refl;
    turn = ground arith;
    sequence = refl;
    revision = refl;
    epoch = ground arith;
    deadline = λ e. refl;
    fits = λ e. ground arith;
  },
  ground arith,
)

pub fail_run-Refines :
    (id worker code : String) (details : Option Payload) (epoch : Option ℕ) (now : ℕ) (db : Db)
    → Refines db (fail_run id worker code details epoch now db)
unfolding fail_run
fail_run-Refines id worker code none epoch now db =
    Gives-check _ _ (Gives-check _ _ (Gives-check _ _ (Gives-err _)))
fail_run-Refines id worker code (some payload) epoch now db = Gives-check _ _ (
    Gives-check _ _ (
      Gives-check _ _ (
        Gives-bind _ _ λ row e.
          Gives-if (has_failed_by code row) _ _ (λ t. as_it_is-Refines row db)
            λ t. Gives-checked _ _ λ leased. Gives-bind _ _ λ db' done. reread-Refines id db' (
              transition-Moves row _ _ payload now db db' (run_row-found id db row e) done
                (failed_row-Turns row code now (lease-running row worker now epoch leased))))))
