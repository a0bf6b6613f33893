-- ===== src/Runs/Refines.antt =====
-- From the service's helpers to the writes of the abstract machine.
pub mod Lifecycle
pub mod Scheduling
pub mod Selection
pub mod Recovery
pub mod Artifacts
pub mod Spending
pub mod Answers
pub mod Creation
use mathlib.Core.Path.{subst}
use legal_rag_agent.Prelude.{
  ℕ, ◌+◌, ◌≡◌, refl, sym, ap, ◌∙◌, Bool, true, false, Option, none, some, List, ◌∷◌, String, arith,
  find_by, put_by, find_by-key, find_by_self, eq_iff, eq_refl, ◌⊎◌, inl, inr, ◌=t=◌, ◌==◌,
  Bool-cases,
}
use legal_rag_agent.Runs.Result.{Result, ok, err, ◌>>=◌, Gives, Gives-bind, Gives-ok}
use legal_rag_agent.Runs.Tables.{
  is_answer_bearing, EventType, Payload, Run, Event, Db, run_key, has_event,
}
use legal_rag_agent.Runs.Service.{
  RunRecord, run_row, owned_run_row, run_record, reread, as_it_is, insert_event, advanced, event_of,
  transition_with_event,
}
use legal_rag_agent.Runs.Spec.{frozen, Turns, Tells, Move, turn, Moves, Moves-one, none_left}

-- A row that is read is the run's row in the tables.
pub run_row-found :
    (id : String) (db : Db) (row : Run)
    → run_row id db ≡ ok row
    → find_by run_key row.run_id db.runs ≡ some row
unfolding run_row
run_row-found id db row h = find_by_self run_key id db.runs row (ground arith)

pub owned_run_row-found :
    (id user : String) (db : Db) (row : Run)
    → owned_run_row id user db ≡ ok row
    → find_by run_key row.run_id db.runs ≡ some row
unfolding owned_run_row
owned_run_row-found id user db row h = find_by_self run_key id db.runs row (ground arith)

-- An operation that commits only what writes of the machine make.
abbrev pub Refines : {A : Type 0} → Db → Result (A × Db) → Type 0
Refines db m = Gives (λ r. Moves db r.1) m

-- Reading at the end changes nothing.
pub reread-Refines : {db : Db} (id : String) (db' : Db) → Moves db db' → Refines db (reread id db')
unfolding reread ◌>>=◌
reread-Refines {db} id db' ms = record { given = λ r e. rw (reads r e) ms }
  where
    reads : (r : RunRecord × Db) → reread id db' ≡ ok r → r.1 ≡ db'
    reads r e = ground arith

pub as_it_is-Refines : (row : Run) (db : Db) → Refines db (as_it_is row db)
unfolding as_it_is
as_it_is-Refines row db =
    Gives-bind (run_record row db) _ λ answer e. Gives-ok (answer, db) none_left

-- A transition that answers nothing.
abbrev pub TurnsPlain : Run → Run → Type 0
TurnsPlain r r' = Turns r r' × (is_answer_bearing r'.status ≡ false)

module _ (row : Run) (values : Run → Run) (kind : EventType) (payload : Payload) (now : ℕ)
    (db db' : Db) (found : find_by run_key row.run_id db.runs ≡ some row)
    (done : transition_with_event row values kind payload now db ≡ ok db') where
  pub transition_lem : db' ≡ record db {
    runs = put_by run_key (advanced row values now row) db.runs;
    events = event_of row kind payload now ∷ db.events;
  }
  unfolding transition_with_event insert_event
  transition_lem = ground arith

  pub transition-Moves : TurnsPlain row (advanced row values now row) → Moves db db'
  unfolding advanced frozen
  transition-Moves (t, plain) =
      let id : (advanced row values now row).run_id ≡ row.run_id =
        ap (λ (r : Run). r.run_id) t.same in
      rw transition_lem (
        Moves-one (
          turn row (advanced row values now row) (event_of row kind payload now)
            (ap (λ i. find_by run_key i db.runs) id ∙ found) t plain
            (record { run = sym id; sequence = sym t.sequence })))
