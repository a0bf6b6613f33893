-- ===== src/Runs/Calls/Growth.antt =====
-- What the rows of the run service become from one call to the next.
use mathlib.Core.List.{append_assoc}
use legal_rag_agent.Prelude.{
  ◌≡◌, refl, sym, ap, ◌∙◌, some, List, [], ◌∷◌, ◌++◌, String, arith, find_by, eq_iff, Distinct,
}
use legal_rag_agent.Runs.Tables.{Run, Ledger, ResultRow, Event, Db, run_key, ledger_key, result_key}
use legal_rag_agent.Runs.Service.Budget.{spent}
use legal_rag_agent.Runs.Spec.{
  Move, open_session, begin, turn, refresh, answer, round, reserve, settle, settle_all, checkpoint,
  keep_artifact, Moves, none_left, one_more,
}
use legal_rag_agent.Runs.Invariant.Limits.{spent-SpentKeeps}
use legal_rag_agent.Runs.Calls.{Setting, Call, after}
use legal_rag_agent.Runs.Calls.Safety.{after-Moves}
use legal_rag_agent.Runs.Calls.Rows.{
  spent-LedgerGrows, RunGrows, LedgerGrows, RunGrows-trans, LedgerGrows-trans, Turns-RunGrows,
  Refreshes-RunGrows, Rounds-LedgerGrows, RunsGrow-refl, LedgersGrow-refl, RunsGrow-put,
  RunsGrow-cons, LedgersGrow-put, LedgersGrow-cons,
}

pub record Grows (db db' : Db) : Type 0 where
  pub runs :
      (id : String) (r : Run)
      → find_by run_key id db.runs ≡ some r
      → (r' : Run) × (find_by run_key id db'.runs ≡ some r') × RunGrows r r'
  pub ledgers :
      (id : String) (l : Ledger)
      → find_by ledger_key id db.ledgers ≡ some l
      → (l' : Ledger) × (find_by ledger_key id db'.ledgers ≡ some l') × LedgerGrows l l'
  pub results :
      (id : String) (r : ResultRow)
      → find_by result_key id db.results ≡ some r
      → find_by result_key id db'.results ≡ some r
  pub events : (more : List Event) × (db'.events ≡ more ++ db.events)

Move-Grows : {db : Db} {db' : Db} → Move db db' → Grows db db'
Move-Grows {db} (open_session s free) = record {
  runs = RunsGrow-refl db.runs;
  ledgers = LedgersGrow-refl db.ledgers;
  results = λ id r h. h;
  events = ([], refl);
}
Move-Grows {db} (begin r l m keys e b) = record {
  runs = RunsGrow-cons db.runs r b.absent;
  ledgers =
      LedgersGrow-cons db.ledgers l
        (ap (λ i. find_by ledger_key i db.ledgers) b.ledger ∙ b.no_ledger);
  results = λ id q h. h;
  events = (e ∷ [], refl);
}
Move-Grows {db} (turn r r' e found t plain tells) = record {
  runs = RunsGrow-put db.runs r r' found (Turns-RunGrows r r' t);
  ledgers = LedgersGrow-refl db.ledgers;
  results = λ id q h. h;
  events = (e ∷ [], refl);
}
Move-Grows {db} (refresh r r' found t) = record {
  runs = RunsGrow-put db.runs r r' found (Refreshes-RunGrows r r' t);
  ledgers = LedgersGrow-refl db.ledgers;
  results = λ id q h. h;
  events = ([], refl);
}
Move-Grows {db} (answer r r' m result e found t a tells) = record {
  runs = RunsGrow-put db.runs r r' found (Turns-RunGrows r r' t);
  ledgers = LedgersGrow-refl db.ledgers;
  results = λ id q h. unfold find_by in ground (arith, a.result, a.of_run, eq_iff result.run_id id);
  events = (e ∷ [], refl);
}
Move-Grows {db} (round l l' found t) = record {
  runs = RunsGrow-refl db.runs;
  ledgers = LedgersGrow-put db.ledgers l l' found (Rounds-LedgerGrows l l' t);
  results = λ id q h. h;
  events = ([], refl);
}
Move-Grows {db} (reserve l a now found t) = record {
  runs = RunsGrow-refl db.runs;
  ledgers =
      LedgersGrow-put db.ledgers l (spent a.operation_kind now l)
        (ap (λ i. find_by ledger_key i db.ledgers) (spent-SpentKeeps a.operation_kind now l).run
          ∙ found)
        (spent-LedgerGrows a.operation_kind now l);
  results = λ id q h. h;
  events = ([], refl);
}
Move-Grows {db} (settle a a' found t) = record {
  runs = RunsGrow-refl db.runs;
  ledgers = LedgersGrow-refl db.ledgers;
  results = λ id r h. h;
  events = ([], refl);
}
Move-Grows {db} (settle_all change t) = record {
  runs = RunsGrow-refl db.runs;
  ledgers = LedgersGrow-refl db.ledgers;
  results = λ id r h. h;
  events = ([], refl);
}
Move-Grows {db} (checkpoint c) = record {
  runs = RunsGrow-refl db.runs;
  ledgers = LedgersGrow-refl db.ledgers;
  results = λ id r h. h;
  events = ([], refl);
}
Move-Grows {db} (keep_artifact a free) = record {
  runs = RunsGrow-refl db.runs;
  ledgers = LedgersGrow-refl db.ledgers;
  results = λ id r h. h;
  events = ([], refl);
}

Grows-trans : (a b c : Db) → Grows a b → Grows b c → Grows a c
Grows-trans a b c g h =
    let (more, e) = g.events in
    let (further, f) = h.events in
    record {
      runs = λ id r found.
          let (s, at, gs) = g.runs id r found in
          let (t, at', gt) = h.runs id s at in (t, at', RunGrows-trans r s t gs gt);
      ledgers = λ id l found.
          let (m, at, gm) = g.ledgers id l found in
          let (n, at', gn) = h.ledgers id m at in (n, at', LedgerGrows-trans l m n gm gn);
      results = λ id r found. h.results id r (g.results id r found);
      events = (
        further ++ more,
        f ∙ ap (λ es. further ++ es) e ∙ sym (append_assoc further more a.events),
      );
    }

Moves-Grows : {a : Db} {b : Db} → Moves a b → Grows a b
Moves-Grows {a} none_left = record {
  runs = RunsGrow-refl a.runs;
  ledgers = LedgersGrow-refl a.ledgers;
  results = λ id r h. h;
  events = ([], refl);
}
Moves-Grows {a} {b} (one_more {mid} ms m) = Grows-trans a mid b (Moves-Grows ms) (Move-Grows m)

-- Where run_id is the primary key of the runs, no call loses what was: a run keeps its identity and
-- frozen configuration, its epoch, revision and event_sequence do not fall, a deadline that is set
-- stays, and of a terminal run only the checkpoint pointer, lease_expires_at, revision and updated_at
-- may change; a ledger keeps its limits and what is used is never refunded; a result stays as it is;
-- and events are only added.
pub Call-Grows :
    (x : Setting) (c : Call) (db : Db) → Distinct run_key db.runs → Grows db (after x c db)
Call-Grows x c db keyed = Moves-Grows (after-Moves x c db keyed)
