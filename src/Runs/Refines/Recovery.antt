-- ===== src/Runs/Refines/Recovery.antt =====
-- recover_stale_runs as writes of the abstract machine.
use legal_rag_agent.Prelude.{
  ℕ, zero, suc, ◌≡◌, refl, sym, ap, ◌∙◌, Bool, true, false, Option, none, some, List, [], ◌∷◌,
  String, arith, map, take, find_by, find-put_by, ◌=t=◌, eq_iff, eq_refl, ◌&&◌, not, Each, Each-imp,
  Each-take, Distinct, Stands, Distinct-Stands,
}
use mathlib.Core.Path.{subst}
use legal_rag_agent.Runs.Result.{ok, ◌>>=◌, Gives, Gives-bind, Gives-check, Gives-ok}
use legal_rag_agent.Runs.Tables.{Status, EventType, Payload, Run, Attempt, Db, run_key}
use legal_rag_agent.Runs.Service.{RunRecord, reread, advanced, transition_with_event}
use legal_rag_agent.Runs.Service.Recover.{
  is_stale, stale_rows, reconcile, announce, interrupted_row, recover_one, recover_rows,
  recover_stale_runs, checkpoint_created_at,
}
use legal_rag_agent.Runs.Spec.{
  frozen, may_turn, row_ok, SameAttempt, settle_all, Moves, Moves-one, Moves-append, none_left,
}
use legal_rag_agent.Runs.Refines.{Refines, TurnsPlain, transition-Moves, transition_lem}
use legal_rag_agent.Runs.Refines.Lifecycle.{noted-Turns}
use legal_rag_agent.Runs.Refines.Selection.{stale_rows-Distinct, stale_rows-Each, take-Distinct}

interrupted_row-Turns :
    (row : Run) (now : ℕ)
    → row.status ≡ Status.running
    → TurnsPlain row (advanced row interrupted_row now row)
unfolding advanced interrupted_row frozen may_turn row_ok
interrupted_row-Turns row now h = (
  record {
    same = refl;
    turn = ground arith;
    sequence = refl;
    revision = refl;
    epoch = ground arith;
    deadline = λ e. refl;
    fits = λ e. ground arith;
  },
  refl,
)

reconcile-SameAttempt :
    (row : Run) (checkpoint : Option ℕ) (cutoff : ℕ) (a : Attempt)
    → SameAttempt a (reconcile row checkpoint cutoff a)
unfolding reconcile
reconcile-SameAttempt row checkpoint cutoff a = record {
  attempt = ground arith;
  run = ground arith;
  key = ground arith;
  kind = ground arith;
  number = ground arith;
  epoch = ground arith;
}

-- Rows of other runs stay.
abbrev pub Leaves : String → Db → Db → Type 0
Leaves id db db' =
    (other : String)
    → (id =t= other) ≡ false
    → find_by run_key other db'.runs ≡ find_by run_key other db.runs

transition-Leaves :
    (row : Run) (values : Run → Run) (kind : EventType) (payload : Payload) (now : ℕ) (db db' : Db)
    → find_by run_key row.run_id db.runs ≡ some row
    → transition_with_event row values kind payload now db ≡ ok db'
    → (advanced row values now row).run_id ≡ row.run_id
    → Leaves row.run_id db db'
transition-Leaves row values kind payload now db db' found done same other ne =
    rw (transition_lem row values kind payload now db db' found done)
      (ground (arith, find-put_by run_key other (advanced row values now row) db.runs))

transition-found :
    (row : Run) (values : Run → Run) (kind : EventType) (payload : Payload) (now : ℕ) (db db' : Db)
    → find_by run_key row.run_id db.runs ≡ some row
    → transition_with_event row values kind payload now db ≡ ok db'
    → (advanced row values now row).run_id ≡ row.run_id
    → find_by run_key row.run_id db'.runs ≡ some (advanced row values now row)
transition-found row values kind payload now db db' found done same =
    rw (transition_lem row values kind payload now db db' found done) (
      ground (
        arith,
        eq_refl row.run_id,
        find-put_by run_key row.run_id (advanced row values now row) db.runs,
      ))

-- A run that is recovered: what is reached, its row there, and the other rows.
record Recovering (db : Db) (id : String) (r : Run × Db) : Type 0 where
  moves : Moves db r.1
  same : r.0.run_id ≡ id
  found : find_by run_key id r.1.runs ≡ some r.0
  running : r.0.status ≡ Status.running
  leaves : Leaves id db r.1

noted_running :
    (row : Run) (now : ℕ)
    → row.status ≡ Status.running
    → (advanced row (λ r. r) now row).status ≡ Status.running
unfolding advanced
noted_running row now h = h

noted_same : (row : Run) (now : ℕ) → (advanced row (λ r. r) now row).run_id ≡ row.run_id
unfolding advanced
noted_same row now = refl

announce-Recovering :
    (n : ℕ) (row : Run) (cutoff : ℕ) (start db : Db)
    → Recovering start row.run_id (row, db)
    → Gives (Recovering start row.run_id) (announce n row cutoff db)
unfolding announce
announce-Recovering zero row cutoff start db v = Gives-ok (row, db) v
announce-Recovering (suc n) row cutoff start db v = Gives-bind _ _ λ db' done.
    let next : Run = advanced row (λ r. r) cutoff row in
    let found : find_by run_key row.run_id db'.runs ≡ some next =
      transition-found row _ _ _ cutoff db db' v.found done (noted_same row cutoff) in
    let here : Recovering start row.run_id (next, db') = record {
      moves = Moves-append v.moves (
          transition-Moves row _ _ _ cutoff db db' v.found done (noted-Turns row cutoff v.running));
      same = noted_same row cutoff;
      found = found;
      running = noted_running row cutoff v.running;
      leaves = λ other ne.
          transition-Leaves row _ _ _ cutoff db db' v.found done (noted_same row cutoff) other ne
          ∙ v.leaves other ne;
    } in
    rw found (
      subst (λ (i : String). Gives (Recovering start i) (announce n next cutoff db'))
        (noted_same row cutoff)
        (announce-Recovering n next cutoff start db' (
          subst (λ (i : String). Recovering start i (next, db')) (sym (noted_same row cutoff))
            here)))

reread_same : (id : String) (db : Db) (r : RunRecord × Db) → reread id db ≡ ok r → db ≡ r.1
unfolding reread ◌>>=◌
reread_same id db r e = ground arith

interrupted_same :
    (row : Run) (now : ℕ) → (advanced row interrupted_row now row).run_id ≡ row.run_id
unfolding advanced interrupted_row
interrupted_same row now = refl

recover_one-Moves :
    (cutoff : ℕ) (row : Run) (db : Db)
    → Stands run_key db.runs row
    → row.status ≡ Status.running
    → Gives (λ r. Moves db r.1 × Leaves row.run_id db r.1) (recover_one cutoff row db)
unfolding recover_one
recover_one-Moves cutoff row db found running =
    let checkpoint = checkpoint_created_at row db.checkpoints in
    let start : Db = record db { attempts = map (reconcile row checkpoint cutoff) db.attempts } in
    let begun : Recovering db row.run_id (row, start) = record {
      moves = Moves-one (
          settle_all (reconcile row checkpoint cutoff)
            (reconcile-SameAttempt row checkpoint cutoff));
      same = refl;
      found = found;
      running = running;
      leaves = λ other ne. refl;
    } in
    Gives-bind _ _ λ (last, told_db) announced.
      let g : Gives (Recovering db row.run_id) (announce _ row cutoff start) =
        announce-Recovering _ row cutoff db start begun in
      let v : Recovering db row.run_id (last, told_db) = g.given (last, told_db) announced in
      Gives-bind _ _ λ db' done.
        let at : find_by run_key last.run_id told_db.runs ≡ some last =
          ap (λ i. find_by run_key i told_db.runs) v.same ∙ v.found in
        let ms : Moves db db' = Moves-append v.moves (
          transition-Moves last _ _ _ cutoff told_db db' at done
            (interrupted_row-Turns last cutoff v.running)) in
        let ls : Leaves row.run_id db db' = λ other ne.
          transition-Leaves last _ _ _ cutoff told_db db' at done (interrupted_same last cutoff)
            other (ap (λ i. i =t= other) v.same ∙ ne)
          ∙ v.leaves other ne in
        record {
          given = λ r e.
              let same : db' ≡ r.1 = reread_same last.run_id db' r e in
              subst (λ (d : Db). Moves db d × Leaves row.run_id db d) same (ms, ls);
        }

Stands-later :
    (id : String) (db db' : Db) (rows : List Run)
    → find_by run_key id rows ≡ none
    → Leaves id db db'
    → Each (Stands run_key db.runs) rows
    → Each (Stands run_key db'.runs) rows
unfolding find_by
Stands-later id db db' [] free l each = tt
Stands-later id db db' (q ∷ rows) free l (here, each) = (
  l q.run_id (ground (arith, eq_iff q.run_id id, eq_iff id q.run_id)) ∙ here,
  Stands-later id db db' rows (ground arith) l each,
)

recover_rows-Refines :
    (cutoff : ℕ) (rows : List Run) (db : Db)
    → Distinct run_key rows
    → Each (Stands run_key db.runs) rows
    → Each (λ (r : Run). r.status ≡ Status.running) rows
    → Refines db (recover_rows cutoff rows db)
unfolding recover_rows
recover_rows-Refines cutoff [] db keyed stand running = Gives-ok _ none_left
recover_rows-Refines cutoff (row ∷ rows) db (free, keyed) (stands, stand) (runs, running) =
    Gives-bind _ _ λ one e.
      let g : Gives (λ r. Moves db r.1 × Leaves row.run_id db r.1) (recover_one cutoff row db) =
        recover_one-Moves cutoff row db stands runs in
      let (ms, ls) = g.given one e in
      Gives-bind _ _ λ rest f.
        let h : Refines one.1 (recover_rows cutoff rows one.1) =
          recover_rows-Refines cutoff rows one.1 keyed
            (Stands-later row.run_id db one.1 rows free ls stand) running in
        Gives-ok _ (Moves-append ms (h.given rest f))

stale_running : (cutoff : ℕ) (r : Run) → is_stale cutoff r ≡ true → r.status ≡ Status.running
unfolding is_stale
stale_running cutoff r h = ground arith

pub recover_stale_runs-Refines :
    (busy : String → Bool) (limit cutoff : ℕ) (db : Db)
    → Distinct run_key db.runs
    → Refines db (recover_stale_runs busy limit cutoff db)
unfolding recover_stale_runs
recover_stale_runs-Refines busy limit cutoff db keyed =
    let p : Run → Bool = λ r. is_stale cutoff r && not (busy r.run_id) in
    let each = Each-take _ limit (stale_rows p db.runs) (
      stale_rows-Each (Stands run_key db.runs) p db.runs (Distinct-Stands run_key db.runs keyed)) in
    Gives-check _ _ (
      recover_rows-Refines cutoff (take limit (stale_rows p db.runs)) db
        (take-Distinct limit (stale_rows p db.runs) (stale_rows-Distinct p db.runs keyed))
        (Each-imp _ _ (λ r h. h.0) _ each)
        (Each-imp _ _ (λ r h. stale_running cutoff r (ground arith)) _ each))
