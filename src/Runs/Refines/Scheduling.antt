-- ===== src/Runs/Refines/Scheduling.antt =====
-- claim_next_run and resume_run as writes of the abstract machine.
use legal_rag_agent.Prelude.{
  ℕ, ◌≡◌, refl, Bool, true, some, List, [], ◌∷◌, String, arith, inl, inr, Bool-cases, Option-cases,
  Each, Distinct, Stands, Distinct-Stands,
}
use mathlib.Core.Path.{subst}
use legal_rag_agent.Harness.Budget.{HarnessBudgetConfig}
use legal_rag_agent.Runs.Result.{ok, Gives-bind, Gives-check, Gives-if, Gives-require, Gives-ok}
use legal_rag_agent.Runs.Tables.{is_terminal, Run, Db, run_key}
use legal_rag_agent.Runs.Service.{RunRecord, reread, advanced}
use legal_rag_agent.Runs.Service.Claim.{
  is_claimable, is_free, oldest, before, claimed_row, claim_next_run, is_interrupted,
}
use legal_rag_agent.Runs.Service.Checkpoints.{External, resume_requested_row, resume_run}
use legal_rag_agent.Runs.Spec.{frozen, may_turn, row_ok, Moves, none_left}
use legal_rag_agent.Runs.Refines.{
  owned_run_row-found, Refines, TurnsPlain, reread-Refines, as_it_is-Refines, transition-Moves,
}

-- The row that a claim selects passes the test, and is as every row is.
pub oldest_passes : (p : Run → Bool) (rs : List Run) (r : Run) → oldest p rs ≡ some r → p r ≡ true
unfolding oldest
oldest_passes p [] r h = cc
oldest_passes p (q ∷ rs) r h = elim (Option-cases (oldest p rs)) [
  | inl nothing ↦ ground arith
  | inr (b, best) ↦ ground (arith, oldest_passes p rs b best)
]

pub oldest-Each :
    (P : Run → Type 0) (p : Run → Bool) (rs : List Run) (r : Run)
    → Each P rs
    → oldest p rs ≡ some r
    → P r
unfolding oldest
oldest-Each P p [] r each h = cc
oldest-Each P p (q ∷ rs) r (here, each) h = elim (Bool-cases (p q)) [
  | inr skip ↦ oldest-Each P p rs r each (ground arith)
  | inl pass ↦ elim (Option-cases (oldest p rs)) [
    | inl nothing ↦ let same : q ≡ r = ground arith in subst P same here
    | inr (b, best) ↦
        let at_best : P b = oldest-Each P p rs b each best in
        elim (Bool-cases (before b q)) [
          | inl t ↦ let same : b ≡ r = ground arith in subst P same at_best
          | inr t ↦ let same : q ≡ r = ground arith in subst P same here
        ]
  ]
]

pub claimed_row-Turns :
    (row : Run) (worker : String) (seconds : ℕ) (budget : HarnessBudgetConfig) (now : ℕ)
    → is_claimable row ≡ true
    → TurnsPlain row (advanced row (claimed_row worker seconds budget now) now row)
unfolding advanced claimed_row frozen may_turn row_ok is_claimable
claimed_row-Turns row worker seconds budget now h = (
  record {
    same = refl;
    turn = ground arith;
    sequence = refl;
    revision = refl;
    epoch = ground arith;
    deadline = λ e. ground arith;
    fits = λ e. ground arith;
  },
  refl,
)

pub rereads :
    (id : String) (db db' : Db) (r : RunRecord × Db)
    → reread id db' ≡ ok r
    → Moves db db'
    → Moves db r.1
rereads id db db' r e ms =
    let g : Refines db (reread id db') = reread-Refines id db' ms in g.given r e

pub claim_next_run-Refines :
    (busy : String → Bool) (budget : HarnessBudgetConfig) (worker : String) (seconds now : ℕ)
    (db : Db)
    → Distinct run_key db.runs
    → Refines db (claim_next_run busy budget worker seconds now db)
unfolding claim_next_run
claim_next_run-Refines busy budget worker seconds now db keyed = Gives-check _ _ (
    Gives-check _ _ (elim (Option-cases (oldest (is_free busy) db.runs)) [
      | inl nothing ↦ rw nothing (Gives-ok _ none_left)
      | inr (row, selected) ↦ rw selected (
          Gives-bind _ _ λ db' done. Gives-bind _ _ λ claimed e. Gives-ok _ (
            rereads row.run_id db db' claimed e (
              transition-Moves row _ _ _ now db db'
                (oldest-Each (Stands run_key db.runs) (is_free busy) db.runs row
                  (Distinct-Stands run_key db.runs keyed) selected)
                done
                (claimed_row-Turns row worker seconds budget now
                  (ground (arith, oldest_passes (is_free busy) db.runs row selected))))))
    ]))

resume_requested_row-Turns :
    (row : Run) (now : ℕ)
    → is_interrupted row.status ≡ true
    → TurnsPlain row (advanced row (resume_requested_row now) now row)
unfolding advanced resume_requested_row frozen may_turn row_ok
resume_requested_row-Turns row now h = (
  record {
    same = refl;
    turn = ground arith;
    sequence = refl;
    revision = refl;
    epoch = ground arith;
    deadline = λ e. refl;
    fits = λ e. ground arith;
  },
  ground arith,
)

pub resume_run-Refines :
    (x : External) (user id : String) (now : ℕ) (db : Db) → Refines db (resume_run x user id now db)
unfolding resume_run
resume_run-Refines x user id now db = Gives-check _ _ (
    Gives-bind _ _ λ row e.
      Gives-if (is_terminal row.status) _ _ (λ t. as_it_is-Refines row db)
        λ t. Gives-require _ _ _ λ waiting. Gives-bind _ _ λ trusted c.
          elim (Option-cases row.resume_requested_at) [
            | inl asked ↦ rw asked (
                Gives-bind _ _ λ db' done. reread-Refines id db' (
                  transition-Moves row _ _ _ now db db' (owned_run_row-found id user db row e) done
                    (resume_requested_row-Turns row now waiting)))
            | inr (at, asked) ↦ rw asked (as_it_is-Refines row db)
          ])
