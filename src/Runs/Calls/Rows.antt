-- ===== src/Runs/Calls/Rows.antt =====
-- How a row of a run or of a ledger may change, alone and in its table.
use mathlib.Core.Path.{subst}
use legal_rag_agent.Prelude.{
  ℕ, ◌≤◌, ◌≡◌, refl, ap, ◌∙◌, true, none, some, List, ◌∷◌, String, arith, ◌=t=◌, is_some, find_by,
  put_by, find-put_by, eq_iff, Bool-cases, inl, inr,
}
use legal_rag_agent.Runs.Tables.{is_terminal, OperationKind, Run, Ledger, run_key, ledger_key}
use legal_rag_agent.Runs.Service.Budget.{used, spent}
use legal_rag_agent.Runs.Spec.{frozen, told, may_turn, Turns, Refreshes, SameLimits, Rounds}
use legal_rag_agent.Runs.Invariant.Limits.{used-spent, spent-SpentKeeps}

-- A run keeps its identity and frozen configuration, counters do not fall, a deadline that is set
-- stays, and of a terminal run nothing that an event tells changes.
pub record RunGrows (r r' : Run) : Type 0 where
  pub same : frozen r' ≡ frozen r
  pub sequence : r.event_sequence ≤ r'.event_sequence
  pub revision : r.revision ≤ r'.revision
  pub epoch : r.lease_epoch ≤ r'.lease_epoch
  pub deadline :
      is_some r.execution_deadline_at ≡ true → r'.execution_deadline_at ≡ r.execution_deadline_at
  pub terminal : is_terminal r.status ≡ true → told r' ≡ told r

-- A ledger keeps its limits, and nothing that is used is refunded.
pub record LedgerGrows (l l' : Ledger) : Type 0 where
  pub limits : SameLimits l l'
  pub rounds : l.retrieval_rounds_used ≤ l'.retrieval_rounds_used
  pub queries : l.queries_used ≤ l'.queries_used
  pub attempts : (kind : OperationKind) → used kind l ≤ used kind l'

pub RunGrows-refl : (r : Run) → RunGrows r r
RunGrows-refl r = record {
  same = refl;
  sequence = omega arith;
  revision = omega arith;
  epoch = omega arith;
  deadline = λ h. refl;
  terminal = λ h. refl;
}

told-terminal :
    (r r' : Run) → told r' ≡ told r → is_terminal r.status ≡ true → is_terminal r'.status ≡ true
unfolding told
told-terminal r r' same h = ap (λ (q : Run). is_terminal q.status) same ∙ h

pub RunGrows-trans : (q r s : Run) → RunGrows q r → RunGrows r s → RunGrows q s
RunGrows-trans q r s a b = record {
  same = b.same ∙ a.same;
  sequence = omega (arith, a.sequence, b.sequence);
  revision = omega (arith, a.revision, b.revision);
  epoch = omega (arith, a.epoch, b.epoch);
  deadline = λ h. b.deadline (ap is_some (a.deadline h) ∙ h) ∙ a.deadline h;
  terminal = λ h. b.terminal (told-terminal q r (a.terminal h) h) ∙ a.terminal h;
}

pub SameLimits-refl : (l : Ledger) → SameLimits l l
SameLimits-refl l = record { rounds = refl; queries = refl; attempts = λ k. refl; retries = refl }

pub LedgerGrows-refl : (l : Ledger) → LedgerGrows l l
LedgerGrows-refl l = record {
  limits = SameLimits-refl l;
  rounds = omega arith;
  queries = omega arith;
  attempts = λ k. omega arith;
}

pub LedgerGrows-trans : (k l m : Ledger) → LedgerGrows k l → LedgerGrows l m → LedgerGrows k m
LedgerGrows-trans k l m a b = record {
  limits = record {
    rounds = b.limits.rounds ∙ a.limits.rounds;
    queries = b.limits.queries ∙ a.limits.queries;
    attempts = λ kind. b.limits.attempts kind ∙ a.limits.attempts kind;
    retries = b.limits.retries ∙ a.limits.retries;
  };
  rounds = omega (arith, a.rounds, b.rounds);
  queries = omega (arith, a.queries, b.queries);
  attempts = λ kind. omega (arith, a.attempts kind, b.attempts kind);
}

pub Turns-RunGrows : (r r' : Run) → Turns r r' → RunGrows r r'
unfolding may_turn
Turns-RunGrows r r' t = record {
  same = t.same;
  sequence = omega (arith, t.sequence);
  revision = omega (arith, t.revision);
  epoch = ground (arith, t.epoch);
  deadline = t.deadline;
  terminal = λ h. ground (arith, t.turn);
}

pub Refreshes-RunGrows : (r r' : Run) → Refreshes r r' → RunGrows r r'
unfolding told frozen
Refreshes-RunGrows r r' t = record {
  same = ap frozen t.same;
  sequence = ground (arith, ap (λ (q : Run). q.event_sequence) t.same);
  revision = omega (arith, t.revision);
  epoch = ground (arith, ap (λ (q : Run). q.lease_epoch) t.same);
  deadline = λ h. ap (λ (q : Run). q.execution_deadline_at) t.same;
  terminal = λ h. t.same;
}

pub Rounds-LedgerGrows : (l l' : Ledger) → Rounds l l' → LedgerGrows l l'
Rounds-LedgerGrows l l' t = record {
  limits = t.limits;
  rounds = omega (arith, t.rounds);
  queries = t.queries;
  attempts = λ kind. omega (arith, t.attempts kind);
}

pub spent-LedgerGrows :
    (kind : OperationKind) (now : ℕ) (l : Ledger) → LedgerGrows l (spent kind now l)
spent-LedgerGrows kind now l =
    let keeps = spent-SpentKeeps kind now l in
    record {
      limits = keeps.limits;
      rounds = omega (arith, keeps.rounds);
      queries = omega (arith, keeps.queries);
      attempts = λ k. omega (arith, used-spent k kind now l);
    }

-- A table where the rows grow.
abbrev pub RunsGrow : List Run → List Run → Type 0
RunsGrow runs runs' =
    (id : String) (r : Run)
    → find_by run_key id runs ≡ some r
    → (r' : Run) × (find_by run_key id runs' ≡ some r') × RunGrows r r'

abbrev pub LedgersGrow : List Ledger → List Ledger → Type 0
LedgersGrow ledgers ledgers' =
    (id : String) (l : Ledger)
    → find_by ledger_key id ledgers ≡ some l
    → (l' : Ledger) × (find_by ledger_key id ledgers' ≡ some l') × LedgerGrows l l'

pub RunsGrow-refl : (runs : List Run) → RunsGrow runs runs
RunsGrow-refl runs id r h = (r, h, RunGrows-refl r)

pub LedgersGrow-refl : (ledgers : List Ledger) → LedgersGrow ledgers ledgers
LedgersGrow-refl ledgers id l h = (l, h, LedgerGrows-refl l)

pub RunsGrow-put :
    (runs : List Run) (r r' : Run)
    → find_by run_key r'.run_id runs ≡ some r
    → RunGrows r r'
    → RunsGrow runs (put_by run_key r' runs)
RunsGrow-put runs r r' found g id q h = elim (Bool-cases (r'.run_id =t= id)) [
  | inl here ↦
      let same : r ≡ q = ground (arith, eq_iff r'.run_id id) in
      (
        r',
        ground (arith, find-put_by run_key id r' runs),
        subst (λ (k : Run). RunGrows k r') same g,
      )
  | inr there ↦ (q, ground (arith, find-put_by run_key id r' runs), RunGrows-refl q)
]

pub RunsGrow-cons :
    (runs : List Run) (r : Run) → find_by run_key r.run_id runs ≡ none → RunsGrow runs (r ∷ runs)
unfolding find_by
RunsGrow-cons runs r free id q h = (q, ground (arith, eq_iff r.run_id id), RunGrows-refl q)

pub LedgersGrow-put :
    (ledgers : List Ledger) (l l' : Ledger)
    → find_by ledger_key l'.run_id ledgers ≡ some l
    → LedgerGrows l l'
    → LedgersGrow ledgers (put_by ledger_key l' ledgers)
LedgersGrow-put ledgers l l' found g id k h = elim (Bool-cases (l'.run_id =t= id)) [
  | inl here ↦
      let same : l ≡ k = ground (arith, eq_iff l'.run_id id) in
      (
        l',
        ground (arith, find-put_by ledger_key id l' ledgers),
        subst (λ (m : Ledger). LedgerGrows m l') same g,
      )
  | inr there ↦ (k, ground (arith, find-put_by ledger_key id l' ledgers), LedgerGrows-refl k)
]

pub LedgersGrow-cons :
    (ledgers : List Ledger) (l : Ledger)
    → find_by ledger_key l.run_id ledgers ≡ none
    → LedgersGrow ledgers (l ∷ ledgers)
unfolding find_by
LedgersGrow-cons ledgers l free id k h = (k, ground (arith, eq_iff l.run_id id), LedgerGrows-refl k)
