-- ===== src/Runs/Invariant/Limits.antt =====
-- Ledgers and attempts under the writes of the abstract machine.
use legal_rag_agent.Prelude.{
  ℕ, ◌+◌, ◌≡◌, refl, Bool, none, some, List, [], ◌∷◌, map, String, arith, ◌=t=◌, ◌∙◌, sym,
  indicator, find_by, put_by, count_by, find-put_by, count-put_by, eq_iff, Bool-cases, inl, inr,
}
use legal_rag_agent.Runs.Tables.{
  OperationKind, same_kind, Ledger, Attempt, ledger_key, attempt_key, of_kind, of_key, Db,
}
use legal_rag_agent.Runs.Service.Budget.{used, maximum, spent, last_attempt_no}
use legal_rag_agent.Runs.Spec.{SameLimits, Rounds, SameAttempt, Reserves}
use legal_rag_agent.Runs.Invariant.{WithinLimits, Budgets}

last_attempt_no-put_by :
    (id key : String) (a a' : Attempt) (attempts : List Attempt)
    → find_by attempt_key a'.attempt_id attempts ≡ some a
    → SameAttempt a a'
    → last_attempt_no id key (put_by attempt_key a' attempts) ≡ last_attempt_no id key attempts
unfolding last_attempt_no put_by find_by
last_attempt_no-put_by id key a a' [] found same = refl
last_attempt_no-put_by id key a a' (b ∷ attempts) found same =
    elim (Bool-cases (b.attempt_id =t= a'.attempt_id)) [
      | inl here ↦ ground (arith, same.run, same.key, same.number)
      | inr there ↦ ground (arith, last_attempt_no-put_by id key a a' attempts)
    ]

count-map :
    (p : Attempt → Bool) (change : Attempt → Attempt) (attempts : List Attempt)
    → ((a : Attempt) → p (change a) ≡ p a)
    → count_by p (map change attempts) ≡ count_by p attempts
unfolding count_by
count-map p change [] same = refl
count-map p change (a ∷ attempts) same = ground (arith, same a, count-map p change attempts same)

last_attempt_no-map :
    (id key : String) (change : Attempt → Attempt) (attempts : List Attempt)
    → ((a : Attempt) → SameAttempt a (change a))
    → last_attempt_no id key (map change attempts) ≡ last_attempt_no id key attempts
unfolding last_attempt_no
last_attempt_no-map id key change [] same = refl
last_attempt_no-map id key change (a ∷ attempts) same = ground (
  arith,
  (same a).run,
  (same a).key,
  (same a).number,
  last_attempt_no-map id key change attempts same,
)

module _ (ledgers : List Ledger) (attempts : List Attempt) (v : Budgets ledgers attempts) where
  pub settle-Budgets :
      (a a' : Attempt)
      → find_by attempt_key a'.attempt_id attempts ≡ some a
      → SameAttempt a a'
      → Budgets ledgers (put_by attempt_key a' attempts)
  settle-Budgets a a' found same = record {
    counted = λ id kind. ground (
      arith,
      v.counted id kind,
      same.run,
      same.kind,
      count-put_by attempt_key (of_kind id kind) a a' attempts,
    );
    within = v.within;
    numbered = λ id key. ground (
      arith,
      v.numbered id key,
      same.run,
      same.key,
      last_attempt_no-put_by id key a a' attempts found same,
      count-put_by attempt_key (of_key id key) a a' attempts,
    );
    retried = λ id key.
        ground (arith, v.retried id key, last_attempt_no-put_by id key a a' attempts found same);
  }

  pub map-Budgets :
      (change : Attempt → Attempt)
      → ((a : Attempt) → SameAttempt a (change a))
      → Budgets ledgers (map change attempts)
  map-Budgets change same = record {
    counted = λ id kind.
        count-map (of_kind id kind) change attempts
          (λ a. ground (arith, (same a).run, (same a).kind))
        ∙ v.counted id kind;
    within = v.within;
    numbered = λ id key.
        count-map (of_key id key) change attempts (λ a. ground (arith, (same a).run, (same a).key))
        ∙ v.numbered id key
        ∙ sym (last_attempt_no-map id key change attempts same);
    retried =
        λ id key. ground (arith, v.retried id key, last_attempt_no-map id key change attempts same);
  }

  pub round-Budgets :
      (l l' : Ledger)
      → find_by ledger_key l'.run_id ledgers ≡ some l
      → Rounds l l'
      → Budgets (put_by ledger_key l' ledgers) attempts
  round-Budgets l l' found t = record {
    counted = λ id kind. ground (
      arith,
      v.counted id kind,
      find-put_by ledger_key id l' ledgers,
      t.attempts kind,
      eq_iff l'.run_id id,
    );
    within = λ id k there. elim (Bool-cases (l'.run_id =t= id)) [
      | inl here ↦
          let same : l' ≡ k =
            ground (arith, find-put_by ledger_key id l' ledgers, eq_iff l'.run_id id) in
          rw (← same) kept
      | inr other ↦ v.within id k (ground (arith, find-put_by ledger_key id l' ledgers))
    ];
    numbered = v.numbered;
    retried = λ id key. ground (
      arith,
      v.retried id key,
      find-put_by ledger_key id l' ledgers,
      t.limits.retries,
      eq_iff l'.run_id id,
    );
  }
    where
      kept : WithinLimits l'
      kept = record {
        rounds = ground (arith, t.limits.rounds, t.within_rounds);
        queries = ground (arith, t.limits.rounds, t.limits.queries, t.within_queries);
        attempts = λ kind. ground (
          arith,
          t.attempts kind,
          t.limits.attempts kind,
          (v.within l'.run_id l found).attempts kind,
        );
      }

pub used-spent :
    (kind kind' : OperationKind) (now : ℕ) (l : Ledger)
    → used kind (spent kind' now l) ≡ used kind l + indicator (same_kind kind' kind)
unfolding used spent
used-spent kind kind' now l = ground arith

-- What spending leaves.
pub record SpentKeeps (kind : OperationKind) (now : ℕ) (l : Ledger) : Type 0 where
  pub run : (spent kind now l).run_id ≡ l.run_id
  pub limits : SameLimits l (spent kind now l)
  pub rounds : (spent kind now l).retrieval_rounds_used ≡ l.retrieval_rounds_used
  pub queries : (spent kind now l).queries_used ≡ l.queries_used

pub spent-SpentKeeps : (kind : OperationKind) (now : ℕ) (l : Ledger) → SpentKeeps kind now l
unfolding spent maximum
spent-SpentKeeps kind now l = record {
  run = ground arith;
  limits = record {
    rounds = ground arith;
    queries = ground arith;
    attempts = λ k. ground arith;
    retries = ground arith;
  };
  rounds = ground arith;
  queries = ground arith;
}

module _ (db : Db) (v : Budgets db.ledgers db.attempts) (l : Ledger) (a : Attempt) (now : ℕ)
    (found : find_by ledger_key l.run_id db.ledgers ≡ some l) (t : Reserves db l a) where
  spent_within : WithinLimits (spent a.operation_kind now l)
  spent_within =
      let keeps = spent-SpentKeeps a.operation_kind now l in
      let old = v.within l.run_id l found in
      record {
        rounds = ground (arith, keeps.rounds, keeps.limits.rounds, old.rounds);
        queries =
            ground (arith, keeps.queries, keeps.limits.rounds, keeps.limits.queries, old.queries);
        attempts = λ kind. ground (
          arith,
          used-spent kind a.operation_kind now l,
          keeps.limits.attempts kind,
          old.attempts kind,
          t.room,
        );
      }

  pub reserve-Budgets :
      Budgets (put_by ledger_key (spent a.operation_kind now l) db.ledgers) (a ∷ db.attempts)
  reserve-Budgets =
      let keeps = spent-SpentKeeps a.operation_kind now l in
      let put =
        λ (id : String). find-put_by ledger_key id (spent a.operation_kind now l) db.ledgers in
      record {
        counted = λ id kind.
            unfold count_by in
            ground (
              arith,
              v.counted id kind,
              put id,
              keeps.run,
              t.run,
              eq_iff l.run_id id,
              used-spent kind a.operation_kind now l,
            );
        within = λ id k there. elim (Bool-cases (l.run_id =t= id)) [
          | inl here ↦
              let same : spent a.operation_kind now l ≡ k =
                ground (arith, put id, keeps.run, eq_iff l.run_id id) in
              rw (← same) spent_within
          | inr other ↦ v.within id k (ground (arith, put id, keeps.run))
        ];
        numbered = λ id key.
            unfold count_by last_attempt_no in
            ground
              (arith, v.numbered id key, t.number, eq_iff a.run_id id, eq_iff a.operation_key key);
        retried = λ id key.
            unfold last_attempt_no in
            ground (
              arith,
              v.retried id key,
              put id,
              keeps.run,
              keeps.limits.retries,
              t.run,
              t.retries,
              eq_iff l.run_id id,
            );
      }

pub new-Budgets :
    (ledgers : List Ledger) (attempts : List Attempt) (l : Ledger)
    → Budgets ledgers attempts
    → find_by ledger_key l.run_id ledgers ≡ none
    → l.retrieval_rounds_used ≡ 0
    → l.queries_used ≡ 0
    → ((kind : OperationKind) → used kind l ≡ 0)
    → Budgets (l ∷ ledgers) attempts
unfolding find_by
new-Budgets ledgers attempts l v free rounds queries unused = record {
  counted = λ id kind. ground (arith, v.counted id kind, unused kind, eq_iff l.run_id id);
  within = λ id k there. elim (Bool-cases (l.run_id =t= id)) [
    | inl here ↦
        let same : l ≡ k = ground arith in
        let kept : WithinLimits l = record {
          rounds = omega arith;
          queries = omega arith;
          attempts = λ kind. omega (arith, unused kind);
        } in
        rw (← same) kept
    | inr other ↦ v.within id k (ground arith)
  ];
  numbered = v.numbered;
  retried = λ id key. ground (arith, v.retried id key, eq_iff l.run_id id);
}
