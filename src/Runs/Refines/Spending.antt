-- ===== src/Runs/Refines/Spending.antt =====
-- begin_retrieval_round, reserve_attempt, mark_attempt_dispatched and finish_attempt as writes of
-- the abstract machine.
use legal_rag_agent.Prelude.{
  ℕ, ◌+◌, ◌*◌, ◌≡◌, refl, sym, ap, ◌∙◌, true, none, some, ◌∷◌, String, arith, find_by, put_by,
  find_by-key, find_by_self, inl, inr, ltb, leb, Option-cases,
}
use legal_rag_agent.Runs.Result.{
  ok, Gives, Gives-bind, Gives-check, Gives-checked, Gives-if, Gives-require, Gives-ok, Gives-err,
}
use legal_rag_agent.Runs.Tables.{
  OperationKind, outcome_unknown, dispatched, succeeded, Ledger, Attempt, Db, ledger_key,
  attempt_key,
}
use legal_rag_agent.Runs.Service.Budget.{
  ledger_of, with_round, begin_retrieval_round, last_attempt_no, used, maximum, spent, Operation,
  reserved_attempt, insert_attempt, reserve_attempt,
}
use legal_rag_agent.Runs.Service.Attempts.{
  attempt_row, same_status, dispatched_attempt, mark_attempt_dispatched, Completion, success_values,
  failure_values, completion_values, finished_attempt, finish_attempt,
}
use legal_rag_agent.Runs.Spec.{
  Rounds, Reserves, SameAttempt, round, reserve, settle, Moves, Moves-one, Moves-append, none_left,
}
use legal_rag_agent.Runs.Refines.{run_row-found, Refines, transition-Moves}
use legal_rag_agent.Runs.Refines.Lifecycle.{lease-running, noted-Turns}

-- A ledger that is read is the run's ledger in the tables.
ledger_of-found :
    (id : String) (db : Db) (l : Ledger)
    → ledger_of id db ≡ ok l
    → find_by ledger_key l.run_id db.ledgers ≡ some l
unfolding ledger_of
ledger_of-found id db l h = find_by_self ledger_key id db.ledgers l (ground arith)

ledger_of-id : (id : String) (db : Db) (l : Ledger) → ledger_of id db ≡ ok l → l.run_id ≡ id
unfolding ledger_of
ledger_of-id id db l h = find_by-key ledger_key id db.ledgers l (ground arith)

attempt_row-found :
    (id : String) (db : Db) (a : Attempt)
    → attempt_row id db ≡ ok a
    → find_by attempt_key a.attempt_id db.attempts ≡ some a
unfolding attempt_row
attempt_row-found id db a h = find_by_self attempt_key id db.attempts a (ground arith)

with_round-Rounds :
    (queries now : ℕ) (l : Ledger)
    → ltb l.retrieval_rounds_used l.max_retrieval_rounds ≡ true
    → leb (l.queries_used + queries) (l.max_retrieval_rounds * l.max_queries_per_round) ≡ true
    → Rounds l (with_round queries now l)
unfolding with_round used maximum
with_round-Rounds queries now l h k = record {
  limits = record {
    rounds = refl;
    queries = refl;
    attempts = λ kind. ground arith;
    retries = refl;
  };
  rounds = refl;
  within_rounds = ground arith;
  queries = omega arith;
  within_queries = ground arith;
  attempts = λ kind. ground arith;
}

with_round-found :
    (queries now : ℕ) (l : Ledger) (db : Db)
    → find_by ledger_key l.run_id db.ledgers ≡ some l
    → find_by ledger_key (with_round queries now l).run_id db.ledgers ≡ some l
unfolding with_round
with_round-found queries now l db h = h

pub begin_retrieval_round-Refines :
    (id worker : String) (epoch queries now : ℕ) (db : Db)
    → Refines db (begin_retrieval_round id worker epoch queries now db)
unfolding begin_retrieval_round
begin_retrieval_round-Refines id worker epoch queries now db = Gives-check _ _ (
    Gives-check _ _ (
      Gives-check _ _ (
        Gives-check _ _ (
          Gives-bind _ _ λ row e. Gives-check _ _ (
            Gives-check _ _ (
              Gives-bind _ _ λ l f. Gives-check _ _ (
                Gives-require _ _ _ λ rounds. Gives-require _ _ _ λ room.
                  Gives-bind _ _ λ snapshot s. Gives-ok _ (
                    Moves-one (
                      round l (with_round queries now l)
                        (with_round-found queries now l db (ledger_of-found id db l f))
                        (with_round-Rounds queries now l rounds room))))))))))

reserved_attempt-Reserves :
    (id attempt_id : String) (epoch now : ℕ) (op : Operation) (db : Db) (l : Ledger)
    → l.run_id ≡ id
    → find_by attempt_key attempt_id db.attempts ≡ none
    → leb (last_attempt_no id op.key db.attempts + 1) (l.max_retry_per_operation + 1) ≡ true
    → ltb (used op.kind l) (maximum op.kind l) ≡ true
    → Reserves db l
        (reserved_attempt attempt_id id epoch op (last_attempt_no id op.key db.attempts + 1) now)
unfolding reserved_attempt
reserved_attempt-Reserves id attempt_id epoch now op db l same fresh retries room = record {
  fresh = fresh;
  run = sym same;
  number = refl;
  retries = ground arith;
  room = ground arith;
}

reserve-Moves :
    (db : Db) (l : Ledger) (a : Attempt) (kind : OperationKind) (now : ℕ) (db' : Db)
    → a.operation_kind ≡ kind
    → find_by ledger_key l.run_id db.ledgers ≡ some l
    → (find_by attempt_key a.attempt_id db.attempts ≡ none → Reserves db l a)
    → insert_attempt a (record db { ledgers = put_by ledger_key (spent kind now l) db.ledgers })
      ≡ ok db'
    → Moves db db'
unfolding insert_attempt
reserve-Moves db l a kind now db' same found reserves done =
    elim (Option-cases (find_by attempt_key a.attempt_id db.attempts)) [
      | inr (b, taken) ↦ ground arith
      | inl fresh ↦
          let last : db' ≡ record db {
            ledgers = put_by ledger_key (spent a.operation_kind now l) db.ledgers;
            attempts = a ∷ db.attempts;
          } =
            ground arith in
          rw last (Moves-one (reserve l a now found (reserves fresh)))
    ]

reserved_kind :
    (attempt_id id : String) (epoch n now : ℕ) (op : Operation)
    → (reserved_attempt attempt_id id epoch op n now).operation_kind ≡ op.kind
unfolding reserved_attempt
reserved_kind attempt_id id epoch n now op = refl

reserved_id :
    (attempt_id id : String) (epoch n now : ℕ) (op : Operation)
    → (reserved_attempt attempt_id id epoch op n now).attempt_id ≡ attempt_id
unfolding reserved_attempt
reserved_id attempt_id id epoch n now op = refl

pub reserve_attempt-Refines :
    (id worker : String) (epoch : ℕ) (op : Operation) (attempt_id : String) (now : ℕ) (db : Db)
    → Refines db (reserve_attempt id worker epoch op attempt_id now db)
unfolding reserve_attempt
reserve_attempt-Refines id worker epoch op attempt_id now db = Gives-check _ _ (
    Gives-check _ _ (
      Gives-check _ _ (
        Gives-check _ _ (
          Gives-check _ _ (
            Gives-check _ _ (
              Gives-bind _ _ λ row e. Gives-check _ _ (
                Gives-check _ _ (
                  Gives-bind _ _ λ l f. Gives-require _ _ _ λ retries. Gives-require _ _ _ λ room.
                    Gives-bind _ _ λ db' done.
                      let n : ℕ = last_attempt_no id op.key db.attempts + 1 in
                      Gives-ok _ (
                        reserve-Moves db l (reserved_attempt attempt_id id epoch op n now) op.kind
                          now db' (reserved_kind attempt_id id epoch n now op)
                          (ledger_of-found id db l f)
                          (λ fresh.
                            reserved_attempt-Reserves id attempt_id epoch now op db l
                              (ledger_of-id id db l f)
                              (ap (λ i. find_by attempt_key i db.attempts)
                                  (sym (reserved_id attempt_id id epoch n now op))
                                ∙ fresh)
                              retries room)
                          done)))))))))

dispatched_attempt-SameAttempt :
    (id : String) (now : ℕ) (a : Attempt) → SameAttempt a (dispatched_attempt id now a)
unfolding dispatched_attempt
dispatched_attempt-SameAttempt id now a = record {
  attempt = refl;
  run = refl;
  key = refl;
  kind = refl;
  number = refl;
  epoch = refl;
}

-- An attempt's row replaced by a later one.
settle-Moves :
    (db : Db) (a a' : Attempt)
    → find_by attempt_key a.attempt_id db.attempts ≡ some a
    → SameAttempt a a'
    → Moves db (record db { attempts = put_by attempt_key a' db.attempts })
settle-Moves db a a' found same =
    Moves-one (settle a a' (ap (λ i. find_by attempt_key i db.attempts) same.attempt ∙ found) same)

pub mark_attempt_dispatched-Refines :
    (id worker : String) (epoch now : ℕ) (db : Db)
    → Refines db (mark_attempt_dispatched id worker epoch now db)
unfolding mark_attempt_dispatched
mark_attempt_dispatched-Refines id worker epoch now db = Gives-check _ _ (
    Gives-check _ _ (
      Gives-check _ _ (
        Gives-bind _ _ λ a f. Gives-bind _ _ λ row e. Gives-check _ _ (
          Gives-check _ _ (
            Gives-check _ _ (
              Gives-if (same_status a.status dispatched) _ _ (λ t. Gives-ok _ none_left)
                λ t. Gives-check _ _ (
                  Gives-ok _ (
                    settle-Moves db a (dispatched_attempt id now a) (attempt_row-found id db a f)
                      (dispatched_attempt-SameAttempt id now a)))))))))

-- The values of a completion leave what an attempt is.
KeepsAttempt : (Attempt → Attempt) → Type 0
KeepsAttempt values = (a : Attempt) → SameAttempt a (values a)

success_values-KeepsAttempt :
    (c : Completion) (ref : String) → Gives KeepsAttempt (success_values c ref)
unfolding success_values KeepsAttempt
success_values-KeepsAttempt c ref = elim (Option-cases c.result_hash) [
  | inl missing ↦ rw missing (Gives-err _)
  | inr (digest, given) ↦ rw given (
      Gives-check _ _ (
        Gives-ok _ (λ a. record {
          attempt = refl;
          run = refl;
          key = refl;
          kind = refl;
          number = refl;
          epoch = refl;
        })))
]

failure_values-KeepsAttempt : (c : Completion) → Gives KeepsAttempt (failure_values c)
unfolding failure_values KeepsAttempt
failure_values-KeepsAttempt c = elim (Option-cases c.retryable) [
  | inl missing ↦ rw missing (Gives-err _)
  | inr (again, given) ↦ rw given (elim (Option-cases c.error_code) [
    | inl missing ↦ rw missing (Gives-err _)
    | inr (code, coded) ↦ rw coded (
        Gives-check _ _ (
          Gives-ok _ (λ a. record {
            attempt = refl;
            run = refl;
            key = refl;
            kind = refl;
            number = refl;
            epoch = refl;
          })))
  ])
]

completion_values-KeepsAttempt :
    (c : Completion) (ref : String) → Gives KeepsAttempt (completion_values c ref)
unfolding completion_values
completion_values-KeepsAttempt c ref =
    Gives-if (same_status c.status succeeded) _ _ (λ t. success_values-KeepsAttempt c ref)
      λ t. failure_values-KeepsAttempt c

finished_attempt-SameAttempt :
    (values : Attempt → Attempt) (now : ℕ) (a : Attempt)
    → SameAttempt a (values a)
    → SameAttempt a (finished_attempt values now a)
unfolding finished_attempt
finished_attempt-SameAttempt values now a s = record {
  attempt = s.attempt;
  run = s.run;
  key = s.key;
  kind = s.kind;
  number = s.number;
  epoch = s.epoch;
}

pub finish_attempt-Refines :
    (id worker : String) (epoch : ℕ) (c : Completion) (now : ℕ) (db : Db)
    → Refines db (finish_attempt id worker epoch c now db)
unfolding finish_attempt KeepsAttempt
finish_attempt-Refines id worker epoch c now db = Gives-check _ _ (
    Gives-check _ _ (
      Gives-check _ _ (
        Gives-check _ _ (
          Gives-bind _ _ λ values v. Gives-bind _ _ λ a f. Gives-bind _ _ λ row e.
            Gives-checked _ _ λ leased. Gives-check _ _ (
              Gives-if (same_status a.status c.status) _ _ (λ t. Gives-ok _ none_left)
                λ t. Gives-check _ _ (
                  let closed : Db = record db {
                    attempts = put_by attempt_key (finished_attempt values now a) db.attempts;
                  } in
                  let g : Gives KeepsAttempt (completion_values c _) =
                    completion_values-KeepsAttempt c _ in
                  let settled : Moves db closed =
                    settle-Moves db a (finished_attempt values now a) (attempt_row-found id db a f)
                      (finished_attempt-SameAttempt values now a (g.given values v a)) in
                  Gives-if (same_status c.status outcome_unknown) _ _
                    (λ u. Gives-bind _ _ λ db' done. Gives-ok _ (
                      Moves-append settled (
                        transition-Moves row _ _ _ now closed db' (run_row-found a.run_id db row e)
                          done (noted-Turns row now (lease-running row worker now _ leased)))))
                    λ u. Gives-ok _ settled))))))
