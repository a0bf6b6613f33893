-- ===== src/Runs/Bounds.antt =====
-- Budgets and records of the run service in the states that its methods reach.
use legal_rag_agent.Prelude.{
  ◌⊎◌, Bool-cases, ◌+◌, ◌*◌, ◌≤◌, ◌≡◌, ◌≢◌, refl, true, none, some, String, arith, is_some, find_by,
  count_by, inl, inr, Option-cases, find_by_self, ◌=t=◌,
}
use legal_rag_agent.Runs.Result.{ok, ◌>>=◌}
use legal_rag_agent.Runs.Tables.{
  OperationKind, is_answer_bearing, Run, Ledger, Db, run_key, result_key, message_key, ledger_key,
  of_kind, of_key,
}
use legal_rag_agent.Runs.Validate.{canonical_identifier}
use legal_rag_agent.Runs.Service.{
  RunRecord, owned_run_row, owned_run_record, embedded_run_record, embedded_run_result_record,
  run_result_record, build_run_record, run_record,
}
use legal_rag_agent.Runs.Service.Lifecycle.{get_run}
use legal_rag_agent.Runs.Service.Budget.{maximum}
use legal_rag_agent.Runs.Invariant.{IsValid, has_answer}
use legal_rag_agent.Runs.Calls.{Setting, Reach}
use legal_rag_agent.Runs.Calls.Safety.{Call-IsValid}

-- In every reachable state, a run with a ledger has made at most as many attempts of each kind as
-- the ledger allows, at most max_retry_per_operation + 1 of any operation key, and it has used no
-- more retrieval rounds and queries than the ledger allows.
pub attempts_bounded :
    {x : Setting} {db : Db} (id : String) (l : Ledger)
    → Reach x db
    → find_by ledger_key id db.ledgers ≡ some l
    → ((kind : OperationKind) → count_by (of_kind id kind) db.attempts ≤ maximum kind l)
      × ((key : String) → count_by (of_key id key) db.attempts ≤ l.max_retry_per_operation + 1)
      × (l.retrieval_rounds_used ≤ l.max_retrieval_rounds)
      × (l.queries_used ≤ l.max_retrieval_rounds * l.max_queries_per_round)
attempts_bounded {db = db} id l reached found =
    let v = (Call-IsValid reached).budgets in
    let limits = v.within id l found in
    (
      λ kind. ground (arith, v.counted id kind, limits.attempts kind),
      λ key. ground (arith, v.numbered id key, v.retried id key),
      limits.rounds,
      limits.queries,
    )

has_answer-record :
    (id : String) (db : Db)
    → is_some (run_result_record id db) ≡ has_answer id db.results db.messages
unfolding run_result_record
has_answer-record id db = ground arith

-- A run's record can be built, and it has a result exactly if the run is answer-bearing.
pub run_record_valid :
    (db : Db) (row : Run)
    → IsValid db
    → find_by run_key row.run_id db.runs ≡ some row
    → (answer : RunRecord) × (run_record row db ≡ ok answer)
      × (answer.row ≡ row)
      × (is_some answer.result ≡ is_answer_bearing row.status)
unfolding run_record build_run_record
run_record_valid db row v found =
    let result = run_result_record row.run_id db in
    let fits : is_some result ≡ is_answer_bearing row.status =
      ground (arith, has_answer-record row.run_id db, v.published.answers row.run_id) in
    (record { row = row; result = result }, ground arith, refl, fits)

-- The same of the record that the outer joins give.
embedded_run_record_valid :
    (db : Db) (row : Run)
    → IsValid db
    → find_by run_key row.run_id db.runs ≡ some row
    → (answer : RunRecord) × (embedded_run_record row db ≡ ok answer)
      × (answer.row ≡ row)
      × (is_some answer.result ≡ is_answer_bearing row.status)
unfolding embedded_run_record embedded_run_result_record build_run_record ◌>>=◌
embedded_run_record_valid db row v found =
    let answers = v.published.answers row.run_id in
    let stored = v.published.stored row.run_id in
    elim (Option-cases (find_by result_key row.run_id db.results)) [
      | inl none_there ↦ (
        record { row = row; result = none },
        ground (arith, stored),
        refl,
        ground (arith, stored),
      )
      | inr (r, there) ↦ elim (Option-cases (find_by message_key r.final_message_id db.messages)) [
        | inl unsaid ↦ absurd (ground (arith, stored, answers))
        | inr (m, said) ↦ (
          record {
            row = row;
            result = some (record {
              run_id = r.run_id;
              final_message_id = r.final_message_id;
              answer_text = m.content;
              answer_payload = r.answer_payload;
              evidence_payload = r.evidence_payload;
              verification_payload = r.verification_payload;
            });
          },
          ground (arith, stored),
          refl,
          ground (arith, stored),
        )
      ]
    ]

-- In every reachable state, `get_run` of an ID that passes the check either says that there is no
-- such run of the user, or returns the run's row, with a result exactly if it is answer-bearing:
-- it never raises RunServiceDataError.
pub get_run_total :
    {x : Setting} {db : Db} (user id : String)
    → Reach x db
    → canonical_identifier id 36 ≡ ok tt
    → ((row : Run) → owned_run_row id user db ≢ ok row)
      ⊎ ((row : Run) × (answer : RunRecord) × (find_by run_key id db.runs ≡ some row)
          × ((row.user_id =t= user) ≡ true)
          × (get_run user id db ≡ ok answer)
          × (answer.row ≡ row)
          × (is_some answer.result ≡ is_answer_bearing row.status))
unfolding get_run owned_run_record owned_run_row ◌>>=◌
get_run_total {db = db} user id reached fits = elim (Option-cases (find_by run_key id db.runs)) [
  | inl missing ↦ inl (λ row. ground arith)
  | inr (row, found) ↦ elim (Bool-cases (row.user_id =t= user)) [
    | inr foreign ↦ inl (λ k. ground arith)
    | inl owned ↦
        let (answer, e, same, bears) =
          embedded_run_record_valid db row (Call-IsValid reached)
            (find_by_self run_key id db.runs row found) in
        inr (row, answer, found, owned, ground (arith, e), same, bears)
  ]
]
