-- ===== src/Runs/Refines/Answers.antt =====
-- publish_success, publish_terminal_result, create_session, create_run and bind_checkpoint as
-- writes of the abstract machine.
use legal_rag_agent.Prelude.{
  ℕ, ◌≡◌, refl, sym, ap, ◌∙◌, true, Option, none, some, ◌∷◌, String, arith, find_by, put_by, inl,
  inr, Option-cases, eq_refl,
}
use legal_rag_agent.Runs.Result.{
  ok, Gives-bind, Gives-check, Gives-checked, Gives-if, Gives-require, Gives-err,
}
use legal_rag_agent.Runs.Tables.{
  Status, is_answer_bearing, Run, Message, ResultRow, EventType, Payload, Db, run_key, message_key,
  result_key,
}
use legal_rag_agent.Runs.Service.{advanced, event_of, transition_with_event, run_result_record}
use legal_rag_agent.Runs.Service.Publish.{
  SafeResult, Outcome, insert_message, insert_result, answer_message, result_row, published_row,
  published_again, publish_first, publish_result, publish_success, publish_terminal_result,
}
use legal_rag_agent.Runs.Spec.{
  frozen, told, may_turn, row_ok, enters, Turns, Refreshes, Tells, Begins, Move, open_session,
  begin, refresh, answer, checkpoint, Moves, Moves-one, Moves-append, none_left, one_more,
}
use legal_rag_agent.Runs.Spec as Spec
use legal_rag_agent.Runs.Refines.{
  run_row-found, Refines, reread-Refines, as_it_is-Refines, transition_lem,
}
use legal_rag_agent.Runs.Refines.Lifecycle.{lease-running}

pub insert_message_lem :
    (m : Message) (db db' : Db)
    → insert_message m db ≡ ok db'
    → (find_by message_key m.message_id db.messages ≡ none)
      × (db' ≡ record db { messages = m ∷ db.messages })
unfolding insert_message
insert_message_lem m db db' h = elim (Option-cases (find_by message_key m.message_id db.messages)) [
  | inl free ↦ ground arith
  | inr (b, taken) ↦ ground arith
]

insert_result_lem :
    (r : ResultRow) (db db' : Db)
    → insert_result r db ≡ ok db'
    → (find_by result_key r.run_id db.results ≡ none)
      × (db' ≡ record db { results = r ∷ db.results })
unfolding insert_result
insert_result_lem r db db' h = elim (Option-cases (find_by result_key r.run_id db.results)) [
  | inl free ↦ ground arith
  | inr (b, taken) ↦ ground arith
]

published_row-Turns :
    (row : Run) (outcome : Outcome) (now : ℕ)
    → row.status ≡ Status.running
    → is_answer_bearing outcome.status ≡ true
    → Turns row (advanced row (published_row outcome now) now row)
      × (is_answer_bearing (advanced row (published_row outcome now) now row).status ≡ true)
      × ((advanced row (published_row outcome now) now row).run_id ≡ row.run_id)
unfolding advanced published_row frozen may_turn row_ok
published_row-Turns row outcome now h k = (
  record {
    same = refl;
    turn = ground arith;
    sequence = refl;
    revision = refl;
    epoch = ground arith;
    deadline = λ e. refl;
    fits = λ e. ground arith;
  },
  k,
  refl,
)

module _ (db : Db) (row : Run) (outcome : Outcome) (result : SafeResult) (message_id : String)
    (now : ℕ) (found : find_by run_key row.run_id db.runs ≡ some row)
    (running : row.status ≡ Status.running) (bears : is_answer_bearing outcome.status ≡ true) where
  published-Answers :
      find_by message_key (answer_message message_id row result db).message_id db.messages ≡ none
      → find_by result_key (result_row message_id row result).run_id db.results ≡ none
      → Spec.Answers db
          (advanced row (published_row outcome now) now row)
          (answer_message message_id row result db)
          (result_row message_id row result)
  unfolding advanced published_row answer_message result_row
  published-Answers fresh free = record {
    answered = bears;
    message = fresh;
    result = free;
    counts = ground (arith, eq_refl row.run_id);
    of_run = refl;
    of_message = refl;
  }

  unfoldable pub published_db : (kind : EventType) (payload : Payload) → Db
  published_db kind payload = record db {
    runs = put_by run_key (advanced row (published_row outcome now) now row) db.runs;
    messages = answer_message message_id row result db ∷ db.messages;
    results = result_row message_id row result ∷ db.results;
    events = event_of row kind payload now ∷ db.events;
  }

  module _ (with_message with_result db' : Db) (kind : EventType) (payload : Payload)
      (a : insert_message (answer_message message_id row result db) db ≡ ok with_message)
      (b : insert_result (result_row message_id row result) with_message ≡ ok with_result)
      (c : transition_with_event row (published_row outcome now) kind payload now with_result
        ≡ ok db') where
    pub published_lem : db' ≡ published_db kind payload
    unfolding published_db
    published_lem =
        let (fresh, first) = insert_message_lem _ db with_message a in
        let (free, second) = insert_result_lem _ with_message with_result b in
        let runs : with_result.runs ≡ db.runs = ground arith in
        let there : find_by run_key row.run_id with_result.runs ≡ some row =
          ap (λ rs. find_by run_key row.run_id rs) runs ∙ found in
        let third =
          transition_lem row (published_row outcome now) kind payload now with_result db' there c in
        cc

    published-Moves : Moves db db'
    unfolding published_db
    published-Moves =
        let (fresh, first) = insert_message_lem _ db with_message a in
        let (free, second) = insert_result_lem _ with_message with_result b in
        let (turns, bear, same) = published_row-Turns row outcome now running bears in
        let free' : find_by result_key (result_row message_id row result).run_id db.results ≡ none =
          ap (λ (d : Db). find_by result_key (result_row message_id row result).run_id d.results)
            (sym first)
          ∙ free in
        rw published_lem (
          Moves-one (
            answer row (advanced row (published_row outcome now) now row)
              (answer_message message_id row result db) (result_row message_id row result)
              (event_of row kind payload now) (ap (λ i. find_by run_key i db.runs) same ∙ found)
              turns (published-Answers fresh free')
              (record { run = sym same; sequence = sym turns.sequence })))

published_again-Refines :
    (outcome : Outcome) (result : SafeResult) (row : Run) (db : Db)
    → Refines db (published_again outcome result row db)
unfolding published_again
published_again-Refines outcome result row db =
    elim (Option-cases (run_result_record row.run_id db)) [
      | inl missing ↦ rw (missing, published_again) (Gives-err _)
      | inr (existing, there) ↦
          rw (there, published_again) (Gives-check _ _ (as_it_is-Refines row db))
    ]

pub publish_result-Refines :
    (id worker : String) (epoch : Option ℕ) (safe : Option SafeResult) (outcome : Outcome)
    (message_id : String) (now : ℕ) (db : Db)
    → Refines db (publish_result id worker epoch safe outcome message_id now db)
unfolding publish_result publish_first
publish_result-Refines id worker epoch none outcome message_id now db =
    Gives-require _ _ _ λ bears. Gives-check _ _ (Gives-check _ _ (Gives-check _ _ (Gives-err _)))
publish_result-Refines id worker epoch (some result) outcome message_id now db =
    Gives-require _ _ _ λ bears. Gives-check _ _ (
      Gives-check _ _ (
        Gives-check _ _ (
          Gives-bind _ _ λ row e.
            Gives-if (is_answer_bearing row.status) _ _
              (λ t. published_again-Refines outcome result row db)
              λ t. Gives-checked _ _ λ leased. Gives-check _ _ (
                Gives-bind _ _ λ with_message a. Gives-bind _ _ λ with_result b.
                  Gives-bind _ _ λ db' c. reread-Refines row.run_id db' (
                    published-Moves db row outcome result message_id now (run_row-found id db row e)
                      (lease-running row worker now epoch leased) bears with_message with_result db'
                      _ _ a b c)))))

pub publish_success-Refines :
    (id worker : String) (epoch : Option ℕ) (safe : Option SafeResult) (message_id : String)
    (now : ℕ) (db : Db)
    → Refines db (publish_success id worker epoch safe message_id now db)
unfolding publish_success
publish_success-Refines id worker epoch safe message_id now db =
    publish_result-Refines id worker epoch safe _ message_id now db

pub publish_terminal_result-Refines :
    (id worker : String) (epoch : ℕ) (safe : Option SafeResult) (outcome : Outcome)
    (message_id : String) (now : ℕ) (db : Db)
    → Refines db (publish_terminal_result id worker epoch safe outcome message_id now db)
unfolding publish_terminal_result
publish_terminal_result-Refines id worker epoch safe outcome message_id now db =
    Gives-check _ _ (publish_result-Refines id worker (some epoch) safe outcome message_id now db)
