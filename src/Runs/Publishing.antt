-- ===== src/Runs/Publishing.antt =====
-- The publication of a run's answer, and its repetition.
use legal_rag_agent.Prelude.{
  ℕ, ◌≡◌, refl, sym, ap, ◌∙◌, Bool, true, ◌&&◌, Option, none, some, String, arith, ◌=t=◌, find_by,
  find-put_by, find_by-key, if◌then◌else◌, inl, inr, Option-cases, eq_iff, eq_refl,
}
use legal_rag_agent.Runs.Result.{
  Result, ok, err, invalid_state, ◌>>=◌, require, Gives, Gives-bind, Gives-check, Gives-checked,
  Gives-if, Gives-require, Gives-ok, Gives-err,
}
use legal_rag_agent.Runs.Validate.{canonical_identifier}
use legal_rag_agent.Runs.Tables.{Status, is_answer_bearing, EventType, Payload, Run, Db, run_key}
use legal_rag_agent.Runs.Service.{
  RunRecord, RunResultRecord, run_row, run_result_record, run_record, reread, as_it_is, advanced,
}
use legal_rag_agent.Runs.Service.Publish.{
  SafeResult, Outcome, safe_result_matches, same_answer_status, same_text, answer_message,
  result_row, published_row, published_again, publish_first, publish_result,
}
use legal_rag_agent.Runs.Refines.{run_row-found}
use legal_rag_agent.Runs.Refines.Lifecycle.{lease-running}
use legal_rag_agent.Runs.Refines.Answers.{published_db, published_lem}

-- A run that stands published: its row, its result, and the answer of a method that reads it.
pub record StandsPublished (id : String) (outcome : Outcome) (result : SafeResult)
    (answer : RunRecord) (db : Db) : Type 0 where
  pub row : Run
  pub found : find_by run_key id db.runs ≡ some row
  pub bears : is_answer_bearing row.status ≡ true
  pub status : row.status ≡ outcome.status
  pub stop_reason : row.stop_reason ≡ outcome.stop_reason
  pub existing : RunResultRecord
  pub stored : run_result_record id db ≡ some existing
  pub answer_text : existing.answer_text ≡ result.answer_text
  pub answer_payload : existing.answer_payload ≡ result.answer_payload
  pub evidence_payload : existing.evidence_payload ≡ result.evidence_payload
  pub verification_payload : existing.verification_payload ≡ result.verification_payload
  pub read : run_record row db ≡ ok answer

same_answer_status-eq : (s t : Status) → same_answer_status s t ≡ true → s ≡ t
same_answer_status-eq s t h = ground arith

same_text-eq : (a b : Option String) → same_text a b ≡ true → a ≡ b
same_text-eq none none h = refl
same_text-eq none (some b) h = cc
same_text-eq (some a) none h = cc
same_text-eq (some a) (some b) h = ground (arith, eq_iff a b)

published_row_fields :
    (row : Run) (outcome : Outcome) (now : ℕ)
    → ((advanced row (published_row outcome now) now row).run_id ≡ row.run_id)
      × ((advanced row (published_row outcome now) now row).status ≡ outcome.status)
      × ((advanced row (published_row outcome now) now row).stop_reason ≡ outcome.stop_reason)
unfolding advanced published_row
published_row_fields row outcome now = (refl, refl, refl)

module _ (id : String) (db : Db) (row : Run) (outcome : Outcome) (result : SafeResult)
    (message_id : String) (now : ℕ) (found : find_by run_key row.run_id db.runs ≡ some row)
    (running : row.status ≡ Status.running) (bears : is_answer_bearing outcome.status ≡ true)
    (same : row.run_id ≡ id) (kind : EventType) (payload : Payload) where
  abbrev done_db : Db
  done_db = published_db db row outcome result message_id now found running bears kind payload

  stored_result :
      run_result_record row.run_id done_db
      ≡ some (record {
        run_id = row.run_id;
        final_message_id = message_id;
        answer_text = result.answer_text;
        answer_payload = result.answer_payload;
        evidence_payload = result.evidence_payload;
        verification_payload = result.verification_payload;
      })
  unfolding published_db run_result_record find_by answer_message result_row
  stored_result = ground (arith, eq_refl row.run_id, eq_refl message_id)

  found_row :
      find_by run_key row.run_id done_db.runs
      ≡ some (advanced row (published_row outcome now) now row)
  unfolding published_db
  found_row = ground (
    arith,
    (published_row_fields row outcome now).0,
    eq_refl row.run_id,
    find-put_by run_key row.run_id (advanced row (published_row outcome now) now row) db.runs,
  )

  first_StandsPublished :
      (answer : RunRecord) (db' : Db)
      → reread row.run_id done_db ≡ ok (answer, db')
      → StandsPublished id outcome result answer db'
  unfolding reread ◌>>=◌
  first_StandsPublished answer db' done =
      let last : db' ≡ done_db = ground (arith, found_row) in
      let read : run_record (advanced row (published_row outcome now) now row) done_db ≡ ok answer =
        ground (arith, found_row) in
      let (_, status, stop) = published_row_fields row outcome now in
      rw last (
        rw (← same) (record {
          row = advanced row (published_row outcome now) now row;
          found = found_row;
          bears = ap is_answer_bearing status ∙ bears;
          status = status;
          stop_reason = stop;
          existing = _;
          stored = stored_result;
          answer_text = refl;
          answer_payload = refl;
          evidence_payload = refl;
          verification_payload = refl;
          read = read;
        }))

again_StandsPublished :
    (id : String) (outcome : Outcome) (result : SafeResult) (row : Run) (db : Db)
    → find_by run_key id db.runs ≡ some row
    → row.run_id ≡ id
    → is_answer_bearing row.status ≡ true
    → Gives (λ r. StandsPublished id outcome result r.0 r.1) (published_again outcome result row db)
unfolding published_again as_it_is safe_result_matches
again_StandsPublished id outcome result row db found same bears =
    elim (Option-cases (run_result_record row.run_id db)) [
      | inl missing ↦ rw (missing, published_again) (Gives-err _)
      | inr (existing, there) ↦
          rw (there, published_again)
            (Gives-require _ _ _ λ fits. Gives-bind _ _ λ answer read. Gives-ok _ (record {
              row = row;
              found = found;
              bears = bears;
              status = same_answer_status-eq row.status outcome.status (ground arith);
              stop_reason = same_text-eq row.stop_reason outcome.stop_reason (ground arith);
              existing = existing;
              stored = ap (λ i. run_result_record i db) (sym same) ∙ there;
              answer_text = ground (arith, eq_iff existing.answer_text result.answer_text);
              answer_payload = ground (arith, eq_iff existing.answer_payload result.answer_payload);
              evidence_payload =
                  ground (arith, eq_iff existing.evidence_payload result.evidence_payload);
              verification_payload =
                  ground (arith, eq_iff existing.verification_payload result.verification_payload);
              read = read;
            }))
    ]

run_row_lem :
    (id : String) (db : Db) (row : Run)
    → run_row id db ≡ ok row
    → (find_by run_key id db.runs ≡ some row) × (row.run_id ≡ id)
unfolding run_row
run_row_lem id db row e =
    let found : find_by run_key id db.runs ≡ some row = ground arith in
    (found, find_by-key run_key id db.runs row found)

-- When a publication succeeds, the run stands published in the tables that it commits: its row has
-- the status and the stop reason that were asked for, its stored result is the one that was given,
-- and the method's answer is the record of that row.
pub publish_result-StandsPublished :
    (id worker : String) (epoch : Option ℕ) (result : SafeResult) (outcome : Outcome)
    (message_id : String) (now : ℕ) (db : Db)
    → Gives
        (λ r. StandsPublished id outcome result r.0 r.1)
        (publish_result id worker epoch (some result) outcome message_id now db)
unfolding publish_result publish_first
publish_result-StandsPublished id worker epoch result outcome message_id now db =
    Gives-require _ _ _ λ bears. Gives-check _ _ (
      Gives-check _ _ (
        Gives-check _ _ (
          Gives-bind _ _ λ row e.
            let (found, same) = run_row_lem id db row e in
            Gives-if (is_answer_bearing row.status) _ _
              (λ t. again_StandsPublished id outcome result row db found same t)
              λ t. Gives-checked _ _ λ leased. Gives-check _ _ (
                Gives-bind _ _ λ with_message a. Gives-bind _ _ λ with_result b.
                  Gives-bind _ _ λ db' c.
                    let at : find_by run_key row.run_id db.runs ≡ some row =
                      run_row-found id db row e in
                    let running = lease-running row worker now epoch leased in
                    let last =
                      published_lem db row outcome result message_id now at running bears
                        with_message with_result db' _ _ a b c in
                    record {
                      given = λ (answer, final) done.
                          first_StandsPublished id db row outcome result message_id now at running
                            bears same _ _ answer final
                            (ap (λ d. reread row.run_id d) (sym last) ∙ done);
                    }))))

-- A second result is the same as the first.
unfoldable pub same_result : SafeResult → SafeResult → Bool
same_result a b =
    a.answer_text =t= b.answer_text
    && (a.answer_payload =t= b.answer_payload
        && (a.evidence_payload =t= b.evidence_payload
            && a.verification_payload =t= b.verification_payload))

-- The arguments of a publication that pass its checks.
abbrev pub stop_reason_ok : Option String → Result (Unit {0})
stop_reason_ok none = ok tt
stop_reason_ok (some s) = canonical_identifier s 64

publish_result_bears :
    (id worker : String) (epoch : Option ℕ) (result : SafeResult) (outcome : Outcome)
    (message_id : String) (now : ℕ) (db : Db) (row : Run)
    → find_by run_key id db.runs ≡ some row
    → is_answer_bearing row.status ≡ true
    → is_answer_bearing outcome.status ≡ true
    → stop_reason_ok outcome.stop_reason ≡ ok tt
    → canonical_identifier id 36 ≡ ok tt
    → canonical_identifier worker 128 ≡ ok tt
    → publish_result id worker epoch (some result) outcome message_id now db
      ≡ published_again outcome result row db
unfolding publish_result run_row ◌>>=◌ require
publish_result_bears id worker epoch result outcome message_id now db row found bears asked stop a
      b =
    ground arith

published_again_lem :
    (outcome outcome' : Outcome) (result result' : SafeResult) (id : String) (db : Db)
    (answer : RunRecord) (v : StandsPublished id outcome result answer db)
    → published_again outcome' result' v.row db ≡ (
        if same_answer_status outcome.status outcome'.status
          && (same_text outcome.stop_reason outcome'.stop_reason && same_result result result')
        then ok (answer, db)
        else err invalid_state)
unfolding published_again as_it_is safe_result_matches same_result ◌>>=◌ require
published_again_lem outcome outcome' result result' id db answer v =
    let stored : run_result_record v.row.run_id db ≡ some v.existing =
      ap (λ i. run_result_record i db) (find_by-key run_key id db.runs v.row v.found) ∙ v.stored in
    rw
      (
        ← v.status,
        ← v.stop_reason,
        ← v.answer_text,
        ← v.answer_payload,
        ← v.evidence_payload,
        ← v.verification_payload,
      )
      (ground (arith, stored, v.read))

-- After a publication that succeeded, a second one with well-formed arguments, by whatever worker and
-- epoch, gives the same answer and writes nothing if it asks for the same outcome and result, and
-- raises InvalidRunStateError if it asks for another.
pub publish_result_again :
    (id worker : String) (epoch : Option ℕ) (result : SafeResult) (outcome : Outcome)
    (message_id : String) (now : ℕ) (db db' : Db) (answer : RunRecord) (worker' : String)
    (epoch' : Option ℕ) (result' : SafeResult) (outcome' : Outcome) (message_id' : String)
    (now' : ℕ)
    → publish_result id worker epoch (some result) outcome message_id now db ≡ ok (answer, db')
    → is_answer_bearing outcome'.status ≡ true
    → stop_reason_ok outcome'.stop_reason ≡ ok tt
    → canonical_identifier id 36 ≡ ok tt
    → canonical_identifier worker' 128 ≡ ok tt
    → publish_result id worker' epoch' (some result') outcome' message_id' now' db' ≡ (
        if same_answer_status outcome.status outcome'.status
          && (same_text outcome.stop_reason outcome'.stop_reason && same_result result result')
        then ok (answer, db')
        else err invalid_state)
publish_result_again id worker epoch result outcome message_id now db db' answer worker' epoch'
      result' outcome' message_id' now' done asked stop id_ok worker_ok =
    let g = publish_result-StandsPublished id worker epoch result outcome message_id now db in
    let v = g.given (answer, db') done in
    publish_result_bears id worker' epoch' result' outcome' message_id' now' db' v.row v.found
      v.bears asked stop id_ok worker_ok
    ∙ published_again_lem outcome outcome' result result' id db' answer v
