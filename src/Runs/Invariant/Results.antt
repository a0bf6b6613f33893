-- ===== src/Runs/Invariant/Results.antt =====
-- Results and assistant messages under the writes of the abstract machine.
use legal_rag_agent.Prelude.{
  ◌≡◌, true, false, none, some, List, ◌∷◌, String, arith, ◌=t=◌, is_some, find_by, put_by, count_by,
  find-put_by, eq_iff, eq_refl, Option-cases, Bool-cases, inl, inr,
}
use legal_rag_agent.Runs.Tables.{
  is_answer_bearing, user, Run, Message, ResultRow, run_key, message_key, result_key, is_answer_of,
}
use legal_rag_agent.Runs.Invariant.{has_answer, Published}

-- A new message leaves the results that have theirs.
has_answer-cons :
    (id : String) (results : List ResultRow) (messages : List Message) (m : Message)
    → find_by message_key m.message_id messages ≡ none
    → has_answer id results messages ≡ is_some (find_by result_key id results)
    → has_answer id results (m ∷ messages) ≡ is_some (find_by result_key id results)
unfolding find_by
has_answer-cons id results messages m fresh h =
    elim (Option-cases (find_by result_key id results)) [
      | inl missing ↦ ground arith
      | inr (r, there) ↦ ground (arith, eq_iff m.message_id r.final_message_id)
    ]

module _ (runs : List Run) (messages : List Message) (results : List ResultRow)
    (v : Published runs messages results) where
  pub put-Published :
      (r r' : Run)
      → find_by run_key r'.run_id runs ≡ some r
      → is_answer_bearing r'.status ≡ is_answer_bearing r.status
      → Published (put_by run_key r' runs) messages results
  put-Published r r' found same = record {
    answers =
        λ id. ground (arith, v.answers id, find-put_by run_key id r' runs, eq_iff r'.run_id id);
    stored = λ id. ground (arith, v.stored id, find-put_by run_key id r' runs, eq_iff r'.run_id id);
    said = λ id. ground (arith, v.said id, find-put_by run_key id r' runs, eq_iff r'.run_id id);
  }

  full : (id : String) → has_answer id results messages ≡ is_some (find_by result_key id results)
  full id = ground (arith, v.answers id, v.stored id)

  pub new-Published :
      (r : Run) (m : Message)
      → find_by run_key r.run_id runs ≡ none
      → is_answer_bearing r.status ≡ false
      → m.role ≡ user
      → find_by message_key m.message_id messages ≡ none
      → Published (r ∷ runs) (m ∷ messages) results
  unfolding find_by count_by
  new-Published r m free plain question fresh = record {
    answers = λ id. ground (
      arith,
      v.stored id,
      has_answer-cons id results messages m fresh (full id),
      eq_iff r.run_id id,
    );
    stored = λ id. ground (arith, v.stored id, eq_iff r.run_id id);
    said = λ id. ground (arith, v.said id, eq_iff r.run_id id);
  }

  pub answer-Published :
      (r r' : Run) (m : Message) (answer : ResultRow)
      → find_by run_key r'.run_id runs ≡ some r
      → is_answer_bearing r.status ≡ false
      → is_answer_bearing r'.status ≡ true
      → find_by message_key m.message_id messages ≡ none
      → is_answer_of r'.run_id m ≡ true
      → answer.run_id ≡ r'.run_id
      → answer.final_message_id ≡ m.message_id
      → Published (put_by run_key r' runs) (m ∷ messages) (answer ∷ results)
  answer-Published r r' m answer found plain bears fresh counts of_run of_message = record {
    answers = λ id. elim (Bool-cases (r'.run_id =t= id)) [
      | inl here ↦
          unfold find_by in
          ground (
            arith,
            v.stored id,
            find-put_by run_key id r' runs,
            eq_iff r'.run_id id,
            eq_iff answer.run_id id,
            eq_refl m.message_id,
          )
      | inr there ↦
          unfold find_by in
          ground (
            arith,
            v.stored id,
            has_answer-cons id results messages m fresh (full id),
            find-put_by run_key id r' runs,
            eq_iff answer.run_id id,
            eq_iff r'.run_id id,
          )
    ];
    stored = λ id.
        unfold find_by in
        ground (
          arith,
          v.stored id,
          find-put_by run_key id r' runs,
          eq_iff answer.run_id id,
          eq_iff r'.run_id id,
        );
    said = λ id.
        unfold count_by in
        ground (
          arith,
          v.said id,
          find-put_by run_key id r' runs,
          eq_iff m.run_id id,
          eq_iff m.run_id r'.run_id,
          eq_iff r'.run_id id,
        );
  }
