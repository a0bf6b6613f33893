-- ===== src/Tests/Runs.antt =====
-- Concrete runs of the service: a session, a run, its claim, a reservation and an answer.
use legal_rag_agent.Prelude.{
  ℕ, ◌≡◌, refl, true, false, Option, none, some, find_by, put_by, count_by,
}
use legal_rag_agent.Runs.Result.{◌>>=◌, require}
use legal_rag_agent.Runs.Validate.{
  canonical_identifier, canonical_sha256_identifier, canonical_positive_integer,
  canonical_integer_up_to,
}
use legal_rag_agent.Jobs.Validate.{is_space, hash_re}
use legal_rag_agent.Runs.Tables.{of_kind, Db, Status, model, succeeded, run_key}
use legal_rag_agent.Runs.Service.{
  run_row, owned_run_row, run_result_record, build_run_record, run_record, reread, insert_event,
  advanced, transition_with_event, assert_worker_lease, assert_execution_deadline,
}
use legal_rag_agent.Runs.Service.Claim.{is_claimable, oldest, claimed_row, claim_next_run}
use legal_rag_agent.Runs.Service.Budget.{
  Operation, ledger_of, last_attempt_no, used, maximum, spent, reserved_attempt, insert_attempt,
  reserve_attempt,
}
use legal_rag_agent.Runs.Service.Publish.{
  SafeResult, Outcome, last_ordinal, next_message_ordinal, insert_message, insert_result,
  answer_message, result_row, published_row, publish_first, publish_result, publish_terminal_result,
}
use legal_rag_agent.Runs.Service.Create.{
  ServicePrincipal, Creation, Binding, NewIds, create_session, owned_session, find_key,
  check_parent, is_active_of, check_no_active, check_binding, new_run, new_ledger, question_message,
  queued_event, insert_run, insert_key, new_key, create_fresh, create_run,
}
use legal_rag_agent.Runs.Calls.{
  Setting, Call, start_session, create, claim, work, reserve, publish, forget, run_work, run, after,
  empty, Reach, start, step,
}

abbrev pub setting : Setting
setting = record {
  budget = record {
    max_retrieval_rounds = 2;
    max_queries_per_round = 3;
    max_tool_attempts = 8;
    max_model_attempts = 4;
    max_embedding_attempts = 4;
    max_retry_per_operation = 1;
    execution_deadline_seconds = 90;
    evidence_top_k = 5;
  };
  ttl = 1000;
  external = record {
    casefold = λ s. s;
    fromisoformat = λ cs. some true;
    state_hash = λ s. "0000";
  };
}

abbrev pub principal : ServicePrincipal
principal = record { user_id = "u"; scope_id = "scope"; profile_id = "p" }

abbrev pub creation : Creation
creation = record {
  principal = principal;
  session_id = "s";
  idempotency_key = "k";
  request = record {
    payload = "{}";
    question = "q";
    snapshot_id = none;
    request_hash = λ parent. "h";
    retrieval_config_hash = "c";
  };
  graph_version = "g";
  parent_run_id = none;
}

abbrev pub binding : Binding
binding = record {
  snapshot_id = "snap";
  revision = 1;
  activation_id = "act";
  boundary_fingerprint = "f";
}

abbrev pub ids : NewIds
ids = record { run_id = "r"; message_id = "m" }

abbrev pub operation : Operation
operation = record {
  key = "plan:0";
  kind = model;
  name = "plan";
  request_hash = "0123456789abcdef0123456789abcdef0123456789abcdef0123456789abcdef";
}

abbrev pub result : SafeResult
result = record {
  answer_text = "yes";
  answer_payload = "{}";
  evidence_payload = "{}";
  verification_payload = "{}";
}

abbrev pub outcome : Outcome
outcome = record { status = succeeded; stop_reason = none }

abbrev pub opening : Call
opening = start_session principal none "s"

abbrev pub creating : Call
creating = create creation (some binding) ids (record { start = 10; now = 11 })

abbrev pub claiming : Call
claiming = claim (λ id. false) "w" 60 20

abbrev pub reserving : Call
reserving = work "r" "w" 1 (reserve operation "a") 30

abbrev pub publishing : Call
publishing = work "r" "w" 1 (publish (some result) outcome "m2") 40

abbrev pub opened : Db
opened = after setting opening empty

abbrev pub created : Db
created = after setting creating opened

abbrev pub claimed : Db
claimed = after setting claiming created

abbrev pub reserved : Db
reserved = after setting reserving claimed

abbrev pub published : Db
published = after setting publishing reserved

pub created-Reach : Reach setting created
created-Reach = step creating (step opening start)

pub claimed-Reach : Reach setting claimed
claimed-Reach = step claiming created-Reach

pub reserved-Reach : Reach setting reserved
reserved-Reach = step reserving claimed-Reach

pub published-Reach : Reach setting published
published-Reach = step publishing reserved-Reach

abbrev pub facts : Db → Option (Status × ℕ × ℕ × Option ℕ)
facts db = elim (find_by run_key "r" db.runs) [
  | none ↦ none
  | some r ↦ some (r.status, r.lease_epoch, r.event_sequence, r.execution_deadline_at)
]

-- The chain of calls does what it should: created, claimed, one attempt reserved, published.
chain_runs :
    (facts created ≡ some (Status.queued, 0, 1, none))
    × (facts claimed ≡ some (Status.running, 1, 2, some 90000020))
    × (count_by (of_kind "r" model) reserved.attempts ≡ 1)
    × (facts published ≡ some (Status.succeeded, 1, 3, some 90000020))
unfolding after run forget create_run create_session owned_session find_key create_fresh
    check_parent check_no_active check_binding oldest insert_run insert_message insert_key
    insert_event owned_run_row run_record build_run_record run_result_record find_by is_active_of
    new_run new_ledger question_message next_message_ordinal last_ordinal new_key queued_event
    canonical_identifier ◌>>=◌ require is_space claim_next_run is_claimable claimed_row
    transition_with_event advanced reread put_by canonical_integer_up_to run_work reserve_attempt
    canonical_positive_integer canonical_sha256_identifier hash_re run_row assert_worker_lease
    assert_execution_deadline ledger_of last_attempt_no used maximum spent reserved_attempt
    insert_attempt count_by publish_terminal_result publish_result publish_first answer_message
    insert_result result_row published_row
chain_runs = (refl, refl, refl, refl)
