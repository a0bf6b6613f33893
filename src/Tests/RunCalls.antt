-- ===== src/Tests/RunCalls.antt =====
-- The properties of the run service at the states of Tests/Runs.
use legal_rag_agent.Prelude.{
  ◌+◌, ◌*◌, ◌≤◌, ◌<◌, ◌≡◌, ◌≢◌, ◌⊎◌, refl, true, false, ◌&&◌, none, some, [], ◌∷◌, String, arith,
  find_by, put_by, count_by, if◌then◌else◌, Each, is_some, ◌=t=◌,
}
use legal_rag_agent.Runs.Result.{ok, err, ◌>>=◌, require}
use legal_rag_agent.Runs.Validate.{
  canonical_identifier, canonical_sha256_identifier, canonical_positive_integer,
  canonical_integer_up_to,
}
use legal_rag_agent.Jobs.Validate.{is_space, hash_re}
use legal_rag_agent.Runs.Tables.{of_kind, Run, model, run_key, ledger_key, result_key}
use legal_rag_agent.Runs.Service.{
  run_row, owned_run_row, run_result_record, build_run_record, run_record, reread, insert_event,
  advanced, transition_with_event, assert_worker_lease, assert_execution_deadline,
}
use legal_rag_agent.Runs.Service.Claim.{is_claimable, oldest, claimed_row, claim_next_run}
use legal_rag_agent.Runs.Service.Budget.{
  ledger_of, last_attempt_no, used, maximum, spent, reserved_attempt, insert_attempt,
  reserve_attempt,
}
use legal_rag_agent.Runs.Service.Publish.{
  same_answer_status, same_text, last_ordinal, next_message_ordinal, insert_message, insert_result,
  answer_message, result_row, published_row, publish_first, publish_result, publish_terminal_result,
}
use legal_rag_agent.Runs.Service.Create.{
  NewIds, Clock, create_session, owned_session, find_key, check_parent, is_active_of,
  check_no_active, check_binding, new_run, new_ledger, question_message, queued_event, insert_run,
  insert_key, new_key, create_fresh, create_run,
}
use legal_rag_agent.Runs.Calls.{work, on_attempt, forget, run_work, run, after}
use legal_rag_agent.Tests.Runs.{
  setting, creation, binding, ids, result, outcome, claiming, reserving, publishing, opened,
  created, claimed, reserved, published, created-Reach, claimed-Reach, reserved-Reach,
  published-Reach,
}
use legal_rag_agent.Runs.Spec.{Moves}
use legal_rag_agent.Runs.Invariant.{IsValid}
use legal_rag_agent.Runs.Calls.{heartbeat, dispatch}
use legal_rag_agent.Runs.Calls.Safety.{after-Moves, Call-IsValid}
use legal_rag_agent.Runs.Calls.Growth.{Grows, Call-Grows}
use legal_rag_agent.Runs.Calls.Fences.{
  NotHeld, lost_run_writes_nothing, lost_attempt_writes_nothing, superseded_stays_lost,
}
use legal_rag_agent.Runs.Bounds.{attempts_bounded, get_run_total}
use legal_rag_agent.Runs.Progress.{claim_takes_oldest, claimed_db}
use legal_rag_agent.Runs.Drain.{Claimer, after_claims, no_lock, claims_drain}
use legal_rag_agent.Runs.Publishing.{
  StandsPublished, same_result, publish_result-StandsPublished, publish_result_again,
}
use legal_rag_agent.Runs.Replays.{create_run_again}
use legal_rag_agent.Runs.Service.Lifecycle.{get_run}
use legal_rag_agent.Runs.Tables.{Attempt, attempt_key, is_answer_bearing, OperationKind, of_key}
use legal_rag_agent.Runs.Service.Claim.{is_free}
use legal_rag_agent.Runs.Service.{RunRecord}
use legal_rag_agent.Runs.Result.{Gives, invalid_state, idempotency_conflict}

after-Moves_example : Moves created (after setting claiming created)
after-Moves_example =
    after-Moves setting claiming created (Call-IsValid created-Reach).sessions.keyed

Call-IsValid_example : IsValid published
Call-IsValid_example = Call-IsValid published-Reach

Call-Grows_example : Grows reserved (after setting publishing reserved)
Call-Grows_example =
    Call-Grows setting publishing reserved (Call-IsValid reserved-Reach).sessions.keyed

abbrev created_row : Run
created_row = new_run creation binding ids (record { start = 10; now = 11 })

lost_at : NotHeld "r" "w" 1 70000000 claimed
unfolding after run forget create_run create_session owned_session find_key create_fresh
    check_parent check_no_active check_binding oldest insert_run insert_message insert_key
    insert_event owned_run_row run_record build_run_record run_result_record find_by is_active_of
    new_run new_ledger question_message next_message_ordinal last_ordinal new_key queued_event
    canonical_identifier ◌>>=◌ require is_space claim_next_run is_claimable claimed_row
    transition_with_event advanced reread put_by canonical_integer_up_to run_work reserve_attempt
    canonical_positive_integer canonical_sha256_identifier hash_re run_row assert_worker_lease
    assert_execution_deadline ledger_of last_attempt_no used maximum spent reserved_attempt
    insert_attempt count_by publish_terminal_result publish_result publish_first answer_message
    insert_result result_row published_row
lost_at row found = ground arith

lost_run_writes_nothing_example :
    after setting (work "r" "w" 1 (heartbeat 60) 70000000) claimed ≡ claimed
lost_run_writes_nothing_example =
    lost_run_writes_nothing "r" "w" 1 70000000 claimed lost_at setting (heartbeat 60)

attempt_lost_at :
    (a : Attempt)
    → find_by attempt_key "a" reserved.attempts ≡ some a
    → NotHeld a.run_id "w" 1 70000000 reserved
unfolding after run forget create_run create_session owned_session find_key create_fresh
    check_parent check_no_active check_binding oldest insert_run insert_message insert_key
    insert_event owned_run_row run_record build_run_record run_result_record find_by is_active_of
    new_run new_ledger question_message next_message_ordinal last_ordinal new_key queued_event
    canonical_identifier ◌>>=◌ require is_space claim_next_run is_claimable claimed_row
    transition_with_event advanced reread put_by canonical_integer_up_to run_work reserve_attempt
    canonical_positive_integer canonical_sha256_identifier hash_re run_row assert_worker_lease
    assert_execution_deadline ledger_of last_attempt_no used maximum spent reserved_attempt
    insert_attempt count_by publish_terminal_result publish_result publish_first answer_message
    insert_result result_row published_row
attempt_lost_at a there row found = ground arith

lost_attempt_writes_nothing_example :
    after setting (on_attempt "a" "w" 1 dispatch 70000000) reserved ≡ reserved
lost_attempt_writes_nothing_example =
    lost_attempt_writes_nothing setting "a" "w" 1 70000000 reserved dispatch attempt_lost_at

abbrev held_row : Run
held_row = advanced created_row (claimed_row "w" 60 setting.budget 20) 20 created_row

claimed_found : find_by run_key "r" claimed.runs ≡ some held_row
unfolding after run forget create_run create_session owned_session find_key create_fresh
    check_parent check_no_active check_binding oldest insert_run insert_message insert_key
    insert_event owned_run_row run_record build_run_record run_result_record find_by is_active_of
    new_run new_ledger question_message next_message_ordinal last_ordinal new_key queued_event
    canonical_identifier ◌>>=◌ require is_space claim_next_run is_claimable claimed_row
    transition_with_event advanced reread put_by canonical_integer_up_to run_work reserve_attempt
    canonical_positive_integer canonical_sha256_identifier hash_re run_row assert_worker_lease
    assert_execution_deadline ledger_of last_attempt_no used maximum spent reserved_attempt
    insert_attempt count_by publish_terminal_result publish_result publish_first answer_message
    insert_result result_row published_row
claimed_found = refl

held_epoch : 0 < held_row.lease_epoch
unfolding after run forget create_run create_session owned_session find_key create_fresh
    check_parent check_no_active check_binding oldest insert_run insert_message insert_key
    insert_event owned_run_row run_record build_run_record run_result_record find_by is_active_of
    new_run new_ledger question_message next_message_ordinal last_ordinal new_key queued_event
    canonical_identifier ◌>>=◌ require is_space claim_next_run is_claimable claimed_row
    transition_with_event advanced reread put_by canonical_integer_up_to run_work reserve_attempt
    canonical_positive_integer canonical_sha256_identifier hash_re run_row assert_worker_lease
    assert_execution_deadline ledger_of last_attempt_no used maximum spent reserved_attempt
    insert_attempt count_by publish_terminal_result publish_result publish_first answer_message
    insert_result result_row published_row
held_epoch = omega arith

superseded_stays_lost_example : NotHeld "r" "old" 0 30 (after setting reserving claimed)
superseded_stays_lost_example =
    superseded_stays_lost setting reserving claimed held_row "r" "old" 0 30
      (Call-IsValid claimed-Reach).sessions.keyed claimed_found held_epoch

reserved_ledger :
    find_by ledger_key "r" reserved.ledgers
    ≡ some (spent model 30 (new_ledger "r" setting.budget 10))
unfolding after run forget create_run create_session owned_session find_key create_fresh
    check_parent check_no_active check_binding oldest insert_run insert_message insert_key
    insert_event owned_run_row run_record build_run_record run_result_record find_by is_active_of
    new_run new_ledger question_message next_message_ordinal last_ordinal new_key queued_event
    canonical_identifier ◌>>=◌ require is_space claim_next_run is_claimable claimed_row
    transition_with_event advanced reread put_by canonical_integer_up_to run_work reserve_attempt
    canonical_positive_integer canonical_sha256_identifier hash_re run_row assert_worker_lease
    assert_execution_deadline ledger_of last_attempt_no used maximum spent reserved_attempt
    insert_attempt count_by publish_terminal_result publish_result publish_first answer_message
    insert_result result_row published_row
reserved_ledger = refl

attempts_bounded_example :
    ((kind : OperationKind)
      → count_by (of_kind "r" kind) reserved.attempts
        ≤ maximum kind (spent model 30 (new_ledger "r" setting.budget 10)))
    × ((key : String)
        → count_by (of_key "r" key) reserved.attempts
          ≤ (spent model 30 (new_ledger "r" setting.budget 10)).max_retry_per_operation + 1)
    × ((spent model 30 (new_ledger "r" setting.budget 10)).retrieval_rounds_used
        ≤ (spent model 30 (new_ledger "r" setting.budget 10)).max_retrieval_rounds)
    × ((spent model 30 (new_ledger "r" setting.budget 10)).queries_used
        ≤ (spent model 30 (new_ledger "r" setting.budget 10)).max_retrieval_rounds
          * (spent model 30 (new_ledger "r" setting.budget 10)).max_queries_per_round)
attempts_bounded_example =
    attempts_bounded "r" (spent model 30 (new_ledger "r" setting.budget 10)) reserved-Reach
      reserved_ledger

id_ok : canonical_identifier "r" 36 ≡ ok tt
unfolding canonical_identifier is_space require
id_ok = refl

session_ok : canonical_identifier "s" 36 ≡ ok tt
unfolding canonical_identifier is_space require
session_ok = refl

key_ok : canonical_identifier "k" 255 ≡ ok tt
unfolding canonical_identifier is_space require
key_ok = refl

graph_ok : canonical_identifier "g" 64 ≡ ok tt
unfolding canonical_identifier is_space require
graph_ok = refl

worker_ok : canonical_identifier "w" 128 ≡ ok tt
unfolding canonical_identifier is_space require
worker_ok = refl

lease_ok : canonical_integer_up_to 60 86400 ≡ ok tt
unfolding canonical_integer_up_to require
lease_ok = refl

get_run_total_example :
    ((row : Run) → owned_run_row "r" "u" published ≢ ok row)
    ⊎ ((row : Run) × (answer : RunRecord) × (find_by run_key "r" published.runs ≡ some row)
        × ((row.user_id =t= "u") ≡ true)
        × (get_run "u" "r" published ≡ ok answer)
        × (answer.row ≡ row)
        × (is_some answer.result ≡ is_answer_bearing row.status))
get_run_total_example = get_run_total "u" "r" published-Reach id_ok

claim_takes_oldest_example :
    ((count_by (is_free no_lock) created.runs ≡ 0)
      × (claim_next_run no_lock setting.budget "w" 60 20 created ≡ ok (none, created)))
    ⊎ ((row : Run) × (answer : RunRecord) × (find_by run_key row.run_id created.runs ≡ some row)
        × (is_free no_lock row ≡ true)
        × Each (λ (q : Run). is_free no_lock q ≡ true → row.queued_at ≤ q.queued_at) created.runs
        × (answer.row ≡ advanced row (claimed_row "w" 60 setting.budget 20) 20 row)
        × (claim_next_run no_lock setting.budget "w" 60 20 created
            ≡ ok (some answer, claimed_db setting.budget "w" 60 20 row created)))
claim_takes_oldest_example =
    claim_takes_oldest setting.budget "w" 60 20 created (Call-IsValid created-Reach) no_lock
      worker_ok lease_ok

abbrev claimer : Claimer
claimer = record { worker_id = "w"; lease_seconds = 60; now = 20 }

one_waits : count_by is_claimable created.runs ≤ 1
unfolding after run forget create_run create_session owned_session find_key create_fresh
    check_parent check_no_active check_binding oldest insert_run insert_message insert_key
    insert_event owned_run_row run_record build_run_record run_result_record find_by is_active_of
    new_run new_ledger question_message next_message_ordinal last_ordinal new_key queued_event
    canonical_identifier ◌>>=◌ require is_space claim_next_run is_claimable claimed_row
    transition_with_event advanced reread put_by canonical_integer_up_to run_work reserve_attempt
    canonical_positive_integer canonical_sha256_identifier hash_re run_row assert_worker_lease
    assert_execution_deadline ledger_of last_attempt_no used maximum spent reserved_attempt
    insert_attempt count_by publish_terminal_result publish_result publish_first answer_message
    insert_result result_row published_row
one_waits = omega arith

claims_drain_example : count_by is_claimable (after_claims setting (claimer ∷ []) created).runs ≡ 0
claims_drain_example =
    claims_drain setting (claimer ∷ []) created created-Reach
      (record { named = worker_ok; timed = lease_ok }, tt) one_waits

publish_result-StandsPublished_example :
    Gives
      (λ r. StandsPublished "r" outcome result r.0 r.1)
      (publish_result "r" "w" (some 1) (some result) outcome "m2" 40 reserved)
publish_result-StandsPublished_example =
    publish_result-StandsPublished "r" "w" (some 1) result outcome "m2" 40 reserved

abbrev final_record : RunRecord
final_record = elim (publish_result "r" "w" (some 1) (some result) outcome "m2" 40 reserved) [
  | ok r ↦ r.0
  | err e ↦ record { row = held_row; result = none }
]

publish_runs :
    publish_result "r" "w" (some 1) (some result) outcome "m2" 40 reserved
    ≡ ok (final_record, published)
unfolding after run forget create_run create_session owned_session find_key create_fresh
    check_parent check_no_active check_binding oldest insert_run insert_message insert_key
    insert_event owned_run_row run_record build_run_record run_result_record find_by is_active_of
    new_run new_ledger question_message next_message_ordinal last_ordinal new_key queued_event
    canonical_identifier ◌>>=◌ require is_space claim_next_run is_claimable claimed_row
    transition_with_event advanced reread put_by canonical_integer_up_to run_work reserve_attempt
    canonical_positive_integer canonical_sha256_identifier hash_re run_row assert_worker_lease
    assert_execution_deadline ledger_of last_attempt_no used maximum spent reserved_attempt
    insert_attempt count_by publish_terminal_result publish_result publish_first answer_message
    insert_result result_row published_row
publish_runs = refl

-- Another worker sends another answer.
publish_result_again_example :
    publish_result "r" "w" none
      (some (record result { answer_text = "no" }))
      outcome
      "m3"
      50
      published
    ≡ (if same_answer_status outcome.status outcome.status
          && (same_text outcome.stop_reason outcome.stop_reason
              && same_result result (record result { answer_text = "no" }))
        then ok (final_record, published)
        else err invalid_state)
publish_result_again_example =
    publish_result_again "r" "w" (some 1) result outcome "m2" 40 reserved published final_record "w"
      none (record result { answer_text = "no" }) outcome "m3" 50 publish_runs refl refl id_ok
      worker_ok

abbrev created_record : RunRecord
created_record = record { row = created_row; result = none }

create_runs :
    create_run setting.budget setting.ttl creation
      (some binding)
      ids
      (record { start = 10; now = 11 })
      opened
    ≡ ok ((created_record, false), created)
unfolding after run forget create_run create_session owned_session find_key create_fresh
    check_parent check_no_active check_binding oldest insert_run insert_message insert_key
    insert_event owned_run_row run_record build_run_record run_result_record find_by is_active_of
    new_run new_ledger question_message next_message_ordinal last_ordinal new_key queued_event
    canonical_identifier ◌>>=◌ require is_space claim_next_run is_claimable claimed_row
    transition_with_event advanced reread put_by canonical_integer_up_to run_work reserve_attempt
    canonical_positive_integer canonical_sha256_identifier hash_re run_row assert_worker_lease
    assert_execution_deadline ledger_of last_attempt_no used maximum spent reserved_attempt
    insert_attempt count_by publish_terminal_result publish_result publish_first answer_message
    insert_result result_row published_row
create_runs = refl

abbrev later : Clock
later = record { start = 20; now = 21 }

abbrev other_ids : NewIds
other_ids = record { run_id = "r2"; message_id = "m9" }

unanswered : find_by result_key ids.run_id opened.results ≡ none
unfolding find_by after run forget ◌>>=◌ create_session
unanswered = refl

create_run_again_example :
    create_run setting.budget setting.ttl
      (record creation { request = creation.request; parent_run_id = none })
      none
      other_ids
      later
      created
    ≡ (if creation.request.request_hash creation.parent_run_id
          =t= creation.request.request_hash none
        then ok ((created_record, true), created)
        else err idempotency_conflict)
create_run_again_example =
    create_run_again setting.budget setting.budget setting.ttl setting.ttl creation creation.request
      none (some binding) none ids other_ids (record { start = 10; now = 11 }) later opened created
      created_record create_runs unanswered (omega arith) session_ok key_ok graph_ok refl
