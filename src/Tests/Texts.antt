-- ===== src/Tests/Texts.antt =====
-- Runs of the dispatcher, of the article numbers and of the graph of a run.
use legal_rag_agent.Prelude.{
  ℕ, ◌+◌, ◌≤◌, ◌≡◌, refl, ap, Bool, true, false, Option, none, some, List, [], ◌∷◌, String, length,
  arith, ◌=t=◌, =t=→eq, Bool-cases, inl, inr,
}
use Prim.Native.Char.{code}
use legal_rag_agent.Jobs.Result.{Result, ok}
use legal_rag_agent.Jobs.Tables.{find_outbox}
use legal_rag_agent.Tests.Store.{submitted, submitted-Reach, clock_at}
use legal_rag_agent.Jobs.Methods.Safety.{Reach-IsValid}
use legal_rag_agent.Jobs.Invariant.{IsValid}
use legal_rag_agent.Jobs.Dispatcher.{
  DispatchReport, Dispatch, World, dispatch_once, dispatch_records, dispatch_record, settle,
}
use legal_rag_agent.Jobs.Dispatcher.Reports.{dispatch_once_reports}
use legal_rag_agent.Jobs.Validate.{count, required_string, is_space, hash_re}
use legal_rag_agent.Jobs.Tables.{count_outbox, find_job, outbox_ok, set_outbox, update_outbox}
use legal_rag_agent.Jobs.Store.Requeue.{
  requeue_expired_jobs, lost_jobs, is_lost, last_delivered_at, backoff_seconds, requeue_rows,
}
use legal_rag_agent.Jobs.Store.Delivery.{
  claim_outbox, is_due, due, place, claim_rows, claim_one, mark_outbox_delivered, mark_outbox,
  holds_claim,
}
use legal_rag_agent.Harness.State
use legal_rag_agent.Harness.State.{
  Node, analyze_query, route, retrieve, merge_evidence, check_evidence, plan_followup, generate,
  verify, persist_result, HarnessState, no_members, node_name, validate_harness_state, members_ok,
  identifier, sha256, identifiers_ok, question_ok, lists_ok, deadline_ok, options_ok, outcome_ok,
  is_stripped, replace_z,
}
use legal_rag_agent.Harness.Graph.{
  successors, find_node, successors_of, validated_node, target, target_of, edge, next_node, go_to,
  go_from, go_on,
}
use legal_rag_agent.Harness.Graph.Checks.{SameRun}
use legal_rag_agent.Harness.Graph.Walks.{stop, step, Walk-SameRun, Walk-follows, follows}
use legal_rag_agent.Harness.Graph.Edges.{target-next_node}
use legal_rag_agent.Articles.{
  Text, digit_char, number_text, int_to_chinese_number, chinese_number_to_int, join_parts,
}
use legal_rag_agent.Articles.Numbers.{chinese_number_roundtrip}

abbrev two_six_four : Text
two_six_four = 0x4e8c ∷ 0x767e ∷ 0x516d ∷ 0x5341 ∷ 0x56db ∷ []

written : int_to_chinese_number 264 ≡ ok two_six_four
unfolding int_to_chinese_number number_text join_parts digit_char
written = refl

chinese_number_roundtrip_example : chinese_number_to_int (λ cs. cs) two_six_four ≡ ok 264
chinese_number_roundtrip_example = chinese_number_roundtrip (λ cs. cs) 264 two_six_four written refl

-- 1001 is written with a zero, and 15 without its leading one.
written_gap : int_to_chinese_number 1001 ≡ ok (0x4e00 ∷ 0x5343 ∷ 0x96f6 ∷ 0x4e00 ∷ [])
unfolding int_to_chinese_number number_text join_parts digit_char
written_gap = refl

written_teen : int_to_chinese_number 15 ≡ ok (0x5341 ∷ 0x4e94 ∷ [])
unfolding int_to_chinese_number number_text join_parts digit_char
written_teen = refl

-- IDs of messages that are not in the tables.
abbrev new_message : String → String
new_message id = String.◌∷◌ "n" id

new_message-injective : (a b : String) → new_message a ≡ new_message b → a ≡ b
new_message-injective a b h = cc

abbrev first_code : String → ℕ
first_code String.[] = 0
first_code (String.◌∷◌ c s) = code c

new_message-fresh : (id : String) → find_outbox (new_message id) submitted.outbox ≡ none
unfolding find_outbox
new_message-fresh id = elim (Bool-cases ("msg-1" =t= new_message id)) [
  | inl same ↦
      absurd (let z = ap first_code (=t=→eq "msg-1" (new_message id) same) in omega (arith, z))
  | inr other ↦ rw other refl
]

abbrev settings : Dispatch
settings = record { dispatcher_id = "d1"; limit = 20; lease_seconds = 30; retry_delay_seconds = 5 }

-- A broker that keeps what is published, and never raises.
abbrev keep : List String → String → ℕ → String → Bool × List String
keep sent id version task = (false, task ∷ sent)

abbrev call : Result DispatchReport × World (List String)
call =
    dispatch_once keep (λ k. clock_at 40) settings (λ _. false) (λ _. false) new_message
      (clock_at 20) (clock_at 30) submitted []

dispatch_once_reports_example :
    IsValid call.1.db
    × (length call.1.observed ≡ call.1.delivered + call.1.deferred)
    × ((report : DispatchReport)
        → call.0 ≡ ok report
        → (report.delivered + report.deferred ≤ report.attempted) × (report.attempted ≤ 20))
dispatch_once_reports_example =
    dispatch_once_reports keep (λ k. clock_at 40) settings (λ _. false) (λ _. false) new_message
      (clock_at 20) (clock_at 30) submitted [] (Reach-IsValid submitted-Reach) new_message-injective
      new_message-fresh

-- The message is published under its task's name, and delivered.
sent : (call.1.broker ≡ "legal-rag-job-job-1" ∷ []) × (call.1.delivered ≡ 1)
unfolding dispatch_once dispatch_records dispatch_record settle requeue_expired_jobs count lost_jobs
    is_lost last_delivered_at count_outbox find_job backoff_seconds requeue_rows claim_outbox
    required_string is_space is_due due place claim_rows claim_one find_outbox update_outbox
    outbox_ok set_outbox mark_outbox_delivered mark_outbox holds_claim
sent = (refl, refl)

abbrev version : String
version = "m5-bounded-v1"

abbrev hash_text : String
hash_text = "0123456789abcdef0123456789abcdef0123456789abcdef0123456789abcdef"

abbrev casefold : String → String
casefold s = s

abbrev aware : List ℕ → Option Bool
aware cs = some true

abbrev asked : HarnessState
asked = record {
  run_id = "run-1";
  session_id = "session-1";
  user_id = "ann";
  schema_version = 1;
  graph_version = version;
  retrieval_config_hash = hash_text;
  question = "q";
  bounded_history_refs = [];
  snapshot_id = "snapshot-1";
  embedding_profile_id = "profile-1";
  analysis = no_members;
  proposed_queries = [];
  completed_query_hashes = [];
  retrieval_rounds_used = 0;
  model_attempts_used = 0;
  tool_attempts_used = 0;
  embedding_attempts_used = 0;
  execution_deadline_at = "2030-01-01T00:00:00+00:00";
  budget_ledger_ref = "run-budget:run-1";
  retrieved_evidence_refs = [];
  immutable_evidence_hashes = [];
  retrieved_artifact_ref = none;
  retrieved_artifact_hash = none;
  answer_draft_ref = none;
  verification_result_ref = none;
  verification_result_hash = none;
  last_completed_node = none;
  checkpoint_id = none;
  stop_reason = none;
  last_error_code = none;
  route = none;
  completion_status = none;
  next_node = some "analyze_query";
}

-- Nodes that only mark themselves and go on.
abbrev marked : String → String → HarnessState → State.Result (HarnessState × HarnessState)
marked name next s =
    State.ok (s, record s { last_completed_node = some name; next_node = some next })

abbrev nodes : Node → HarnessState → State.Result (HarnessState × HarnessState)
nodes analyze_query s = marked "analyze_query" "route" s
nodes route s = marked "route" "retrieve" s
nodes _ s = State.state_error

abbrev analyzed : HarnessState
analyzed = record asked { last_completed_node = some "analyze_query"; next_node = some "route" }

analyzes :
    validated_node casefold aware analyze_query (nodes analyze_query) asked ≡ State.ok analyzed
unfolding validated_node validate_harness_state members_ok identifiers_ok identifier sha256 hash_re
    question_ok is_stripped is_space lists_ok deadline_ok replace_z options_ok outcome_ok successors
analyzes = refl

target-next_node_example :
    target casefold aware analyze_query analyzed ≡ next_node casefold aware analyzed
target-next_node_example =
    target-next_node casefold aware analyze_query (nodes analyze_query) asked analyzed analyzes

goes : target_of casefold aware none asked ≡ State.ok (some analyze_query)
unfolding target_of next_node go_to go_from go_on find_node successors_of validate_harness_state
    members_ok identifiers_ok identifier sha256 hash_re question_ok is_stripped is_space lists_ok
    deadline_ok replace_z options_ok outcome_ok
goes = refl

nodes_leave :
    (n : Node) (s : HarnessState) (r : HarnessState × HarnessState)
    → nodes n s ≡ State.ok r
    → r.0 ≡ s
nodes_leave analyze_query s r h = cc
nodes_leave route s r h = cc
nodes_leave retrieve s r h = cc
nodes_leave merge_evidence s r h = cc
nodes_leave check_evidence s r h = cc
nodes_leave plan_followup s r h = cc
nodes_leave generate s r h = cc
nodes_leave verify s r h = cc
nodes_leave persist_result s r h = cc

Walk-SameRun_example : SameRun asked analyzed
Walk-SameRun_example =
    Walk-SameRun casefold aware nodes none asked analyzed (analyze_query ∷ []) nodes_leave
      (step analyze_query goes analyzes stop)

abbrev routed : HarnessState
routed = record analyzed { last_completed_node = some "route"; next_node = some "retrieve" }

routes : validated_node casefold aware route (nodes route) analyzed ≡ State.ok routed
unfolding validated_node validate_harness_state members_ok identifiers_ok identifier sha256 hash_re
    question_ok is_stripped is_space lists_ok deadline_ok replace_z options_ok outcome_ok successors
routes = refl

goes_on : target_of casefold aware (some analyze_query) analyzed ≡ State.ok (some route)
unfolding target_of target edge
goes_on = refl

Walk-follows_example : follows analyze_query (route ∷ []) ≡ true
Walk-follows_example =
    Walk-follows casefold aware nodes none asked routed analyze_query (route ∷ [])
      (step analyze_query goes analyzes (step route goes_on routes stop))
