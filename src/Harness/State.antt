-- ===== src/Harness/State.antt =====
-- legal_rag/harness/state.py: the state of a run and its validation. A field has its Python type, so
-- the `isinstance` tests and the test of the set of fields are passed; a counter is natural.
use Prim.Native.String.{◌++◌ as str_append}
use legal_rag_agent.Prelude.{
  ℕ, Bool, true, false, ◌&&◌, ◌||◌, not, Option, none, some, List, [], ◌∷◌, ◌++◌, String, length,
  all, map, any, codes, ltb, leb, ◌==◌, ◌=t=◌, if◌then◌else◌,
}
use legal_rag_agent.Jobs.Validate.{is_space, hash_re}

pub data Result (A : Type 0) : Type 0 where
  ok : A → Result A
  state_error : Result A  -- HarnessStateError
  graph_error : Result A  -- HarnessGraphError

infixl 5 ◌>>◌ ◌>>=◌
abbrev pub ◌>>=◌ : {A C : Type 0} → Result A → (A → Result C) → Result C
graph_error >>= next = graph_error
state_error >>= next = state_error
ok a >>= next = next a

abbrev pub ◌>>◌ : {C : Type 0} → Result (Unit {0}) → Result C → Result C
check >> next = check >>= λ _. next

abbrev pub check_state : Bool → Result (Unit {0})
check_state true = ok tt
check_state false = state_error

abbrev pub check_graph : Bool → Result (Unit {0})
check_graph true = ok tt
check_graph false = graph_error

-- HARNESS_NODE_NAMES.
pub data Node : Type 0 where
  analyze_query route retrieve merge_evidence check_evidence plan_followup generate verify
        persist_result :
      Node

abbrev pub node_name : Node → String
node_name analyze_query = "analyze_query"
node_name route = "route"
node_name retrieve = "retrieve"
node_name merge_evidence = "merge_evidence"
node_name check_evidence = "check_evidence"
node_name plan_followup = "plan_followup"
node_name generate = "generate"
node_name verify = "verify"
node_name persist_result = "persist_result"

abbrev pub all_nodes : List Node
all_nodes =
    analyze_query ∷ route ∷ retrieve ∷ merge_evidence ∷ check_evidence ∷ plan_followup ∷ generate
    ∷ verify ∷ persist_result ∷ []

-- A JSON value; of a float, whether it is finite.
mutual
  pub data Json : Type 0 where
    null : Json
    boolean : Bool → Json
    integer : Bool → ℕ → Json  -- whether it is negative, and its magnitude
    float : Bool → Json
    text : String → Json
    array : Elements → Json
    object : Members → Json

  pub data Elements : Type 0 where
    no_elements : Elements
    element : Json → Elements → Elements

  pub data Members : Type 0 where
    no_members : Members
    member : String → Json → Members → Members

pub record HarnessState : Type 0 where
  pub run_id : String
  pub session_id : String
  pub user_id : String
  pub schema_version : ℕ
  pub graph_version : String
  pub retrieval_config_hash : String
  pub question : String
  pub bounded_history_refs : List String
  pub snapshot_id : String
  pub embedding_profile_id : String
  pub analysis : Members
  pub proposed_queries : List String
  pub completed_query_hashes : List String
  pub retrieval_rounds_used : ℕ
  pub model_attempts_used : ℕ
  pub tool_attempts_used : ℕ
  pub embedding_attempts_used : ℕ
  pub execution_deadline_at : String
  pub budget_ledger_ref : String
  pub retrieved_evidence_refs : List String
  pub immutable_evidence_hashes : List String
  pub retrieved_artifact_ref : Option String
  pub retrieved_artifact_hash : Option String
  pub answer_draft_ref : Option String
  pub verification_result_ref : Option String
  pub verification_result_hash : Option String
  pub last_completed_node : Option String
  pub checkpoint_id : Option String
  pub stop_reason : Option String
  pub last_error_code : Option String
  pub route : Option String
  pub completion_status : Option String
  pub next_node : Option String

abbrev pub one_of : List String → String → Bool
one_of names s = any (λ name. name =t= s) names

abbrev pub optional : (String → Bool) → Option String → Bool
optional p none = true
optional p (some s) = p s

-- `_FORBIDDEN_STATE_KEYS`.
unfoldable pub is_forbidden : String → Bool
is_forbidden key =
    one_of
      ("access_token" ∷ "api_key" ∷ "authorization" ∷ "client" ∷ "connection" ∷ "cookie"
        ∷ "credential" ∷ "database_url" ∷ "draft" ∷ "hidden_reasoning" ∷ "password" ∷ "prompt"
        ∷ "raw_model_output" ∷ "raw_response" ∷ "secret" ∷ "system_prompt" ∷ "token" ∷ [])
      key

is_alnum : ℕ → Bool
is_alnum c =
    (leb b'A' c && leb c b'Z') || ((leb b'a' c && leb c b'z') || (leb b'0' c && leb c b'9'))

-- `_IDENTIFIER`.
unfoldable pub identifier : String → Bool
unfolding is_alnum
identifier s = elim (codes s) [
  | [] ↦ false
  | c ∷ cs ↦
      is_alnum c
      && (all
            (λ d.
              is_alnum d
              || (d == b'_'
                  || (d == b'.' || (d == b':' || (d == b'@' || (d == b'/' || d == b'-'))))))
            cs
          && leb (length cs) 254)
]

unfoldable pub sha256 : String → Bool
sha256 s = hash_re (codes s)

-- HARNESS_TERMINAL_STATUSES.
abbrev pub terminal_status : String → Bool
terminal_status s = one_of ("succeeded" ∷ "completed_with_limits" ∷ "needs_clarification" ∷ []) s

-- `value.replace("Z", "+00:00")`.
unfoldable pub replace_z : List ℕ → List ℕ
replace_z [] = []
replace_z (c ∷ cs) =
    let rest = replace_z cs in
    if c == b'Z' then b'+' ∷ b'0' ∷ b'0' ∷ b':' ∷ b'0' ∷ b'0' ∷ rest else c ∷ rest

-- Whether `strip` leaves a text: neither end is blank.
unfoldable pub is_stripped : List ℕ → Bool
is_stripped [] = true
is_stripped (c ∷ cs) = not (is_space c) && last_solid c cs
  where
    last_solid : ℕ → List ℕ → Bool
    last_solid c [] = not (is_space c)
    last_solid c (d ∷ ds) = last_solid d ds

-- `casefold` is Python's, and `fromisoformat` that of `datetime`: none for its ValueError, else
-- whether the instant is aware.
module _ (casefold : String → String) (fromisoformat : List ℕ → Option Bool) where
  unfoldable mutual
    -- `_assert_json_tree`, of a value, the elements of a list and the members of a dictionary.
    pub tree_ok : Json → Bool
    tree_ok null = true
    tree_ok (boolean b) = true
    tree_ok (integer s n) = true
    tree_ok (float finite) = finite
    tree_ok (text s) = true
    tree_ok (array es) = elements_ok es
    tree_ok (object ms) = members_ok ms

    pub elements_ok : Elements → Bool
    elements_ok no_elements = true
    elements_ok (element j es) = tree_ok j && elements_ok es

    pub members_ok : Members → Bool
    members_ok no_members = true
    members_ok (member key j ms) = not (is_forbidden (casefold key)) && (tree_ok j && members_ok ms)

  -- The keys of the state are not forbidden and its other values are no trees.
  unfoldable pub identifiers_ok : HarnessState → Bool
  identifiers_ok s = all identifier (
      s.run_id ∷ s.session_id ∷ s.user_id ∷ s.graph_version ∷ s.snapshot_id ∷ s.embedding_profile_id
      ∷ s.budget_ledger_ref ∷ [])

  unfoldable pub question_ok : HarnessState → Bool
  question_ok s =
      let cs = codes s.question in ltb 0 (length cs) && (is_stripped cs && leb (length cs) 100000)

  unfoldable pub lists_ok : HarnessState → Bool
  lists_ok s =
      all (λ xs. leb (length xs) 1000)
        (s.bounded_history_refs ∷ s.proposed_queries ∷ s.completed_query_hashes
          ∷ s.retrieved_evidence_refs ∷ s.immutable_evidence_hashes ∷ [])
      && all sha256 (s.completed_query_hashes ++ s.immutable_evidence_hashes)

  unfoldable pub deadline_ok : HarnessState → Bool
  deadline_ok s = elim (fromisoformat (replace_z (codes s.execution_deadline_at))) [
    | none ↦ false
    | some aware ↦ aware
  ]

  unfoldable pub options_ok : HarnessState → Bool
  options_ok s =
      all (optional identifier) (
        s.retrieved_artifact_ref ∷ s.verification_result_ref ∷ s.checkpoint_id ∷ s.stop_reason
        ∷ s.last_error_code ∷ s.route ∷ s.next_node ∷ [])
      && (all (optional sha256) (s.retrieved_artifact_hash ∷ s.verification_result_hash ∷ [])
          && elim s.answer_draft_ref [ none ↦ true | some _ ↦ false ])

  unfoldable pub outcome_ok : HarnessState → Bool
  outcome_ok s =
      optional (one_of (map node_name all_nodes)) s.last_completed_node
      && optional terminal_status s.completion_status

  -- `validate_harness_state`; the JSON round trip at its end gives the value back.
  unfoldable pub validate_harness_state : HarnessState → Result HarnessState
  validate_harness_state s = do
    check_state (members_ok s.analysis)
    check_state (s.schema_version == 1)
    check_state (identifiers_ok s)
    check_state (sha256 s.retrieval_config_hash)
    check_state (question_ok s)
    check_state (lists_ok s)
    check_state (deadline_ok s)
    check_state (options_ok s)
    check_state (outcome_ok s)
    ok s

  -- `new_harness_state`; `deadline` is the text of an aware instant.
  unfoldable pub new_harness_state :
      (run session user version digest question : String) (history : List String)
      (snapshot profile deadline : String)
      → Result HarnessState
  new_harness_state run session user version digest question history snapshot profile deadline =
      validate_harness_state (record {
        run_id = run;
        session_id = session;
        user_id = user;
        schema_version = 1;
        graph_version = version;
        retrieval_config_hash = digest;
        question = question;
        bounded_history_refs = history;
        snapshot_id = snapshot;
        embedding_profile_id = profile;
        analysis = no_members;
        proposed_queries = [];
        completed_query_hashes = [];
        retrieval_rounds_used = 0;
        model_attempts_used = 0;
        tool_attempts_used = 0;
        embedding_attempts_used = 0;
        execution_deadline_at = deadline;
        budget_ledger_ref = str_append "run-budget:" run;
        retrieved_evidence_refs = [];
        immutable_evidence_hashes = [];
        retrieved_artifact_ref = none;
        retrieved_artifact_hash = none;
        answer_draft_ref = none;
        verification_result_ref = none;
        verification_result_hash = none;
        last_completed_node = none;
        checkpoint_id = none;
        stop_reason = none;
        last_error_code = none;
        route = none;
        completion_status = none;
        next_node = some "analyze_query";
      })
