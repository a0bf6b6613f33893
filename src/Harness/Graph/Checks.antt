-- ===== src/Harness/Graph/Checks.antt =====
-- What the check around a node of legal_rag/harness/graph.py lets pass.
use legal_rag_agent.Prelude.{
  ℕ, ◌≡◌, refl, sym, ap, ◌==◌, ◌∙◌, Bool, true, false, Option, none, some, List, String, ◌=t=◌,
  =t=→eq,
}
use legal_rag_agent.Harness.State.{
  Result, ok, state_error, graph_error, ◌>>=◌, ◌>>◌, check_graph, Node, node_name, HarnessState,
  validate_harness_state, check_state, members_ok, identifiers_ok, sha256, question_ok, lists_ok,
  deadline_ok, options_ok, outcome_ok,
}
use legal_rag_agent.Harness.Graph.{successors, names, selected, validated_node}

pub bind-ok :
    {A B : Type 0} (first : Result A) (next : A → Result B) {answer : B}
    → (first >>= next) ≡ ok answer
    → (a : A) × (first ≡ ok a) × (next a ≡ ok answer)
bind-ok graph_error next done = cc
bind-ok state_error next done = cc
bind-ok (ok a) next done = (a, refl, done)

check-ok :
    {B : Type 0} (t : Bool) (k : Result B) {b : B}
    → (check_graph t >> k) ≡ ok b
    → (t ≡ true) × (k ≡ ok b)
check-ok true k h = (refl, h)
check-ok false k h = cc

checked : {B : Type 0} (t : Bool) (k : Result B) {b : B} → (check_state t >> k) ≡ ok b → k ≡ ok b
checked true k h = h
checked false k h = cc

-- What no node may change.
pub record SameRun (s s' : HarnessState) : Type 0 where
  pub run_id : s'.run_id ≡ s.run_id
  pub graph_version : s'.graph_version ≡ s.graph_version
  pub retrieval_config_hash : s'.retrieval_config_hash ≡ s.retrieval_config_hash
  pub execution_deadline_at : s'.execution_deadline_at ≡ s.execution_deadline_at

pub marks : (o : Option String) (n : Node) → names o (some n) ≡ true → o ≡ some (node_name n)
marks none n h = cc
marks (some s) n h = ap some (=t=→eq s (node_name n) h)

module _ (casefold : String → String) (fromisoformat : List ℕ → Option Bool) where
  pub validate-same :
      (s s' : HarnessState) → validate_harness_state casefold fromisoformat s ≡ ok s' → s' ≡ s
  unfolding validate_harness_state
  validate-same s s' h =
      let h1 = checked (members_ok casefold fromisoformat s.analysis) _ h in
      let h2 = checked (s.schema_version == 1) _ h1 in
      let h3 = checked (identifiers_ok casefold fromisoformat s) _ h2 in
      let h4 = checked (sha256 s.retrieval_config_hash) _ h3 in
      let h5 = checked (question_ok casefold fromisoformat s) _ h4 in
      let h6 = checked (lists_ok casefold fromisoformat s) _ h5 in
      let h7 = checked (deadline_ok casefold fromisoformat s) _ h6 in
      let h8 = checked (options_ok casefold fromisoformat s) _ h7 in
      let h9 = checked (outcome_ok casefold fromisoformat s) _ h8 in cc

  -- A node that passes and that has left its argument as it was.
  pub validated_node_passes :
      (name : Node) (callback : HarnessState → Result (HarnessState × HarnessState))
      (s s' : HarnessState)
      → validated_node casefold fromisoformat name callback s ≡ ok s'
      → (((t : HarnessState) (r : HarnessState × HarnessState) → callback t ≡ ok r → r.0 ≡ t)
          → SameRun s s')
        × (s'.last_completed_node ≡ some (node_name name))
        × (selected s'.next_node (successors name) ≡ true)
        × (validate_harness_state casefold fromisoformat s' ≡ ok s')
  unfolding validated_node
  validated_node_passes name callback s s' h =
      let (given, v, h1) = bind-ok (validate_harness_state casefold fromisoformat s) _ h in
      let ((before, result), called, h2) = bind-ok (callback given) _ h1 in
      let (after, v', h3) = bind-ok (validate_harness_state casefold fromisoformat result) _ h2 in
      let (a, h4) = check-ok (after.run_id =t= before.run_id) _ h3 in
      let (b, h5) = check-ok (after.graph_version =t= before.graph_version) _ h4 in
      let (c, h6) = check-ok (after.retrieval_config_hash =t= before.retrieval_config_hash) _ h5 in
      let (d, h7) = check-ok (after.execution_deadline_at =t= before.execution_deadline_at) _ h6 in
      let (e, h8) = check-ok (names after.last_completed_node (some name)) _ h7 in
      let (f, h9) = check-ok (selected after.next_node (successors name)) _ h8 in
      let first : given ≡ s = validate-same s given v in
      let last : after ≡ result = validate-same result after v' in
      let is : after ≡ s' = cc in
      let again : validate_harness_state casefold fromisoformat after ≡ ok after = cc in
      let same_run = =t=→eq after.run_id before.run_id a in
      let same_version = =t=→eq after.graph_version before.graph_version b in
      let same_hash = =t=→eq after.retrieval_config_hash before.retrieval_config_hash c in
      let same_deadline = =t=→eq after.execution_deadline_at before.execution_deadline_at d in
      let marked : after.last_completed_node ≡ some (node_name name) =
        marks after.last_completed_node name e in
      (
        λ leaves.
            let kept : before ≡ given = leaves given (before, result) called in
            record {
              run_id = cc;
              graph_version = cc;
              retrieval_config_hash = cc;
              execution_deadline_at = cc;
            },
        cc,
        ap (λ (x : HarnessState). selected x.next_node (successors name)) (sym is) ∙ f,
        cc,
      )
