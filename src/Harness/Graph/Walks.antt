-- ===== src/Harness/Graph/Walks.antt =====
-- Runs of the graph of legal_rag/harness/graph.py.
use legal_rag_agent.Prelude.{
  ℕ, ◌≡◌, refl, sym, ap, ◌∙◌, Bool, true, Option, some, List, [], ◌∷◌, String, ◌&&◌,
}
use legal_rag_agent.Harness.State.{Result, ok, Node, node_name, HarnessState}
use legal_rag_agent.Harness.Graph.{
  successors, selected, validated_node, target, target_of, next_node,
}
use legal_rag_agent.Harness.Graph.Checks.{SameRun, validated_node_passes}
use legal_rag_agent.Harness.Graph.Edges.{next_node-name, target-next_node}

SameRun-refl : (s : HarnessState) → SameRun s s
SameRun-refl s = record {
  run_id = refl;
  graph_version = refl;
  retrieval_config_hash = refl;
  execution_deadline_at = refl;
}

SameRun-trans : (a b c : HarnessState) → SameRun a b → SameRun b c → SameRun a c
SameRun-trans a b c h k = record {
  run_id = k.run_id ∙ h.run_id;
  graph_version = k.graph_version ∙ h.graph_version;
  retrieval_config_hash = k.retrieval_config_hash ∙ h.retrieval_config_hash;
  execution_deadline_at = k.execution_deadline_at ∙ h.execution_deadline_at;
}

module _ (casefold : String → String) (fromisoformat : List ℕ → Option Bool) where
  -- A run of the graph: from each state, the node that its edges go to, until no more is run. It
  -- starts after a node, or with none at the entry.
  pub data Walk (nodes : Node → HarnessState → Result (HarnessState × HarnessState))
      : Option Node → HarnessState → List Node → HarnessState → Type 0 where
    stop : {last : Option Node} {s : HarnessState} → Walk nodes last s [] s
    step :
        {last : Option Node} {s s' s'' : HarnessState} {ns : List Node} (n : Node)
        → target_of casefold fromisoformat last s ≡ ok (some n)
        → validated_node casefold fromisoformat n (nodes n) s ≡ ok s'
        → Walk nodes (some n) s' ns s''
        → Walk nodes last s (n ∷ ns) s''

  -- Along every run of the graph, of any length, whose nodes leave the dict that they are given as it
  -- was (those of nodes.py work on copies), the run's ID, the graph's version, the retrieval
  -- configuration's digest and the absolute deadline stay, whatever the nodes return.
  pub Walk-SameRun :
      (nodes : Node → HarnessState → Result (HarnessState × HarnessState)) (last : Option Node)
      (s s' : HarnessState) (ns : List Node)
      → ((n : Node) (t : HarnessState) (r : HarnessState × HarnessState)
          → nodes n t ≡ ok r
          → r.0 ≡ t)
      → Walk nodes last s ns s'
      → SameRun s s'
  Walk-SameRun nodes last s _ _ leaves stop = SameRun-refl s
  Walk-SameRun nodes last s s'' (n ∷ ns) leaves (step {s' = s'} _ next done rest) =
      SameRun-trans s s' s''
        ((validated_node_passes casefold fromisoformat n (nodes n) s s' done).0 (leaves n))
        (Walk-SameRun nodes (some n) s' s'' ns leaves rest)

-- The nodes come in an order of `_SUCCESSORS`.
abbrev pub follows : Node → List Node → Bool
follows k [] = true
follows k (n ∷ ns) = selected (some (node_name n)) (successors k) && follows n ns

module _ (casefold : String → String) (fromisoformat : List ℕ → Option Bool)
    (nodes : Node → HarnessState → Result (HarnessState × HarnessState)) where
  after_node :
      (k : Node) (s s' : HarnessState) (ns : List Node)
      → target casefold fromisoformat k s ≡ next_node casefold fromisoformat s
      → selected s.next_node (successors k) ≡ true
      → Walk casefold fromisoformat nodes (some k) s ns s'
      → follows k ns ≡ true
  unfolding target_of
  after_node k s _ _ agrees chosen stop = refl
  after_node k s s'' (n ∷ ns) agrees chosen (step {s' = s'} _ next done rest) =
      let name = next_node-name casefold fromisoformat s n (sym agrees ∙ next) in
      let first : selected (some (node_name n)) (successors k) ≡ true =
        ap (λ (o : Option String). selected o (successors k)) (sym name) ∙ chosen in
      let passed = validated_node_passes casefold fromisoformat n (nodes n) s s' done in
      let later =
        after_node n s' s'' ns (target-next_node casefold fromisoformat n (nodes n) s s' done)
          passed.2 rest in
      rw (first, later) refl

  -- Along every run of the graph by its edges, whatever its nodes do, each node after the first is
  -- one that `_SUCCESSORS` has for the node before it.
  pub Walk-follows :
      (last : Option Node) (s s' : HarnessState) (n : Node) (ns : List Node)
      → Walk casefold fromisoformat nodes last s (n ∷ ns) s'
      → follows n ns ≡ true
  Walk-follows last s s'' n ns (step {s' = s'} _ next done rest) =
      after_node n s' s'' ns (target-next_node casefold fromisoformat n (nodes n) s s' done)
        (validated_node_passes casefold fromisoformat n (nodes n) s s' done).2 rest
