-- ===== src/Harness/Graph.antt =====
-- legal_rag/harness/graph.py: what the bounded graph lets a node do, and where it goes next. The
-- graph engine, which calls the nodes along these edges, and its checkpointer are langgraph's; a run here starts at the state's next node, as a resumed run does.
pub mod Checks
pub mod Edges
pub mod Walks
use legal_rag_agent.Prelude.{
  ℕ, Bool, true, false, ◌&&◌, ◌||◌, not, Option, none, some, List, [], ◌∷◌, String, all, any, map,
  ◌=t=◌, if◌then◌else◌,
}
use legal_rag_agent.Harness.State.{
  Result, ok, state_error, graph_error, ◌>>=◌, ◌>>◌, check_graph, Node, analyze_query, route,
  retrieve, merge_evidence, check_evidence, plan_followup, generate, verify, persist_result,
  node_name, all_nodes, HarnessState, validate_harness_state,
}

-- `_SUCCESSORS` of a node, none being the end.
unfoldable pub successors : Node → List (Option Node)
successors analyze_query = some route ∷ []
successors route = some retrieve ∷ []
successors retrieve = some merge_evidence ∷ []
successors merge_evidence = some check_evidence ∷ []
successors check_evidence = some plan_followup ∷ some generate ∷ []
successors plan_followup = some retrieve ∷ some generate ∷ []
successors generate = some verify ∷ []
successors verify = some persist_result ∷ []
successors persist_result = none ∷ []

-- `_SUCCESSORS[None]`: the run starts at its analysis.
unfoldable pub successors_of : Option Node → List (Option Node)
successors_of none = some analyze_query ∷ []
successors_of (some n) = successors n

-- A state's field names a node, or nothing.
abbrev pub names : Option String → Option Node → Bool
names none none = true
names (some s) (some n) = s =t= node_name n
names _ _ = false

-- The node of a name.
unfoldable pub find_node : String → List Node → Option Node
find_node s [] = none
find_node s (n ∷ ns) = if s =t= node_name n then some n else find_node s ns

abbrev pub selected : Option String → List (Option Node) → Bool
selected next expected = any (names next) expected

last_node : Option String → Option Node
last_node none = none
last_node (some s) = find_node s all_nodes

-- The end of `_next_node`: the node must come after the last completed one. A validated
-- `last_completed_node` is a node's, so that the table has it.
unfoldable pub go_on : HarnessState → Option Node → Result (Option Node)
unfolding last_node
go_on s none = graph_error
go_on s (some n) =
    if any (names s.next_node) (successors_of (last_node s.last_completed_node))
    then ok (some n)
    else graph_error

-- `_next_node` of the state's `next_node`; none is the end.
unfoldable pub go_from : HarnessState → Option String → Result (Option Node)
go_from s none = if names s.last_completed_node (some persist_result) then ok none else graph_error
go_from s (some next) = go_on s (find_node next all_nodes)

unfoldable pub go_to : HarnessState → Result (Option Node)
go_to s = go_from s s.next_node

-- The edges of `build_bounded_graph` from a node: a fixed one, or the choice of `_next_node` among
-- the nodes of its mapping.
pub data Edge : Type 0 where
  always : Option Node → Edge
  chosen : List Node → Edge

unfoldable pub edge : Node → Edge
edge analyze_query = always (some route)
edge route = always (some retrieve)
edge retrieve = always (some merge_evidence)
edge merge_evidence = always (some check_evidence)
edge check_evidence = chosen (plan_followup ∷ generate ∷ [])
edge plan_followup = chosen (retrieve ∷ generate ∷ [])
edge generate = always (some verify)
edge verify = always (some persist_result)
edge persist_result = always none

-- The mapping of a conditional edge; the engine refuses what it does not have.
unfoldable pub within : Option Node → List Node → Result (Option Node)
within none ms = graph_error
within (some n) ms = if any (λ m. node_name n =t= node_name m) ms then ok (some n) else graph_error

module _ (casefold : String → String) (fromisoformat : List ℕ → Option Bool) where
  -- `_validated_node`: what the wrapped callback does to the payload. A callback is given a dict that
  -- it may change in place, and the checks compare its result with that dict: its value here is the
  -- dict as the call leaves it, with the result.
  unfoldable pub validated_node :
      Node
      → (HarnessState → Result (HarnessState × HarnessState))
      → HarnessState
      → Result HarnessState
  validated_node name callback payload = do
    given ← validate_harness_state casefold fromisoformat payload
    (before, result) ← callback given
    after ← validate_harness_state casefold fromisoformat result
    check_graph (after.run_id =t= before.run_id)
    check_graph (after.graph_version =t= before.graph_version)
    check_graph (after.retrieval_config_hash =t= before.retrieval_config_hash)
    check_graph (after.execution_deadline_at =t= before.execution_deadline_at)
    check_graph (names after.last_completed_node (some name))
    check_graph (selected after.next_node (successors name))
    ok after

  unfoldable pub next_node : HarnessState → Result (Option Node)
  next_node payload = validate_harness_state casefold fromisoformat payload >>= go_to

  -- Where the compiled graph goes from a node with the state that it leaves, and none is the end.
  unfoldable pub target : Node → HarnessState → Result (Option Node)
  target n s = elim (edge n) [ always o ↦ ok o | chosen ms ↦ next_node s >>= λ o. within o ms ]

  -- The same at the start of a run or of a resumed run, where every node may be chosen.
  unfoldable pub target_of : Option Node → HarnessState → Result (Option Node)
  target_of none s = next_node s
  target_of (some n) s = target n s
