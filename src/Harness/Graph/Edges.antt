-- ===== src/Harness/Graph/Edges.antt =====
-- The edges of legal_rag/harness/graph.py beside the choice of `_next_node`.
use legal_rag_agent.Prelude.{
  ℕ, ◌≡◌, refl, sym, ap, ◌∙◌, Bool, true, Option, none, some, List, [], ◌∷◌, String, ◌=t=◌, =t=→eq,
  Bool-cases, inl, inr, ◌⊎◌, any, arith, if◌then◌else◌,
}
use legal_rag_agent.Harness.State.{
  Result, ok, graph_error, ◌>>=◌, Node, node_name, analyze_query, route, retrieve, merge_evidence,
  check_evidence, plan_followup, generate, verify, persist_result, all_nodes, HarnessState,
  validate_harness_state,
}
use legal_rag_agent.Harness.Graph.{
  successors, names, selected, validated_node, target, within, edge, next_node, find_node, go_on,
  go_from, go_to, last_node, successors_of,
}
use legal_rag_agent.Harness.Graph.Checks.{bind-ok, marks, validate-same, validated_node_passes}

find_node-name :
    (x : String) (n : Node) (ms : List Node) → find_node x ms ≡ some n → x ≡ node_name n
unfolding find_node
find_node-name x n [] h = cc
find_node-name x n (m ∷ ms) h = elim (Bool-cases (x =t= node_name m)) [
  | inl here ↦ let z = rw here at h in =t=→eq x (node_name m) here ∙ cc
  | inr there ↦ find_node-name x n ms (rw there at h)
]

go_on-same : (s : HarnessState) (o : Option Node) (n : Node) → go_on s o ≡ ok (some n) → o ≡ some n
unfolding go_on
go_on-same s none n h = cc
go_on-same s (some m) n h =
    elim (Bool-cases (any (names s.next_node) (successors_of (last_node s.last_completed_node)))) [
      | inl after ↦ let z = rw after at h in cc
      | inr other ↦ absurd (let z = rw other at h in cc)
    ]

go_from-name :
    (s : HarnessState) (o : Option String) (n : Node)
    → go_from s o ≡ ok (some n)
    → o ≡ some (node_name n)
unfolding go_from
go_from-name s none n h = elim (Bool-cases (names s.last_completed_node (some persist_result))) [
  | inl ends ↦ absurd (let z = rw ends at h in cc)
  | inr goes ↦ absurd (let z = rw goes at h in cc)
]
go_from-name s (some x) n h =
    ap some (find_node-name x n all_nodes (go_on-same s (find_node x all_nodes) n h))

module _ (casefold : String → String) (fromisoformat : List ℕ → Option Bool) where
  pub next_node-name :
      (s : HarnessState) (n : Node)
      → next_node casefold fromisoformat s ≡ ok (some n)
      → s.next_node ≡ some (node_name n)
  unfolding next_node go_to
  next_node-name s n h =
      let (same, v, h1) = bind-ok (validate_harness_state casefold fromisoformat s) _ h in
      let is = validate-same casefold fromisoformat s same v in
      ap (λ (x : HarnessState). x.next_node) (sym is) ∙ go_from-name same same.next_node n h1

  -- A validated state that names a node after its last one goes to that node.
  next_node_named :
      (s : HarnessState) (k n : Node)
      → validate_harness_state casefold fromisoformat s ≡ ok s
      → s.last_completed_node ≡ some (node_name k)
      → s.next_node ≡ some (node_name n)
      → find_node (node_name n) all_nodes ≡ some n
      → any (names (some (node_name n))) (successors_of (last_node (some (node_name k)))) ≡ true
      → next_node casefold fromisoformat s ≡ ok (some n)
  unfolding next_node go_to go_from go_on
  next_node_named s k n v last next named fits =
      let goes : any (names s.next_node) (successors_of (last_node s.last_completed_node)) ≡ true =
        ap (λ (o : Option String). any (names o) (successors_of (last_node s.last_completed_node)))
          next
        ∙ ap (λ (o : Option String). any (names (some (node_name n))) (successors_of (last_node o)))
            last
        ∙ fits in
      ap (λ (r : Result HarnessState). r >>= go_to) v
      ∙ ap (λ (o : Option String). go_from s o) next
      ∙ ap (λ (o : Option Node). go_on s o) named
      ∙ ap (λ (b : Bool). if b then ok (some n) else graph_error) goes

  next_node_ends :
      (s : HarnessState)
      → validate_harness_state casefold fromisoformat s ≡ ok s
      → s.last_completed_node ≡ some (node_name persist_result)
      → s.next_node ≡ none
      → ok none ≡ next_node casefold fromisoformat s
  unfolding next_node go_to go_from
  next_node_ends s v last next = sym (
      ap (λ (r : Result HarnessState). r >>= go_to) v
      ∙ ap (λ (o : Option String). go_from s o) next
      ∙ ap (λ (o : Option String). if names o (some persist_result) then ok none else graph_error)
          last)

  -- The choice of `_next_node` is in a conditional edge's mapping.
  next_node_within :
      (s : HarnessState) (n : Node) (ms : List Node)
      → next_node casefold fromisoformat s ≡ ok (some n)
      → any (λ m. node_name n =t= node_name m) ms ≡ true
      → (next_node casefold fromisoformat s >>= λ o. within o ms)
        ≡ next_node casefold fromisoformat s
  unfolding within
  next_node_within s n ms h mapped =
      ap (λ (r : Result (Option Node)). r >>= λ o. within o ms) h
      ∙ ap (λ (b : Bool). if b then ok (some n) else graph_error) mapped
      ∙ sym h

  only : (o : Option String) (m : Node) → selected o (some m ∷ []) ≡ true → o ≡ some (node_name m)
  only o m h = marks o m (ground (arith, h))

  either :
      (o : Option String) (m k : Node)
      → selected o (some m ∷ some k ∷ []) ≡ true
      → (o ≡ some (node_name m)) ⊎ (o ≡ some (node_name k))
  either o m k h = elim (Bool-cases (names o (some m))) [
    | inl first ↦ inl (marks o m first)
    | inr other ↦ inr (marks o k (ground (arith, h, other)))
  ]

  ends : (o : Option String) → selected o (none ∷ []) ≡ true → o ≡ none
  ends none h = refl
  ends (some s) h = cc

  target_next :
      (n : Node) (s : HarnessState)
      → validate_harness_state casefold fromisoformat s ≡ ok s
      → s.last_completed_node ≡ some (node_name n)
      → selected s.next_node (successors n) ≡ true
      → target casefold fromisoformat n s ≡ next_node casefold fromisoformat s
  unfolding target edge successors find_node successors_of last_node
  target_next analyze_query s v last fits =
      sym (next_node_named s analyze_query route v last (only _ route fits) refl refl)
  target_next route s v last fits =
      sym (next_node_named s route retrieve v last (only _ retrieve fits) refl refl)
  target_next retrieve s v last fits =
      sym (next_node_named s retrieve merge_evidence v last (only _ merge_evidence fits) refl refl)
  target_next merge_evidence s v last fits = sym (
      next_node_named s merge_evidence check_evidence v last (only _ check_evidence fits) refl refl)
  target_next check_evidence s v last fits = elim (either _ plan_followup generate fits) [
    | inl e ↦
        next_node_within s plan_followup _
          (next_node_named s check_evidence plan_followup v last e refl refl) refl
    | inr e ↦
        next_node_within s generate _ (next_node_named s check_evidence generate v last e refl refl)
          refl
  ]
  target_next plan_followup s v last fits = elim (either _ retrieve generate fits) [
    | inl e ↦
        next_node_within s retrieve _ (next_node_named s plan_followup retrieve v last e refl refl)
          refl
    | inr e ↦
        next_node_within s generate _ (next_node_named s plan_followup generate v last e refl refl)
          refl
  ]
  target_next generate s v last fits =
      sym (next_node_named s generate verify v last (only _ verify fits) refl refl)
  target_next verify s v last fits =
      sym (next_node_named s verify persist_result v last (only _ persist_result fits) refl refl)
  target_next persist_result s v last fits = next_node_ends s v last (ends _ fits)

-- The fixed edges of the graph agree with the states: from the state of a node that has passed, the
-- graph goes where `_next_node` of that state goes, which is where a run that is resumed from it
-- goes, and ends where it ends.
pub target-next_node :
    (casefold : String → String) (fromisoformat : List ℕ → Option Bool) (n : Node)
    (callback : HarnessState → Result (HarnessState × HarnessState)) (s s' : HarnessState)
    → validated_node casefold fromisoformat n callback s ≡ ok s'
    → target casefold fromisoformat n s' ≡ next_node casefold fromisoformat s'
target-next_node casefold fromisoformat n callback s s' h =
    let (same, last, fits, v) = validated_node_passes casefold fromisoformat n callback s s' h in
    target_next casefold fromisoformat n s' v last fits
