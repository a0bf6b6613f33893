-- ===== src/Harness/Budget.antt =====
-- legal_rag/harness/budget.py: the limits of a run and the bound on retries.
use legal_rag_agent.Prelude.{ℕ, Bool, ◌&&◌, [], ◌∷◌, all, leb, ltb, if◌then◌else◌}
use legal_rag_agent.Jobs.Result.{Result, ok, err, value_error}

pub record HarnessBudgetConfig : Type 0 where
  pub max_retrieval_rounds : ℕ
  pub max_queries_per_round : ℕ
  pub max_tool_attempts : ℕ
  pub max_model_attempts : ℕ
  pub max_embedding_attempts : ℕ
  pub max_retry_per_operation : ℕ
  pub execution_deadline_seconds : ℕ
  pub evidence_top_k : ℕ

-- `__post_init__`: each limit with its least and greatest value.
unfoldable pub budget_ok : HarnessBudgetConfig → Bool
budget_ok c =
    all (λ (v, (least, most)). leb least v && leb v most)
      ((c.max_retrieval_rounds, (1, 32))
        ∷ (c.max_queries_per_round, (1, 32))
        ∷ (c.max_tool_attempts, (1, 1000))
        ∷ (c.max_model_attempts, (1, 1000))
        ∷ (c.max_embedding_attempts, (0, 1000))
        ∷ (c.max_retry_per_operation, (0, 20))
        ∷ (c.execution_deadline_seconds, (1, 86400))
        ∷ (c.evidence_top_k, (1, 100))
        ∷ [])

-- `retry_allowed`, of a decision's `retryable`.
unfoldable pub retry_allowed : Bool → ℕ → ℕ → Result Bool
retry_allowed retryable attempt_no maximum_retries =
    if ltb attempt_no 1 then err value_error else ok (retryable && leb attempt_no maximum_retries)
