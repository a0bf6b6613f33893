-- ===== src/Runs/Service/Claim.antt =====
-- RunService.claim_next_run.
use Prim.Native.Nat.{Ordering}
use Prim.Native.String.{compare}
use legal_rag_agent.Prelude.{
  ℕ, ◌+◌, Bool, true, false, ◌&&◌, ◌||◌, not, Option, none, some, List, [], ◌∷◌, String, ltb, ◌==◌,
  is_some, coalesce, if◌then◌else◌,
}
use legal_rag_agent.Runs.Result.{Result, ok, ◌>>=◌, ◌>>◌}
use legal_rag_agent.Runs.Validate.{canonical_identifier, canonical_integer_up_to}
use legal_rag_agent.Runs.Tables.{
  Status, queued, running, interrupted, EventType, run_started, run_resumed, text, number, Run, Db,
}
use legal_rag_agent.Runs.Service.{RunRecord, reread, transition_with_event}
use legal_rag_agent.Runs.Service.Lifecycle.{seconds}
use legal_rag_agent.Harness.Budget.{HarnessBudgetConfig}

abbrev pub is_queued : Status → Bool
is_queued queued = true
is_queued _ = false

abbrev pub is_interrupted : Status → Bool
is_interrupted interrupted = true
is_interrupted _ = false

-- Queued, or interrupted with a resume requested.
unfoldable pub is_claimable : Run → Bool
is_claimable row =
    is_queued row.status || (is_interrupted row.status && is_some row.resume_requested_at)

-- ORDER BY queued_at, run_id.
unfoldable pub before : Run → Run → Bool
before a b =
    ltb a.queued_at b.queued_at
    || (a.queued_at == b.queued_at
        && elim (compare a.run_id b.run_id) [ Ordering.lt ↦ true | _ ↦ false ])

-- The first of the rows that pass, in that order: LIMIT 1.
unfoldable pub oldest : (Run → Bool) → List Run → Option Run
oldest p [] = none
oldest p (r ∷ rs) =
    let best = oldest p rs in
    if p r
    then (elim best [ none ↦ some r | some b ↦ if before b r then some b else some r ])
    else best

unfoldable pub claimed_row : String → ℕ → HarnessBudgetConfig → ℕ → Run → Run
claimed_row worker_id lease_seconds budget now row = record row {
  status = running;
  started_at = some (coalesce row.started_at now);
  lease_owner = some worker_id;
  lease_expires_at = some (now + seconds lease_seconds);
  lease_epoch = row.lease_epoch + 1;
  execution_deadline_at =
      some (coalesce row.execution_deadline_at (now + seconds budget.execution_deadline_seconds));
  resume_requested_at = none;
  error_code = none;
}

abbrev pub claim_event : Run → EventType
claim_event row = if is_interrupted row.status then run_resumed else run_started

-- The WHERE of the SELECT; `busy` tells the rows that another transaction holds (SKIP LOCKED).
abbrev pub is_free : (String → Bool) → Run → Bool
is_free busy row = is_claimable row && not (busy row.run_id)

unfoldable pub claim_next_run :
    (String → Bool) → HarnessBudgetConfig → String → ℕ → ℕ → Db → Result (Option RunRecord × Db)
claim_next_run busy budget worker_id lease_seconds now db = do
  canonical_identifier worker_id 128
  canonical_integer_up_to lease_seconds 86400
  elim (oldest (is_free busy) db.runs) [
    | none ↦ ok (none, db)
    | some row ↦ do
      db' ←
          transition_with_event row (claimed_row worker_id lease_seconds budget now)
            (claim_event row)
            (("status", text "running") ∷ ("lease_epoch", number (row.lease_epoch + 1)) ∷ []) now db
      claimed ← reread row.run_id db'
      ok (some claimed.0, claimed.1)
  ]
