-- ===== src/Runs/Service/Recover.antt =====
-- RunService.recover_stale_runs.
use Prim.Native.Nat.{Ordering}
use Prim.Native.String.{compare}
use legal_rag_agent.Prelude.{
  ℕ, zero, suc, Bool, true, false, ◌&&◌, ◌||◌, not, Option, none, some, List, [], ◌∷◌, map, String,
  take, ltb, leb, ◌==◌, ◌=t=◌, if◌then◌else◌, find_by, count_by,
}
use legal_rag_agent.Runs.Result.{Result, ok, err, data_error, ◌>>=◌, ◌>>◌}
use legal_rag_agent.Runs.Validate.{canonical_integer_up_to}
use legal_rag_agent.Runs.Tables.{
  interrupted, is_running, model, OperationKind, AttemptStatus, reserved, dispatched, succeeded,
  outcome_unknown, abandoned_before_dispatch, attempt_outcome_unknown, run_interrupted, text, flag,
  Payload, Run, Attempt, Checkpoint, Db, run_key,
}
use legal_rag_agent.Runs.Service.{RunRecord, reread, transition_with_event}

-- The lease is absent or has run out.
unfoldable pub is_stale : ℕ → Run → Bool
is_stale cutoff row =
    is_running row.status && elim row.lease_expires_at [ none ↦ true | some t ↦ leb t cutoff ]

abbrev earlier_id : Run → Run → Bool
earlier_id a b = elim (compare a.run_id b.run_id) [ Ordering.lt ↦ true | _ ↦ false ]

-- ORDER BY lease_expires_at, run_id; in PostgreSQL a NULL comes last.
unfoldable pub sooner : Run → Run → Bool
sooner a b = elim a.lease_expires_at [
  | none ↦ elim b.lease_expires_at [ none ↦ earlier_id a b | some u ↦ false ]
  | some t ↦ elim b.lease_expires_at [
    | none ↦ true
    | some u ↦ ltb t u || (t == u && earlier_id a b)
  ]
]

unfoldable pub place_run : Run → List Run → List Run
place_run r [] = r ∷ []
place_run r (q ∷ qs) = if sooner q r then q ∷ place_run r qs else r ∷ q ∷ qs

-- The rows that pass, in that order.
unfoldable pub stale_rows : (Run → Bool) → List Run → List Run
unfolding place_run
stale_rows p [] = []
stale_rows p (r ∷ rs) = let rest = stale_rows p rs in if p r then place_run r rest else rest

abbrev is_at : Run → Checkpoint → Bool
is_at row c =
    c.run_id =t= row.run_id
    && (elim row.checkpoint_namespace [ none ↦ false | some n ↦ c.checkpoint_namespace =t= n ]
        && elim row.last_checkpoint_id [ none ↦ false | some i ↦ c.checkpoint_id =t= i ])

-- When the run's trusted checkpoint was made.
unfoldable pub checkpoint_created_at : Run → List Checkpoint → Option ℕ
checkpoint_created_at row [] = none
checkpoint_created_at row (c ∷ cs) =
    if is_at row c then some c.created_at else checkpoint_created_at row cs

abbrev pub is_model : OperationKind → Bool
is_model model = true
is_model _ = false

-- A result that a later checkpoint holds.
abbrev pub is_durable : Option ℕ → Attempt → Bool
is_durable checkpoint a = elim checkpoint [
  | none ↦ false
  | some t ↦ elim a.completed_at [ none ↦ false | some done ↦ ltb done t ]
]

abbrev pub closed : AttemptStatus → String → Bool → ℕ → Attempt → Attempt
closed status code retryable cutoff a = record a {
  status = status;
  retryable = some retryable;
  error_code = some code;
  result_ref = none;
  result_hash = none;
  completed_at = some cutoff;
}

-- What happens to one attempt of the interrupted epoch, by its status.
unfoldable pub reconciled : Option ℕ → ℕ → Attempt → Attempt
reconciled checkpoint cutoff a = elim a.status [
  | succeeded ↦
      if is_model a.operation_kind && not (is_durable checkpoint a)
      then closed outcome_unknown "provider_result_not_durable" false cutoff a
      else a
  | dispatched ↦ closed outcome_unknown "provider_outcome_unknown" false cutoff a
  | reserved ↦ closed abandoned_before_dispatch "worker_interrupted_before_dispatch" true cutoff a
  | _ ↦ a
]

-- The attempts of the SELECT.
abbrev pub is_in_flight : Run → Attempt → Bool
is_in_flight row a = a.run_id =t= row.run_id && a.lease_epoch == row.lease_epoch

unfoldable pub reconcile : Run → Option ℕ → ℕ → Attempt → Attempt
unfolding reconciled
reconcile row checkpoint cutoff a = if is_in_flight row a then reconciled checkpoint cutoff a else a

-- What the loop counts: attempts whose outcome becomes unknown.
unfoldable pub turns_unknown : Run → Option ℕ → Attempt → Bool
turns_unknown row checkpoint a = is_in_flight row a && elim a.status [
  | succeeded ↦ is_model a.operation_kind && not (is_durable checkpoint a)
  | dispatched ↦ true
  | _ ↦ false
]

abbrev unknown_payload : Payload
unknown_payload =
    ("status", text "outcome_unknown")
    ∷ ("possible_duplicate_cost", flag true)
    ∷ ("budget_refunded", flag false)
    ∷ []

-- `for _ in range(unknown_count)`: one event each, and the row read again.
unfoldable pub announce : ℕ → Run → ℕ → Db → Result (Run × Db)
announce zero row cutoff db = ok (row, db)
announce (suc n) row cutoff db = do
  db' ← transition_with_event row (λ r. r) attempt_outcome_unknown unknown_payload cutoff db
  elim (find_by run_key row.run_id db'.runs) [
    | none ↦ err data_error
    | some refreshed ↦ announce n refreshed cutoff db'
  ]

unfoldable pub interrupted_row : Run → Run
interrupted_row row = record row {
  status = interrupted;
  lease_owner = none;
  lease_expires_at = none;
  error_code = some "worker_lease_expired";
}

-- One stale run. The UPDATEs of its attempts are by their keys, so their order does not matter.
unfoldable pub recover_one : ℕ → Run → Db → Result (RunRecord × Db)
recover_one cutoff row db =
    let checkpoint = checkpoint_created_at row db.checkpoints in
    let unknown_count = count_by (turns_unknown row checkpoint) db.attempts in
    let attempts = map (reconcile row checkpoint cutoff) db.attempts in
    announce unknown_count row cutoff (record db { attempts = attempts }) >>= λ announced.
    transition_with_event announced.0 interrupted_row run_interrupted
      (("status", text "interrupted") ∷ ("reason", text "worker_lease_expired") ∷ []) cutoff
      announced.1
    >>= λ db'. reread announced.0.run_id db'

unfoldable pub recover_rows : ℕ → List Run → Db → Result (List RunRecord × Db)
recover_rows cutoff [] db = ok ([], db)
recover_rows cutoff (row ∷ rows) db = do
  one ← recover_one cutoff row db
  rest ← recover_rows cutoff rows one.1
  ok (one.0 ∷ rest.0, rest.1)

-- `cutoff` is the argument `now`, or the database's clock where that is not given.
unfoldable pub recover_stale_runs : (String → Bool) → ℕ → ℕ → Db → Result (List RunRecord × Db)
recover_stale_runs busy batch_limit cutoff db = do
  canonical_integer_up_to batch_limit 1000
  recover_rows cutoff
      (take batch_limit (stale_rows (λ r. is_stale cutoff r && not (busy r.run_id)) db.runs)) db
