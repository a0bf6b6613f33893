-- ===== src/Jobs/Store/Delivery.antt =====
-- JobStore.claim_outbox, mark_outbox_delivered and mark_outbox_retry.
use legal_rag_agent.Prelude.{
  ℕ, ◌+◌, Bool, true, false, ◌&&◌, not, Option, none, some, List, [], ◌∷◌, String, map, take, ltb,
  leb, ◌==◌, ◌=t=◌, if◌then◌else◌,
}
use legal_rag_agent.Jobs.Result.{Result, ok, err, value_error, ◌>>=◌, ◌>>◌}
use legal_rag_agent.Jobs.Validate.{required_string, error_code, count}
use legal_rag_agent.Jobs.Tables.{
  Outbox, Db, is_terminal, seconds, find_job, find_outbox, update_outbox,
}
use legal_rag_agent.Jobs.Store.{Clock, older}

pub record OutboxRecord : Type 0 where
  pub id : String
  pub job_id : String
  pub schema_version : ℕ
  pub lease_epoch : ℕ
  pub attempts : ℕ

-- The join: a message goes with its job while that is queued or running.
abbrev pub job_is_live : String → Db → Bool
job_is_live id db = elim (find_job id db.jobs) [
  | none ↦ false
  | some j ↦ not (is_terminal j.status)
]

abbrev pub of_job : Option String → Outbox → Bool
of_job none o = true
of_job (some id) o = o.job_id =t= id

-- The WHERE of the SELECT; `busy` tells the rows that another transaction holds (SKIP LOCKED).
unfoldable pub is_due : (String → Bool) → Option String → ℕ → Db → Outbox → Bool
is_due busy job_id at db o =
    not o.delivered
    && (job_is_live o.job_id db
        && (leb o.next_attempt_at at
            && (elim o.claim_expires_at [ none ↦ true | some t ↦ leb t at ]
                && (of_job job_id o && not (busy o.outbox_id)))))

unfoldable pub place : Outbox → List Outbox → List Outbox
place o [] = o ∷ []
place o (p ∷ ps) = if older o p then o ∷ p ∷ ps else p ∷ place o ps

-- The rows that pass, ordered by created_at and outbox_id.
unfoldable pub due : (Outbox → Bool) → List Outbox → List Outbox
unfolding place
due p [] = []
due p (o ∷ os) = let rest = due p os in if p o then place o rest else rest

abbrev pub claimed : String → ℕ → Clock → Outbox → Outbox
claimed dispatcher_id lease_seconds clock o = record o {
  claim_owner = some dispatcher_id;
  claim_epoch = o.claim_epoch + 1;
  delivery_attempts = o.delivery_attempts + 1;
  claim_expires_at = some (clock.write_at + seconds lease_seconds);
}

abbrev pub outbox_record : Outbox → OutboxRecord
outbox_record o = record {
  id = o.outbox_id;
  job_id = o.job_id;
  schema_version = o.schema_version;
  lease_epoch = o.claim_epoch;
  attempts = o.delivery_attempts;
}

-- The UPDATE of one selected row, which reads the row again; `.one()` wants it to be there.
unfoldable pub claim_one : String → ℕ → Clock → String → Db → Result (OutboxRecord × Db)
claim_one dispatcher_id lease_seconds clock id db = elim (find_outbox id db.outbox) [
  | none ↦ err value_error
  | some o ↦ do
    db' ← update_outbox (claimed dispatcher_id lease_seconds clock o) db
    ok (outbox_record (claimed dispatcher_id lease_seconds clock o), db')
]

-- The loop over the selected rows.
unfoldable pub claim_rows : String → ℕ → Clock → List String → Db → Result (List OutboxRecord × Db)
claim_rows dispatcher_id lease_seconds clock [] db = ok ([], db)
claim_rows dispatcher_id lease_seconds clock (id ∷ ids) db = do
  (claim, db') ← claim_one dispatcher_id lease_seconds clock id db
  (claims, db'') ← claim_rows dispatcher_id lease_seconds clock ids db'
  ok (claim ∷ claims, db'')

abbrev pub optional_job : Option String → Result (Unit {0})
optional_job none = ok tt
optional_job (some id) = required_string id 128

unfoldable pub claim_outbox :
    (String → Bool) → String → ℕ → ℕ → Option String → Clock → Db → Result (List OutboxRecord × Db)
claim_outbox busy dispatcher_id limit lease_seconds job_id clock db = do
  required_string dispatcher_id 128
  count limit 1 1000
  count lease_seconds 1 3600
  optional_job job_id
  claim_rows dispatcher_id lease_seconds clock
      (map (λ o. o.outbox_id) (take limit (due (is_due busy job_id clock.read_at db) db.outbox))) db

-- The WHERE of both marks: a pending message under this claim, still valid.
unfoldable pub holds_claim : String → ℕ → ℕ → Outbox → Bool
holds_claim dispatcher_id lease_epoch at o =
    not o.delivered
    && (elim o.claim_owner [ none ↦ false | some d ↦ d =t= dispatcher_id ]
        && (o.claim_epoch == lease_epoch
            && elim o.claim_expires_at [ none ↦ false | some t ↦ ltb at t ]))

-- An UPDATE of one message under its claim; whether a row was changed.
unfoldable pub mark_outbox :
    String → String → ℕ → Clock → (Outbox → Outbox) → Db → Result (Bool × Db)
mark_outbox outbox_id dispatcher_id lease_epoch clock change db =
    elim (find_outbox outbox_id db.outbox) [
      | none ↦ ok (false, db)
      | some o ↦
          if holds_claim dispatcher_id lease_epoch clock.read_at o
          then (do db' ← update_outbox (change o) db; ok (true, db'))
          else ok (false, db)
    ]

abbrev pub delivered : Clock → Outbox → Outbox
delivered clock o = record o {
  delivered = true;
  delivered_at = some clock.write_at;
  claim_owner = none;
  claim_expires_at = none;
  last_error_code = none;
}

unfoldable pub mark_outbox_delivered : String → String → ℕ → Clock → Db → Result (Bool × Db)
mark_outbox_delivered outbox_id dispatcher_id lease_epoch clock db =
    mark_outbox outbox_id dispatcher_id lease_epoch clock (delivered clock) db

abbrev pub retried : String → ℕ → Clock → Outbox → Outbox
retried code delay_seconds clock o = record o {
  claim_owner = none;
  claim_expires_at = none;
  next_attempt_at = clock.write_at + seconds delay_seconds;
  last_error_code = some code;
}

unfoldable pub mark_outbox_retry :
    String → String → ℕ → String → ℕ → Clock → Db → Result (Bool × Db)
mark_outbox_retry outbox_id dispatcher_id lease_epoch code delay_seconds clock db = do
  error_code (some code)
  count delay_seconds 0 3600
  mark_outbox outbox_id dispatcher_id lease_epoch clock (retried code delay_seconds clock) db
