-- ===== src/Jobs/Store/Requeue.antt =====
-- JobStore.requeue_expired_jobs: automatic redelivery, with a backoff and a bound.
use Prim.Native.Nat.{Ordering}
use Prim.Native.String.{compare}
use legal_rag_agent.Prelude.{
  ℕ, ◌+◌, ◌-◌, ◌*◌, ◌^◌, min, max, Bool, true, false, ◌&&◌, ◌||◌, not, Option, none, some, List, [],
  ◌∷◌, String, map, take, ltb, leb, ◌==◌, ◌=t=◌, if◌then◌else◌,
}
use legal_rag_agent.Jobs.Result.{Result, ok, err, contract, integrity, require, ◌>>=◌, ◌>>◌}
use legal_rag_agent.Jobs.Validate.{count}
use legal_rag_agent.Jobs.Tables.{
  Status, queued, is_running, Job, Outbox, Db, seconds, is_pending, any_message, count_outbox,
  find_job, update_job, insert_outbox,
}
use legal_rag_agent.Jobs.Store.{Clock}
use legal_rag_agent.Jobs.Store.Create.{new_outbox}

abbrev latest_of : Option ℕ → Option ℕ → Option ℕ
latest_of none b = b
latest_of (some a) none = some a
latest_of (some a) (some b) = some (max a b)

-- `max(o.delivered_at)` of a job's messages, NULL where none was delivered.
unfoldable pub last_delivered_at : String → List Outbox → Option ℕ
last_delivered_at id [] = none
last_delivered_at id (o ∷ os) =
    if o.job_id =t= id
    then latest_of o.delivered_at (last_delivered_at id os)
    else last_delivered_at id os

-- LEAST(max, min * (1 << LEAST(GREATEST(issued - 1, 0), 10))). `-` stops at 0, as GREATEST does.
unfoldable pub backoff_seconds : ℕ → ℕ → ℕ → ℕ
backoff_seconds min_interval max_interval issued =
    min max_interval (min_interval * 2 ^ min (issued - 1) 10)

abbrev pub is_queued : Status → Bool
is_queued queued = true
is_queued _ = false

abbrev pub expired_by : ℕ → Option ℕ → Bool
expired_by at none = false
expired_by at (some t) = leb t at

abbrev pub is_unconfirmed : Option String → Bool
is_unconfirmed none = false
is_unconfirmed (some e) = e =t= "delivery_unconfirmed"

abbrev pub is_null : Option ℕ → Bool
is_null none = true
is_null (some _) = false

-- `t <= clock - n seconds`, false at NULL.
abbrev pub passed : ℕ → ℕ → Option ℕ → Bool
passed at n none = false
passed at n (some t) = leb (t + seconds n) at

-- The WHERE of the SELECT. `busy` tells the jobs that another transaction holds.
unfoldable pub is_lost : (String → Bool) → ℕ → ℕ → ℕ → List Outbox → Job → Bool
is_lost busy min_interval max_interval at os j =
    (is_queued j.status || (is_running j.status && expired_by at j.lease_expires_at))
    && (not (is_unconfirmed j.error_code)
        && (((is_running j.status && is_null j.recovery_queued_at)
              || passed at
                  (backoff_seconds min_interval max_interval (count_outbox any_message j.job_id os))
                  (last_delivered_at j.job_id os))
            && ((is_null j.recovery_queued_at || passed at min_interval j.recovery_queued_at)
                && (count_outbox is_pending j.job_id os == 0 && not (busy j.job_id)))))

-- ORDER BY created_at, job_id.
unfoldable pub earlier : Job → Job → Bool
earlier a b =
    ltb a.created_at b.created_at
    || (a.created_at == b.created_at
        && elim (compare a.job_id b.job_id) [ Ordering.lt ↦ true | _ ↦ false ])

unfoldable pub place_job : Job → List Job → List Job
place_job j [] = j ∷ []
place_job j (k ∷ ks) = if earlier j k then j ∷ k ∷ ks else k ∷ place_job j ks

unfoldable pub lost_jobs : (Job → Bool) → List Job → List Job
lost_jobs p [] = []
lost_jobs p (j ∷ js) = let rest = lost_jobs p js in if p j then place_job j rest else rest

-- The row of a job whose deliveries are used up: queued, with a visible warning.
abbrev pub unconfirmed : Clock → Job → Job
unconfirmed clock j = record j {
  status = queued;
  lease_owner = none;
  lease_expires_at = none;
  error_code = some "delivery_unconfirmed";
  updated_at = clock.write_at;
}

-- What a round writes: a new message, or the warning.
unfoldable pub requeue_row : ℕ → ℕ → String → Clock → Job → Db → Result (Bool × Db)
requeue_row issued max_auto_deliveries outbox_id clock j db =
    if leb max_auto_deliveries issued
    then (do db' ← update_job (unconfirmed clock j) db; ok (false, db'))
    else (do
      db' ←
          update_job
            (record j { recovery_queued_at = some clock.write_at; updated_at = clock.write_at }) db
      db'' ← insert_outbox (new_outbox outbox_id j.job_id clock) db'
      ok (true, db''))

-- One round of the loop; its statements read the job's row again. A job that is gone makes the
-- first UPDATE change nothing and the message's foreign key fail.
unfoldable pub requeue_one : ℕ → ℕ → String → Clock → String → Db → Result (Bool × Db)
requeue_one issued max_auto_deliveries outbox_id clock id db = elim (find_job id db.jobs) [
  | none ↦ if leb max_auto_deliveries issued then ok (false, db) else err integrity
  | some j ↦ requeue_row issued max_auto_deliveries outbox_id clock j db
]

-- The loop over the selected jobs, each with its `issued` as it was selected. `new_id` gives the
-- value of `uuid4()` for a job's message.
unfoldable pub requeue_rows :
    ℕ → (String → String) → Clock → List (String × ℕ) → Db → Result (List String × Db)
requeue_rows max_auto_deliveries new_id clock [] db = ok ([], db)
requeue_rows max_auto_deliveries new_id clock ((id, issued) ∷ rows) db = do
  (sent, db') ← requeue_one issued max_auto_deliveries (new_id id) clock id db
  (rest, db'') ← requeue_rows max_auto_deliveries new_id clock rows db'
  ok ((if sent then id ∷ rest else rest), db'')

-- The columns of the SELECT that the loop reads.
abbrev pub selected : List Outbox → List Job → List (String × ℕ)
selected os js = map (λ j. (j.job_id, count_outbox any_message j.job_id os)) js

unfoldable pub requeue_expired_jobs :
    (String → Bool) → (String → String) → ℕ → ℕ → ℕ → ℕ → Clock → Db → Result (List String × Db)
requeue_expired_jobs busy new_id limit min_interval max_interval max_auto_deliveries clock db = do
  count limit 1 1000
  count min_interval 1 3600
  count max_interval 1 86400
  count max_auto_deliveries 1 100
  require (leb min_interval max_interval) contract
  requeue_rows max_auto_deliveries new_id clock
      (selected db.outbox (
        take limit
          (lost_jobs (is_lost busy min_interval max_interval clock.read_at db.outbox) db.jobs)))
      db
