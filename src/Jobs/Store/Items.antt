-- ===== src/Jobs/Store/Items.antt =====
-- JobStore.claim_item, complete_item, reconcile_item and fail_item.
use legal_rag_agent.Prelude.{
  ℕ, ◌+◌, ◌-◌, Bool, true, false, ◌||◌, not, Option, none, some, String, leb, ◌==◌, ◌=t=◌,
  if◌then◌else◌,
}
use legal_rag_agent.Jobs.Result.{Result, ok, err, conflict, integrity, ◌>>=◌, ◌>>◌}
use legal_rag_agent.Jobs.Validate.{hash, result_ref, error_code, count}
use legal_rag_agent.Jobs.Tables.{
  ItemStatus, any_status, Job, Item, Db, find_item, count_items, update_job, update_item,
  insert_item,
}
use legal_rag_agent.Jobs.Store.{Clock, Lease, under_lease}

-- The `status` of an ItemClaim: an item's, or why none was given.
pub data ClaimStatus : Type 0 where
  lease_lost cancelled total_exhausted running succeeded failed : ClaimStatus

pub record ItemClaim : Type 0 where
  pub acquired : Bool
  pub status : ClaimStatus
  pub attempt_no : ℕ
  pub result_ref : Option String

abbrev pub item_claim : Bool → ClaimStatus → ℕ → ItemClaim
item_claim acquired status n = record {
  acquired = acquired;
  status = status;
  attempt_no = n;
  result_ref = none;
}

-- The row of a key's first claim.
abbrev pub first_claim : Lease → String → ℕ → Item
first_claim lease key max_attempts = record {
  job_id = lease.job_id;
  item_key = key;
  status = ItemStatus.running;
  attempt_count = 1;
  max_attempts = max_attempts;
  lease_epoch = lease.epoch;
  result_ref = none;
  error_code = none;
}

-- The first claim of a key: there is room for it below the job's total.
unfoldable pub claim_new : Lease → String → ℕ → Job → Db → Result (ItemClaim × Db)
claim_new lease key max_attempts j db =
    if leb j.total (count_items any_status lease.job_id db.items)
    then ok (item_claim false total_exhausted 0, db)
    else (do
      db' ← insert_item (first_claim lease key max_attempts) db
      ok (item_claim true running 1, db'))

-- A pending item, or one left running by an older lease, is tried again while attempts are left.
unfoldable pub claim_again : Lease → Clock → Job → Item → Db → Result (ItemClaim × Db)
claim_again lease clock j i db =
    if leb i.max_attempts i.attempt_count
    then (do
      db' ←
          update_item
            (record i { status = ItemStatus.failed; error_code = some "attempts_exhausted" }) db
      db'' ← update_job (record j { failed = j.failed + 1; updated_at = clock.write_at }) db'
      ok (item_claim false failed i.attempt_count, db''))
    else (do
      db' ←
          update_item
            (record i {
              status = ItemStatus.running;
              attempt_count = i.attempt_count + 1;
              lease_epoch = lease.epoch;
              error_code = none;
            })
            db
      ok (item_claim true running (i.attempt_count + 1), db'))

unfoldable pub claim_found : Lease → Clock → Job → Item → ItemStatus → Db → Result (ItemClaim × Db)
claim_found lease clock j i ItemStatus.succeeded db =
    ok (record (item_claim false succeeded i.attempt_count) { result_ref = i.result_ref }, db)
claim_found lease clock j i ItemStatus.failed db = ok (item_claim false failed i.attempt_count, db)
claim_found lease clock j i ItemStatus.running db =
    if i.lease_epoch == lease.epoch
    then ok (item_claim false running i.attempt_count, db)
    else claim_again lease clock j i db
claim_found lease clock j i ItemStatus.pending db = claim_again lease clock j i db

unfoldable pub claim_body : Lease → String → ℕ → Clock → Job → Db → Result (ItemClaim × Db)
claim_body lease key max_attempts clock j db =
    if j.cancel_requested
    then ok (item_claim false cancelled 0, db)
    else elim (find_item lease.job_id key db.items) [
      | none ↦ claim_new lease key max_attempts j db
      | some i ↦ claim_found lease clock j i i.status db
    ]

unfoldable pub claim_item : Lease → String → ℕ → Clock → Db → Result (ItemClaim × Db)
claim_item lease key max_attempts clock db = do
  hash key
  count max_attempts 1 10
  under_lease lease clock (item_claim false lease_lost 0) (claim_body lease key max_attempts clock)
      db

-- A succeeded item keeps its result: the same again writes nothing, another is a conflict.
unfoldable pub same_result : Option String → String → Db → Result (Bool × Db)
same_result none ref db = err conflict
same_result (some old) ref db = if old =t= ref then ok (false, db) else err conflict

-- The item's success and the job's count, in one transaction.
unfoldable pub credit : Clock → Job → Item → Db → Result (Bool × Db)
credit clock j i' db = do
  db' ← update_item i' db
  db'' ← update_job (record j { completed = j.completed + 1; updated_at = clock.write_at }) db'
  ok (true, db'')

unfoldable pub complete_found :
    Lease → String → Clock → Job → Item → ItemStatus → Db → Result (Bool × Db)
complete_found lease ref clock j i ItemStatus.succeeded db = same_result i.result_ref ref db
complete_found lease ref clock j i ItemStatus.running db =
    if i.lease_epoch == lease.epoch
    then credit clock j
        (record i { status = ItemStatus.succeeded; result_ref = some ref; error_code = none }) db
    else ok (false, db)
complete_found lease ref clock j i _ db = ok (false, db)

unfoldable pub complete_body : Lease → String → String → Clock → Job → Db → Result (Bool × Db)
complete_body lease key ref clock j db = elim (find_item lease.job_id key db.items) [
  | none ↦ ok (false, db)
  | some i ↦ complete_found lease ref clock j i i.status db
]

unfoldable pub complete_item : Lease → String → String → Clock → Db → Result (Bool × Db)
complete_item lease key ref clock db = do
  hash key
  result_ref ref
  under_lease lease clock false (complete_body lease key ref clock) db

-- The row of an artifact whose item has none.
abbrev pub artifact_row : Lease → String → String → Item
artifact_row lease key ref = record {
  job_id = lease.job_id;
  item_key = key;
  status = ItemStatus.succeeded;
  attempt_count = 1;
  max_attempts = 1;
  lease_epoch = lease.epoch;
  result_ref = some ref;
  error_code = none;
}

unfoldable pub reconcile_new : Lease → String → String → Clock → Job → Db → Result (Bool × Db)
reconcile_new lease key ref clock j db =
    if leb j.total (count_items any_status lease.job_id db.items) then ok (false, db) else (do
      db' ← insert_item (artifact_row lease key ref) db
      db'' ← update_job (record j { completed = j.completed + 1; updated_at = clock.write_at }) db'
      ok (true, db''))

-- An item that failed is no failure any more. Where the job counts none, `failed-1` breaks the
-- progress constraint.
unfoldable pub reconcile_found :
    Lease → String → Clock → Job → Item → ItemStatus → Db → Result (Bool × Db)
reconcile_found lease ref clock j i ItemStatus.succeeded db = same_result i.result_ref ref db
reconcile_found lease ref clock j i ItemStatus.failed db = do
  db' ←
      update_item
        (record i {
          status = ItemStatus.succeeded;
          lease_epoch = lease.epoch;
          result_ref = some ref;
          error_code = none;
        })
        db
  db'' ←
      (if j.failed == 0
        then err integrity
        else update_job
            (record j {
              completed = j.completed + 1;
              failed = j.failed - 1;
              updated_at = clock.write_at;
            })
            db')
  ok (true, db'')
reconcile_found lease ref clock j i _ db =
    credit clock j
      (record i {
        status = ItemStatus.succeeded;
        lease_epoch = lease.epoch;
        result_ref = some ref;
        error_code = none;
      })
      db

unfoldable pub reconcile_body : Lease → String → String → Clock → Job → Db → Result (Bool × Db)
reconcile_body lease key ref clock j db = elim (find_item lease.job_id key db.items) [
  | none ↦ reconcile_new lease key ref clock j db
  | some i ↦ reconcile_found lease ref clock j i i.status db
]

unfoldable pub reconcile_item : Lease → String → String → Clock → Db → Result (Bool × Db)
reconcile_item lease key ref clock db = do
  hash key
  result_ref ref
  under_lease lease clock false (reconcile_body lease key ref clock) db

-- `terminal`: no retry is wanted, or no attempt is left.
abbrev pub is_final : Bool → Item → Bool
is_final retryable i = not retryable || leb i.max_attempts i.attempt_count

unfoldable pub fail_running : Option String → Bool → Clock → Job → Item → Db → Result (Bool × Db)
fail_running code retryable clock j i db = do
  db' ←
      update_item
        (record i {
          status = if is_final retryable i then ItemStatus.failed else ItemStatus.pending;
          error_code = code;
        })
        db
  db'' ←
      (if is_final retryable i
        then update_job (record j { failed = j.failed + 1; updated_at = clock.write_at }) db'
        else ok db')
  ok (true, db'')

unfoldable pub fail_found :
    Lease → Option String → Bool → Clock → Job → Item → ItemStatus → Db → Result (Bool × Db)
fail_found lease code retryable clock j i ItemStatus.running db =
    if i.lease_epoch == lease.epoch
    then fail_running code retryable clock j i db
    else ok (false, db)
fail_found lease code retryable clock j i _ db = ok (false, db)

unfoldable pub fail_body :
    Lease → String → Option String → Bool → Clock → Job → Db → Result (Bool × Db)
fail_body lease key code retryable clock j db = elim (find_item lease.job_id key db.items) [
  | none ↦ ok (false, db)
  | some i ↦ fail_found lease code retryable clock j i i.status db
]

unfoldable pub fail_item : Lease → String → Option String → Bool → Clock → Db → Result (Bool × Db)
fail_item lease key code retryable clock db = do
  hash key
  error_code code
  under_lease lease clock false (fail_body lease key code retryable clock) db
