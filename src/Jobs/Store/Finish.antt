-- ===== src/Jobs/Store/Finish.antt =====
-- JobStore.finish_job and activate_ingestion_job.
use legal_rag_agent.Prelude.{
  ◌+◌, Bool, true, ◌&&◌, not, Option, none, some, String, length, ◌==◌, ◌=t=◌, if◌then◌else◌,
}
use legal_rag_agent.Jobs.Result.{Result, ok, err, contract, conflict, require, ◌>>=◌, ◌>>◌}
use legal_rag_agent.Jobs.Validate.{hash, result_ref, error_code}
use legal_rag_agent.Jobs.Tables.{
  ingestion, Status, ItemStatus, is_terminal, same_kind, Job, Item, Db, find_item, update_job,
  update_item,
}
use legal_rag_agent.Jobs.Store.{Clock, Lease, JobRecord, read_job, under_lease}
use legal_rag_agent.Jobs.Store.Progress.{stages}

-- The conflicts of `finish_job`: success with work left, and a cancellation nobody asked for.
unfoldable pub finish_allowed : Status → Job → Bool
finish_allowed Status.succeeded j =
    not j.cancel_requested && (j.completed == j.total && j.failed == 0)
finish_allowed Status.cancelled j = j.cancel_requested
finish_allowed _ j = true

abbrev pub finished : Status → Option String → Clock → Job → Job
finished status code clock j = record j {
  status = status;
  error_code = code;
  lease_owner = none;
  lease_expires_at = none;
  finished_at = some clock.write_at;
  updated_at = clock.write_at;
}

unfoldable pub finish_job :
    Lease → Status → Option String → Clock → Db → Result (Option JobRecord × Db)
finish_job lease status code clock db = do
  require (is_terminal status) contract
  error_code code
  under_lease lease clock none
      (λ j db. do
        require (finish_allowed status j) conflict
        db' ← update_job (finished status code clock j) db
        ok (read_job lease.job_id none db', db'))
      db

-- The prerequisites of an activation.
unfoldable pub activation_allowed : String → Job → Bool
activation_allowed digest j =
    same_kind j.kind ingestion
    && (j.request_hash =t= digest
        && (j.stage =t= "activated"
            && (j.total == length (stages ingestion)
                && (j.completed + 1 == j.total && j.failed == 0))))

-- The item that the activation completes is running under this lease.
unfoldable pub claimed_item : Lease → String → Db → Option Item
claimed_item lease key db = elim (find_item lease.job_id key db.items) [
  | none ↦ none
  | some i ↦ elim i.status [
    | ItemStatus.running ↦ if i.lease_epoch == lease.epoch then some i else none
    | _ ↦ none
  ]
]

-- `activate` writes the catalog, of type `C`, in the same transaction, and returns a reference.
module _ {C : Type 0} (activate : C → Result (String × C)) where
  unfoldable pub activate_item :
      Lease → Clock → Job → Item → Db → C → Result (Option JobRecord × (Db × C))
  activate_item lease clock j i db catalog = do
    (ref, catalog') ← activate catalog
    result_ref ref
    db' ←
        update_item
          (record i { status = ItemStatus.succeeded; result_ref = some ref; error_code = none }) db
    db'' ←
        update_job (record (finished Status.succeeded none clock j) { completed = j.completed + 1 })
          db'
    ok (read_job lease.job_id none db'', (db'', catalog'))

  unfoldable pub activate_body :
      Lease → String → String → Clock → C → Job → Db → Result (Option JobRecord × (Db × C))
  activate_body lease key digest clock catalog j db =
      if j.cancel_requested then ok (none, (db, catalog)) else (do
        require (activation_allowed digest j) conflict
        elim (claimed_item lease key db) [
          | none ↦ err conflict
          | some i ↦ activate_item lease clock j i db catalog
        ])

  unfoldable pub activate_ingestion_job :
      Lease → String → String → Clock → Db → C → Result (Option JobRecord × (Db × C))
  activate_ingestion_job lease key digest clock db catalog = do
    hash key
    hash digest
    under_lease lease clock (none, catalog)
          (λ j db. do
            (answer, (db', catalog')) ← activate_body lease key digest clock catalog j db
            ok ((answer, catalog'), db'))
          db
        >>= λ ((answer, catalog'), db'). ok (answer, (db', catalog'))
