-- ===== src/Tests/Activation.antt =====
-- An ingestion job runs to its activation, and a dispatcher drains its message.
use Prim.Native.String.{◌++◌ as str_append}
use legal_rag_agent.Prelude.{
  ℕ, suc, ◌≡◌, refl, Bool, true, false, Option, none, List, [], ◌∷◌, String, ◌⊎◌,
}
use legal_rag_agent.Jobs.Result.{Result, ok, err}
use legal_rag_agent.Jobs.Validate.{
  is_space, opaque_re, hash_re, stage_re, required_string, opaque_id, hash, result_ref, count,
}
use legal_rag_agent.Jobs.Tables.{
  ingestion, Db, is_succeeded, any_status, find_job, set_job, find_item, set_item, count_items,
  find_key, find_outbox, count_outbox, job_ok, item_ok, outbox_ok, row_text_ok, update_job,
  update_item, insert_item, insert_outbox,
}
use legal_rag_agent.Jobs.Store.{
  Clock, Lease, JobRecord, read_job, is_active, locked_active_job, under_lease,
}
use legal_rag_agent.Jobs.Store.Create.{
  Submission, check_submission, insert_job, after_insert, create_job,
}
use legal_rag_agent.Jobs.Store.Claim.{is_held, leased, claim_row, claim_job}
use legal_rag_agent.Jobs.Store.Progress.{index_of, check_stage, set_stage}
use legal_rag_agent.Jobs.Store.Items.{
  claim_new, claim_again, claim_found, claim_body, claim_item, credit, complete_found,
  complete_body, complete_item,
}
use legal_rag_agent.Jobs.Store.Finish.{
  activation_allowed, claimed_item, activate_item, activate_body, activate_ingestion_job,
}
use legal_rag_agent.Jobs.Methods.{
  Write, stage, claim, complete, create, lease_job, write, run_write, run, after, empty, Reach,
  start, then,
}
use legal_rag_agent.Jobs.Methods.Safety.{Reach-IsValid}
use legal_rag_agent.Jobs.Publication.{Activated, activation_all_or_nothing}

abbrev digest : String
digest = "0123456789abcdef0123456789abcdef0123456789abcdef0123456789abcdef"

-- The items' keys.
abbrev key : String → String
key c = str_append c "123456789abcdef0123456789abcdef0123456789abcdef0123456789abcdef"

abbrev submission : Submission
submission = record {
  owner_id = "ann";
  kind = ingestion;
  request_ref = "upload-1";
  request_hash = digest;
  total = 6;
  idempotency_key = none;
}

abbrev at : Clock
at = record { start = 10; read_at = 10; write_at = 10 }

abbrev lease : Lease
lease = record { job_id = "job-1"; worker_id = "w1"; epoch = 1 }

abbrev writes : List Write → Db → Db
writes [] db = db
writes (w ∷ ws) db = writes ws (after (write lease w) at db)

writes-Reach : (ws : List Write) (db : Db) → Reach db → Reach (writes ws db)
writes-Reach [] db r = r
writes-Reach (w ∷ ws) db r =
    writes-Reach ws (after (write lease w) at db) (then (write lease w) at r tt)

abbrev taken : Db
taken = after (lease_job "job-1" "w1" 60 10) at (after (create submission "job-1" "msg-1") at empty)

taken-Reach : Reach taken
unfolding find_job find_outbox
taken-Reach =
    then (lease_job "job-1" "w1" 60 10) at
      (then (create submission "job-1" "msg-1") at start (refl, refl)) tt

-- Five items are completed and the sixth is claimed, in the last stage.
abbrev ready : Db
ready =
    writes
      (stage "activated"
        ∷ claim (key "0") 3
        ∷ complete (key "0") "r0"
        ∷ claim (key "1") 3
        ∷ complete (key "1") "r1"
        ∷ claim (key "2") 3
        ∷ complete (key "2") "r2"
        ∷ claim (key "3") 3
        ∷ complete (key "3") "r3"
        ∷ claim (key "4") 3
        ∷ complete (key "4") "r4"
        ∷ claim (key "5") 3
        ∷ [])
      taken

-- A catalog that counts its activations.
abbrev publish : ℕ → Result (String × ℕ)
publish n = ok ("snapshot-1", suc n)

abbrev outcome : Result (Option JobRecord × (Db × ℕ))
outcome = activate_ingestion_job publish lease (key "5") digest at ready 0

abbrev parts : Result (Option JobRecord × (Db × ℕ)) → Option JobRecord × (Db × ℕ)
parts (ok r) = r
parts (err e) = (none, (empty, 0))

counted :
    (count_items is_succeeded "job-1" ready.items ≡ 5)
    × (count_items any_status "job-1" ready.items ≡ 6)
unfolding after run run_write create_job check_submission required_string opaque_id hash result_ref
    count is_space opaque_re hash_re stage_re insert_job after_insert job_ok item_ok outbox_ok
    row_text_ok find_key find_job find_outbox find_item insert_outbox insert_item count_outbox
    count_items set_job set_item update_job update_item claim_job claim_row is_held leased set_stage
    check_stage index_of under_lease locked_active_job is_active claim_item claim_body claim_new
    claim_found claim_again complete_item complete_body complete_found credit
counted = (refl, refl)

abbrev returned : Result (Option JobRecord × (Db × ℕ)) → Bool
returned (ok r) = true
returned (err e) = false

returned-parts : (r : Result (Option JobRecord × (Db × ℕ))) → returned r ≡ true → r ≡ ok (parts r)
returned-parts (ok r) h = refl
returned-parts (err e) h = cc

outcome-returned : returned outcome ≡ true
unfolding after run run_write create_job check_submission required_string opaque_id hash result_ref
    count is_space opaque_re hash_re stage_re insert_job after_insert job_ok item_ok outbox_ok
    row_text_ok find_key find_job find_outbox find_item insert_outbox insert_item count_outbox
    count_items set_job set_item update_job update_item claim_job claim_row is_held leased set_stage
    check_stage index_of under_lease locked_active_job is_active claim_item claim_body claim_new
    claim_found claim_again complete_item complete_body complete_found credit activate_ingestion_job
    activate_body activation_allowed claimed_item activate_item read_job
outcome-returned = refl

activates : outcome ≡ ok (parts outcome)
activates = returned-parts outcome outcome-returned

activation_all_or_nothing_example :
    (((parts outcome).0 ≡ none) × ((parts outcome).1.0 ≡ ready) × ((parts outcome).1.1 ≡ 0))
    ⊎ Activated publish lease (key "5") digest at ready 0 (parts outcome).1.0 (parts outcome).1.1
activation_all_or_nothing_example =
    activation_all_or_nothing publish lease (key "5") digest at ready 0 (parts outcome).0
      (parts outcome).1.0 (parts outcome).1.1
      (Reach-IsValid (
        writes-Reach
          (stage "activated"
            ∷ claim (key "0") 3
            ∷ complete (key "0") "r0"
            ∷ claim (key "1") 3
            ∷ complete (key "1") "r1"
            ∷ claim (key "2") 3
            ∷ complete (key "2") "r2"
            ∷ claim (key "3") 3
            ∷ complete (key "3") "r3"
            ∷ claim (key "4") 3
            ∷ complete (key "4") "r4"
            ∷ claim (key "5") 3
            ∷ [])
          taken taken-Reach))
      activates

-- The catalog's write is in.
activated : (parts outcome).1.1 ≡ 1
unfolding after run run_write create_job check_submission required_string opaque_id hash result_ref
    count is_space opaque_re hash_re stage_re insert_job after_insert job_ok item_ok outbox_ok
    row_text_ok find_key find_job find_outbox find_item insert_outbox insert_item count_outbox
    count_items set_job set_item update_job update_item claim_job claim_row is_held leased set_stage
    check_stage index_of under_lease locked_active_job is_active claim_item claim_body claim_new
    claim_found claim_again complete_item complete_body complete_found credit activate_ingestion_job
    activate_body activation_allowed claimed_item activate_item
activated = refl
