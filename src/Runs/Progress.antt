-- ===== src/Runs/Progress.antt =====
-- claim_next_run: what it takes, and that runs that wait are taken.
use legal_rag_agent.Prelude.{
  ℕ, ◌+◌, ◌≤◌, ◌≡◌, refl, ap, ◌∙◌, Bool, true, false, none, some, List, [], ◌∷◌, String, arith,
  find_by, put_by, count_by, find-put_by, inl, inr, Option-cases, Each, Each-imp, ◌⊎◌, Stands,
  Distinct-Stands, eq_refl,
}
use legal_rag_agent.Harness.Budget.{HarnessBudgetConfig}
use legal_rag_agent.Runs.Result.{ok, ◌>>=◌}
use legal_rag_agent.Runs.Validate.{canonical_identifier, canonical_integer_up_to}
use legal_rag_agent.Runs.Tables.{EventType, Payload, Run, Db, run_key, text, number}
use legal_rag_agent.Runs.Service.{
  RunRecord, reread, advanced, event_of, insert_event, transition_with_event,
}
use legal_rag_agent.Runs.Service.Claim.{
  is_claimable, is_free, before, oldest, claimed_row, claim_event, claim_next_run,
}
use legal_rag_agent.Runs.Spec.{Moves}
use legal_rag_agent.Runs.Refines.{transition-Moves}
use legal_rag_agent.Runs.Refines.Scheduling.{oldest_passes, oldest-Each, claimed_row-Turns}
use legal_rag_agent.Runs.Invariant.{IsValid}
use legal_rag_agent.Runs.Invariant.Writes.{Moves-IsValid}
use legal_rag_agent.Runs.Bounds.{run_record_valid}

-- The next event of a run is not there yet, so that a transition of its row succeeds.
pub transition_succeeds :
    (row : Run) (values : Run → Run) (kind : EventType) (payload : Payload) (now : ℕ) (db : Db)
    → IsValid db
    → find_by run_key row.run_id db.runs ≡ some row
    → transition_with_event row values kind payload now db
      ≡ ok (record db {
        runs = put_by run_key (advanced row values now row) db.runs;
        events = event_of row kind payload now ∷ db.events;
      })
unfolding transition_with_event insert_event
transition_succeeds row values kind payload now db v found =
    ground (arith, v.timeline row.run_id (row.event_sequence + 1))

none_passes :
    (P : Run → Type 0) (p : Run → Bool) (rs : List Run)
    → oldest p rs ≡ none
    → Each (λ q. p q ≡ true → P q) rs
unfolding oldest
none_passes P p [] h = tt
none_passes P p (q ∷ rs) h = (λ t. ground arith, none_passes P p rs (ground arith))

-- No row that passes was queued before the one that is chosen.
oldest_first :
    (p : Run → Bool) (rs : List Run) (r : Run)
    → oldest p rs ≡ some r
    → Each (λ (q : Run). p q ≡ true → r.queued_at ≤ q.queued_at) rs
unfolding oldest before
oldest_first p [] r h = tt
oldest_first p (q ∷ rs) r h = elim (Option-cases (oldest p rs)) [
  | inl nothing ↦
      (λ t. ground arith, none_passes (λ (k : Run). r.queued_at ≤ k.queued_at) p rs nothing)
  | inr (b, best) ↦
      let least : r.queued_at ≤ b.queued_at = ground arith in
      (
        λ t. ground arith,
        Each-imp (λ (k : Run). p k ≡ true → b.queued_at ≤ k.queued_at) _
            (λ k at_most t. omega (arith, at_most t)) rs (oldest_first p rs b best),
      )
]

oldest-none : (p : Run → Bool) (rs : List Run) → oldest p rs ≡ none → count_by p rs ≡ 0
unfolding oldest count_by
oldest-none p [] h = refl
oldest-none p (q ∷ rs) h = ground (arith, oldest-none p rs)

-- What a claim commits: the row under its new lease, and the event.
abbrev pub claimed_db : HarnessBudgetConfig → String → ℕ → ℕ → Run → Db → Db
claimed_db budget worker lease now row db = record db {
  runs = put_by run_key (advanced row (claimed_row worker lease budget now) now row) db.runs;
  events =
      event_of row (claim_event row)
        (("status", text "running") ∷ ("lease_epoch", number (row.lease_epoch + 1)) ∷ []) now
      ∷ db.events;
}

pub claimed_id :
    (budget : HarnessBudgetConfig) (worker : String) (lease now : ℕ) (row : Run)
    → (advanced row (claimed_row worker lease budget now) now row).run_id ≡ row.run_id
unfolding advanced claimed_row
claimed_id budget worker lease now row = refl

pub not_claimable :
    (budget : HarnessBudgetConfig) (worker : String) (lease now : ℕ) (row : Run)
    → is_claimable (advanced row (claimed_row worker lease budget now) now row) ≡ false
unfolding advanced claimed_row is_claimable
not_claimable budget worker lease now row = refl

module _ (budget : HarnessBudgetConfig) (worker : String) (lease now : ℕ) (db : Db)
    (v : IsValid db) where
  -- Reading the claimed row back succeeds.
  reread_claimed :
      (row : Run)
      → find_by run_key row.run_id db.runs ≡ some row
      → is_claimable row ≡ true
      → (answer : RunRecord) × (reread row.run_id (claimed_db budget worker lease now row db)
          ≡ ok (answer, claimed_db budget worker lease now row db))
        × (answer.row ≡ advanced row (claimed_row worker lease budget now) now row)
  unfolding reread ◌>>=◌
  reread_claimed row found waits =
      let r' : Run = advanced row (claimed_row worker lease budget now) now row in
      let db' : Db = claimed_db budget worker lease now row db in
      let same : r'.run_id ≡ row.run_id = claimed_id budget worker lease now row in
      let ms : Moves db db' =
        transition-Moves row (claimed_row worker lease budget now) _ _ now db db' found
          (transition_succeeds row _ _ _ now db v found)
          (claimed_row-Turns row worker lease budget now waits) in
      let there : find_by run_key row.run_id db'.runs ≡ some r' =
        ground (arith, find-put_by run_key row.run_id r' db.runs, eq_refl row.run_id) in
      let (answer, read, holds, bears) =
        run_record_valid db' r' (Moves-IsValid v ms)
          (ap (λ i. find_by run_key i db'.runs) same ∙ there) in
      (answer, ground (arith, read), holds)

  -- In a state that keeps the invariant, a claim by a worker with a proper name and lease time
  -- either finds no run that waits and is free, and changes nothing; or takes a waiting free run
  -- that no other waiting free run was queued before, and answers with its row under the new lease.
  pub claim_takes_oldest :
      (busy : String → Bool)
      → canonical_identifier worker 128 ≡ ok tt
      → canonical_integer_up_to lease 86400 ≡ ok tt
      → ((count_by (is_free busy) db.runs ≡ 0)
          × (claim_next_run busy budget worker lease now db ≡ ok (none, db)))
        ⊎ ((row : Run) × (answer : RunRecord) × (find_by run_key row.run_id db.runs ≡ some row)
            × (is_free busy row ≡ true)
            × Each (λ (q : Run). is_free busy q ≡ true → row.queued_at ≤ q.queued_at) db.runs
            × (answer.row ≡ advanced row (claimed_row worker lease budget now) now row)
            × (claim_next_run busy budget worker lease now db
                ≡ ok (some answer, claimed_db budget worker lease now row db)))
  unfolding claim_next_run ◌>>=◌
  claim_takes_oldest busy named timed = elim (Option-cases (oldest (is_free busy) db.runs)) [
    | inl nothing ↦ inl (oldest-none (is_free busy) db.runs nothing, ground arith)
    | inr (row, best) ↦
        let free : is_free busy row ≡ true = oldest_passes (is_free busy) db.runs row best in
        let found : find_by run_key row.run_id db.runs ≡ some row =
          oldest-Each (Stands run_key db.runs) (is_free busy) db.runs row
            (Distinct-Stands run_key db.runs v.sessions.keyed) best in
        let (answer, read, holds) = reread_claimed row found (ground arith) in
        inr (
          row,
          answer,
          found,
          free,
          oldest_first (is_free busy) db.runs row best,
          holds,
          ground (
            arith,
            read,
            transition_succeeds row (claimed_row worker lease budget now) (claim_event row)
                (("status", text "running") ∷ ("lease_epoch", number (row.lease_epoch + 1)) ∷ [])
                now db v found,
          ),
        )
  ]
