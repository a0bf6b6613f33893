-- ===== src/Runs/Drain.antt =====
-- Workers that go on claiming.
use legal_rag_agent.Prelude.{
  ℕ, ◌-◌, ◌≤◌, ◌≡◌, refl, ap, ◌∙◌, Bool, false, Option, none, some, List, [], ◌∷◌, String, arith,
  length, Each, find_by, count_by, count-put_by, inl, inr,
}
use legal_rag_agent.Runs.Result.{ok, ◌>>=◌}
use legal_rag_agent.Runs.Validate.{canonical_identifier, canonical_integer_up_to}
use legal_rag_agent.Runs.Tables.{Run, Db, run_key}
use legal_rag_agent.Runs.Service.{RunRecord, advanced}
use legal_rag_agent.Runs.Service.Claim.{is_claimable, is_free, claimed_row, claim_next_run}
use legal_rag_agent.Runs.Invariant.{IsValid}
use legal_rag_agent.Runs.Calls.{Setting, claim, run, after, forget, Reach, step}
use legal_rag_agent.Runs.Calls.Safety.{Call-IsValid}
use legal_rag_agent.Runs.Progress.{claim_takes_oldest, claimed_id, not_claimable}

-- One worker's claim: its name, the lease that it asks for, and the clock's reading.
pub record Claimer : Type 0 where
  pub worker_id : String
  pub lease_seconds : ℕ
  pub now : ℕ

-- A name and a lease that pass the checks.
pub record Proper (c : Claimer) : Type 0 where
  pub named : canonical_identifier c.worker_id 128 ≡ ok tt
  pub timed : canonical_integer_up_to c.lease_seconds 86400 ≡ ok tt

abbrev pub no_lock : String → Bool
no_lock id = false

-- Claims one after the other, while no other transaction holds a row.
unfoldable pub after_claims : Setting → List Claimer → Db → Db
after_claims x [] db = db
after_claims x (c ∷ cs) db =
    after_claims x cs (after x (claim no_lock c.worker_id c.lease_seconds c.now) db)

count_free : (runs : List Run) → count_by (is_free no_lock) runs ≡ count_by is_claimable runs
unfolding count_by
count_free [] = refl
count_free (r ∷ runs) = ground (arith, count_free runs)

after_claim :
    (x : Setting) (c : Claimer) (db db' : Db) (answer : Option RunRecord)
    → claim_next_run no_lock x.budget c.worker_id c.lease_seconds c.now db ≡ ok (answer, db')
    → after x (claim no_lock c.worker_id c.lease_seconds c.now) db ≡ db'
unfolding after run forget ◌>>=◌
after_claim x c db db' answer done = ground arith

-- Each claim takes one waiting run, as long as there is one.
claim_drops :
    (x : Setting) (c : Claimer) (db : Db)
    → IsValid db
    → Proper c
    → count_by is_claimable (after x (claim no_lock c.worker_id c.lease_seconds c.now) db).runs
      ≡ count_by is_claimable db.runs - 1
claim_drops x c db v proper =
    elim (claim_takes_oldest x.budget c.worker_id c.lease_seconds c.now db v no_lock proper.named
      proper.timed) [
        | inl (nothing, kept) ↦
            rw (after_claim x c db db none kept) (ground (arith, count_free db.runs))
        | inr (row, answer, found, free, first, holds, taken) ↦
            let r' : Run =
              advanced row (claimed_row c.worker_id c.lease_seconds x.budget c.now) c.now row in
            let at : find_by run_key r'.run_id db.runs ≡ some row =
              ap (λ i. find_by run_key i db.runs)
                (claimed_id x.budget c.worker_id c.lease_seconds c.now row)
              ∙ found in
            rw (after_claim x c db _ (some answer) taken) (
              ground (
                arith,
                count-put_by run_key is_claimable row r' db.runs at,
                not_claimable x.budget c.worker_id c.lease_seconds c.now row,
              ))
      ]

-- From a reachable state, as many proper claims as there are waiting runs leave none waiting, if
-- nothing else happens in between and no other transaction holds a row.
pub claims_drain :
    (x : Setting) (cs : List Claimer) (db : Db)
    → Reach x db
    → Each Proper cs
    → count_by is_claimable db.runs ≤ length cs
    → count_by is_claimable (after_claims x cs db).runs ≡ 0
unfolding after_claims
claims_drain x [] db reached proper room = omega arith
claims_drain x (c ∷ cs) db reached (here, proper) room =
    claims_drain x cs (after x (claim no_lock c.worker_id c.lease_seconds c.now) db)
      (step (claim no_lock c.worker_id c.lease_seconds c.now) reached) proper
      (omega (arith, claim_drops x c db (Call-IsValid reached) here))
