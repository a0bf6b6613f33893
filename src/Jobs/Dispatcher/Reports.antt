-- ===== src/Jobs/Dispatcher/Reports.antt =====
-- The reports of dispatch_once of legal_rag/jobs/dispatcher.py, and the tables after it.
use Prim.Native.String.{◌++◌ as str_append}
use legal_rag_agent.Prelude.{
  ℕ, suc, ◌+◌, ◌≤◌, ◌≡◌, refl, Bool, true, false, Option, none, some, List, [], ◌∷◌, ◌++◌, String,
  length, length-append, length-take, map, take, arith, ◌==◌, Bool-cases, inl, inr,
}
use legal_rag_agent.Jobs.Result.{Result, Error, ok, err, value_error, ◌>>◌, >>-eq-ok, >>=-eq-ok}
use legal_rag_agent.Jobs.Tables.{Outbox, Db, find_outbox}
use legal_rag_agent.Jobs.Validate.{required_string, count}
use legal_rag_agent.Jobs.Store.{Clock}
use legal_rag_agent.Jobs.Store.Delivery.{
  OutboxRecord, due, is_due, claim_one, claim_rows, optional_job, claim_outbox,
}
use legal_rag_agent.Jobs.Dispatcher.{
  DispatchReport, observation, Dispatch, dispatch_allowed, World, idle, defer, settle,
  dispatch_record, dispatch_records, dispatch_once,
}
use legal_rag_agent.Jobs.Invariant.{IsValid, Keeps}
use legal_rag_agent.Jobs.Invariant.Delivery.{
  claim_outbox-Keeps, mark_outbox_delivered-Keeps, mark_outbox_retry-Keeps,
}
use legal_rag_agent.Jobs.Invariant.Requeue.{requeue_expired_jobs-Keeps}

-- What holds of the world in the loop: each observation is of a delivery or a deferral.
record Sound {B : Type 0} (bound : ℕ) (w : World B) : Type 0 where
  valid : IsValid w.db
  seen : length w.observed ≡ w.delivered + w.deferred
  fits : w.delivered + w.deferred ≤ bound

module _ {B : Type 0} (publish : B → String → ℕ → String → Bool × B) (clock : ℕ → Clock) where
  defer-Sound :
      (d : Dispatch) (at : Clock) (r : OutboxRecord) (code category : String) (bound : ℕ)
      (w : World B)
      → Sound bound w
      → Sound (suc bound) (defer publish clock d at r code category w).1
  unfolding defer
  defer-Sound d at r code category bound w s = go _ (
      mark_outbox_retry-Keeps r.id d.dispatcher_id r.lease_epoch code d.retry_delay_seconds at w.db
        s.valid)
    where
      go :
          (m : Result (Bool × Db))
          → Keeps m
          → Sound
              (suc bound)
              (elim m as (λ _. Result (Unit {0}) × World B) [
                | err e ↦ (err e, w)
                | ok (recorded, db) ↦ (
                  ok tt,
                  record w {
                    db = db;
                    observed = w.observed ++ (observation r false (some category) recorded ∷ []);
                    deferred = w.deferred + 1;
                  },
                )
              ]).1
      go (err e) k = record { valid = s.valid; seen = s.seen; fits = omega (arith, s.fits) }
      go (ok (recorded, db)) k = record {
        valid = k;
        seen = omega (
          arith,
          s.seen,
          length-append w.observed (observation r false (some category) recorded ∷ []),
        );
        fits = omega (arith, s.fits);
      }

  settle-Sound :
      (d : Dispatch) (at : Clock) (r : OutboxRecord) (bound : ℕ) (w : World B)
      → Sound bound w
      → Sound (suc bound) (settle publish clock d at r w).1
  unfolding settle
  settle-Sound d at r bound w s =
      go _ (mark_outbox_delivered-Keeps r.id d.dispatcher_id r.lease_epoch at w.db s.valid)
    where
      go :
          (m : Result (Bool × Db))
          → Keeps m
          → Sound
              (suc bound)
              (elim m as (λ _. Result (Unit {0}) × World B) [
                | err e ↦ (err e, w)
                | ok (false, db) ↦ (ok tt, record w { db = db })
                | ok (true, db) ↦ (
                  ok tt,
                  record w {
                    db = db;
                    observed = w.observed ++ (observation r true none false ∷ []);
                    delivered = w.delivered + 1;
                  },
                )
              ]).1
      go (err e) k = record { valid = s.valid; seen = s.seen; fits = omega (arith, s.fits) }
      go (ok (false, db)) k = record { valid = k; seen = s.seen; fits = omega (arith, s.fits) }
      go (ok (true, db)) k = record {
        valid = k;
        seen = omega (arith, s.seen, length-append w.observed (observation r true none false ∷ []));
        fits = omega (arith, s.fits);
      }

  dispatch_record-Sound :
      (d : Dispatch) (at : Clock) (r : OutboxRecord) (bound : ℕ) (w : World B)
      → Sound bound w
      → Sound (suc bound) (dispatch_record publish clock d at r w).1
  unfolding dispatch_record
  dispatch_record-Sound d at r bound w s = elim (Bool-cases (r.schema_version == 1)) [
    | inr other ↦
        rw other (defer-Sound d at r "unsupported_message_schema" "validation_failed" bound w s)
    | inl one ↦
        let sent =
          publish w.broker r.job_id r.schema_version (str_append "legal-rag-job-" r.job_id) in
        let s' : Sound bound (record w { broker = sent.1 }) = record {
          valid = s.valid;
          seen = s.seen;
          fits = s.fits;
        } in
        elim (Bool-cases sent.0) [
          | inl raised ↦
              rw (one, raised)
                (defer-Sound d at r "broker_unavailable" "broker_unavailable" bound _ s')
          | inr passed ↦ rw (one, passed) (settle-Sound d at r bound _ s')
        ]
  ]

  dispatch_records-Sound :
      (d : Dispatch) (rs : List OutboxRecord) (bound : ℕ) (w : World B)
      → Sound bound w
      → Sound (bound + length rs) (dispatch_records publish clock d rs w).1
  unfolding dispatch_records
  dispatch_records-Sound d [] bound w s = record {
    valid = s.valid;
    seen = s.seen;
    fits = omega (arith, s.fits);
  }
  dispatch_records-Sound d (r ∷ rs) bound w s =
      go (dispatch_record publish clock d (clock (length rs)) r w)
        (dispatch_record-Sound d (clock (length rs)) r bound w s)
        (dispatch_records-Sound d rs (suc bound))
    where
      go :
          (m : Result (Unit {0}) × World B)
          → Sound (suc bound) m.1
          → ((w' : World B)
              → Sound (suc bound) w'
              → Sound (suc bound + length rs) (dispatch_records publish clock d rs w').1)
          → Sound
              (bound + suc (length rs))
              (elim m.0 as (λ _. Result (Unit {0}) × World B) [
                | err e ↦ (err e, m.1)
                | ok _ ↦ dispatch_records publish clock d rs m.1
              ]).1
      go (err e, w') k rest = record {
        valid = k.valid;
        seen = k.seen;
        fits = omega (arith, k.fits);
      }
      go (ok _, w') k rest =
          let end = rest w' k in
          record { valid = end.valid; seen = end.seen; fits = omega (arith, end.fits) }

  -- What a call has established of its result.
  abbrev Reported : ℕ → Result DispatchReport × World B → Type 0
  Reported limit (done, w) =
      IsValid w.db
      × (length w.observed ≡ w.delivered + w.deferred)
      × ((report : DispatchReport)
          → done ≡ ok report
          → (report.delivered + report.deferred ≤ report.attempted) × (report.attempted ≤ limit))

  idle-Sound : (broker : B) (db : Db) → IsValid db → Sound 0 (idle broker db)
  idle-Sound broker db v = record { valid = v; seen = refl; fits = omega arith }

  stopped-Reported :
      (limit : ℕ) (e : Error) (broker : B) (db : Db)
      → IsValid db
      → Reported limit (err e, idle broker db)
  stopped-Reported limit e broker db v = (v, refl, λ report h. cc)

  -- The end of a call, from the claimed messages on.
  abbrev ended :
      ℕ → List OutboxRecord → Result (Unit {0}) × World B → Result DispatchReport × World B
  ended recovered records (done, w) = (
    (done
        >> ok (record {
          recovered = recovered;
          attempted = length records;
          delivered = w.delivered;
          deferred = w.deferred;
        })),
    w,
  )

  ended-Reported :
      (limit recovered : ℕ) (records : List OutboxRecord) (m : Result (Unit {0}) × World B)
      → Sound (0 + length records) m.1
      → length records ≤ limit
      → Reported limit (ended recovered records m)
  ended-Reported limit recovered records (err e, w) s few = (s.valid, s.seen, λ report h. cc)
  ended-Reported limit recovered records (ok tt, w) s few =
      (s.valid, s.seen, λ report h. ground (arith, s.fits))

claim_rows-length :
    (dispatcher : String) (n : ℕ) (clock : Clock) (ids : List String) (db db' : Db)
    (rs : List OutboxRecord)
    → claim_rows dispatcher n clock ids db ≡ ok (rs, db')
    → length rs ≡ length ids
unfolding claim_rows
claim_rows-length dispatcher n clock [] db db' rs h = ground arith
claim_rows-length dispatcher n clock (id ∷ ids) db db' rs h =
    let ((r, db1), h1, h2) = >>=-eq-ok (claim_one dispatcher n clock id db) _ h in
    let ((rest, db2), h3, h4) = >>=-eq-ok (claim_rows dispatcher n clock ids db1) _ h2 in
    ground (arith, claim_rows-length dispatcher n clock ids db1 db2 rest h3)

length-map : {A C : Type 0} (f : A → C) (xs : List A) → length (map f xs) ≡ length xs
length-map f [] = refl
length-map f (x ∷ xs) = omega (arith, length-map f xs)

-- A claim returns at most `limit` messages.
pub length-claim_outbox :
    (busy : String → Bool) (dispatcher : String) (limit n : ℕ) (job_id : Option String)
    (clock : Clock) (db db' : Db) (rs : List OutboxRecord)
    → claim_outbox busy dispatcher limit n job_id clock db ≡ ok (rs, db')
    → length rs ≤ limit
unfolding claim_outbox
length-claim_outbox busy dispatcher limit n job_id clock db db' rs h =
    let (_, h1) = >>-eq-ok (required_string dispatcher 128) _ h in
    let (_, h2) = >>-eq-ok (count limit 1 1000) _ h1 in
    let (_, h3) = >>-eq-ok (count n 1 3600) _ h2 in
    let (_, h4) = >>-eq-ok (optional_job job_id) _ h3 in
    let rows = take limit (due (is_due busy job_id clock.read_at db) db.outbox) in
    omega (
      arith,
      claim_rows-length dispatcher n clock (map (λ o. o.outbox_id) rows) db db' rs h4,
      length-map (λ (o : Outbox). o.outbox_id) rows,
      length-take limit (due (is_due busy job_id clock.read_at db) db.outbox),
    )

module _ {B : Type 0} (publish : B → String → ℕ → String → Bool × B) (clock : ℕ → Clock)
    (d : Dispatch) (busy_jobs busy_messages : String → Bool) (new_id : String → String)
    (at_requeue at_claim : Clock) (db : Db) (broker : B) where
  claimed-Reported :
      (recovered : List String) (db' : Db)
      → IsValid db'
      → (m : Result (List OutboxRecord × Db)) → Keeps m
      → ((rs : List OutboxRecord) (db'' : Db) → m ≡ ok (rs, db'') → length rs ≤ d.limit)
      → Reported publish clock d.limit (elim m as (λ _. Result DispatchReport × World B) [
        | err e ↦ (err e, idle broker db')
        | ok (records, db'') ↦
            ended publish clock
              (length recovered)
              records
              (dispatch_records publish clock d records (idle broker db''))
      ])
  claimed-Reported recovered db' v (err e) k few =
      stopped-Reported publish clock d.limit e broker db' v
  claimed-Reported recovered db' v (ok (records, db'')) k few =
      ended-Reported publish clock d.limit (length recovered) records _
        (dispatch_records-Sound publish clock d records 0 (idle broker db'')
          (idle-Sound publish clock broker db'' k))
        (few records db'' refl)

  claim-Reported :
      (recovered : List String) (db' : Db)
      → IsValid db'
      → Reported publish clock d.limit
          (elim (claim_outbox busy_messages d.dispatcher_id d.limit d.lease_seconds none at_claim
              db')
            as (λ _. Result DispatchReport × World B) [
              | err e ↦ (err e, idle broker db')
              | ok (records, db'') ↦
                  ended publish clock
                    (length recovered)
                    records
                    (dispatch_records publish clock d records (idle broker db''))
            ])
  claim-Reported recovered db' v =
      claimed-Reported recovered db' v _
        (claim_outbox-Keeps busy_messages d.dispatcher_id d.limit d.lease_seconds none at_claim db'
          v)
        (λ rs db'' h.
          length-claim_outbox busy_messages d.dispatcher_id d.limit d.lease_seconds none at_claim
            db' db'' rs h)

  requeued-Reported :
      IsValid db
      → (m : Result (List String × Db)) → Keeps m
      → Reported publish clock d.limit (elim m as (λ _. Result DispatchReport × World B) [
        | err e ↦ (err e, idle broker db)
        | ok (recovered, db') ↦
            elim (claim_outbox busy_messages d.dispatcher_id d.limit d.lease_seconds none at_claim
                db')
              as (λ _. Result DispatchReport × World B) [
                | err e ↦ (err e, idle broker db')
                | ok (records, db'') ↦
                    ended publish clock
                      (length recovered)
                      records
                      (dispatch_records publish clock d records (idle broker db''))
              ]
      ])
  requeued-Reported v (err e) k = stopped-Reported publish clock d.limit e broker db v
  requeued-Reported v (ok (recovered, db')) k = claim-Reported recovered db' k

  -- From valid tables, with fresh message IDs and whatever the broker does, one call of
  -- dispatch_once leaves valid tables, also where it raises; it observes each delivery and each
  -- deferral once; and if it reports, what it delivered and deferred is at most what it attempted,
  -- and that is at most its limit.
  pub dispatch_once_reports :
      IsValid db
      → ((a b : String) → new_id a ≡ new_id b → a ≡ b)
      → ((id : String) → find_outbox (new_id id) db.outbox ≡ none)
      → let (done, w) =
          dispatch_once publish clock d busy_jobs busy_messages new_id at_requeue at_claim db
            broker in
        IsValid w.db
        × (length w.observed ≡ w.delivered + w.deferred)
        × ((report : DispatchReport)
            → done ≡ ok report
            → (report.delivered + report.deferred ≤ report.attempted)
              × (report.attempted ≤ d.limit))
  unfolding dispatch_once
  dispatch_once_reports v injective fresh = elim (Bool-cases (dispatch_allowed d)) [
    | inr bad ↦ rw bad (stopped-Reported publish clock d.limit value_error broker db v)
    | inl good ↦ rw good (
        requeued-Reported v _ (
          requeue_expired_jobs-Keeps new_id injective busy_jobs d.limit 30 3600 5 at_requeue db v
            fresh))
  ]
