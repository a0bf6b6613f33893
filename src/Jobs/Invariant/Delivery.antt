-- ===== src/Jobs/Invariant/Delivery.antt =====
-- claim_outbox, mark_outbox_delivered and mark_outbox_retry keep the invariant.
use legal_rag_agent.Prelude.{
  ℕ, ◌≤◌, ◌≡◌, refl, ap, ◌∙◌, Bool, true, Option, none, some, List, [], ◌∷◌, Each, Each-take,
  Each-map, Each-imp, map, take, String, arith, is_some, indicator, eq_refl, Bool-cases,
  Option-cases, inl, inr,
}
use legal_rag_agent.Jobs.Result.{ok}
use legal_rag_agent.Jobs.Tables.{
  is_pending, Outbox, Db, outbox_ok, find_outbox, set_outbox, update_outbox,
}
use legal_rag_agent.Jobs.Tables.Laws.{find_outbox-id, find-set_outbox, count-set_outbox}
use legal_rag_agent.Jobs.Store.{Clock, older}
use legal_rag_agent.Jobs.Store.Delivery.{
  outbox_record, is_due, place, due, claimed, claim_one, claim_rows, optional_job, claim_outbox,
  holds_claim, mark_outbox, delivered, mark_outbox_delivered, retried, mark_outbox_retry,
}
use legal_rag_agent.Jobs.Invariant.{IsValid, Keeps}
use legal_rag_agent.Jobs.Invariant.Rules.{
  IsCheck, count-IsCheck, required_string-IsCheck, error_code-IsCheck, Keeps-check, Keeps-found,
  Keeps-if, Keeps-map,
}

-- A message's row replaced by one of the same job that is pending only if the old one was.
pub update_outbox-IsValid :
    (o o' : Outbox) (db : Db)
    → IsValid db
    → find_outbox o'.outbox_id db.outbox ≡ some o
    → o'.job_id ≡ o.job_id
    → outbox_ok o' ≡ true
    → indicator (is_pending o') ≤ indicator (is_pending o)
    → (update_outbox o' db ≡ ok (record db { outbox = set_outbox o' db.outbox }))
      × IsValid (record db { outbox = set_outbox o' db.outbox })
unfolding update_outbox
update_outbox-IsValid o o' db v e same fits less = (
  rw fits,
  record {
    jobs = v.jobs;
    distinct = v.distinct;
    items = v.items;
    no_orphan = v.no_orphan;
    no_stray = λ id f.
        ground (arith, count-set_outbox (λ _. true) id o o' db.outbox e same, v.no_stray id);
    messages = λ id k f. ground (arith, find-set_outbox id o' db.outbox, v.messages id k);
    one_pending = λ id.
        ground (arith, count-set_outbox is_pending id o o' db.outbox e same, v.one_pending id);
  },
)

find_outbox_self :
    (id : String) (os : List Outbox) (o : Outbox)
    → find_outbox id os ≡ some o
    → find_outbox o.outbox_id os ≡ some o
find_outbox_self id os o h = ap (λ k. find_outbox k os) (find_outbox-id id os o h) ∙ h

mark_outbox-Keeps :
    (id dispatcher : String) (epoch : ℕ) (clock : Clock) (change : Outbox → Outbox) (db : Db)
    → ((o : Outbox)
        → ((change o).outbox_id ≡ o.outbox_id)
          × ((change o).job_id ≡ o.job_id)
          × (indicator (is_pending (change o)) ≤ indicator (is_pending o))
          × (holds_claim dispatcher epoch clock.read_at o ≡ true
              → outbox_ok o ≡ true
              → outbox_ok (change o) ≡ true))
    → IsValid db
    → Keeps (mark_outbox id dispatcher epoch clock change db)
unfolding mark_outbox
mark_outbox-Keeps id dispatcher epoch clock change db keep v =
    Keeps-found (find_outbox id db.outbox) _ _ (λ _. v)
      λ o e.
        Keeps-if (holds_claim dispatcher epoch clock.read_at o) _ _
          (λ held.
            let (same_id, same_job, less, fits) = keep o in
            let (done, after) =
              update_outbox-IsValid o (change o) db v
                (rw same_id (find_outbox_self id db.outbox o e)) same_job
                (fits held (v.messages id o e)) less in
            rw done after)
          (λ _. v)

pub mark_outbox_delivered-Keeps :
    (id dispatcher : String) (epoch : ℕ) (clock : Clock) (db : Db)
    → IsValid db
    → Keeps (mark_outbox_delivered id dispatcher epoch clock db)
unfolding mark_outbox_delivered
mark_outbox_delivered-Keeps id dispatcher epoch clock db =
    mark_outbox-Keeps id dispatcher epoch clock (delivered clock) db
      λ o. (refl, refl, ground arith, λ held fits. unfold outbox_ok in ground arith)

pub mark_outbox_retry-Keeps :
    (id dispatcher : String) (epoch : ℕ) (code : String) (delay : ℕ) (clock : Clock) (db : Db)
    → IsValid db
    → Keeps (mark_outbox_retry id dispatcher epoch code delay clock db)
unfolding mark_outbox_retry
mark_outbox_retry-Keeps id dispatcher epoch code delay clock db v =
    Keeps-check _ _ (error_code-IsCheck (some code)) λ _.
      Keeps-check _ _ (count-IsCheck delay 0 3600) λ _.
        mark_outbox-Keeps id dispatcher epoch clock (retried code delay clock) db
          (λ o.
            (refl, refl, ground arith, λ held fits. unfold outbox_ok holds_claim in ground arith))
          v

abbrev Listed : List Outbox → String → Type 0
Listed os id = is_some (find_outbox id os) ≡ true

-- One selected row, which is still there: the claim, and the rows that follow are there too.
claim_one-eq :
    (dispatcher : String) (n : ℕ) (clock : Clock) (id : String) (db : Db) (o : Outbox)
    → find_outbox id db.outbox ≡ some o
    → IsValid db
    → let o' = claimed dispatcher n clock o in
      let db' : Db = record db { outbox = set_outbox o' db.outbox } in
      (claim_one dispatcher n clock id db ≡ ok (outbox_record o', db')) × IsValid db'
unfolding claim_one
claim_one-eq dispatcher n clock id db o e v =
    let o' = claimed dispatcher n clock o in
    let (done, after) =
      update_outbox-IsValid o o' db v (find_outbox_self id db.outbox o e) refl
        (unfold outbox_ok in ground (arith, v.messages id o e)) (omega arith) in
    (rw (e, claim_one) (rw done), after)

claim_rows-Keeps :
    (dispatcher : String) (n : ℕ) (clock : Clock) (ids : List String) (db : Db)
    → Each (Listed db.outbox) ids
    → IsValid db
    → Keeps (claim_rows dispatcher n clock ids db)
unfolding claim_rows
claim_rows-Keeps dispatcher n clock [] db h v = v
claim_rows-Keeps dispatcher n clock (id ∷ ids) db h v =
    elim (Option-cases (find_outbox id db.outbox)) [
      | inl e ↦ absurd (ground (arith, h.0))
      | inr (o, e) ↦
          let o' = claimed dispatcher n clock o in
          let db' : Db = record db { outbox = set_outbox o' db.outbox } in
          let (done, after) = claim_one-eq dispatcher n clock id db o e v in
          rw done (
            Keeps-map (claim_rows dispatcher n clock ids db') _ (
              claim_rows-Keeps dispatcher n clock ids db'
                (Each-imp (Listed db.outbox) (Listed db'.outbox)
                  (λ k l. ground (arith, find-set_outbox k o' db.outbox)) ids h.1)
                after))
    ]

place-Each :
    (P : Outbox → Type 0) (o : Outbox) (os : List Outbox) → P o → Each P os → Each P (place o os)
unfolding place
place-Each P o [] h hs = (h, tt)
place-Each P o (k ∷ os) h hs = elim (Bool-cases (older o k)) [
  | inl first ↦ rw first (h, hs)
  | inr later ↦ rw later (hs.0, place-Each P o os h hs.1)
]

-- The selected rows are rows of the table.
pub due-Each :
    (P : Outbox → Type 0) (p : Outbox → Bool) (os : List Outbox) → Each P os → Each P (due p os)
unfolding due
due-Each P p [] hs = tt
due-Each P p (o ∷ os) hs = elim (Bool-cases (p o)) [
  | inl passes ↦ rw passes (place-Each P o (due p os) hs.0 (due-Each P p os hs.1))
  | inr fails ↦ rw fails (due-Each P p os hs.1)
]

table-Listed : (os : List Outbox) → Each (λ o. Listed os o.outbox_id) os
unfolding find_outbox
table-Listed [] = tt
table-Listed (o ∷ os) = (
  rw eq_refl refl,
  Each-imp (λ k. Listed os k.outbox_id) (λ k. Listed (o ∷ os) k.outbox_id) (λ k l. ground arith) os
      (table-Listed os),
)

optional_job-IsCheck : (id : Option String) → IsCheck (optional_job id)
optional_job-IsCheck none = tt
optional_job-IsCheck (some id) = required_string-IsCheck id 128

pub claim_outbox-Keeps :
    (busy : String → Bool) (dispatcher : String) (limit n : ℕ) (job_id : Option String)
    (clock : Clock) (db : Db)
    → IsValid db
    → Keeps (claim_outbox busy dispatcher limit n job_id clock db)
unfolding claim_outbox
claim_outbox-Keeps busy dispatcher limit n job_id clock db v =
    let rows = due (is_due busy job_id clock.read_at db) db.outbox in
    let listed = λ (o : Outbox). Listed db.outbox o.outbox_id in
    Keeps-check _ _ (required_string-IsCheck dispatcher 128) λ _.
      Keeps-check _ _ (count-IsCheck limit 1 1000) λ _.
        Keeps-check _ _ (count-IsCheck n 1 3600) λ _.
          Keeps-check _ _ (optional_job-IsCheck job_id) λ _.
            claim_rows-Keeps dispatcher n clock (map (λ o. o.outbox_id) (take limit rows)) db
              (Each-map (Listed db.outbox) (λ o. o.outbox_id) (take limit rows)
                (Each-take listed limit rows (
                  due-Each listed (is_due busy job_id clock.read_at db) db.outbox
                    (table-Listed db.outbox))))
              v
