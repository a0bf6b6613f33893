-- ===== src/Jobs/Redelivery.antt =====
-- JobStore of legal_rag/jobs/store.py: marks of messages and automatic redelivery.
use mathlib.Core.Path.{subst}
use legal_rag_agent.Prelude.{
  ℕ, ◌+◌, ◌<◌, ◌≡◌, refl, Bool, true, false, some, String, arith, leb, indicator, eq_refl,
  Bool-cases, Option-cases, inl, inr,
}
use legal_rag_agent.Jobs.Result.{ok, ◌>>=◌, >>=-eq-ok}
use legal_rag_agent.Jobs.Tables.{
  Job, Outbox, Db, any_message, outbox_ok, find_job, find_outbox, count_outbox, update_outbox,
  update_job, insert_outbox,
}
use legal_rag_agent.Jobs.Tables.Laws.{find_outbox-id, find-set_outbox, find_job-id}
use legal_rag_agent.Jobs.Methods.{Method, run, after, Reach, then, Later}
use legal_rag_agent.Jobs.Methods.Growth.{Later-Grows}
use legal_rag_agent.Jobs.Store.{Clock}
use legal_rag_agent.Jobs.Store.Create.{new_outbox}
use legal_rag_agent.Jobs.Store.Delivery.{holds_claim, mark_outbox, delivered, mark_outbox_delivered}
use legal_rag_agent.Jobs.Store.Requeue.{unconfirmed, requeue_row, requeue_one}

delivered_row :
    (id : String) (clock : Clock) (o : Outbox) (db db' : Db)
    → find_outbox id db.outbox ≡ some o
    → ◌>>=◌ {A = Bool × Db} (update_outbox (delivered clock o) db) (λ tables. ok (true, tables))
      ≡ ok (true, db')
    → find_outbox id db'.outbox ≡ some (delivered clock o)
unfolding update_outbox
delivered_row id clock o db db' e h = elim (Bool-cases (outbox_ok (delivered clock o))) [
  | inl fits ↦
      let z = rw fits at h in
      ground (
        arith,
        find_outbox-id id db.outbox o e,
        find-set_outbox id (delivered clock o) db.outbox,
        eq_refl id,
      )
  | inr bad ↦ absurd (let z = rw bad at h in cc)
]

mark_outbox-true :
    (id dispatcher : String) (epoch : ℕ) (clock : Clock) (db db' : Db)
    → mark_outbox id dispatcher epoch clock (delivered clock) db ≡ ok (true, db')
    → ((o : Outbox) × (find_outbox id db.outbox ≡ some o)
        × (holds_claim dispatcher epoch clock.read_at o ≡ true)
        × (find_outbox id db'.outbox ≡ some (delivered clock o)))
unfolding mark_outbox
mark_outbox-true id dispatcher epoch clock db db' h =
    elim (Option-cases (find_outbox id db.outbox)) [
      | inl e ↦ absurd (let z = rw (e, mark_outbox) at h in cc)
      | inr (o, e) ↦
          let h1 = rw (e, mark_outbox) at h in
          elim (Bool-cases (holds_claim dispatcher epoch clock.read_at o)) [
            | inl held ↦ (o, e, held, delivered_row id clock o db db' e (rw held at h1))
            | inr free ↦ absurd (let z = rw free at h1 in cc)
          ]
    ]

mark_outbox-false :
    (id dispatcher : String) (epoch : ℕ) (clock : Clock) (change : Outbox → Outbox) (db : Db)
    (o : Outbox)
    → find_outbox id db.outbox ≡ some o
    → o.delivered ≡ true
    → mark_outbox id dispatcher epoch clock change db ≡ ok (false, db)
unfolding mark_outbox holds_claim
mark_outbox-false id dispatcher epoch clock change db o e sent = rw (e, mark_outbox) (rw sent refl)

marked-Reach :
    (id dispatcher : String) (epoch : ℕ) (clock : Clock) (db db' : Db)
    → Reach db
    → mark_outbox_delivered id dispatcher epoch clock db ≡ ok (true, db')
    → Reach db'
unfolding after run
marked-Reach id dispatcher epoch clock db db' r h =
    let same : after (Method.delivered id dispatcher epoch) clock db ≡ db' = ground (arith, h) in
    subst (λ (d : Db). Reach d) same (then (Method.delivered id dispatcher epoch) clock r tt)

-- In a reachable state, a mark that returns true was made under a claim of the message that was
-- still valid, and nobody can mark the message again: after any further calls of the methods with
-- fresh IDs, a mark of it as delivered, by anyone at any time, returns false and changes nothing.
pub delivered_once :
    (id dispatcher : String) (epoch : ℕ) (clock : Clock) (db db' : Db)
    → Reach db
    → mark_outbox_delivered id dispatcher epoch clock db ≡ ok (true, db')
    → ((o : Outbox) × (find_outbox id db.outbox ≡ some o)
        × (holds_claim dispatcher epoch clock.read_at o ≡ true))
      × ((last : Db) (other : String) (epoch' : ℕ) (later : Clock)
          → Later db' last
          → mark_outbox_delivered id other epoch' later last ≡ ok (false, last))
unfolding mark_outbox_delivered
delivered_once id dispatcher epoch clock db db' r h =
    let (o, e, held, found) = mark_outbox-true id dispatcher epoch clock db db' h in
    (
      (o, e, held),
      λ last other epoch' later calls.
          let (o', f, sent) =
            (Later-Grows (marked-Reach id dispatcher epoch clock db db' r h) calls).outbox id
              (delivered clock o) found refl in
          mark_outbox-false id other epoch' later (delivered later) last o' f sent,
    )

-- What a round does to the number of its job's messages.
Counted : ℕ → ℕ → ℕ → Bool → Type 0
Counted most before after sent = (after ≡ before + indicator sent) × (sent ≡ true → before < most)

pub update_job-outbox : (j : Job) (db db' : Db) → update_job j db ≡ ok db' → db'.outbox ≡ db.outbox
unfolding update_job
update_job-outbox j db db' h = ground arith

insert_outbox-count :
    (outbox_id id : String) (clock : Clock) (db db' : Db)
    → insert_outbox (new_outbox outbox_id id clock) db ≡ ok db'
    → count_outbox any_message id db'.outbox ≡ count_outbox any_message id db.outbox + 1
unfolding insert_outbox count_outbox
insert_outbox-count outbox_id id clock db db' h = ground (arith, eq_refl id)

module _ (most issued : ℕ) (outbox_id : String) (clock : Clock) (j : Job) (db db' : Db)
    (sent : Bool) where
  requeue_row_count :
      count_outbox any_message j.job_id db.outbox ≡ issued
      → requeue_row issued most outbox_id clock j db ≡ ok (sent, db')
      → Counted most issued (count_outbox any_message j.job_id db'.outbox) sent
  unfolding requeue_row Counted
  requeue_row_count e h = elim (Bool-cases (leb most issued)) [
    | inl over ↦
        let (tables, h1, h2) = >>=-eq-ok (update_job (unconfirmed clock j) db) _ (rw over at h) in
        ground (arith, update_job-outbox (unconfirmed clock j) db tables h1)
    | inr under ↦
        let j' : Job = record j {
          recovery_queued_at = some clock.write_at;
          updated_at = clock.write_at;
        } in
        let (tables, h1, h2) = >>=-eq-ok (update_job j' db) _ (rw under at h) in
        let (last, h3, h4) =
          >>=-eq-ok (insert_outbox (new_outbox outbox_id j.job_id clock) tables) _ h2 in
        ground (
          arith,
          update_job-outbox j' db tables h1,
          insert_outbox-count outbox_id j.job_id clock tables last h3,
        )
  ]

-- A round sends a message only for a job with fewer messages than the bound, and then it is one
-- more; otherwise the job's messages stay as they were.
pub requeue_one_bound :
    (most : ℕ) (outbox_id id : String) (clock : Clock) (db db' : Db) (sent : Bool)
    → requeue_one (count_outbox any_message id db.outbox) most outbox_id clock id db
      ≡ ok (sent, db')
    → (count_outbox any_message id db'.outbox
        ≡ count_outbox any_message id db.outbox + indicator sent)
      × (sent ≡ true → count_outbox any_message id db.outbox < most)
unfolding requeue_one Counted
requeue_one_bound most outbox_id id clock db db' sent h =
    let issued = count_outbox any_message id db.outbox in
    elim (Option-cases (find_job id db.jobs)) [
      | inl e ↦ let z = rw (e, requeue_one) at h in ground arith
      | inr (j, e) ↦
          let same = find_job-id id db.jobs j e in
          let (grown, bound) =
            requeue_row_count most issued outbox_id clock j db db' sent (rw same refl)
              (rw (e, requeue_one) at h) in
          (rw same at grown, bound)
    ]
