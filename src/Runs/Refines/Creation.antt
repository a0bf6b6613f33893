-- ===== src/Runs/Refines/Creation.antt =====
-- create_session, create_run and bind_checkpoint as writes of the abstract machine.
use legal_rag_agent.Prelude.{
  ℕ, ◌≡◌, refl, sym, ap, ◌∙◌, true, Option, none, some, List, ◌∷◌, String, arith, find_by, inl, inr,
  ◌==◌, ◌=t=◌, Option-cases, Bool-cases, ltb,
}
use legal_rag_agent.Harness.Budget.{HarnessBudgetConfig}
use legal_rag_agent.Harness.State.{HarnessState}
use legal_rag_agent.Runs.Result.{
  ok, Gives-bind, Gives-check, Gives-checked, Gives-if, Gives-ok, Gives-err,
}
use legal_rag_agent.Runs.Tables.{
  Run, Ledger, Message, IdempotencyKey, Event, Checkpoint, Session, Db, run_key, ledger_key,
  session_key, message_key,
}
use legal_rag_agent.Runs.Service.{insert_event}
use legal_rag_agent.Runs.Service.Budget.{used}
use legal_rag_agent.Runs.Service.Claim.{oldest}
use legal_rag_agent.Runs.Service.Create.{
  ServicePrincipal, Creation, Binding, NewIds, Clock, create_session, owned_session, find_key,
  is_active_of, check_no_active, new_run, new_ledger, question_message, queued_event, insert_run,
  insert_key, new_key, create_fresh, replay, create_run,
}
use legal_rag_agent.Runs.Service.Checkpoints.{
  External, find_checkpoint, new_checkpoint, bound_checkpoint, pointed_row, point_run,
  bind_checkpoint,
}
use legal_rag_agent.Runs.Spec.{
  told, row_ok, Refreshes, Begins, open_session, begin, refresh, checkpoint, Moves, Moves-one,
  Moves-append, none_left,
}
use legal_rag_agent.Runs.Refines.{run_row-found, Refines}
use legal_rag_agent.Runs.Refines.Answers.{insert_message_lem}

pub create_session-Refines :
    (principal : ServicePrincipal) (title : Option String) (id : String) (db : Db)
    → Refines db (create_session principal title id db)
unfolding create_session
create_session-Refines principal title id db =
    elim (Option-cases (find_by session_key id db.sessions)) [
      | inl free ↦ rw free (Gives-ok _ (Moves-one (open_session _ free)))
      | inr (s, taken) ↦ rw taken (Gives-err _)
    ]

pub insert_event_lem :
    (e : Event) (db db' : Db)
    → insert_event e db ≡ ok db'
    → db' ≡ record db { events = e ∷ db.events }
unfolding insert_event
insert_event_lem e db db' h = ground arith

pub insert_run_lem :
    (r : Run) (l : Ledger) (db db' : Db)
    → insert_run r l db ≡ ok db'
    → (find_by run_key r.run_id db.runs ≡ none)
      × (find_by ledger_key l.run_id db.ledgers ≡ none)
      × (db' ≡ record db { runs = r ∷ db.runs; ledgers = l ∷ db.ledgers })
unfolding insert_run
insert_run_lem r l db db' h = elim (Option-cases (find_by run_key r.run_id db.runs)) [
  | inr (b, taken) ↦ ground arith
  | inl free ↦ elim (Option-cases (find_by ledger_key l.run_id db.ledgers)) [
    | inr (b, taken) ↦ ground arith
    | inl free' ↦ ground arith
  ]
]

pub insert_key_lem :
    (k : IdempotencyKey) (db db' : Db)
    → insert_key k db ≡ ok db'
    → db' ≡ record db { keys = k ∷ db.keys }
unfolding insert_key
insert_key_lem k db db' h = ground arith

check_no_active_lem :
    (c : Creation) (db : Db)
    → check_no_active c db ≡ ok tt
    → oldest (is_active_of c.session_id c.principal.user_id) db.runs ≡ none
unfolding check_no_active
check_no_active_lem c db h = ground arith

owned_session_lem :
    (id user : String) (db : Db) (s : Session)
    → owned_session id user db ≡ ok s
    → (find_by session_key id db.sessions ≡ some s) × ((s.user_id =t= user) ≡ true)
unfolding owned_session
owned_session_lem id user db s h = ground arith

module _ (budget : HarnessBudgetConfig) (c : Creation) (b : Binding) (ids : NewIds) (clock : Clock)
    (session : Session) (db : Db) where
  new_run-Begins :
      (find_by session_key c.session_id db.sessions ≡ some session)
        × ((session.user_id =t= c.principal.user_id) ≡ true)
      → oldest (is_active_of c.session_id c.principal.user_id) db.runs ≡ none
      → find_by run_key (new_run c b ids clock).run_id db.runs ≡ none
      → find_by ledger_key (new_ledger ids.run_id budget clock.start).run_id db.ledgers ≡ none
      → find_by message_key (question_message c ids db).message_id db.messages ≡ none
      → Begins db
          (new_run c b ids clock)
          (new_ledger ids.run_id budget clock.start)
          (question_message c ids db)
          (queued_event c b ids clock)
  unfolding new_run new_ledger question_message queued_event row_ok used
  new_run-Begins owned idle free free' fresh = record {
    absent = free;
    no_ledger = free';
    status = refl;
    sequence = refl;
    fits = refl;
    session = (session, owned.0, owned.1);
    no_active = idle;
    ledger = refl;
    no_rounds = refl;
    no_queries = refl;
    no_attempts = λ kind. ground arith;
    message = fresh;
    question = refl;
    tells = record { run = refl; sequence = refl };
  }

create_fresh-Refines :
    (budget : HarnessBudgetConfig) (ttl : ℕ) (c : Creation) (frozen_binding : Option Binding)
    (ids : NewIds) (clock : Clock) (session : Session) (db : Db) (keys : List IdempotencyKey)
    → owned_session c.session_id c.principal.user_id db ≡ ok session
    → Refines db
        (create_fresh budget ttl c frozen_binding ids clock session (record db { keys = keys }))
unfolding create_fresh
create_fresh-Refines budget ttl c frozen_binding ids clock session db keys owned =
    let start : Db = record db { keys = keys } in
    Gives-check _ _ (
      Gives-check _ _ (
        Gives-checked _ _ λ idle. Gives-bind _ _ λ b frozen_by. Gives-bind _ _ λ with_run e1.
          Gives-bind _ _ λ with_message e2. Gives-bind _ _ λ with_key e3. Gives-bind _ _ λ db' e4.
            Gives-bind _ _ λ row e5. Gives-bind _ _ λ answer e6.
              let (free, free', first) = insert_run_lem _ _ start with_run e1 in
              let (fresh, second) = insert_message_lem _ with_run with_message e2 in
              let third = insert_key_lem _ with_message with_key e3 in
              let fourth = insert_event_lem _ with_key db' e4 in
              let same : with_run.messages ≡ db.messages = ap (λ (d : Db). d.messages) first in
              let r : Run = new_run c b ids clock in
              let l : Ledger = new_ledger ids.run_id budget clock.start in
              let m : Message = question_message c ids start in
              let last : db' ≡ record db {
                runs = r ∷ db.runs;
                ledgers = l ∷ db.ledgers;
                messages = m ∷ db.messages;
                keys = new_key c ids ttl clock.now ∷ keys;
                events = queued_event c b ids clock ∷ db.events;
              } =
                cc in
              let begun : Begins start r l m (queued_event c b ids clock) =
                new_run-Begins budget c b ids clock session start
                  (owned_session_lem c.session_id c.principal.user_id db session owned)
                  (check_no_active_lem c start idle) free free'
                  (ap (λ ms. find_by message_key m.message_id ms) (sym same) ∙ fresh) in
              Gives-ok _ (
                rw last (
                  Moves-one (
                    begin r l m (new_key c ids ttl clock.now ∷ keys) (queued_event c b ids clock)
                      (begins_of db keys r l m (queued_event c b ids clock) begun))))))
  where
    begins_of :
        (db : Db) (keys : List IdempotencyKey) (r : Run) (l : Ledger) (m : Message) (e : Event)
        → Begins (record db { keys = keys }) r l m e
        → Begins db r l m e
    begins_of db keys r l m e v = record {
      absent = v.absent;
      no_ledger = v.no_ledger;
      status = v.status;
      sequence = v.sequence;
      fits = v.fits;
      session = v.session;
      no_active = v.no_active;
      ledger = v.ledger;
      no_rounds = v.no_rounds;
      no_queries = v.no_queries;
      no_attempts = v.no_attempts;
      message = v.message;
      question = v.question;
      tells = v.tells;
    }

replay-Refines : (c : Creation) (k : IdempotencyKey) (db : Db) → Refines db (replay c k db)
unfolding replay
replay-Refines c k db =
    Gives-check _ _ (Gives-bind _ _ λ row e. Gives-bind _ _ λ answer f. Gives-ok _ none_left)

pub create_run-Refines :
    (budget : HarnessBudgetConfig) (ttl : ℕ) (c : Creation) (frozen_binding : Option Binding)
    (ids : NewIds) (clock : Clock) (db : Db)
    → Refines db (create_run budget ttl c frozen_binding ids clock db)
unfolding create_run
create_run-Refines budget ttl c frozen_binding ids clock db = Gives-check _ _ (
    Gives-check _ _ (
      Gives-check _ _ (
        Gives-check _ _ (
          Gives-bind _ _ λ session owned.
            elim (Option-cases
              (find_key c.principal.user_id c.session_id c.idempotency_key db.keys)) [
                | inl unbound ↦ rw unbound (
                    create_fresh-Refines budget ttl c frozen_binding ids clock session db db.keys
                      owned)
                | inr (k, bound) ↦ rw bound (
                    Gives-if (ltb clock.now k.expires_at) _ _ (λ t. replay-Refines c k db)
                      λ t.
                        create_fresh-Refines budget ttl c frozen_binding ids clock session db _
                          owned)
              ]))))

pointed_row-Refreshes :
    (namespace id : String) (s : HarnessState) (now : ℕ) (row : Run)
    → Refreshes row (pointed_row namespace id s now row)
unfolding pointed_row told row_ok
pointed_row-Refreshes namespace id s now row = record {
  same = refl;
  revision = refl;
  fits = λ h. h;
}

pointed_row-found :
    (namespace id : String) (s : HarnessState) (now : ℕ) (row : Run) (db : Db)
    → find_by run_key row.run_id db.runs ≡ some row
    → find_by run_key (pointed_row namespace id s now row).run_id db.runs ≡ some row
unfolding pointed_row
pointed_row-found namespace id s now row db h = h

point_run-Moves :
    (namespace id : String) (s : HarnessState) (epoch now : ℕ) (row : Run) (db : Db)
    → find_by run_key row.run_id db.runs ≡ some row
    → Moves db (point_run namespace id s epoch now row db)
unfolding point_run
point_run-Moves namespace id s epoch now row db found =
    elim (Bool-cases (row.lease_epoch == epoch)) [
      | inl same ↦ rw same (
          Moves-one (
            refresh row (pointed_row namespace id s now row)
              (pointed_row-found namespace id s now row db found)
              (pointed_row-Refreshes namespace id s now row)))
      | inr other ↦ rw other none_left
    ]

bound_checkpoint-Moves :
    (c : Checkpoint) (db : Db)
    → Moves db (bound_checkpoint c db).1 × ((bound_checkpoint c db).1.runs ≡ db.runs)
unfolding bound_checkpoint
bound_checkpoint-Moves c db =
    elim (Option-cases
      (find_checkpoint c.run_id c.checkpoint_namespace c.checkpoint_id db.checkpoints)) [
        | inl free ↦ rw (free, bound_checkpoint) (Moves-one (checkpoint c), refl)
        | inr (existing, there) ↦ rw (there, bound_checkpoint) (none_left, refl)
      ]

pub bind_checkpoint-Refines :
    (x : External) (run_id worker : String) (epoch : ℕ) (namespace id : String)
    (parent : Option String) (state : HarnessState) (now : ℕ) (db : Db)
    → Refines db (bind_checkpoint x run_id worker epoch namespace id parent state now db)
unfolding bind_checkpoint
bind_checkpoint-Refines x run_id worker epoch namespace id parent state now db = Gives-check _ _ (
    Gives-check _ _ (
      Gives-check _ _ (
        Gives-check _ _ (
          Gives-check _ _ (
            Gives-check _ _ (
              Gives-bind _ _ λ first v. Gives-bind _ _ λ projected w. Gives-bind _ _ λ row e.
                Gives-check _ _ (
                  Gives-check _ _ (
                    Gives-check _ _ (
                      let c : Checkpoint =
                        new_checkpoint row namespace id projected (x.state_hash projected) epoch
                          now in
                      let (ms, same) = bound_checkpoint-Moves c db in
                      Gives-ok _ (
                        Moves-append ms (
                          point_run-Moves namespace id projected epoch now row
                            (bound_checkpoint c db).1
                            (ap (λ rs. find_by run_key row.run_id rs) same
                              ∙ run_row-found run_id db row e))))))))))))
