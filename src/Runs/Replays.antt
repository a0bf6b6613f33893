-- ===== src/Runs/Replays.antt =====
-- The creation of a run under an idempotency key, and its repetition.
use legal_rag_agent.Prelude.{
  ℕ, ◌+◌, ◌<◌, ◌≡◌, refl, ap, ◌∙◌, Bool, true, false, Option, none, some, List, ◌∷◌, String, arith,
  ltb, find_by, find_by-key, ◌=t=◌, if◌then◌else◌, inl, inr, Option-cases, eq_refl,
}
use legal_rag_agent.Harness.Budget.{HarnessBudgetConfig}
use legal_rag_agent.Runs.Result.{
  Result, ok, err, idempotency_conflict, ◌>>=◌, require, Gives, Gives-bind, Gives-check, Gives-if,
  Gives-ok,
}
use legal_rag_agent.Runs.Validate.{canonical_identifier}
use legal_rag_agent.Runs.Tables.{run_key, result_key, Run, Session, IdempotencyKey, Db}
use legal_rag_agent.Runs.Service.{
  run_result_record, embedded_run_record, embedded_run_result_record, RunRecord, owned_run_row,
  run_record,
}
use legal_rag_agent.Runs.Service.Create.{
  Request, Creation, Binding, NewIds, Clock, owned_session, is_bound, find_key, delete_key, new_key,
  create_fresh, replay, create_run,
}
use legal_rag_agent.Runs.Refines.Answers.{insert_message_lem}
use legal_rag_agent.Runs.Refines.Creation.{insert_event_lem, insert_run_lem, insert_key_lem}

-- A key that stands with its run: the row of the run, and the answer of a method that reads it.
record StandsCreated (c : Creation) (expires : ℕ) (r : (RunRecord × Bool) × Db) : Type 0 where
  key : IdempotencyKey
  bound : find_key c.principal.user_id c.session_id c.idempotency_key r.1.keys ≡ some key
  digest : key.request_hash ≡ c.request.request_hash c.parent_run_id
  expires_at : key.expires_at ≡ expires
  session : Session
  owned : owned_session c.session_id c.principal.user_id r.1 ≡ ok session
  row : Run
  mine : owned_run_row key.run_id c.principal.user_id r.1 ≡ ok row
  read : run_record row r.1 ≡ ok r.0.0
  unanswered : find_by result_key row.run_id r.1.results ≡ none

-- Without a stored result the two ways to read a run's record agree.
embedded_run_record_same :
    (row : Run) (db : Db)
    → find_by result_key row.run_id db.results ≡ none
    → embedded_run_record row db ≡ run_record row db
unfolding embedded_run_record embedded_run_result_record run_record run_result_record ◌>>=◌
embedded_run_record_same row db free = ground (arith, free)

owned_run_row-id :
    (id user : String) (db : Db) (row : Run) → owned_run_row id user db ≡ ok row → row.run_id ≡ id
unfolding owned_run_row
owned_run_row-id id user db row e = find_by-key run_key id db.runs row (ground arith)

new_key_bound :
    (c : Creation) (ids : NewIds) (ttl now : ℕ) (keys : List IdempotencyKey)
    → find_key c.principal.user_id c.session_id c.idempotency_key (new_key c ids ttl now ∷ keys)
      ≡ some (new_key c ids ttl now)
unfolding find_key is_bound new_key
new_key_bound c ids ttl now keys =
    ground (arith, eq_refl c.principal.user_id, eq_refl c.session_id, eq_refl c.idempotency_key)

new_key_fields :
    (c : Creation) (ids : NewIds) (ttl now : ℕ)
    → ((new_key c ids ttl now).request_hash ≡ c.request.request_hash c.parent_run_id)
      × ((new_key c ids ttl now).expires_at ≡ now + ttl)
      × ((new_key c ids ttl now).run_id ≡ ids.run_id)
unfolding new_key
new_key_fields c ids ttl now = (refl, refl, refl)

owned_session_same :
    (id user : String) (db db' : Db)
    → db'.sessions ≡ db.sessions
    → owned_session id user db' ≡ owned_session id user db
unfolding owned_session
owned_session_same id user db db' same = rw same refl

create_fresh-StandsCreated :
    (budget : HarnessBudgetConfig) (ttl : ℕ) (c : Creation) (frozen : Option Binding) (ids : NewIds)
    (clock : Clock) (session : Session) (db : Db)
    → owned_session c.session_id c.principal.user_id db ≡ ok session
    → find_by result_key ids.run_id db.results ≡ none
    → Gives
        (StandsCreated c (clock.now + ttl))
        (create_fresh budget ttl c frozen ids clock session db)
unfolding create_fresh
create_fresh-StandsCreated budget ttl c frozen ids clock session db owned unused = Gives-check _ _ (
    Gives-check _ _ (
      Gives-check _ _ (
        Gives-bind _ _ λ b frozen_by. Gives-bind _ _ λ with_run e1.
          Gives-bind _ _ λ with_message e2. Gives-bind _ _ λ with_key e3. Gives-bind _ _ λ db' e4.
            Gives-bind _ _ λ row e5. Gives-bind _ _ λ answer e6.
              let (free, free', first) = insert_run_lem _ _ db with_run e1 in
              let (fresh, second) = insert_message_lem _ with_run with_message e2 in
              let third = insert_key_lem _ with_message with_key e3 in
              let fourth = insert_event_lem _ with_key db' e4 in
              let keys : db'.keys ≡ new_key c ids ttl clock.now ∷ db.keys = ground arith in
              let sessions : db'.sessions ≡ db.sessions = ground arith in
              let results : db'.results ≡ db.results = ground arith in
              let (digest, expires, id) = new_key_fields c ids ttl clock.now in
              Gives-ok _ (record {
                key = new_key c ids ttl clock.now;
                bound =
                    ap (find_key c.principal.user_id c.session_id c.idempotency_key) keys
                    ∙ new_key_bound c ids ttl clock.now db.keys;
                digest = digest;
                expires_at = expires;
                session = session;
                owned = owned_session_same c.session_id c.principal.user_id db db' sessions ∙ owned;
                row = row;
                mine = ap (λ i. owned_run_row i c.principal.user_id db') id ∙ e5;
                read = e6;
                unanswered =
                    let at = owned_run_row-id ids.run_id c.principal.user_id db' row e5 in
                    rw (at, results) unused;
              }))))

-- The answer tells a creation from a replay.
replay-true :
    (c : Creation) (k : IdempotencyKey) (db : Db) → Gives (λ r. r.0.1 ≡ true) (replay c k db)
unfolding replay
replay-true c k db =
    Gives-check _ _ (Gives-bind _ _ λ row e. Gives-bind _ _ λ answer f. Gives-ok _ refl)

abbrev Fresh : Creation → ℕ → (RunRecord × Bool) × Db → Type 0
Fresh c expires r = r.0.1 ≡ false → StandsCreated c expires r

create_run-StandsCreated :
    (budget : HarnessBudgetConfig) (ttl : ℕ) (c : Creation) (frozen : Option Binding) (ids : NewIds)
    (clock : Clock) (db : Db)
    → find_by result_key ids.run_id db.results ≡ none
    → Gives (Fresh c (clock.now + ttl)) (create_run budget ttl c frozen ids clock db)
unfolding create_run
create_run-StandsCreated budget ttl c frozen ids clock db unused = Gives-check _ _ (
    Gives-check _ _ (
      Gives-check _ _ (
        Gives-check _ _ (
          Gives-bind _ _ λ session owned.
            elim (Option-cases
              (find_key c.principal.user_id c.session_id c.idempotency_key db.keys)) [
                | inl unbound ↦ rw unbound (weak session db owned unused)
                | inr (k, bound) ↦ rw bound (
                    Gives-if (ltb clock.now k.expires_at) _ _ (λ t. again k)
                      λ t.
                        weak session (unkeyed db)
                          (owned_session_same c.session_id c.principal.user_id db (unkeyed db) refl
                            ∙ owned)
                          unused)
              ]))))
  where
    unkeyed : Db → Db
    unkeyed d = record d {
      keys = delete_key c.principal.user_id c.session_id c.idempotency_key clock.now d.keys;
    }

    weak :
        (session : Session) (d : Db)
        → owned_session c.session_id c.principal.user_id d ≡ ok session
        → find_by result_key ids.run_id d.results ≡ none
        → Gives (Fresh c (clock.now + ttl)) (create_fresh budget ttl c frozen ids clock session d)
    weak session d owned free = record {
      given = λ r done plain.
          (create_fresh-StandsCreated budget ttl c frozen ids clock session d owned free).given r
            done;
    }

    again : (k : IdempotencyKey) → Gives (Fresh c (clock.now + ttl)) (replay c k db)
    again k = record { given = λ r done plain. absurd (clash r done plain) }
      where
        clash : (r : (RunRecord × Bool) × Db) → replay c k db ≡ ok r → r.0.1 ≡ false → ⊥
        clash r done plain = cc ((replay-true c k db).given r done)

-- The check of an optional parent_run_id.
abbrev pub parent_ok : Option String → Result (Unit {0})
parent_ok none = ok tt
parent_ok (some id) = canonical_identifier id 36

-- After `create_run` has made a run under a key (where no result was stored under the new run's ID,
-- as the foreign key of results on runs has it), and before the key expires, a call with well-formed
-- arguments under the same user, session and key, whatever binding, IDs and settings it has, gives
-- the same run and writes nothing if its request's hash is the same, and raises
-- IdempotencyConflictError if it is not.
pub create_run_again :
    (budget budget' : HarnessBudgetConfig) (ttl ttl' : ℕ) (c : Creation) (request : Request)
    (parent : Option String) (frozen frozen' : Option Binding) (ids ids' : NewIds)
    (clock clock' : Clock) (db db' : Db) (answer : RunRecord)
    → create_run budget ttl c frozen ids clock db ≡ ok ((answer, false), db')
    → find_by result_key ids.run_id db.results ≡ none
    → clock'.now < clock.now + ttl
    → canonical_identifier c.session_id 36 ≡ ok tt
    → canonical_identifier c.idempotency_key 255 ≡ ok tt
    → canonical_identifier c.graph_version 64 ≡ ok tt
    → parent_ok parent ≡ ok tt
    → create_run budget' ttl'
        (record c { request = request; parent_run_id = parent })
        frozen'
        ids'
        clock'
        db'
      ≡ (if c.request.request_hash c.parent_run_id =t= request.request_hash parent
          then ok ((answer, true), db')
          else err idempotency_conflict)
unfolding create_run replay ◌>>=◌ require
create_run_again budget budget' ttl ttl' c request parent frozen frozen' ids ids' clock clock' db
      db' answer done unused before a b g p =
    let h = create_run-StandsCreated budget ttl c frozen ids clock db unused in
    let v = h.given ((answer, false), db') done refl in
    let read = embedded_run_record_same v.row db' v.unanswered ∙ v.read in
    ground (arith, v.bound, v.digest, v.expires_at, v.owned, v.mine, read)
