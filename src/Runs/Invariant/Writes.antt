-- ===== src/Runs/Invariant/Writes.antt =====
-- The invariant under each write of the abstract machine.
use legal_rag_agent.Prelude.{◌≡◌, sym, ap, ◌∙◌, true, false, arith, find_by}
use legal_rag_agent.Runs.Tables.{Status, is_active, is_answer_bearing, Run, Db, ledger_key}
use legal_rag_agent.Runs.Spec.{
  frozen, told, may_turn, Move, open_session, begin, turn, refresh, answer, round, reserve, settle,
  settle_all, checkpoint, keep_artifact, Moves, none_left, one_more,
}
use legal_rag_agent.Runs.Invariant.{IsValid}
use legal_rag_agent.Runs.Invariant.Events.{next-Timeline, same-Timeline, new-Timeline}
use legal_rag_agent.Runs.Invariant.Rows.{put-Sessions, new-Sessions, open-Sessions}
use legal_rag_agent.Runs.Invariant.Results.{put-Published, new-Published, answer-Published}
use legal_rag_agent.Runs.Invariant.Limits.{
  settle-Budgets, map-Budgets, round-Budgets, reserve-Budgets, new-Budgets,
}

may_turn-active :
    (s s' : Status) → may_turn s s' ≡ true → (is_active s ≡ true) × (is_answer_bearing s ≡ false)
unfolding may_turn
may_turn-active s s' h = ground arith

frozen-session : (r r' : Run) → frozen r' ≡ frozen r → r'.session_id ≡ r.session_id
unfolding frozen
frozen-session r r' h = ap (λ (q : Run). q.session_id) h

frozen-user : (r r' : Run) → frozen r' ≡ frozen r → r'.user_id ≡ r.user_id
unfolding frozen
frozen-user r r' h = ap (λ (q : Run). q.user_id) h

-- What a silent write leaves.
record Silent (r r' : Run) : Type 0 where
  session : r'.session_id ≡ r.session_id
  user : r'.user_id ≡ r.user_id
  status : r'.status ≡ r.status
  sequence : r'.event_sequence ≡ r.event_sequence

told-Silent : (r r' : Run) → told r' ≡ told r → Silent r r'
unfolding told
told-Silent r r' h = record {
  session = ap (λ (q : Run). q.session_id) h;
  user = ap (λ (q : Run). q.user_id) h;
  status = ap (λ (q : Run). q.status) h;
  sequence = ap (λ (q : Run). q.event_sequence) h;
}

pub Move-IsValid : {db : Db} {db' : Db} → IsValid db → Move db db' → IsValid db'
Move-IsValid {db} v (open_session s free) = record {
  timeline = v.timeline;
  sessions = open-Sessions s db.sessions db.runs free v.sessions;
  published = v.published;
  budgets = v.budgets;
}
Move-IsValid {db} v (begin r l m keys e b) =
    let (s, there, owner) = b.session in
    record {
      timeline = new-Timeline db.runs db.events v.timeline r e b.absent b.sequence b.tells;
      sessions = new-Sessions v.sessions r s b.absent b.fits there owner b.no_active;
      published =
          new-Published db.runs db.messages db.results v.published r m b.absent
            (ground (arith, b.status)) b.question b.message;
      budgets =
          new-Budgets db.ledgers db.attempts l v.budgets
            (ap (λ i. find_by ledger_key i db.ledgers) b.ledger ∙ b.no_ledger) b.no_rounds
            b.no_queries b.no_attempts;
    }
Move-IsValid {db} v (turn r r' e found t plain tells) =
    let (active, quiet) = may_turn-active r.status r'.status t.turn in
    record {
      timeline =
          next-Timeline db.runs db.events v.timeline r r' e found t.sequence
            (record { run = tells.run; sequence = tells.sequence });
      sessions =
          put-Sessions v.sessions r r' found (frozen-session r r' t.same) (frozen-user r r' t.same)
            t.fits (λ h. active);
      published =
          put-Published db.runs db.messages db.results v.published r r' found (plain ∙ sym quiet);
      budgets = v.budgets;
    }
Move-IsValid {db} v (refresh r r' found t) =
    let same = told-Silent r r' t.same in
    record {
      timeline = same-Timeline db.runs db.events v.timeline r r' found same.sequence;
      sessions =
          put-Sessions v.sessions r r' found same.session same.user t.fits
            (λ h. ap is_active (sym same.status) ∙ h);
      published =
          put-Published db.runs db.messages db.results v.published r r' found
            (ap is_answer_bearing same.status);
      budgets = v.budgets;
    }
Move-IsValid {db} v (answer r r' m result e found t a tells) =
    let (active, quiet) = may_turn-active r.status r'.status t.turn in
    record {
      timeline =
          next-Timeline db.runs db.events v.timeline r r' e found t.sequence
            (record { run = tells.run; sequence = tells.sequence });
      sessions =
          put-Sessions v.sessions r r' found (frozen-session r r' t.same) (frozen-user r r' t.same)
            t.fits (λ h. active);
      published =
          answer-Published db.runs db.messages db.results v.published r r' m result found quiet
            a.answered a.message a.counts a.of_run a.of_message;
      budgets = v.budgets;
    }
Move-IsValid {db} v (round l l' found t) = record {
  timeline = v.timeline;
  sessions = v.sessions;
  published = v.published;
  budgets = round-Budgets db.ledgers db.attempts v.budgets l l' found t;
}
Move-IsValid {db} v (reserve l a now found t) = record {
  timeline = v.timeline;
  sessions = v.sessions;
  published = v.published;
  budgets = reserve-Budgets db v.budgets l a now found t;
}
Move-IsValid {db} v (settle a a' found t) = record {
  timeline = v.timeline;
  sessions = v.sessions;
  published = v.published;
  budgets = settle-Budgets db.ledgers db.attempts v.budgets a a' found t;
}
Move-IsValid {db} v (settle_all change t) = record {
  timeline = v.timeline;
  sessions = v.sessions;
  published = v.published;
  budgets = map-Budgets db.ledgers db.attempts v.budgets change t;
}
Move-IsValid {db} v (checkpoint c) = record {
  timeline = v.timeline;
  sessions = v.sessions;
  published = v.published;
  budgets = v.budgets;
}
Move-IsValid {db} v (keep_artifact a free) = record {
  timeline = v.timeline;
  sessions = v.sessions;
  published = v.published;
  budgets = v.budgets;
}

pub Moves-IsValid : {db : Db} {db' : Db} → IsValid db → Moves db db' → IsValid db'
Moves-IsValid v none_left = v
Moves-IsValid v (one_more ms m) = Move-IsValid (Moves-IsValid v ms) m
