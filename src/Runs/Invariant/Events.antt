-- ===== src/Runs/Invariant/Events.antt =====
-- The numbers of events under the writes of the abstract machine.
use legal_rag_agent.Prelude.{
  ◌+◌, ◌≡◌, none, some, List, ◌∷◌, arith, find_by, put_by, find-put_by, eq_iff,
}
use legal_rag_agent.Runs.Tables.{Run, Event, run_key}
use legal_rag_agent.Runs.Spec.{Tells}
use legal_rag_agent.Runs.Invariant.{Timeline}

module _ (runs : List Run) (events : List Event) (v : Timeline runs events) where
  pub next-Timeline :
      (r r' : Run) (e : Event)
      → find_by run_key r'.run_id runs ≡ some r
      → r'.event_sequence ≡ r.event_sequence + 1
      → Tells r' r' e
      → Timeline (put_by run_key r' runs) (e ∷ events)
  next-Timeline r r' e found next tells id n = ground (
    arith,
    v id n,
    find-put_by run_key id r' runs,
    eq_iff r'.run_id id,
    tells.run,
    tells.sequence,
  )

  pub same-Timeline :
      (r r' : Run)
      → find_by run_key r'.run_id runs ≡ some r
      → r'.event_sequence ≡ r.event_sequence
      → Timeline (put_by run_key r' runs) events
  same-Timeline r r' found same id n =
      ground (arith, v id n, find-put_by run_key id r' runs, eq_iff r'.run_id id)

  pub new-Timeline :
      (r : Run) (e : Event)
      → find_by run_key r.run_id runs ≡ none
      → r.event_sequence ≡ 1
      → Tells r r e
      → Timeline (r ∷ runs) (e ∷ events)
  unfolding find_by
  new-Timeline r e free first tells id n =
      ground (arith, v id n, eq_iff r.run_id id, tells.run, tells.sequence)
