-- ===== src/Lib.antt =====
-- A verification library of the legal RAG agent: the batch jobs, the durable runs that answer
-- questions, the article numbers of statutes, their chunks and the state and graph of a run.
--
-- The parts of the program and where they are modelled:
--
-- - legal_rag/jobs/store.py, JobStore, with the tables of
--   legal_rag/storage/alembic/versions/0007_m6_jobs_outbox.py. PostgreSQL holds the truth about
--   jobs; each method is one transaction. Jobs/Tables is the three tables with their constraints,
--   Jobs/Validate the checks of arguments (`_required_string`, `_opaque_id`, `_hash`, ...), and
--   Jobs/Store and its children the methods: Create (`create_job`, `get_job`), Claim (`claim_job`),
--   Progress (`heartbeat`, `set_total`, `set_stage`, `request_cancel`), Items (`claim_item`,
--   `complete_item`, `reconcile_item`, `fail_item`), Finish (`finish_job`,
--   `activate_ingestion_job`), Delivery (`claim_outbox`, `mark_outbox_delivered`,
--   `mark_outbox_retry`) and Requeue (`requeue_expired_jobs`). Jobs/Methods puts the writing methods
--   into one step function and defines the reachable states. Jobs/Invariant is the invariant of the
--   tables, Jobs/History how rows may change, and Jobs/Lease, Jobs/Idempotency, Jobs/Publication,
--   Jobs/Redelivery and Jobs/Rounds (the rounds of `requeue_expired_jobs`) hold what the methods
--   promise.
-- - legal_rag/jobs/dispatcher.py: Jobs/Dispatcher. It claims messages from the store and gives them
--   to the broker; workers then lease the jobs.
-- - legal_rag/services/run_service.py, RunService, with the tables of legal_rag/storage/schema.py
--   that it keeps. Runs/Tables is the rows, Runs/Validate the checks of arguments, Runs/Result the
--   exceptions. Runs/Service holds what the methods share (`_transition_with_event`,
--   `_assert_worker_lease`, `_run_record`, `_owned_run_record`), and its children the methods:
--   Lifecycle (`get_run`, `list_events`, `cancel_run`, `heartbeat_run`, `append_stage_event`,
--   `fail_run`), Claim (`claim_next_run`), Recover (`recover_stale_runs`), Budget (`begin_retrieval_round`,
--   `reserve_attempt`), Attempts (`mark_attempt_dispatched`, `finish_attempt`), Publish
--   (`publish_success`, `publish_terminal_result`), Create (`create_session`, `create_run`),
--   Checkpoints (`bind_checkpoint`, `load_trusted_checkpoint`, `resume_run`) and Artifacts
--   (`save_node_artifact`, `load_node_artifact`). Runs/Spec is an
--   abstract machine of small writes, and Runs/Refines takes each method to it; Runs/Invariant is
--   about those writes. Runs/Calls puts the methods into one step function, and its children and
--   Runs/Bounds, Progress, Drain, Publishing and Replays hold what the methods promise.
--   Prelude/Keyed is tables with a primary key.
-- - legal_rag/article_numbers.py: Articles.
-- - legal_rag/chunking.py: Chunking (`split_long_text`), with Chunking/Chunks (`chunk_from_articles`)
--   and Chunking/Strategies (`neighbor_chunks`, `long_split_chunks`, `fixed_char_chunks`,
--   `build_chunks`); Chunking/Covers, Splits, Windows, Endings, Some and Neighbors are about them.
-- - legal_rag/harness/state.py, graph.py and budget.py: Harness/State, Harness/Graph, Harness/Budget.
--   Harness/Graph has the check around a node, `_next_node` and the edges of `build_bounded_graph`;
--   Harness/Graph/Checks, Edges and Walks are about runs along these edges.
-- - Tests holds runs on concrete inputs.
--
-- How code becomes definitions. A method is a function of its arguments, of readings of the
-- database's clock and of the tables; its result is a value with the new tables, or an exception,
-- after which the tables are those before (rollback). A clock has three readings: `now()`, the start
-- of the transaction; `clock_timestamp()` where rows are locked and compared; and where they are
-- written. Instants are microseconds. Values of `uuid.uuid4()` are arguments, and `DrawsFresh` says
-- that they are new. Rows that other transactions hold (SKIP LOCKED) are given by a test `busy`. A
-- primary key finds the first row of its table, and the invariant says that a job's key has one row.
-- A value has its Python type, so that `isinstance` tests are passed. Differences of progress
-- counters are exact, since the constraints keep `completed + failed` within `total`. A missing row
-- of `.one()` and the database's refusals are errors of their own, so that it can be proved that
-- they do not happen. Parameters stand for the broker's publisher, the catalog's write in an
-- activation (in the step function of Jobs/Methods, what that write returns or that it raises),
-- Unicode normalization, `casefold`, `fromisoformat`, `stable_id`, the stem of a path, the nodes of
-- the graph, which may change the dict that they are given, and the hash of a checkpoint's state.
-- The run service reads one clock in each method but `create_run`. A payload, a request and a result
-- that have passed the source's cleaning are given as their canonical text, and `none` where the
-- cleaning refuses them.
--
-- Loops are recursion on the selected rows, on the texts or on the runs. Only the loops of chunking
-- that go on with the rest of a text run on fuel; the number of its characters, and one more, is
-- enough where they end. Sizes and overlaps of chunks are natural numbers.
--
-- Not modelled: of the run service `list_messages`, `load_execution_input`, the
-- cleaning of payloads and the reading of the active snapshot, whose binding is an argument; the
-- constraints of its tables other than primary keys. Nor, of the other parts, the created_at and
-- updated_at of items, lengths of columns and widths of integers, which the argument checks and
-- counters stay far from; measured durations; files of chunks; the wiring of SQLAlchemy and Celery
-- and the engine of langgraph; the executor and the supervisor; HTTP, model calls, retrieval and
-- experiments.
pub mod Prelude
pub mod Jobs
pub mod Articles
pub mod Chunking
pub mod Harness
pub mod Runs
pub mod Tests
