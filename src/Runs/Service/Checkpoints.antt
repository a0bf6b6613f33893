-- ===== src/Runs/Service/Checkpoints.antt =====
-- RunService: bind_checkpoint, load_trusted_checkpoint and resume_run.
use legal_rag_agent.Prelude.{
  ℕ, ◌+◌, Bool, false, ◌&&◌, Option, none, some, List, [], ◌∷◌, String, ◌==◌, ◌=t=◌, if◌then◌else◌,
  put_by,
}
use legal_rag_agent.Harness.State.{HarnessState, validate_harness_state, ok as accepted}
use legal_rag_agent.Runs.Result.{
  Result, ok, err, checkpoint_incompatible, invalid_state, require, ◌>>=◌, ◌>>◌,
}
use legal_rag_agent.Runs.Validate.{canonical_identifier, canonical_positive_integer}
use legal_rag_agent.Runs.Tables.{
  is_terminal, run_resume_requested, text, Run, Checkpoint, Db, run_key,
}
use legal_rag_agent.Runs.Service.{
  RunRecord, run_row, owned_run_row, reread, as_it_is, transition_with_event,
  assert_epoch_or_published_terminal,
}
use legal_rag_agent.Runs.Service.Claim.{is_interrupted}

-- What the state's checks use of Python, and `harness_state_hash`, the SHA-256 digest of a state's
-- canonical JSON.
pub record External : Type 0 where
  pub casefold : String → String
  pub fromisoformat : List ℕ → Option Bool
  pub state_hash : HarnessState → String

-- `validate_harness_state`, with its error as the service passes it on.
validated : External → HarnessState → Result HarnessState
validated x s = elim (validate_harness_state x.casefold x.fromisoformat s) [
  | accepted s' ↦ ok s'
  | _ ↦ err checkpoint_incompatible
]

-- `_assert_checkpoint_identity`.
unfoldable pub same_identity : Run → HarnessState → Bool
same_identity row s =
    s.run_id =t= row.run_id
    && (s.session_id =t= row.session_id
        && (s.user_id =t= row.user_id
            && (s.schema_version == row.state_schema_version
                && (s.graph_version =t= row.graph_version
                    && (s.retrieval_config_hash =t= row.retrieval_config_hash
                        && (s.snapshot_id =t= row.snapshot_id
                            && s.embedding_profile_id =t= row.profile_id))))))

unfoldable pub is_checkpoint : String → String → String → Checkpoint → Bool
is_checkpoint run_id namespace id c =
    c.run_id =t= run_id && (c.checkpoint_namespace =t= namespace && c.checkpoint_id =t= id)

unfoldable pub find_checkpoint : String → String → String → List Checkpoint → Option Checkpoint
find_checkpoint run_id namespace id [] = none
find_checkpoint run_id namespace id (c ∷ cs) =
    if is_checkpoint run_id namespace id c then some c else find_checkpoint run_id namespace id cs

abbrev is_text : Option String → String → Bool
is_text none s = false
is_text (some t) s = t =t= s

-- The checks of `_trusted_checkpoint_row` on a row that is there.
unfoldable pub check_checkpoint : External → Run → String → Checkpoint → Result (Unit {0})
unfolding validated
check_checkpoint x row id c = do
  s ← validated x c.state_payload
  require (x.state_hash s =t= c.state_hash) checkpoint_incompatible
  require (is_text s.checkpoint_id id) checkpoint_incompatible
  require (same_identity row s) checkpoint_incompatible

-- `_trusted_checkpoint_row`, with its payload validated.
unfoldable pub trusted_checkpoint_row : External → Run → Db → Result (Option Checkpoint)
trusted_checkpoint_row x row db = elim row.checkpoint_namespace [
  | none ↦ elim row.last_checkpoint_id [ none ↦ ok none | some id ↦ err checkpoint_incompatible ]
  | some namespace ↦ elim row.last_checkpoint_id [
    | none ↦ err checkpoint_incompatible
    | some id ↦ elim (find_checkpoint row.run_id namespace id db.checkpoints) [
      | none ↦ err checkpoint_incompatible
      | some c ↦ do check_checkpoint x row id c; ok (some c)
    ]
  ]
]

unfoldable pub load_trusted_checkpoint : External → String → Db → Result (Option HarnessState)
unfolding validated
load_trusted_checkpoint x run_id db = do
  canonical_identifier run_id 36
  row ← run_row run_id db
  trusted ← trusted_checkpoint_row x row db
  elim trusted [ none ↦ ok none | some c ↦ do s ← validated x c.state_payload; ok (some s) ]

-- `trusted_parent`: the run's last checkpoint of the same namespace, unless it is this one.
unfoldable pub trusted_parent : Run → String → String → Option String
trusted_parent row namespace id =
    if is_text row.checkpoint_namespace namespace
    then if is_text row.last_checkpoint_id id then none else row.last_checkpoint_id
    else none

unfoldable pub new_checkpoint : Run → String → String → HarnessState → String → ℕ → ℕ → Checkpoint
new_checkpoint row namespace id s digest lease_epoch now = record {
  run_id = row.run_id;
  checkpoint_namespace = namespace;
  checkpoint_id = id;
  parent_checkpoint_id = trusted_parent row namespace id;
  schema_version = s.schema_version;
  graph_version = s.graph_version;
  retrieval_config_hash = s.retrieval_config_hash;
  last_completed_node = s.last_completed_node;
  state_payload = s;
  state_hash = digest;
  lease_epoch = lease_epoch;
  created_at = now;
}

-- ON CONFLICT DO NOTHING, and the row that stands at the key afterwards.
unfoldable pub bound_checkpoint : Checkpoint → Db → Checkpoint × Db
bound_checkpoint c db =
    elim (find_checkpoint c.run_id c.checkpoint_namespace c.checkpoint_id db.checkpoints) [
      | none ↦ (c, record db { checkpoints = c ∷ db.checkpoints })
      | some existing ↦ (existing, db)
    ]

unfoldable pub pointed_row : String → String → HarnessState → ℕ → Run → Run
pointed_row namespace id s now row = record row {
  checkpoint_namespace = some namespace;
  last_checkpoint_id = some id;
  last_completed_node = s.last_completed_node;
  revision = row.revision + 1;
  updated_at = now;
}

-- The UPDATE, where the row's epoch is still the writer's.
unfoldable pub point_run : String → String → HarnessState → ℕ → ℕ → Run → Db → Db
point_run namespace id s lease_epoch now row db =
    if row.lease_epoch == lease_epoch
    then record db { runs = put_by run_key (pointed_row namespace id s now row) db.runs }
    else db

unfoldable pub bind_checkpoint :
    External
    → String
    → String
    → ℕ
    → String
    → String
    → Option String
    → HarnessState
    → ℕ
    → Db
    → Result (Unit {0} × Db)
unfolding validated
bind_checkpoint x run_id worker_id lease_epoch namespace id parent state now db = do
  canonical_identifier run_id 36
  canonical_identifier worker_id 128
  canonical_positive_integer lease_epoch
  canonical_identifier namespace 255
  canonical_identifier id 255
  elim parent [ none ↦ ok tt | some p ↦ canonical_identifier p 255 ]
  first ← validated x state
  projected ← validated x (record first { checkpoint_id = some id })
  row ← run_row run_id db
  assert_epoch_or_published_terminal row worker_id lease_epoch now db
  require (same_identity row projected) checkpoint_incompatible
  let digest = x.state_hash projected
  let bound = bound_checkpoint (new_checkpoint row namespace id projected digest lease_epoch now) db
  require (bound.0.state_hash =t= digest) checkpoint_incompatible
  ok (tt, point_run namespace id projected lease_epoch now row bound.1)

unfoldable pub resume_requested_row : ℕ → Run → Run
resume_requested_row now row = record row { resume_requested_at = some now; error_code = none }

unfoldable pub resume_run : External → String → String → ℕ → Db → Result (RunRecord × Db)
resume_run x user_id run_id now db = do
  canonical_identifier run_id 36
  row ← owned_run_row run_id user_id db
  if is_terminal row.status then as_it_is row db else (do
    require (is_interrupted row.status) invalid_state
    trusted ← trusted_checkpoint_row x row db
    elim row.resume_requested_at [
      | some at ↦ as_it_is row db
      | none ↦ do
        db' ←
            transition_with_event row (resume_requested_row now) run_resume_requested
              (("status", text "interrupted") ∷ []) now db
        reread run_id db'
    ])
