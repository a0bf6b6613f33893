-- ===== src/Runs/Service/Artifacts.antt =====
-- RunService.save_node_artifact and load_node_artifact.
use legal_rag_agent.Prelude.{
  ℕ, ◌&&◌, Bool, true, false, Option, none, some, ◌∷◌, String, ◌=t=◌, is_some, if◌then◌else◌,
  find_by,
}
use legal_rag_agent.Runs.Result.{
  Result, ok, err, contract, not_found, data_error, integrity, require, ◌>>=◌, ◌>>◌,
}
use legal_rag_agent.Runs.Validate.{
  canonical_identifier, canonical_positive_integer, canonical_sha256_identifier,
}
use legal_rag_agent.Runs.Tables.{
  ArtifactKind, retrieval, verification, terminal, Artifact, Db, artifact_key,
}
use legal_rag_agent.Runs.Service.{run_row, assert_worker_lease}

-- `_artifact_identity`.
unfoldable pub artifact_identity : String → Result (ArtifactKind × String)
artifact_identity value =
    if value =t= "retrieval"
    then ok (retrieval, "retrieve")
    else if value =t= "retrieved_turn"
    then ok (retrieval, "retrieve")
    else if value =t= "verification"
    then ok (verification, "generate")
    else if value =t= "verified_result"
    then ok (verification, "generate")
    else if value =t= "terminal"
    then ok (terminal, "persist_result")
    else err contract

-- INSERT INTO run_node_artifacts. Its unique artifact_ref is made of the artifact's ID.
unfoldable pub insert_artifact : Artifact → Db → Result Db
insert_artifact a db =
    if is_some (find_by artifact_key a.artifact_id db.artifacts)
    then err integrity
    else ok (record db { artifacts = a ∷ db.artifacts })

abbrev pub new_artifact :
    String → String → ArtifactKind × String → String → String → ℕ → ℕ → Artifact
new_artifact artifact_id run_id identity payload payload_hash lease_epoch now = record {
  artifact_id = artifact_id;
  run_id = run_id;
  node_name = identity.1;
  artifact_kind = identity.0;
  payload_hash = payload_hash;
  payload = payload;
  lease_epoch = lease_epoch;
  created_at = now;
}

-- `save_node_artifact` of a payload that is a JSON object, given with its digest, or is refused.
unfoldable pub save_node_artifact :
    String
    → String
    → ℕ
    → String
    → Option (String × String)
    → String
    → ℕ
    → Db
    → Result (Artifact × Db)
save_node_artifact run_id worker_id lease_epoch artifact_kind none artifact_id now db = do
  canonical_identifier run_id 36
  canonical_identifier worker_id 128
  canonical_positive_integer lease_epoch
  identity ← artifact_identity artifact_kind
  err contract
save_node_artifact run_id worker_id lease_epoch artifact_kind (some (payload, payload_hash))
      artifact_id now db =
    do
      canonical_identifier run_id 36
      canonical_identifier worker_id 128
      canonical_positive_integer lease_epoch
      identity ← artifact_identity artifact_kind
      row ← run_row run_id db
      assert_worker_lease row worker_id now (some lease_epoch)
      let a = new_artifact artifact_id run_id identity payload payload_hash lease_epoch now
      db' ← insert_artifact a db
      ok (a, db')

abbrev same_artifact_kind : ArtifactKind → ArtifactKind → Bool
same_artifact_kind retrieval retrieval = true
same_artifact_kind verification verification = true
same_artifact_kind terminal terminal = true
same_artifact_kind _ _ = false

-- The row of the SELECT: the artifact of the run, if it has the kind.
unfoldable pub artifact_row : String → String → ArtifactKind → Db → Result Artifact
artifact_row run_id artifact_id kind db = elim (find_by artifact_key artifact_id db.artifacts) [
  | none ↦ err not_found
  | some a ↦
      if a.run_id =t= run_id && same_artifact_kind a.artifact_kind kind then ok a else err not_found
]

-- `load_node_artifact`; `digest` is `canonical_json_sha256`.
unfoldable pub load_node_artifact :
    (String → String) → String → String → String → String → Db → Result String
load_node_artifact digest run_id artifact_id expected_kind expected_hash db = do
  canonical_identifier run_id 36
  canonical_identifier artifact_id 36
  identity ← artifact_identity expected_kind
  canonical_sha256_identifier expected_hash
  a ← artifact_row run_id artifact_id identity.0 db
  require (a.payload_hash =t= expected_hash) data_error
  require (digest a.payload =t= expected_hash) data_error
  ok a.payload
