-- ===== src/Runs/Refines/Artifacts.antt =====
-- save_node_artifact as a write of the abstract machine.
use legal_rag_agent.Prelude.{ℕ, Option, none, some, String, find_by, inl, inr, Option-cases}
use legal_rag_agent.Runs.Result.{Gives, Gives-bind, Gives-check, Gives-ok, Gives-err}
use legal_rag_agent.Runs.Tables.{Artifact, Db, artifact_key}
use legal_rag_agent.Runs.Service.Artifacts.{insert_artifact, new_artifact, save_node_artifact}
use legal_rag_agent.Runs.Spec.{keep_artifact, Moves, Moves-one}
use legal_rag_agent.Runs.Refines.{Refines}

insert_artifact-Moves :
    (a : Artifact) (db : Db) → Gives (λ db'. Moves db db') (insert_artifact a db)
unfolding insert_artifact
insert_artifact-Moves a db = elim (Option-cases (find_by artifact_key a.artifact_id db.artifacts)) [
  | inl free ↦ rw free (Gives-ok _ (Moves-one (keep_artifact a free)))
  | inr (b, taken) ↦ rw taken (Gives-err _)
]

pub save_node_artifact-Refines :
    (id worker : String) (epoch : ℕ) (kind : String) (payload : Option (String × String))
    (artifact_id : String) (now : ℕ) (db : Db)
    → Refines db (save_node_artifact id worker epoch kind payload artifact_id now db)
unfolding save_node_artifact
save_node_artifact-Refines id worker epoch kind none artifact_id now db =
    Gives-check _ _ (Gives-check _ _ (Gives-check _ _ (Gives-bind _ _ λ identity i. Gives-err _)))
save_node_artifact-Refines id worker epoch kind (some (payload, digest)) artifact_id now db =
    Gives-check _ _ (
      Gives-check _ _ (
        Gives-check _ _ (
          Gives-bind _ _ λ identity i. Gives-bind _ _ λ row e. Gives-check _ _ (
            Gives-bind _ _ λ db' h. Gives-ok _ (
              (insert_artifact-Moves (new_artifact artifact_id id identity payload digest epoch now)
                  db).given
                db' h)))))
