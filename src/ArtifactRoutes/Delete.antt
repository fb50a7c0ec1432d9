-- ===== src/ArtifactRoutes/Delete.antt =====
-- `delete_artifact`: the request; the maintenance deletes the object.
pub mod Current
use ai_auto_platform.Prelude.{
  ℕ, ◌+◌, Bool, true, false, not, Option, none, some, List, [], ◌∷◌, String, if◌then◌else◌,
}
use ai_auto_platform.Errors.{throw_if, artifact_not_found, version_mismatch}
use ai_auto_platform.Db.Models.{ArtifactModel, Json, Value}
use ai_auto_platform.Artifact.Domain.{ArtifactStatus, same_artifact_status, artifact_status_value}
use ai_auto_platform.Artifact.Rows.{put_artifact, serialize_artifact}
use ai_auto_platform.Exec.{Action, Context, Response, pure, check, write, commit, ◌>>=◌, ◌>>◌}
use ai_auto_platform.Common.Libraries.{Libraries}
use ai_auto_platform.Common.Reliability.{
  IdempotencyDecision, RouteKey, begin_idempotent_command, complete_idempotent_command,
  record_audit, record_outbox, replay_or,
}
use ai_auto_platform.ArtifactRoutes.Visible.{visible_artifact, version_of, is_version}

-- `artifact.status = DELETING`, after the flush: a row that is deleting already has not changed.
unfoldable pub request_deletion : ℕ → ArtifactModel → ArtifactModel
request_deletion db_now a =
    if same_artifact_status a.status ArtifactStatus.deleting
    then a
    else record a { status = ArtifactStatus.deleting; version = a.version + 1; updated_at = db_now }

module _ {R : Type 0} (lib : Libraries) (ctx : Context) where
  -- The part behind `if decision.is_replay`.
  unfoldable pub delete_fresh :
      ℕ → ℕ → Option String → ArtifactModel → IdempotencyDecision → Action R (Response Json)
  delete_fresh organization_id project_id if_match artifact decision = do
    version ← check (λ _. version_of lib if_match)
    check (λ _. throw_if (not (is_version artifact.version version)) version_mismatch 412)
    check λ _.
        throw_if (same_artifact_status artifact.status ArtifactStatus.deleted) artifact_not_found
          404
    let a = request_deletion ctx.db_now artifact
    write (put_artifact a)
    let detail = ("status", Value.text (artifact_status_value a.status)) ∷ []
    record_audit ctx "artifact.delete.request" "artifact" a.id (some organization_id)
        (some project_id) detail
    record_outbox ctx.trace_id (some organization_id) "artifact" a.id "ArtifactDeletionRequested.v1"
        a.version detail
    complete_idempotent_command decision 200 (serialize_artifact a)
    commit
    pure (record {
      status_code = 200;
      content = serialize_artifact a;
      replayed = some false;
      etag = some a.version;
    })

  unfoldable pub delete_artifact :
      ℕ → ℕ → ℕ → Option String → Option String → Action R (Response Json)
  unfolding delete_fresh
  delete_artifact organization_id project_id artifact_id if_match idempotency_key = do
    artifact ← check (visible_artifact organization_id project_id artifact_id ctx.actor_id true)
    decision ←
        begin_idempotent_command lib ctx
          (record { template = "artifacts.{}.delete"; id = artifact_id }) idempotency_key
          (("artifactId", Value.uuid artifact_id) ∷ [])
    replay_or decision.replay (delete_fresh organization_id project_id if_match artifact decision)
