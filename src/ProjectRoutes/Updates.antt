-- ===== src/ProjectRoutes/Updates.antt =====
-- The handlers `get_project`, `update_project`, `archive_project`, `restore_project` and
-- `delete_project`.
pub mod Flushed
pub mod Locking
pub mod Archived
pub mod Once
use ai_auto_platform.Prelude.{ℕ, ◌+◌, false, Option, none, some, [], ◌∷◌, String}
use ai_auto_platform.Db.Models.{Db, ProjectModel, Json, Value}
use ai_auto_platform.Project.Domain.{ProjectStatus, project_status_value}
use ai_auto_platform.Exec.{Action, Context, Response, pure, check, ◌>>=◌, ◌>>◌}
use ai_auto_platform.Common.Libraries.{Libraries}
use ai_auto_platform.Common.Reliability.{record_audit, record_outbox}
use ai_auto_platform.ProjectRoutes.Payloads.{ProjectUpdate}
use ai_auto_platform.ProjectRoutes.Versions.{check_version}
use ai_auto_platform.ProjectRoutes.Access.{visible_project, require_project_admin}
use ai_auto_platform.ProjectRoutes.Rows.{commit_project, serialize_project}
use ai_auto_platform.ProjectRoutes.Changes.{
  is_null, updated_project, with_status, status_action, status_event,
}

abbrev pub project_response : ProjectModel → Response Json
project_response p = record {
  status_code = 200;
  content = serialize_project p;
  replayed = none;
  etag = some p.version;
}

module _ {R : Type 0} (ctx : Context) where
  unfoldable pub get_project : ℕ → ℕ → Action R (Response Json)
  get_project organization_id project_id = do
    (project, _) ← check (visible_project organization_id project_id ctx.actor_id)
    pure (project_response project)

  unfoldable pub record_status : ProjectModel → ProjectStatus → Action R (Unit {0})
  record_status project target =
      record_audit ctx (status_action target) "project" project.id (some project.organization_id)
        (some project.id) (("targetStatus", Value.text (project_status_value target)) ∷ [])
      >> record_outbox ctx.trace_id (some project.organization_id) "project" project.id
          (status_event target) (project.version + 1)
          (("status", Value.text (project_status_value target)) ∷ [])

module _ {R : Type 0} (lib : Libraries) (ctx : Context) (others : Db → Db) where
  unfoldable pub update_project : ℕ → ℕ → ProjectUpdate → Option String → Action R (Response Json)
  update_project organization_id project_id p if_match = do
    project ← check (require_project_admin organization_id project_id ctx.actor_id)
    check (λ _. check_version lib project if_match)
    new ← check (λ _. updated_project p project)
    row ← commit_project ctx others project new (is_null p.code) (pure tt)
    pure (project_response row)

  -- `_change_status`
  unfoldable pub change_status :
      ProjectModel → ProjectStatus → Option String → Action R ProjectModel
  unfolding record_status
  change_status project target if_match = do
    check (λ _. check_version lib project if_match)
    commit_project ctx others project (with_status target ctx.now project) false
        (record_status ctx project target)

  unfoldable pub archive_project : ℕ → ℕ → Option String → Action R (Response Json)
  unfolding change_status
  archive_project organization_id project_id if_match = do
    project ← check (require_project_admin organization_id project_id ctx.actor_id)
    row ← change_status project ProjectStatus.archived if_match
    pure (project_response row)

  unfoldable pub restore_project : ℕ → ℕ → Option String → Action R (Response Json)
  unfolding change_status
  restore_project organization_id project_id if_match = do
    project ← check (require_project_admin organization_id project_id ctx.actor_id)
    row ← change_status project ProjectStatus.active if_match
    pure (project_response row)

  -- Answers 204 without a body.
  unfoldable pub delete_project : ℕ → ℕ → Option String → Action R (Unit {0})
  delete_project organization_id project_id if_match = do
    project ← check (require_project_admin organization_id project_id ctx.actor_id)
    check (λ _. check_version lib project if_match)
    commit_project ctx others project (record project { deleted_at = some ctx.now }) false (pure tt)
    pure tt
