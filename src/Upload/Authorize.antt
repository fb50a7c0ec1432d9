-- ===== src/Upload/Authorize.antt =====
-- `_authorized_project`, `_lock_organization` and `_visible_upload`, as functions of the database.
pub mod Writers
use ai_auto_platform.Prelude.{
  ℕ, Bool, true, false, ◌&&◌, not, Option, none, some, ◌==◌, if◌then◌else◌, is_some, find_by,
}
use ai_auto_platform.Errors.{
  Result, ok, ◌>>=◌, ◌>>◌, throw, throw_if, or_throw, project_not_found, project_write_required,
  project_archived, organization_not_found,
}
use ai_auto_platform.Db.Models.{Db, ProjectModel, ProjectMemberModel, UploadSessionModel}
use ai_auto_platform.Organization.Domain.{is_organization_admin}
use ai_auto_platform.Organization.Access.{require_organization_member, is_organization}
use ai_auto_platform.Project.Domain.{is_project_writer, is_project_active}
use ai_auto_platform.Upload.Rows.{find_upload}

-- `id == …`, `organization_id == …`, `deleted_at.is_(None)`
abbrev pub is_live_project : ℕ → ℕ → ProjectModel → Bool
is_live_project organization_id project_id p =
    p.id == project_id && (p.organization_id == organization_id && not (is_some p.deleted_at))

abbrev pub is_project_membership : ℕ → ℕ → ProjectMemberModel → Bool
is_project_membership project_id user_id m = m.project_id == project_id && m.user_id == user_id

-- The checks on a project's member who does not administer the organization.
abbrev pub require_project_role : Option ProjectMemberModel → Bool → Result (Unit {0})
require_project_role none write = throw project_not_found 404
require_project_role (some m) write =
    throw_if (write && not (is_project_writer m.role)) project_write_required 403

unfoldable pub authorized_project : ℕ → ℕ → ℕ → Bool → Db → Result ProjectModel
unfolding require_organization_member
authorized_project organization_id project_id actor_id write db = do
  organization_member ← require_organization_member organization_id actor_id db
  project ←
      or_throw (find_by (is_live_project organization_id project_id) db.projects) project_not_found
        404
  if is_organization_admin organization_member.role
      then ok tt
      else require_project_role
          (find_by (is_project_membership project_id actor_id) db.project_members) write
  throw_if (write && not (is_project_active project.status)) project_archived 409
  ok project

unfoldable pub lock_organization : ℕ → Db → Result (Unit {0})
lock_organization organization_id db = do
  or_throw (find_by (is_organization organization_id) db.organizations) organization_not_found 404
  ok tt

unfoldable pub visible_upload :
    ℕ → ℕ → ℕ → ℕ → Bool → Db → Result (ProjectModel × UploadSessionModel)
unfolding authorized_project find_upload
visible_upload organization_id project_id upload_id actor_id write db = do
  project ← authorized_project organization_id project_id actor_id write db
  upload ← find_upload organization_id project_id upload_id db
  ok (project, upload)
