-- ===== src/ProjectRoutes/Access.antt =====
-- `_visible_project` and `_require_project_admin`, as functions of the database.
use ai_auto_platform.Prelude.{ℕ, ◌&&◌, not, Option, none, some, if◌then◌else◌, is_some, find_by}
use ai_auto_platform.Errors.{
  Result, ok, ◌>>=◌, ◌>>◌, throw_if, or_throw, throw, project_not_found, project_admin_required,
}
use ai_auto_platform.Db.Models.{Db, ProjectModel, ProjectMemberModel, OrganizationMemberModel}
use ai_auto_platform.Organization.Domain.{is_organization_admin}
use ai_auto_platform.Organization.Access.{require_organization_member}
use ai_auto_platform.Project.Domain.{is_project_admin}
use ai_auto_platform.Upload.Authorize.{is_live_project, is_project_membership}

unfoldable pub visible_project : ℕ → ℕ → ℕ → Db → Result (ProjectModel × OrganizationMemberModel)
unfolding require_organization_member
visible_project organization_id project_id actor_id db = do
  organization_member ← require_organization_member organization_id actor_id db
  project ←
      or_throw (find_by (is_live_project organization_id project_id) db.projects) project_not_found
        404
  throw_if
      (not (is_organization_admin organization_member.role)
        && not (is_some (find_by (is_project_membership project_id actor_id) db.project_members)))
      project_not_found 404
  ok (project, organization_member)

-- The check of the member of a project who does not administer the organization.
abbrev pub require_admin_role : Option ProjectMemberModel → Result (Unit {0})
require_admin_role none = throw project_admin_required 403
require_admin_role (some m) = throw_if (not (is_project_admin m.role)) project_admin_required 403

unfoldable pub require_project_admin : ℕ → ℕ → ℕ → Db → Result ProjectModel
unfolding visible_project
require_project_admin organization_id project_id actor_id db = do
  (project, organization_member) ← visible_project organization_id project_id actor_id db
  if is_organization_admin organization_member.role
      then ok tt
      else require_admin_role
          (find_by (is_project_membership project_id actor_id) db.project_members)
  ok project
