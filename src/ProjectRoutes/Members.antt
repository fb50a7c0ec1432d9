-- ===== src/ProjectRoutes/Members.antt =====
-- `list_project_members`, `add_project_member`, `update_project_member` and
-- `remove_project_member`
use ai_auto_platform.Prelude.{
  ℕ, Option, none, some, List, [], ◌∷◌, String, leb, ◌==◌, find_by, replace_by, delete_by,
  exists_by, select, order_by,
}
use ai_auto_platform.Errors.{
  Result, ok, throw_if, or_throw, organization_member_required, project_member_exists,
  project_member_not_found,
}
use ai_auto_platform.Db.Models.{Db, ProjectModel, ProjectMemberModel, Json, Value}
use ai_auto_platform.Organization.Access.{is_membership}
use ai_auto_platform.Project.Domain.{ProjectRole, project_role_value}
use ai_auto_platform.Exec.{Action, Context, pure, check, write, commit, ◌>>=◌, ◌>>◌}
use ai_auto_platform.Common.Reliability.{record_audit, record_outbox}
use ai_auto_platform.Upload.Authorize.{is_project_membership}
use ai_auto_platform.ProjectRoutes.Access.{visible_project, require_project_admin}
use ai_auto_platform.ProjectRoutes.Rows.{insert_project_member}

abbrev pub member_payload : ℕ → Option ProjectRole → Json
member_payload member_id none = ("memberId", Value.uuid member_id) ∷ []
member_payload member_id (some role) =
    ("memberId", Value.uuid member_id) ∷ ("role", Value.text (project_role_value role)) ∷ []

-- `_record_project_member_change`
unfoldable pub record_project_member_change :
    {R : Type 0}
    → Context
    → ProjectModel
    → (member_id : ℕ) (action event_type : String) → Option ProjectRole
    → Action R (Unit {0})
record_project_member_change ctx project member_id action event_type role =
    record_audit ctx action "project_member" member_id (some project.organization_id)
      (some project.id) (member_payload member_id role)
    >> record_outbox ctx.trace_id (some project.organization_id) "project" project.id event_type
        project.version (member_payload member_id role)

-- The flush of the membership at the commit: its key is unique.
unfoldable pub check_project_member : ProjectMemberModel → Db → Result (Unit {0})
check_project_member m db =
    throw_if (exists_by (is_project_membership m.project_id m.user_id) db.project_members)
      project_member_exists 409

-- `await session.get(ProjectMemberModel, (project_id, member_id))`
unfoldable pub find_project_member : ℕ → ℕ → Db → Result ProjectMemberModel
find_project_member project_id member_id db =
    or_throw (find_by (is_project_membership project_id member_id) db.project_members)
      project_member_not_found 404

module _ {R : Type 0} (ctx : Context) where
  unfoldable pub list_project_members : ℕ → ℕ → Action R (List ProjectMemberModel)
  list_project_members organization_id project_id = do
    check (visible_project organization_id project_id ctx.actor_id)
    check λ db. ok (
        order_by (λ m n. leb m.created_at n.created_at)
          (select (λ m. m.project_id == project_id) db.project_members))

  unfoldable pub add_project_member : ℕ → ℕ → ℕ → ProjectRole → Action R ProjectMemberModel
  unfolding check_project_member
  add_project_member organization_id project_id member_id role = do
    project ← check (require_project_admin organization_id project_id ctx.actor_id)
    check λ db.
        or_throw (find_by (is_membership organization_id member_id) db.organization_members)
          organization_member_required 409
    let m : ProjectMemberModel = record {
      project_id = project_id;
      user_id = member_id;
      organization_id = organization_id;
      role = role;
      created_at = ctx.db_now;
    }
    check (check_project_member m)
    write (insert_project_member m)
    record_project_member_change ctx project member_id "project.member.add" "ProjectMemberAdded.v1"
        (some role)
    commit
    pure m

  unfoldable pub update_project_member : ℕ → ℕ → ℕ → ProjectRole → Action R ProjectMemberModel
  unfolding find_project_member
  update_project_member organization_id project_id member_id role = do
    project ← check (require_project_admin organization_id project_id ctx.actor_id)
    member ← check (find_project_member project_id member_id)
    let changed : ProjectMemberModel = record member { role = role }
    write λ db. record db {
      project_members =
          replace_by (is_project_membership project_id member_id) changed db.project_members;
    }
    record_project_member_change ctx project member_id "project.member.role.update"
        "ProjectMemberRoleChanged.v1" (some role)
    commit
    pure changed

  -- Answers 204 without a body.
  unfoldable pub remove_project_member : ℕ → ℕ → ℕ → Action R (Unit {0})
  unfolding find_project_member
  remove_project_member organization_id project_id member_id = do
    project ← check (require_project_admin organization_id project_id ctx.actor_id)
    check (find_project_member project_id member_id)
    record_project_member_change ctx project member_id "project.member.remove"
        "ProjectMemberRemoved.v1" none
    write λ db. record db {
      project_members = delete_by (is_project_membership project_id member_id) db.project_members;
    }
    commit
    pure tt
