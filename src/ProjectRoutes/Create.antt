-- ===== src/ProjectRoutes/Create.antt =====
-- `create_project`
use ai_auto_platform.Prelude.{
  ℕ, false, ◌&&◌, ◌||◌, not, Option, none, some, [], ◌∷◌, String, str_eq, ◌==◌, if◌then◌else◌,
  exists_by, strip, is_empty,
}
use ai_auto_platform.Errors.{Result, throw_if, organization_admin_required, project_code_exists}
use ai_auto_platform.Db.Models.{Db, ProjectModel, ProjectMemberModel, Json, Value, optional_text}
use ai_auto_platform.Organization.Domain.{is_organization_admin}
use ai_auto_platform.Organization.Access.{require_organization_member}
use ai_auto_platform.Project.Domain.{ProjectStatus, ProjectRole}
use ai_auto_platform.Exec.{Action, Context, Response, pure, check, write, commit, ◌>>=◌, ◌>>◌}
use ai_auto_platform.Common.Libraries.{Libraries}
use ai_auto_platform.Common.Reliability.{
  IdempotencyDecision, begin_idempotent_command, complete_idempotent_command, record_audit,
  record_outbox, replay_or,
}
use ai_auto_platform.Upload.Authorize.{is_project_membership}
use ai_auto_platform.ProjectRoutes.Payloads.{ProjectCreate}
use ai_auto_platform.ProjectRoutes.Rows.{
  has_project_id, insert_project, insert_project_member, serialize_project,
}

-- `description.strip() if description else None`
unfoldable pub stripped : Option String → Option String
unfolding strip
stripped none = none
stripped (some s) = if is_empty s then none else some (strip s)

unfoldable pub new_project : Context → ℕ → ProjectCreate → ProjectModel
unfolding stripped strip
new_project ctx organization_id p = record {
  id = ctx.new_id;
  organization_id = organization_id;
  code = p.code;
  name = strip p.name;
  description = stripped p.description;
  status = ProjectStatus.active;
  version = 1;
  archived_at = none;
  deleted_at = none;
  created_at = ctx.db_now;
  updated_at = ctx.db_now;
}

-- The flush of the project: its id and its organization with the code are unique, deleted projects
-- counted.
unfoldable pub check_new_project : ProjectModel → Db → Result (Unit {0})
check_new_project p db =
    throw_if
      (exists_by (has_project_id p.id) db.projects
        || exists_by (λ q. q.organization_id == p.organization_id && str_eq q.code p.code)
            db.projects)
      project_code_exists 409

unfoldable pub new_project_member : Context → ProjectModel → ProjectMemberModel
new_project_member ctx project = record {
  project_id = project.id;
  user_id = ctx.actor_id;
  organization_id = project.organization_id;
  role = ProjectRole.admin;
  created_at = ctx.db_now;
}

-- The flush of the membership at the commit, in `_commit_project`.
unfoldable pub check_new_admin : ProjectMemberModel → Db → Result (Unit {0})
check_new_admin m db =
    throw_if (exists_by (is_project_membership m.project_id m.user_id) db.project_members)
      project_code_exists 409

abbrev pub created_project : ProjectModel → Response Json
created_project p = record {
  status_code = 201;
  content = serialize_project p;
  replayed = some false;
  etag = some p.version;
}

-- `payload.model_dump(mode="json")`
abbrev pub project_dump : ProjectCreate → Json
project_dump p =
    ("code", Value.text p.code)
    ∷ ("name", Value.text p.name)
    ∷ ("description", optional_text p.description)
    ∷ []

module _ {R : Type 0} (ctx : Context) where
  -- The part behind `if decision.is_replay`.
  unfoldable pub create_project_fresh :
      ℕ → ProjectCreate → IdempotencyDecision → Action R (Response Json)
  unfolding check_new_project check_new_admin new_project new_project_member
  create_project_fresh organization_id p decision = do
    let project = new_project ctx organization_id p
    check (check_new_project project)
    write (insert_project project)
    let m = new_project_member ctx project
    check (check_new_admin m)
    write (insert_project_member m)
    let detail = ("code", Value.text project.code) ∷ []
    record_audit ctx "project.create" "project" project.id (some organization_id) (some project.id)
        detail
    record_outbox ctx.trace_id (some organization_id) "project" project.id "ProjectCreated.v1"
        project.version detail
    complete_idempotent_command decision 201 (serialize_project project)
    commit
    pure (created_project project)

  unfoldable pub create_project :
      Libraries → ℕ → ProjectCreate → Option String → Action R (Response Json)
  unfolding create_project_fresh
  create_project lib organization_id p idempotency_key = do
    membership ← check (require_organization_member organization_id ctx.actor_id)
    check
        λ _. throw_if (not (is_organization_admin membership.role)) organization_admin_required 403
    decision ←
        begin_idempotent_command lib ctx
          (record { template = "organizations.{}.projects.create"; id = organization_id })
          idempotency_key (project_dump p)
    replay_or decision.replay (create_project_fresh organization_id p decision)
