-- ===== src/Project/Domain.antt =====
-- modules/project/domain.py
use ai_auto_platform.Prelude.{ℕ, Bool, true, false, not, String, if◌then◌else◌}
use ai_auto_platform.Errors.{Result, throw_if, project_archived}

pub data ProjectStatus : Type 0 where
  active archived : ProjectStatus

pub data ProjectRole : Type 0 where
  admin engineer viewer : ProjectRole

unfoldable pub project_status_value : ProjectStatus → String
project_status_value ProjectStatus.active = "ACTIVE"
project_status_value ProjectStatus.archived = "ARCHIVED"

unfoldable pub project_role_value : ProjectRole → String
project_role_value ProjectRole.admin = "ADMIN"
project_role_value ProjectRole.engineer = "ENGINEER"
project_role_value ProjectRole.viewer = "VIEWER"

abbrev pub is_project_active : ProjectStatus → Bool
is_project_active ProjectStatus.active = true
is_project_active ProjectStatus.archived = false

-- `role in {ProjectRole.ADMIN, ProjectRole.ENGINEER}`
abbrev pub is_project_writer : ProjectRole → Bool
is_project_writer ProjectRole.viewer = false
is_project_writer _ = true

abbrev pub is_project_admin : ProjectRole → Bool
is_project_admin ProjectRole.admin = true
is_project_admin _ = false

pub record Project : Type 0 where
  pub id : ℕ
  pub organization_id : ℕ
  pub code : String
  pub name : String
  pub status : ProjectStatus

unfoldable pub archive : Project → Project
archive p =
    if not (is_project_active p.status) then p else record p { status = ProjectStatus.archived }

unfoldable pub restore : Project → Project
restore p = record p { status = ProjectStatus.active }

unfoldable pub require_writable : Project → Result (Unit {0})
require_writable p = throw_if (not (is_project_active p.status)) project_archived 409
