-- ===== src/ProjectRoutes/Changes.antt =====
-- `get_project`, `update_project`, `archive_project`, `restore_project` and `delete_project`
use ai_auto_platform.Prelude.{ℕ, Bool, true, false, Option, none, some, String, strip}
use ai_auto_platform.Errors.{Result, ok, err, unhandled, ◌>>=◌}
use ai_auto_platform.Db.Models.{ProjectModel}
use ai_auto_platform.Project.Domain.{ProjectStatus}
use ai_auto_platform.ProjectRoutes.Payloads.{Given, ProjectUpdate}
use ai_auto_platform.ProjectRoutes.Create.{stripped}

-- `if "code" in payload.model_fields_set`; a null code is an error of the flush.
abbrev pub given_code : Given → String → String
given_code (some (some code)) old = code
given_code _ old = old

abbrev pub is_null : Given → Bool
is_null (some none) = true
is_null _ = false

-- `payload.name.strip()`: a null name has no `strip`.
unfoldable pub given_name : Given → String → Result String
unfolding strip
given_name none old = ok old
given_name (some none) old = err unhandled
given_name (some (some name)) old = ok (strip name)

abbrev pub given_description : Given → Option String → Option String
given_description none old = old
given_description (some description) old = stripped description

-- The assignments of `update_project`.
unfoldable pub updated_project : ProjectUpdate → ProjectModel → Result ProjectModel
unfolding given_name
updated_project p project = do
  name ← given_name p.name project.name
  ok (record project {
    code = given_code p.code project.code;
    name = name;
    description = given_description p.description project.description;
  })

-- The assignments of `_change_status`.
unfoldable pub with_status : ProjectStatus → ℕ → ProjectModel → ProjectModel
with_status ProjectStatus.archived now project = record project {
  status = ProjectStatus.archived;
  archived_at = some now;
}
with_status ProjectStatus.active now project = record project {
  status = ProjectStatus.active;
  archived_at = none;
}

abbrev pub status_action : ProjectStatus → String
status_action ProjectStatus.archived = "project.archive"
status_action ProjectStatus.active = "project.restore"

abbrev pub status_event : ProjectStatus → String
status_event ProjectStatus.archived = "ProjectArchived.v1"
status_event ProjectStatus.active = "ProjectRestored.v1"
