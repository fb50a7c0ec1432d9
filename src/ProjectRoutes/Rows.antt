-- ===== src/ProjectRoutes/Rows.antt =====
-- Projects as rows: the flush under the version, `_commit_project`, and the body of a response.
use ai_auto_platform.Prelude.{
  ℕ, ◌+◌, Bool, true, false, ◌&&◌, ◌||◌, not, Option, none, some, [], ◌∷◌, ◌++◌, str_eq, ◌==◌,
  if◌then◌else◌, find_by, replace_by, exists_by,
}
use ai_auto_platform.Errors.{
  Result, ok, err, unhandled, throw, throw_if, version_mismatch, project_code_exists,
}
use ai_auto_platform.Db.Models.{
  Db, ProjectModel, ProjectMemberModel, Json, Value, optional_text, optional_time,
}
use ai_auto_platform.Project.Domain.{ProjectStatus, project_status_value}
use ai_auto_platform.Exec.{Action, Context, check, write, commit, others_run, ◌>>◌}
use ai_auto_platform.Upload.Rows.{same_text, same_number}

abbrev pub has_project_id : ℕ → ProjectModel → Bool
has_project_id id p = p.id == id

abbrev pub put_project : ProjectModel → Db → Db
put_project p db = record db { projects = replace_by (has_project_id p.id) p db.projects }

abbrev pub insert_project : ProjectModel → Db → Db
insert_project p db = record db { projects = db.projects ++ p ∷ [] }

abbrev pub insert_project_member : ProjectMemberModel → Db → Db
insert_project_member m db = record db { project_members = db.project_members ++ m ∷ [] }

abbrev pub same_project_status : ProjectStatus → ProjectStatus → Bool
same_project_status ProjectStatus.active ProjectStatus.active = true
same_project_status ProjectStatus.archived ProjectStatus.archived = true
same_project_status _ _ = false

-- No column has changed that a route assigns: then there is nothing to flush.
unfoldable pub is_same_project : ProjectModel → ProjectModel → Bool
is_same_project old new =
    str_eq old.code new.code
    && str_eq old.name new.name
    && same_text old.description new.description
    && same_project_status old.status new.status
    && same_number old.archived_at new.archived_at
    && same_number old.deleted_at new.deleted_at

-- `UPDATE projects SET … WHERE id = … AND version = …` has found a row (`version_id_col`).
abbrev pub is_row_of : ProjectModel → Option ProjectModel → Bool
is_row_of old none = false
is_row_of old (some row) = row.version == old.version

abbrev pub has_code : ProjectModel → ProjectModel → Bool
has_code p q = not (q.id == p.id) && q.organization_id == p.organization_id && str_eq q.code p.code

-- The errors of the flush: a row of another version is `StaleDataError`, a code that is taken or
-- null is `IntegrityError`.
unfoldable pub check_flush : ProjectModel → ProjectModel → Bool → Db → Result (Unit {0})
check_flush old new null_code db =
    if not (is_row_of old (find_by (has_project_id old.id) db.projects))
    then throw version_mismatch 412
    else throw_if (null_code || exists_by (has_code new) db.projects) project_code_exists 409

unfoldable pub next_version : ℕ → ProjectModel → ProjectModel → ProjectModel
next_version db_now old new = record new { version = old.version + 1; updated_at = db_now }

abbrev refreshed : Option ProjectModel → Result ProjectModel
refreshed none = err unhandled
refreshed (some row) = ok row

-- `await session.refresh(project)`: the row as it is now.
abbrev pub refresh_project : ℕ → Db → Result ProjectModel
refresh_project id db = refreshed (find_by (has_project_id id) db.projects)

module _ {R : Type 0} (ctx : Context) where
  -- `_commit_project`. The request holds no lock on the project: `others` is what other requests
  -- commit between its query and this flush. `added` is what the request has put into the session
  -- besides, which is flushed here too.
  unfoldable pub commit_project :
      (Db → Db) → ProjectModel → ProjectModel → Bool → Action R (Unit {0}) → Action R ProjectModel
  unfolding is_same_project check_flush next_version
  commit_project others old new null_code added = do
    others_run others
    if is_same_project old new && not null_code
        then (do added; commit; check (refresh_project old.id))
        else do
          check (check_flush old new null_code)
          let flushed = next_version ctx.db_now old new
          write (put_project flushed)
          added
          commit
          check (refresh_project old.id)

-- `ProjectRead.model_validate(project).model_dump(mode="json")`
unfoldable pub serialize_project : ProjectModel → Json
unfolding project_status_value
serialize_project p =
    ("id", Value.uuid p.id)
    ∷ ("organization_id", Value.uuid p.organization_id)
    ∷ ("code", Value.text p.code)
    ∷ ("name", Value.text p.name)
    ∷ ("description", optional_text p.description)
    ∷ ("status", Value.text (project_status_value p.status))
    ∷ ("version", Value.number p.version)
    ∷ ("archived_at", optional_time p.archived_at)
    ∷ ("created_at", Value.number p.created_at)
    ∷ ("updated_at", Value.number p.updated_at)
    ∷ []
