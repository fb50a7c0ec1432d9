-- ===== src/Artifact/Rows.antt =====
-- Artifacts as rows: the body of a response (`ArtifactRead`), and the table's constraints.
use ai_auto_platform.Prelude.{
  ℕ, Bool, ◌||◌, [], ◌∷◌, ◌++◌, str_eq, ◌==◌, if◌then◌else◌, exists_by, replace_by,
}
use ai_auto_platform.Errors.{Result, ok, err, unhandled}
use ai_auto_platform.Db.Models.{Db, ArtifactModel, Json, Value, optional_text}
use ai_auto_platform.Artifact.Domain.{
  artifact_status_value, integrity_status_value, scan_status_value,
}

abbrev pub has_artifact_id : ℕ → ArtifactModel → Bool
has_artifact_id id a = a.id == id

abbrev pub is_artifact_of : ℕ → ArtifactModel → Bool
is_artifact_of upload_id a = a.upload_session_id == upload_id

-- The flush of a new row: its id, its session and its object key are unique.
unfoldable pub check_artifact_constraints : ArtifactModel → Db → Result (Unit {0})
check_artifact_constraints a db =
    if exists_by (has_artifact_id a.id) db.artifacts
      || exists_by (is_artifact_of a.upload_session_id) db.artifacts
      || exists_by (λ b. str_eq b.object_key a.object_key) db.artifacts
    then err unhandled
    else ok tt

abbrev pub insert_artifact : ArtifactModel → Db → Db
insert_artifact a db = record db { artifacts = db.artifacts ++ a ∷ [] }

abbrev pub put_artifact : ArtifactModel → Db → Db
put_artifact a db = record db { artifacts = replace_by (has_artifact_id a.id) a db.artifacts }

-- `ArtifactRead.model_validate(artifact).model_dump(mode="json")`
unfoldable pub serialize_artifact : ArtifactModel → Json
serialize_artifact a =
    ("id", Value.uuid a.id)
    ∷ ("upload_session_id", Value.uuid a.upload_session_id)
    ∷ ("organization_id", Value.uuid a.organization_id)
    ∷ ("project_id", Value.uuid a.project_id)
    ∷ ("created_by", Value.uuid a.created_by)
    ∷ ("display_name", Value.text a.display_name)
    ∷ ("size_bytes", Value.number a.size_bytes)
    ∷ ("expected_sha256", Value.text a.expected_sha256)
    ∷ ("verified_sha256", Value.text a.verified_sha256)
    ∷ ("declared_content_type", Value.text a.declared_content_type)
    ∷ ("detected_content_type", optional_text a.detected_content_type)
    ∷ ("integrity_status", Value.text (integrity_status_value a.integrity_status))
    ∷ ("security_scan_status", Value.text (scan_status_value a.security_scan_status))
    ∷ ("status", Value.text (artifact_status_value a.status))
    ∷ ("version", Value.number a.version)
    ∷ ("created_at", Value.number a.created_at)
    ∷ ("updated_at", Value.number a.updated_at)
    ∷ []
