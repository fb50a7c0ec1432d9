-- ===== src/Tests/Artifacts.antt =====
-- An artifact whose deletion is requested and then carried out.
use ai_auto_platform.Prelude.{ℕ, refl, none, some, List, [], ◌∷◌, String, false, strip, All}
use ai_auto_platform.Db.Models.{Db, ArtifactModel, Json, IdempotencyState}
use ai_auto_platform.Artifact.Domain.{ArtifactStatus, IntegrityStatus, SecurityScanStatus}
use ai_auto_platform.Artifact.Rows.{serialize_artifact}
use ai_auto_platform.Exec.{World, Response, ◌>>=◌}
use ai_auto_platform.Common.Reliability.{
  IdempotencyDecision, record_audit, record_outbox, complete_idempotent_command,
}
use ai_auto_platform.Maintenance.{State, no_metrics}
use ai_auto_platform.Maintenance.Artifacts.{delete_artifacts, reconcile_missing}
use ai_auto_platform.ArtifactRoutes.Visible.{version_of}
use ai_auto_platform.ArtifactRoutes.Delete.{request_deletion, delete_fresh}
use ai_auto_platform.ArtifactRoutes.Delete.Current.{Requested, delete_fresh-Requested}
use ai_auto_platform.ArtifactRoutes.Lifecycle.{Changes}
use ai_auto_platform.ArtifactRoutes.Histories.{reconcile_missing-Changes}
use ai_auto_platform.ArtifactRoutes.Pages.{
  ArtifactPage, encode_artifact_cursor, list_artifacts, artifact_page,
}
use ai_auto_platform.ArtifactRoutes.Pages.Listed.{IsReadable, list_artifacts-get_artifact}
use ai_auto_platform.Tests.Cursors.{cursors}
use ai_auto_platform.Tests.Samples.{context, database, libraries, storage, key}

abbrev artifact : ArtifactStatus → ℕ → ArtifactModel
artifact status version = record {
  id = 22;
  upload_session_id = 11;
  organization_id = 7;
  project_id = 3;
  created_by = 1;
  display_name = "file";
  object_key = "v1/o/0123456789abcdef0123456789abcdef";
  bucket_alias = "primary";
  size_bytes = 3;
  expected_sha256 = "digest";
  verified_sha256 = "digest";
  declared_content_type = "text/plain";
  detected_content_type = none;
  integrity_status = IntegrityStatus.verified;
  security_scan_status = SecurityScanStatus.not_required;
  status = status;
  deleted_at = none;
  cleanup_attempts = 0;
  cleanup_last_error = none;
  cleanup_next_attempt_at = none;
  version = version;
  created_at = 0;
  updated_at = 0;
}

abbrev stocked : Db
stocked = record database { artifacts = artifact ArtifactStatus.available 1 ∷ [] }

abbrev stocked_world : World (List String)
stocked_world = record { durable = stocked; pending = stocked; remote = [] }

abbrev started : IdempotencyDecision
started = record {
  entry = record {
    actor_id = 1;
    route_template = "artifacts.{}.delete";
    route_id = 22;
    idempotency_key = key;
    request_hash = "payload";
    state = IdempotencyState.processing;
    response_status = none;
    response_body = none;
    expires_at = 500;
  };
  replay = none;
}

abbrev requested : ArtifactModel
requested = record (artifact ArtifactStatus.deleting 2) { updated_at = 51 }

abbrev accepted : Response Json
accepted = record {
  status_code = 200;
  content = serialize_artifact requested;
  replayed = some false;
  etag = some 2;
}

delete_fresh-Requested_example :
    Requested libraries
      (some "\"1\"")
      (artifact ArtifactStatus.available 1)
      stocked
      accepted
      (delete_fresh libraries
        (context 0)
        7
        3
        (some "\"1\"")
        (artifact ArtifactStatus.available 1)
        started
        stocked_world).1
unfolding delete_fresh ◌>>=◌ request_deletion version_of strip record_audit record_outbox
    complete_idempotent_command
delete_fresh-Requested_example =
    delete_fresh-Requested libraries (context 0) 7 3 (some "\"1\"")
      (artifact ArtifactStatus.available 1) started stocked_world accepted refl

abbrev condemned : State (List String)
condemned = record {
  db = record database { artifacts = artifact ArtifactStatus.deleting 2 ∷ [] };
  remote = [];
  metrics = no_metrics;
}

reconcile_missing-Changes_example :
    Changes
      (artifact ArtifactStatus.deleting 2 ∷ [])
      (reconcile_missing 61 storage 100 (delete_artifacts 61 storage 100 60 condemned)).db.artifacts
reconcile_missing-Changes_example = reconcile_missing-Changes 61 60 100 storage condemned

-- Three artifacts, the newest of which is being deleted: the page holds the next one, and a cursor.
abbrev made : ℕ → ArtifactStatus → ArtifactModel
made id status = record (artifact status 1) { id = id; created_at = id }

abbrev shelf : World (List String)
shelf =
    let db = record database {
      artifacts =
          made 1 ArtifactStatus.available
          ∷ made 3 ArtifactStatus.deleting
          ∷ made 2 ArtifactStatus.quarantined
          ∷ [];
    } in
    record { durable = db; pending = db; remote = [] }

abbrev first_page : ArtifactPage
first_page = record {
  items = serialize_artifact (made 2 ArtifactStatus.quarantined) ∷ [];
  next_cursor = some (encode_artifact_cursor cursors (made 2 ArtifactStatus.quarantined));
}

list_artifacts-get_artifact_example : All (IsReadable 7 3 (context 0) shelf) first_page.items
unfolding list_artifacts artifact_page
list_artifacts-get_artifact_example =
    list_artifacts-get_artifact 7 3 (context 0) cursors 1 none shelf first_page
      (refl, (refl, (refl, tt))) refl
