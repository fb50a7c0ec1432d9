-- ===== src/Upload/Complete.antt =====
-- `complete_upload_session`: the checks on the parts, the durable checkpoint COMPLETING, and then,
-- under the row's lock again, the verification of the object and the publication of the artifact.
-- `others` is what other requests commit while the lock is released at the checkpoint.
pub mod Integrity
use ai_auto_platform.Prelude.{
  ℕ, ◌&&◌, ◌||◌, not, Bool, true, false, Option, none, some, List, [], ◌∷◌, String, str_eq, leb,
  ◌==◌, if◌then◌else◌, is_some, find_by, strip, map, sum_by,
}
use ai_auto_platform.Errors.{
  Result, ok, err, unhandled, throw, throw_if, upload_state_conflict, part_list_mismatch,
  object_missing, storage_unavailable, size_mismatch, checksum_mismatch,
}
use ai_auto_platform.Db.Models.{Db, UploadSessionModel, UploadPartModel, ArtifactModel, Json, Value}
use ai_auto_platform.Artifact.Domain.{
  UploadSessionStatus, ArtifactStatus, IntegrityStatus, SecurityScanStatus, same_upload_status,
  artifact_status_value, integrity_status_value,
}
use ai_auto_platform.Artifact.Storage.{
  ObjectStoragePort, CompletedPart, ObjectStorageError, ObjectMetadata, Stored, stored,
  storage_error, is_not_found,
}
use ai_auto_platform.Artifact.Rows.{
  is_artifact_of, check_artifact_constraints, insert_artifact, serialize_artifact,
}
use ai_auto_platform.Artifact.Completion.{VerificationResult, verify_object}
use ai_auto_platform.Exec.{
  Action, Context, Response, pure, raise, check, call, write, commit, others_run, ◌>>=◌, ◌>>◌,
}
use ai_auto_platform.Common.Libraries.{Libraries}
use ai_auto_platform.Common.Reliability.{
  require_idempotency_key, record_audit, record_outbox, replayed_response,
}
use ai_auto_platform.Upload.Rows.{
  has_id, find_upload, is_due, flushed, put_upload, remote_upload_id, storage_required, parts_of,
}
use ai_auto_platform.Upload.Payloads.{UploadCompletePart, UploadCompleteRequest}
use ai_auto_platform.Upload.Authorize.{authorized_project}
use ai_auto_platform.Upload.Sign.{expire_and_refuse}

-- `submitted_parts`
abbrev pub submitted : List UploadCompletePart → List CompletedPart
submitted = map (λ p. record { part_number = p.part_number; etag = strip p.etag })

-- `submitted_parts == expected_parts`
unfoldable pub same_parts : List CompletedPart → List UploadPartModel → Bool
same_parts [] [] = true
same_parts (p ∷ ps) (q ∷ qs) =
    p.part_number == q.part_number && str_eq p.etag q.etag && same_parts ps qs
same_parts _ _ = false

abbrev pub total_size : List UploadPartModel → ℕ
total_size = sum_by (λ _. true) (λ p. p.size_bytes)

unfoldable pub check_parts : List CompletedPart → UploadSessionModel → Db → Result (Unit {0})
unfolding same_parts
check_parts parts u db =
    let registered = parts_of u.id db in
    throw_if (not (same_parts parts registered) || not (total_size registered == u.expected_size))
      part_list_mismatch 409

abbrev pub find_artifact : ℕ → Db → Result (Option ArtifactModel)
find_artifact upload_id db = ok (find_by (is_artifact_of upload_id) db.artifacts)

-- The second query of the session, `assert upload is not None`.
unfoldable pub reacquire : ℕ → Db → Result UploadSessionModel
reacquire upload_id db = elim (find_by (has_id upload_id) db.upload_sessions) [
  | none ↦ err unhandled
  | some u ↦ ok u
]

-- `upload.status is COMPLETED and existing is not None`
abbrev pub published : UploadSessionModel → Option ArtifactModel → Option ArtifactModel
published u existing =
    if same_upload_status u.status UploadSessionStatus.completed then existing else none

-- `raise DomainError("OBJECT_MISSING", …)` or `_storage_failure`
abbrev pub missing_or_failed : {A : Type 0} → ObjectStorageError → Result A
missing_or_failed e =
    if is_not_found e.code then throw object_missing 409 else throw storage_unavailable 503

-- After a failed `complete_multipart`: the object may be there all the same.
abbrev pub completion_result : ObjectStorageError → Stored ObjectMetadata → Db → Result (Unit {0})
completion_result e (stored m) db = ok tt
completion_result e (storage_error _) db = missing_or_failed e

abbrev pub verification_result : Stored VerificationResult → Db → Result VerificationResult
verification_result (stored v) db = ok v
verification_result (storage_error e) db = missing_or_failed e

abbrev pub size_matches : UploadSessionModel → VerificationResult → Bool
size_matches u v = v.metadata.size_bytes == u.expected_size

abbrev pub checksum_matches : UploadSessionModel → VerificationResult → Bool
checksum_matches u v = str_eq v.verified_sha256 u.expected_sha256

unfoldable pub integrity_of : UploadSessionModel → VerificationResult → IntegrityStatus
integrity_of u v =
    if size_matches u v && checksum_matches u v
    then IntegrityStatus.verified
    else IntegrityStatus.mismatch

abbrev pub status_of : IntegrityStatus → ArtifactStatus
status_of IntegrityStatus.verified = ArtifactStatus.available
status_of IntegrityStatus.mismatch = ArtifactStatus.quarantined

unfoldable pub new_artifact :
    Context → ℕ → ℕ → UploadSessionModel → VerificationResult → ArtifactModel
unfolding integrity_of
new_artifact ctx organization_id project_id u v = record {
  id = ctx.new_id;
  upload_session_id = u.id;
  organization_id = organization_id;
  project_id = project_id;
  created_by = ctx.actor_id;
  display_name = u.display_name;
  object_key = u.object_key;
  bucket_alias = "primary";
  size_bytes = v.metadata.size_bytes;
  expected_sha256 = u.expected_sha256;
  verified_sha256 = v.verified_sha256;
  declared_content_type = u.declared_content_type;
  detected_content_type = v.metadata.content_type;
  integrity_status = integrity_of u v;
  security_scan_status = SecurityScanStatus.not_required;
  status = status_of (integrity_of u v);
  deleted_at = none;
  cleanup_attempts = 0;
  cleanup_last_error = none;
  cleanup_next_attempt_at = none;
  version = 1;
  created_at = ctx.db_now;
  updated_at = ctx.db_now;
}

-- The assignments to the session, at the time `now` of the publication.
abbrev pub complete : ℕ → UploadSessionModel → UploadSessionModel
complete now u = record u {
  status = UploadSessionStatus.completed;
  completed_at = some now;
  reserved_bytes = 0;
}

abbrev pub verified_event : IntegrityStatus → String
verified_event IntegrityStatus.verified = "ArtifactVerified.v1"
verified_event IntegrityStatus.mismatch = "ArtifactQuarantined.v1"

abbrev pub artifact_response : ArtifactModel → Response Json
artifact_response a = record {
  status_code = 201;
  content = serialize_artifact a;
  replayed = some false;
  etag = some a.version;
}
