-- ===== src/Artifact/Domain.antt =====
-- The states of upload sessions and artifacts: modules/artifact/domain.py.
use ai_auto_platform.Prelude.{ℕ, ◌≡◌, Bool, true, false, not, String, ◌==◌, arith}
use ai_auto_platform.Errors.{Result, ok, throw, upload_state_conflict}

pub data UploadSessionStatus : Type 0 where
  pending_upload uploading completing completed aborted expired failed : UploadSessionStatus

pub data ArtifactStatus : Type 0 where
  verifying available quarantined failed deleting deleted : ArtifactStatus

pub data IntegrityStatus : Type 0 where
  verified mismatch : IntegrityStatus

pub data SecurityScanStatus : Type 0 where
  not_required pending clean blocked : SecurityScanStatus

-- `status.value`
abbrev pub upload_status_value : UploadSessionStatus → String
upload_status_value UploadSessionStatus.pending_upload = "PENDING_UPLOAD"
upload_status_value UploadSessionStatus.uploading = "UPLOADING"
upload_status_value UploadSessionStatus.completing = "COMPLETING"
upload_status_value UploadSessionStatus.completed = "COMPLETED"
upload_status_value UploadSessionStatus.aborted = "ABORTED"
upload_status_value UploadSessionStatus.expired = "EXPIRED"
upload_status_value UploadSessionStatus.failed = "FAILED"

abbrev pub artifact_status_value : ArtifactStatus → String
artifact_status_value ArtifactStatus.verifying = "VERIFYING"
artifact_status_value ArtifactStatus.available = "AVAILABLE"
artifact_status_value ArtifactStatus.quarantined = "QUARANTINED"
artifact_status_value ArtifactStatus.failed = "FAILED"
artifact_status_value ArtifactStatus.deleting = "DELETING"
artifact_status_value ArtifactStatus.deleted = "DELETED"

abbrev pub integrity_status_value : IntegrityStatus → String
integrity_status_value IntegrityStatus.verified = "VERIFIED"
integrity_status_value IntegrityStatus.mismatch = "MISMATCH"

abbrev pub scan_status_value : SecurityScanStatus → String
scan_status_value SecurityScanStatus.not_required = "NOT_REQUIRED"
scan_status_value SecurityScanStatus.pending = "PENDING"
scan_status_value SecurityScanStatus.clean = "CLEAN"
scan_status_value SecurityScanStatus.blocked = "BLOCKED"

-- `is_terminal`
abbrev pub is_terminal : UploadSessionStatus → Bool
is_terminal UploadSessionStatus.completed = true
is_terminal UploadSessionStatus.aborted = true
is_terminal UploadSessionStatus.expired = true
is_terminal UploadSessionStatus.failed = true
is_terminal _ = false

-- `status in ACTIVE_UPLOAD_STATUSES`
abbrev pub is_active : UploadSessionStatus → Bool
is_active UploadSessionStatus.pending_upload = true
is_active UploadSessionStatus.uploading = true
is_active UploadSessionStatus.completing = true
is_active _ = false

-- `==` of the members of the enumerations
abbrev pub upload_status_number : UploadSessionStatus → ℕ
upload_status_number UploadSessionStatus.pending_upload = 0
upload_status_number UploadSessionStatus.uploading = 1
upload_status_number UploadSessionStatus.completing = 2
upload_status_number UploadSessionStatus.completed = 3
upload_status_number UploadSessionStatus.aborted = 4
upload_status_number UploadSessionStatus.expired = 5
upload_status_number UploadSessionStatus.failed = 6

abbrev pub artifact_status_number : ArtifactStatus → ℕ
artifact_status_number ArtifactStatus.verifying = 0
artifact_status_number ArtifactStatus.available = 1
artifact_status_number ArtifactStatus.quarantined = 2
artifact_status_number ArtifactStatus.failed = 3
artifact_status_number ArtifactStatus.deleting = 4
artifact_status_number ArtifactStatus.deleted = 5

abbrev pub same_upload_status : UploadSessionStatus → UploadSessionStatus → Bool
same_upload_status s t = upload_status_number s == upload_status_number t

abbrev pub same_artifact_status : ArtifactStatus → ArtifactStatus → Bool
same_artifact_status s t = artifact_status_number s == artifact_status_number t

unfoldable pub require_upload_session_cancellable : UploadSessionStatus → Result (Unit {0})
require_upload_session_cancellable UploadSessionStatus.pending_upload = ok tt
require_upload_session_cancellable UploadSessionStatus.uploading = ok tt
require_upload_session_cancellable UploadSessionStatus.aborted = ok tt
require_upload_session_cancellable _ = throw upload_state_conflict 409

pub is_terminal-eq-not-is_active : (s : UploadSessionStatus) → is_terminal s ≡ not (is_active s)
is_terminal-eq-not-is_active s = ground arith
