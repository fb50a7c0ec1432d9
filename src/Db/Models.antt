-- ===== src/Db/Models.antt =====
-- db/models.py: a record for each table's rows, and the database as the list of its tables.
-- A UUID and a point in time (microseconds) are numbers. `created_at` and `updated_at` are the
-- columns of `TimestampMixin`. A JSON object is the list of its fields.
use ai_auto_platform.Prelude.{ℕ, Option, none, some, List, String}
use ai_auto_platform.Artifact.Domain.{
  UploadSessionStatus, ArtifactStatus, IntegrityStatus, SecurityScanStatus,
}
use ai_auto_platform.Organization.Domain.{OrganizationRole}
use ai_auto_platform.Project.Domain.{ProjectStatus, ProjectRole}

pub record UserModel : Type 0 where
  pub id : ℕ
  pub external_issuer : Option String
  pub external_subject : Option String
  pub email : String
  pub display_name : String

pub record OrganizationModel : Type 0 where
  pub id : ℕ
  pub name : String
  pub created_at : ℕ

pub record OrganizationMemberModel : Type 0 where
  pub organization_id : ℕ
  pub user_id : ℕ
  pub role : OrganizationRole
  pub created_at : ℕ

pub record OrganizationInviteModel : Type 0 where
  pub id : ℕ
  pub organization_id : ℕ
  pub email : String
  pub role : OrganizationRole
  pub token_hash : String
  pub invited_by : ℕ
  pub expires_at : ℕ
  pub accepted_at : Option ℕ
  pub revoked_at : Option ℕ
  pub created_at : ℕ

pub record ProjectModel : Type 0 where
  pub id : ℕ
  pub organization_id : ℕ
  pub code : String
  pub name : String
  pub description : Option String
  pub status : ProjectStatus
  pub version : ℕ
  pub archived_at : Option ℕ
  pub deleted_at : Option ℕ
  pub created_at : ℕ
  pub updated_at : ℕ

pub record ProjectMemberModel : Type 0 where
  pub project_id : ℕ
  pub user_id : ℕ
  pub organization_id : ℕ
  pub role : ProjectRole
  pub created_at : ℕ

pub record UploadSessionModel : Type 0 where
  pub id : ℕ
  pub organization_id : ℕ
  pub project_id : ℕ
  pub created_by : ℕ
  pub display_name : String
  pub object_key : String
  pub expected_size : ℕ
  pub expected_sha256 : String
  pub declared_content_type : String
  pub status : UploadSessionStatus
  pub storage_upload_id : Option String
  pub reserved_bytes : ℕ
  pub expires_at : ℕ
  pub completed_at : Option ℕ
  pub cleanup_attempts : ℕ
  pub cleanup_last_error : Option String
  pub cleanup_next_attempt_at : Option ℕ
  pub version : ℕ
  pub created_at : ℕ
  pub updated_at : ℕ

pub record UploadPartModel : Type 0 where
  pub upload_session_id : ℕ
  pub part_number : ℕ
  pub organization_id : ℕ
  pub etag : String
  pub size_bytes : ℕ
  pub created_at : ℕ
  pub updated_at : ℕ

pub record ArtifactModel : Type 0 where
  pub id : ℕ
  pub upload_session_id : ℕ
  pub organization_id : ℕ
  pub project_id : ℕ
  pub created_by : ℕ
  pub display_name : String
  pub object_key : String
  pub bucket_alias : String
  pub size_bytes : ℕ
  pub expected_sha256 : String
  pub verified_sha256 : String
  pub declared_content_type : String
  pub detected_content_type : Option String
  pub integrity_status : IntegrityStatus
  pub security_scan_status : SecurityScanStatus
  pub status : ArtifactStatus
  pub deleted_at : Option ℕ
  pub cleanup_attempts : ℕ
  pub cleanup_last_error : Option String
  pub cleanup_next_attempt_at : Option ℕ
  pub version : ℕ
  pub created_at : ℕ
  pub updated_at : ℕ

-- A value of a JSON object that the program writes.
pub data Value : Type 0 where
  text : String → Value
  number : ℕ → Value
  uuid : ℕ → Value
  null : Value

abbrev pub optional_time : Option ℕ → Value
optional_time none = Value.null
optional_time (some t) = Value.number t

abbrev pub optional_text : Option String → Value
optional_text none = Value.null
optional_text (some s) = Value.text s

abbrev pub Json : Type 0
Json = List (String × Value)

-- The columns that the program writes; `id` and `occurred_at` are the database's defaults.
pub record AuditEventModel : Type 0 where
  pub organization_id : Option ℕ
  pub project_id : Option ℕ
  pub actor_type : String
  pub actor_id : ℕ
  pub action : String
  pub resource_type : String
  pub resource_id : ℕ
  pub result : String
  pub trace_id : Option String
  pub detail : Json

pub data IdempotencyState : Type 0 where
  processing completed : IdempotencyState

-- `{"schemaVersion", "aggregateVersion", "traceId", "data"}`
pub record OutboxPayload : Type 0 where
  pub schema_version : ℕ
  pub aggregate_version : ℕ
  pub trace_id : Option String
  pub content : Json

pub record OutboxEventModel : Type 0 where
  pub organization_id : Option ℕ
  pub aggregate_type : String
  pub aggregate_id : ℕ
  pub event_type : String
  pub payload : OutboxPayload

pub record IdempotencyRecordModel : Type 0 where
  pub actor_id : ℕ
  pub route_template : String
  pub route_id : ℕ
  pub idempotency_key : String
  pub request_hash : String
  pub state : IdempotencyState
  pub response_status : Option ℕ
  pub response_body : Option Json
  pub expires_at : ℕ

pub record Db : Type 0 where
  pub users : List UserModel
  pub organizations : List OrganizationModel
  pub organization_members : List OrganizationMemberModel
  pub organization_invites : List OrganizationInviteModel
  pub projects : List ProjectModel
  pub project_members : List ProjectMemberModel
  pub upload_sessions : List UploadSessionModel
  pub upload_parts : List UploadPartModel
  pub artifacts : List ArtifactModel
  pub audit_events : List AuditEventModel
  pub idempotency_records : List IdempotencyRecordModel
  pub outbox_events : List OutboxEventModel
