-- ===== src/Tests/Samples.antt =====
-- A company with an owner and a member, a project, two upload sessions and a storage that is always
-- there and holds three bytes under each key.
use ai_auto_platform.Prelude.{ℕ, none, some, List, [], ◌∷◌, String}
use ai_auto_platform.Db.Models.{
  Db, OrganizationModel, OrganizationMemberModel, ProjectModel, UploadSessionModel,
}
use ai_auto_platform.Organization.Domain.{OrganizationRole}
use ai_auto_platform.Project.Domain.{ProjectStatus}
use ai_auto_platform.Artifact.Domain.{UploadSessionStatus}
use ai_auto_platform.Artifact.Storage.{ObjectStoragePort, stored, ObjectMetadata}
use ai_auto_platform.Exec.{World, Context}
use ai_auto_platform.Common.Libraries.{Libraries, pos}

abbrev pub company : OrganizationModel
company = record { id = 7; name = "Company"; created_at = 0 }

abbrev pub membership : ℕ → OrganizationRole → OrganizationMemberModel
membership user role = record { organization_id = 7; user_id = user; role = role; created_at = 0 }

abbrev pub project : ProjectModel
project = record {
  id = 3;
  organization_id = 7;
  code = "P";
  name = "Project";
  description = none;
  status = ProjectStatus.active;
  version = 1;
  archived_at = none;
  deleted_at = none;
  created_at = 0;
  updated_at = 0;
}

abbrev pub upload : ℕ → UploadSessionStatus → ℕ → UploadSessionModel
upload id status reserved = record {
  id = id;
  organization_id = 7;
  project_id = 3;
  created_by = 1;
  display_name = "file";
  object_key = "v1/o/0123456789abcdef0123456789abcdef";
  expected_size = 3;
  expected_sha256 = "digest";
  declared_content_type = "text/plain";
  status = status;
  storage_upload_id = some "remote";
  reserved_bytes = reserved;
  expires_at = 100;
  completed_at = none;
  cleanup_attempts = 0;
  cleanup_last_error = none;
  cleanup_next_attempt_at = none;
  version = 1;
  created_at = 0;
  updated_at = 0;
}

abbrev pub sessions : List UploadSessionModel
sessions = upload 11 UploadSessionStatus.uploading 3 ∷ upload 12 UploadSessionStatus.aborted 0 ∷ []

abbrev pub database : Db
database = record {
  users = [];
  organizations = company ∷ [];
  organization_members =
      membership 1 OrganizationRole.owner ∷ membership 2 OrganizationRole.member ∷ [];
  organization_invites = [];
  projects = project ∷ [];
  project_members = [];
  upload_sessions = sessions;
  upload_parts =
      record {
        upload_session_id = 11;
        part_number = 1;
        organization_id = 7;
        etag = "tag";
        size_bytes = 3;
        created_at = 0;
        updated_at = 0;
      }
      ∷ [];
  artifacts = [];
  audit_events = [];
  idempotency_records = [];
  outbox_events = [];
}

abbrev pub metadata : ObjectMetadata
metadata = record { size_bytes = 3; etag = none; content_type = none; checksum_crc64 = none }

-- The state is the list of the keys that have been deleted.
abbrev pub storage : ObjectStoragePort (List String)
storage = record {
  start_multipart = λ key type r. (stored "remote", r);
  sign_upload_part = λ key remote number seconds r.
      (stored (record { url = "url"; expires_in_seconds = seconds }), r);
  complete_multipart = λ key remote parts r. (stored tt, r);
  abort_multipart = λ key remote r. (stored tt, r);
  head = λ key r. (stored metadata, r);
  read_chunks = λ key r. (stored ((1 ∷ 2 ∷ []) ∷ [] ∷ (3 ∷ []) ∷ []), r);
  sign_download =
      λ key seconds name r. (stored (record { url = "url"; expires_in_seconds = seconds }), r);
  delete = λ key r. (stored tt, key ∷ r);
  list_objects = λ prefix r. (
    (
      record { object_key = "v1/o/ffffffffffffffffffffffffffffffff"; last_modified = 0 }
          ∷ record { object_key = "v1/o/0123456789abcdef0123456789abcdef"; last_modified = 0 }
          ∷ [],
      none,
    ),
    r,
  );
}

abbrev pub libraries : Libraries
libraries = record {
  json_sha256 = λ payload. "payload";
  bytes_sha256 = λ bytes. "digest";
  text_sha256 = λ text. "text";
  casefold = λ text. text;
  lower = λ text. text;
  sql_lower = λ text. text;
  url_uuid5 = λ name. 99;
  parse_int = λ text. some (pos 1);
  path_name = λ path. path;
  quote = λ text. text;
  show_int = λ number. "1";
}

abbrev pub context : ℕ → Context
context id = record {
  actor_id = 1;
  actor_email = "owner@company";
  actor_name = "Owner";
  trace_id = none;
  now = 50;
  db_now = 51;
  new_id = id;
}

abbrev pub world : World (List String)
world = record { durable = database; pending = database; remote = [] }

abbrev pub key : String
key = "0123456789abcdef"
