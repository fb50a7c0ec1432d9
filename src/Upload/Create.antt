-- ===== src/Upload/Create.antt =====
-- `create_upload_session`: a new session within the organization's limits.
pub mod Again
use ai_auto_platform.Prelude.{
  ℕ, ◌+◌, Bool, true, false, ◌&&◌, ◌||◌, not, Option, none, some, [], ◌∷◌, ◌++◌, String, str_eq,
  leb, ltb, ◌==◌, if◌then◌else◌, exists_by,
}
use ai_auto_platform.Errors.{
  Result, ok, err, unhandled, throw_if, upload_too_large, upload_concurrency_limit, quota_exceeded,
}
use ai_auto_platform.Db.Models.{Db, UploadSessionModel, Json, Value}
use ai_auto_platform.Artifact.Domain.{UploadSessionStatus, upload_status_value}
use ai_auto_platform.Exec.{Action, Context, Response, pure, check, write, ◌>>=◌, ◌>>◌}
use ai_auto_platform.Common.Libraries.{Libraries}
use ai_auto_platform.Common.Settings.{Settings, seconds}
use ai_auto_platform.Common.Reliability.{
  IdempotencyDecision, RouteKey, begin_idempotent_command, complete_idempotent_command,
  record_audit, record_outbox, replay_or,
}
use ai_auto_platform.Upload.Rows.{
  is_object_key, object_key_of, has_id, active_count, active_bytes, serialize,
}
use ai_auto_platform.Upload.Payloads.{UploadSessionCreate}
use ai_auto_platform.Upload.Authorize.{authorized_project, lock_organization}

-- `payload.model_dump(mode="json")`
abbrev pub create_dump : UploadSessionCreate → Json
create_dump p =
    ("display_name", Value.text p.display_name)
    ∷ ("size_bytes", Value.number p.size_bytes)
    ∷ ("sha256", Value.text p.sha256)
    ∷ ("content_type", Value.text p.content_type)
    ∷ []

-- The two limits of the organization, after `_active_quota`.
unfoldable pub check_quota : Settings → ℕ → UploadSessionCreate → Db → Result (Unit {0})
check_quota cfg organization_id p db =
    if leb cfg.upload_max_active_per_organization (active_count organization_id db.upload_sessions)
    then throw_if true upload_concurrency_limit 429
    else throw_if
        (ltb cfg.upload_max_reserved_bytes_per_organization
          (active_bytes organization_id db.upload_sessions + p.size_bytes))
        quota_exceeded 409

unfoldable pub new_upload :
    Settings → Context → ℕ → ℕ → UploadSessionCreate → String → UploadSessionModel
new_upload cfg ctx organization_id project_id p object_key = record {
  id = ctx.new_id;
  organization_id = organization_id;
  project_id = project_id;
  created_by = ctx.actor_id;
  display_name = p.display_name;
  object_key = object_key;
  expected_size = p.size_bytes;
  expected_sha256 = p.sha256;
  declared_content_type = p.content_type;
  status = UploadSessionStatus.pending_upload;
  storage_upload_id = none;
  reserved_bytes = p.size_bytes;
  expires_at = ctx.now + seconds cfg.upload_session_ttl_seconds;
  completed_at = none;
  cleanup_attempts = 0;
  cleanup_last_error = none;
  cleanup_next_attempt_at = none;
  version = 1;
  created_at = ctx.db_now;
  updated_at = ctx.db_now;
}

-- The flush of a new row: the table's keys are unique, and its sizes in range (db/models.py).
-- The constraint on the digest is what `validate_sha256` has checked.
unfoldable pub check_constraints : UploadSessionModel → Db → Result (Unit {0})
check_constraints u db =
    if exists_by (has_id u.id) db.upload_sessions
      || exists_by (λ v. str_eq v.object_key u.object_key) db.upload_sessions
      || not (leb 1 u.expected_size && leb u.expected_size 21_474_836_480)
    then err unhandled
    else ok tt

abbrev pub insert_upload : UploadSessionModel → Db → Db
insert_upload u db = record db { upload_sessions = db.upload_sessions ++ u ∷ [] }

abbrev pub assert_object_key : String → Db → Result (Unit {0})
assert_object_key key db = if is_object_key key then ok tt else err unhandled

abbrev pub created_response : UploadSessionModel → ℕ → Response Json
created_response u status = record {
  status_code = status;
  content = serialize u;
  replayed = some false;
  etag = some u.version;
}

module _ {R : Type 0} (cfg : Settings) (ctx : Context) where
  -- The part behind `if decision.is_replay`; `token_hex` is `secrets.token_hex(16)`.
  unfoldable pub reserve_upload :
      String → ℕ → ℕ → UploadSessionCreate → IdempotencyDecision → Action R (Response Json)
  reserve_upload token_hex organization_id project_id p decision = do
    check (lock_organization organization_id)
    check (check_quota cfg organization_id p)
    let object_key = object_key_of token_hex
    check (assert_object_key object_key)
    let u = new_upload cfg ctx organization_id project_id p object_key
    check (check_constraints u)
    write (insert_upload u)
    let audit_detail =
        ("sizeBytes", Value.number p.size_bytes)
        ∷ ("contentType", Value.text p.content_type)
        ∷ ("status", Value.text (upload_status_value u.status))
        ∷ []
    record_audit ctx "upload_session.create" "upload_session" u.id (some organization_id)
        (some project_id) audit_detail
    record_outbox ctx.trace_id (some organization_id) "upload_session" u.id
        "UploadSessionCreated.v1" u.version audit_detail
    complete_idempotent_command decision 201 (serialize u)
    pure (created_response u 201)

  unfoldable pub create_upload_session :
      Libraries → String → ℕ → ℕ → UploadSessionCreate → Option String → Action R (Response Json)
  unfolding reserve_upload
  create_upload_session lib token_hex organization_id project_id p idempotency_key = do
    check (authorized_project organization_id project_id ctx.actor_id true)
    check (λ _. throw_if (ltb cfg.upload_max_file_bytes p.size_bytes) upload_too_large 413)
    decision ←
        begin_idempotent_command lib ctx
          (record { template = "projects.{}.upload-sessions.create"; id = project_id })
          idempotency_key (create_dump p)
    replay_or decision.replay (reserve_upload token_hex organization_id project_id p decision)
