-- ===== src/Upload/Cancel.antt =====
-- `cancel_upload_session`
use ai_auto_platform.Prelude.{ℕ, true, Option, none, some, [], ◌∷◌, String, is_empty, if◌then◌else◌}
use ai_auto_platform.Db.Models.{UploadSessionModel, ProjectModel, Json, Value}
use ai_auto_platform.Artifact.Domain.{
  UploadSessionStatus, upload_status_value, require_upload_session_cancellable,
}
use ai_auto_platform.Artifact.Storage.{ObjectStoragePort}
use ai_auto_platform.Exec.{Action, Context, Response, pure, check, call, write, ◌>>=◌, ◌>>◌}
use ai_auto_platform.Common.Libraries.{Libraries}
use ai_auto_platform.Common.Reliability.{
  IdempotencyDecision, begin_idempotent_command, complete_idempotent_command, record_audit,
  record_outbox, replay_or,
}
use ai_auto_platform.Upload.Rows.{
  is_due, expire, flushed, put_upload, storage_required, available, serialize,
}
use ai_auto_platform.Upload.Create.{created_response}
use ai_auto_platform.Upload.Authorize.{visible_upload}

-- The assignments of a cancellation.
abbrev pub abort : UploadSessionModel → UploadSessionModel
abort u = record u { status = UploadSessionStatus.aborted; reserved_bytes = 0 }

module _ {R : Type 0} (storage : Option (ObjectStoragePort R)) (ctx : Context) where
  -- `if upload.storage_upload_id: …`
  unfoldable pub abort_remote : UploadSessionModel → Option String → Action R (Unit {0})
  abort_remote u none = pure tt
  abort_remote u (some remote_id) = if is_empty remote_id then pure tt else do
    port ← check (storage_required storage)
    answer ← call (port.abort_multipart u.object_key remote_id)
    check (available answer)

  -- The branch `if not expired`.
  unfoldable pub abort_upload : UploadSessionModel → Action R UploadSessionModel
  unfolding abort_remote
  abort_upload upload = do
    check (λ _. require_upload_session_cancellable upload.status)
    abort_remote upload upload.storage_upload_id
    pure (abort upload)

  -- From `await session.flush()` on, for the session as the handler has assigned it.
  unfoldable pub finish_cancel :
      ProjectModel
      → UploadSessionModel
      → IdempotencyDecision
      → UploadSessionModel
      → Action R (Response Json)
  finish_cancel project upload decision assigned = do
    let u = flushed ctx.db_now upload assigned
    write (put_upload u)
    let detail = ("status", Value.text (upload_status_value u.status)) ∷ []
    let event =
        if is_due upload ctx.now then "UploadSessionExpired.v1" else "UploadSessionCancelled.v1"
    record_audit ctx "upload_session.cancel" "upload_session" u.id (some project.organization_id)
        (some project.id) detail
    record_outbox ctx.trace_id (some project.organization_id) "upload_session" u.id event u.version
        detail
    complete_idempotent_command decision 200 (serialize u)
    pure (created_response u 200)

  unfoldable pub cancel_visible :
      ProjectModel → UploadSessionModel → IdempotencyDecision → Action R (Response Json)
  unfolding abort_upload finish_cancel
  cancel_visible project upload decision = do
    assigned ← if is_due upload ctx.now then pure (expire upload) else abort_upload upload
    finish_cancel project upload decision assigned

  unfoldable pub cancel_upload_session :
      Libraries → ℕ → ℕ → ℕ → Option String → Action R (Response Json)
  unfolding cancel_visible
  cancel_upload_session lib organization_id project_id upload_id idempotency_key = do
    (project, upload) ←
        check (visible_upload organization_id project_id upload_id ctx.actor_id true)
    decision ←
        begin_idempotent_command lib ctx
          (record { template = "upload-sessions.{}.cancel"; id = upload_id }) idempotency_key
          (("uploadSessionId", Value.uuid upload_id) ∷ [])
    replay_or decision.replay (cancel_visible project upload decision)
