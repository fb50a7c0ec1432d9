-- ===== src/Upload/Read.antt =====
-- `get_upload_session` and `list_upload_parts`. Reading a session that is past its time expires it.
use ai_auto_platform.Prelude.{ℕ, false, some, List, [], ◌∷◌, if◌then◌else◌}
use ai_auto_platform.Errors.{ok}
use ai_auto_platform.Db.Models.{UploadSessionModel, UploadPartModel, Value}
use ai_auto_platform.Artifact.Domain.{upload_status_value}
use ai_auto_platform.Exec.{Action, Context, pure, check, write, commit, ◌>>=◌, ◌>>◌}
use ai_auto_platform.Common.Reliability.{record_audit, record_outbox}
use ai_auto_platform.Upload.Rows.{is_due, expire, flushed, put_upload, parts_of}
use ai_auto_platform.Upload.Authorize.{visible_upload}

module _ {R : Type 0} (ctx : Context) where
  unfoldable pub expire_and_record : ℕ → ℕ → UploadSessionModel → Action R UploadSessionModel
  expire_and_record organization_id project_id upload = do
    let u = flushed ctx.db_now upload (expire upload)
    write (put_upload u)
    let detail = ("status", Value.text (upload_status_value u.status)) ∷ []
    record_audit ctx "upload_session.expire" "upload_session" u.id (some organization_id)
        (some project_id) detail
    record_outbox ctx.trace_id (some organization_id) "upload_session" u.id
        "UploadSessionExpired.v1" u.version detail
    commit
    pure u

  unfoldable pub get_upload_session : ℕ → ℕ → ℕ → Action R UploadSessionModel
  unfolding expire_and_record
  get_upload_session organization_id project_id upload_id = do
    (_, upload) ← check (visible_upload organization_id project_id upload_id ctx.actor_id false)
    if is_due upload ctx.now
        then expire_and_record organization_id project_id upload
        else pure upload

  unfoldable pub list_upload_parts : ℕ → ℕ → ℕ → Action R (List UploadPartModel)
  list_upload_parts organization_id project_id upload_id = do
    (_, upload) ← check (visible_upload organization_id project_id upload_id ctx.actor_id false)
    check (λ db. ok (parts_of upload.id db))
