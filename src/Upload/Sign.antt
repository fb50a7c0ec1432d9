-- ===== src/Upload/Sign.antt =====
-- `sign_upload_parts`: the first call starts the multipart upload in the storage.
use ai_auto_platform.Prelude.{ℕ, true, Option, some, List, [], ◌∷◌, String, if◌then◌else◌}
use ai_auto_platform.Errors.{upload_expired, upload_state_conflict}
use ai_auto_platform.Db.Models.{UploadSessionModel, Value}
use ai_auto_platform.Artifact.Domain.{UploadSessionStatus, upload_status_value, same_upload_status}
use ai_auto_platform.Artifact.Storage.{ObjectStoragePort}
use ai_auto_platform.Exec.{Action, Context, pure, raise, check, call, write, commit, ◌>>=◌, ◌>>◌}
use ai_auto_platform.Common.Reliability.{record_audit, record_outbox}
use ai_auto_platform.Upload.Rows.{
  find_upload, is_due, expire, flushed, put_upload, remote_upload_id, storage_required, available,
}
use ai_auto_platform.Upload.Payloads.{UploadPartSignRequest}
use ai_auto_platform.Upload.Authorize.{authorized_project}

pub record UploadPartSigned : Type 0 where
  pub part_number : ℕ
  pub url : String
  pub expires_in_seconds : ℕ

-- The commit of an expiry, and the error: in `sign`, `register` and `complete` alike.
unfoldable pub expire_and_refuse : {R A : Type 0} → Context → UploadSessionModel → Action R A
expire_and_refuse ctx upload = do
  write (put_upload (flushed ctx.db_now upload (expire upload)))
  commit
  raise upload_expired 409

module _ {R : Type 0} (port : ObjectStoragePort R) where
  -- `for part_number in payload.part_numbers`
  unfoldable pub sign_each :
      UploadSessionModel → String → ℕ → List ℕ → Action R (List UploadPartSigned)
  sign_each u remote_id seconds [] = pure []
  sign_each u remote_id seconds (n ∷ numbers) = do
    answer ← call (port.sign_upload_part u.object_key remote_id n seconds)
    presigned ← check (available answer)
    rest ← sign_each u remote_id seconds numbers
    pure (
        record {
          part_number = n;
          url = presigned.url;
          expires_in_seconds = presigned.expires_in_seconds;
        }
        ∷ rest)

  unfoldable pub sign_numbers :
      UploadSessionModel → UploadPartSignRequest → Action R (List UploadPartSigned)
  unfolding sign_each
  sign_numbers u p = do
    remote_id ← check (remote_upload_id u)
    signed ← sign_each u remote_id p.expires_in_seconds p.part_numbers
    commit
    pure signed

  -- The branch `if initialized`.
  unfoldable pub initialize_multipart :
      Context → ℕ → ℕ → UploadSessionModel → Action R UploadSessionModel
  initialize_multipart ctx organization_id project_id upload = do
    answer ← call (port.start_multipart upload.object_key upload.declared_content_type)
    remote_id ← check (available answer)
    let u = flushed ctx.db_now upload (record upload {
      storage_upload_id = some remote_id;
      status = UploadSessionStatus.uploading;
    })
    write (put_upload u)
    let detail = ("status", Value.text (upload_status_value u.status)) ∷ []
    record_audit ctx "upload_session.multipart.initialize" "upload_session" u.id
        (some organization_id) (some project_id) detail
    record_outbox ctx.trace_id (some organization_id) "upload_session" u.id
        "UploadSessionMultipartInitialized.v1" u.version detail
    commit
    pure u

  unfoldable pub sign_live :
      Context
      → ℕ
      → ℕ
      → UploadSessionModel
      → UploadPartSignRequest
      → Action R (List UploadPartSigned)
  unfolding initialize_multipart sign_numbers
  sign_live ctx organization_id project_id upload p =
      if same_upload_status upload.status UploadSessionStatus.pending_upload
      then (do u ← initialize_multipart ctx organization_id project_id upload; sign_numbers u p)
      else if same_upload_status upload.status UploadSessionStatus.uploading
      then sign_numbers upload p
      else raise upload_state_conflict 409

module _ {R : Type 0} (storage : Option (ObjectStoragePort R)) (ctx : Context) where
  unfoldable pub sign_upload_parts :
      ℕ → ℕ → ℕ → UploadPartSignRequest → Action R (List UploadPartSigned)
  unfolding expire_and_refuse sign_live
  sign_upload_parts organization_id project_id upload_id p = do
    check (authorized_project organization_id project_id ctx.actor_id true)
    upload ← check (find_upload organization_id project_id upload_id)
    if is_due upload ctx.now then expire_and_refuse ctx upload else do
      port ← check (storage_required storage)
      sign_live port ctx organization_id project_id upload p
