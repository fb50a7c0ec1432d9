-- ===== src/Upload/Publish.antt =====
-- The handler's steps: `complete_upload_session` of api/upload_sessions.py.
use ai_auto_platform.Prelude.{
  ℕ, ◌||◌, not, true, Option, none, some, List, [], ◌∷◌, String, if◌then◌else◌,
}
use ai_auto_platform.Errors.{throw_if, upload_state_conflict, size_mismatch, checksum_mismatch}
use ai_auto_platform.Db.Models.{Db, UploadSessionModel, ArtifactModel, Json, Value}
use ai_auto_platform.Artifact.Domain.{
  UploadSessionStatus, same_upload_status, artifact_status_value, integrity_status_value,
}
use ai_auto_platform.Artifact.Storage.{
  ObjectStoragePort, CompletedPart, Stored, stored, storage_error,
}
use ai_auto_platform.Artifact.Rows.{check_artifact_constraints, insert_artifact, serialize_artifact}
use ai_auto_platform.Artifact.Completion.{VerificationResult, verify_object}
use ai_auto_platform.Exec.{
  Action, Context, Response, pure, raise, check, call, write, commit, others_run, ◌>>=◌, ◌>>◌,
}
use ai_auto_platform.Common.Libraries.{Libraries}
use ai_auto_platform.Common.Reliability.{
  require_idempotency_key, record_audit, record_outbox, replayed_response,
}
use ai_auto_platform.Upload.Rows.{
  find_upload, is_due, flushed, put_upload, remote_upload_id, storage_required,
}
use ai_auto_platform.Upload.Payloads.{UploadCompleteRequest}
use ai_auto_platform.Upload.Authorize.{authorized_project}
use ai_auto_platform.Upload.Sign.{expire_and_refuse}
use ai_auto_platform.Upload.Complete.{
  submitted, check_parts, find_artifact, reacquire, published, completion_result,
  verification_result, size_matches, checksum_matches, new_artifact, complete, verified_event,
  artifact_response,
}

-- The three ends of a publication that has been committed.
unfoldable pub answer :
    {R : Type 0}
    → UploadSessionModel
    → VerificationResult
    → ArtifactModel
    → Action R (Response Json)
answer u v a =
    if not (size_matches u v)
    then raise size_mismatch 409
    else if not (checksum_matches u v)
    then raise checksum_mismatch 409
    else pure (artifact_response a)

module _ {R : Type 0} where
  -- `except ObjectStorageError as complete_error: …`
  unfoldable pub confirm_completion :
      ObjectStoragePort R → String → Stored (Unit {0}) → Action R (Unit {0})
  confirm_completion port key (stored _) = pure tt
  confirm_completion port key (storage_error e) = do
    found ← call (port.head key)
    check (completion_result e found)

module _ {R : Type 0} (ctx : Context) where
  -- From `artifact = ArtifactModel(…)` on; `finished_at` is the second `datetime.now(UTC)`.
  unfoldable pub publish :
      ℕ → ℕ → ℕ → UploadSessionModel → VerificationResult → Action R (Response Json)
  unfolding answer
  publish finished_at organization_id project_id u v = do
    let a = new_artifact ctx organization_id project_id u v
    check (check_artifact_constraints a)
    write (insert_artifact a)
    write (put_upload (flushed ctx.db_now u (complete finished_at u)))
    let detail =
        ("status", Value.text (artifact_status_value a.status))
        ∷ ("integrityStatus", Value.text (integrity_status_value a.integrity_status))
        ∷ ("sizeBytes", Value.number a.size_bytes)
        ∷ []
    record_audit ctx "upload_session.complete" "artifact" a.id (some organization_id)
        (some project_id) detail
    record_outbox ctx.trace_id (some organization_id) "artifact" a.id
        (verified_event a.integrity_status) a.version detail
    commit
    answer u v a

  unfoldable pub verify_and_publish :
      Libraries
      → Option (ObjectStoragePort R)
      → ℕ
      → ℕ
      → ℕ
      → UploadSessionModel
      → List CompletedPart
      → Option ArtifactModel
      → Action R (Response Json)
  unfolding confirm_completion publish
  verify_and_publish lib storage finished_at organization_id project_id u parts (some a) =
      pure (replayed_response 200 (serialize_artifact a))
  verify_and_publish lib storage finished_at organization_id project_id u parts none = do
    port ← check (storage_required storage)
    done ← call (port.complete_multipart u.object_key u.storage_upload_id parts)
    confirm_completion port u.object_key done
    answered ← verify_object lib port u.object_key
    v ← check (verification_result answered)
    publish finished_at organization_id project_id u v

  -- `if upload.status is UPLOADING: …`; the lock is released only here.
  unfoldable pub checkpoint : (Db → Db) → UploadSessionModel → Action R (Unit {0})
  checkpoint others u =
      if same_upload_status u.status UploadSessionStatus.uploading
      then (do
        write (
            put_upload
              (flushed ctx.db_now u (record u { status = UploadSessionStatus.completing })))
        commit
        others_run others)
      else pure tt

module _ {R : Type 0} (lib : Libraries) (storage : Option (ObjectStoragePort R)) (others : Db → Db)
    (ctx : Context) (finished_at : ℕ) where
  -- Behind the checks of the session's state.
  unfoldable pub complete_checked :
      ℕ → ℕ → UploadSessionModel → List CompletedPart → Action R (Response Json)
  unfolding checkpoint verify_and_publish
  complete_checked organization_id project_id upload parts = do
    check (remote_upload_id upload)
    check (check_parts parts upload)
    checkpoint ctx others upload
    u ← check (reacquire upload.id)
    existing ← check (find_artifact u.id)
    verify_and_publish ctx lib storage finished_at organization_id project_id u parts
        (published u existing)

  unfoldable pub complete_found :
      ℕ
      → ℕ
      → UploadSessionModel
      → List CompletedPart
      → Option ArtifactModel
      → Action R (Response Json)
  unfolding expire_and_refuse complete_checked
  complete_found organization_id project_id upload parts (some a) =
      pure (replayed_response 200 (serialize_artifact a))
  complete_found organization_id project_id upload parts none =
      if is_due upload ctx.now then expire_and_refuse ctx upload else (do
        check λ _.
            throw_if
              (not (
                same_upload_status upload.status UploadSessionStatus.uploading
                || same_upload_status upload.status UploadSessionStatus.completing))
              upload_state_conflict 409
        complete_checked organization_id project_id upload parts)

  unfoldable pub complete_upload_session :
      ℕ → ℕ → ℕ → UploadCompleteRequest → Option String → Action R (Response Json)
  unfolding complete_found
  complete_upload_session organization_id project_id upload_id p idempotency_key = do
    check (λ _. require_idempotency_key idempotency_key)
    check (authorized_project organization_id project_id ctx.actor_id true)
    upload ← check (find_upload organization_id project_id upload_id)
    existing ← check (find_artifact upload.id)
    complete_found organization_id project_id upload (submitted p.parts) (published upload existing)
