-- ===== src/Upload/Parts.antt =====
-- `register_upload_part` of api/upload_sessions.py
pub mod Repeats
use ai_auto_platform.Prelude.{
  ℕ, ◌&&◌, ◌||◌, not, Bool, true, false, Option, none, some, List, [], ◌∷◌, ◌++◌, String, str_eq,
  leb, ◌==◌, if◌then◌else◌, find_by,
}
use ai_auto_platform.Errors.{
  Result, ok, err, unhandled, throw_if, upload_state_conflict, upload_part_conflict,
  invalid_part_number,
}
use ai_auto_platform.Db.Models.{Db, UploadSessionModel, UploadPartModel, Value}
use ai_auto_platform.Artifact.Domain.{UploadSessionStatus, same_upload_status}
use ai_auto_platform.Exec.{Action, Context, pure, raise, check, write, commit, ◌>>=◌, ◌>>◌}
use ai_auto_platform.Common.Reliability.{record_audit, record_outbox}
use ai_auto_platform.Upload.Rows.{is_due}
use ai_auto_platform.Upload.Payloads.{UploadPartRegister, is_part_number}
use ai_auto_platform.Upload.Authorize.{visible_upload}
use ai_auto_platform.Upload.Sign.{expire_and_refuse}

-- The primary key of `upload_parts`.
abbrev pub is_part : ℕ → ℕ → UploadPartModel → Bool
is_part upload_id part_number p = p.upload_session_id == upload_id && p.part_number == part_number

abbrev pub has_content : UploadPartRegister → UploadPartModel → Bool
has_content p part = str_eq part.etag p.etag && part.size_bytes == p.size_bytes

unfoldable pub new_part : Context → ℕ → ℕ → ℕ → UploadPartRegister → UploadPartModel
new_part ctx organization_id upload_id part_number p = record {
  upload_session_id = upload_id;
  part_number = part_number;
  organization_id = organization_id;
  etag = p.etag;
  size_bytes = p.size_bytes;
  created_at = ctx.db_now;
  updated_at = ctx.db_now;
}

abbrev pub add_part : UploadPartModel → Db → Db
add_part part db = record db { upload_parts = db.upload_parts ++ part ∷ [] }

module _ {R : Type 0} (ctx : Context) where
  unfoldable pub register_new :
      ℕ → ℕ → UploadSessionModel → ℕ → UploadPartRegister → Action R UploadPartModel
  register_new organization_id project_id upload part_number p = do
    let part = new_part ctx organization_id upload.id part_number p
    write (add_part part)
    let detail =
        ("partNumber", Value.number part_number) ∷ ("sizeBytes", Value.number p.size_bytes) ∷ []
    record_audit ctx "upload_part.register" "upload_session" upload.id (some organization_id)
        (some project_id) detail
    record_outbox ctx.trace_id (some organization_id) "upload_session" upload.id
        "UploadPartRegistered.v1" upload.version detail
    commit
    pure part

  unfoldable pub register_or_compare :
      ℕ
      → ℕ
      → UploadSessionModel
      → ℕ
      → UploadPartRegister
      → Option UploadPartModel
      → Action R UploadPartModel
  unfolding register_new
  register_or_compare organization_id project_id upload part_number p (some part) =
      if has_content p part then pure part else raise upload_part_conflict 409
  register_or_compare organization_id project_id upload part_number p none =
      register_new organization_id project_id upload part_number p

  unfoldable pub register_upload_part :
      ℕ → ℕ → ℕ → ℕ → UploadPartRegister → Action R UploadPartModel
  unfolding expire_and_refuse register_or_compare
  register_upload_part organization_id project_id upload_id part_number p = do
    check (λ _. throw_if (not (is_part_number part_number)) invalid_part_number 422)
    (_, upload) ← check (visible_upload organization_id project_id upload_id ctx.actor_id true)
    if is_due upload ctx.now then expire_and_refuse ctx upload else do
      check λ _.
          throw_if (not (same_upload_status upload.status UploadSessionStatus.uploading))
            upload_state_conflict 409
      part ← check (λ db. ok (find_by (is_part upload.id part_number) db.upload_parts))
      register_or_compare organization_id project_id upload part_number p part
