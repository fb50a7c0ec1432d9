-- ===== src/ArtifactRoutes/Download.antt =====
-- `get_artifact` and `create_download_url`
use Prim.Native.String.{◌++◌}
use ai_auto_platform.Prelude.{ℕ, false, not, Option, none, some, String}
use ai_auto_platform.Errors.{throw_if, artifact_not_found, artifact_not_available}
use ai_auto_platform.Db.Models.{Json}
use ai_auto_platform.Artifact.Domain.{ArtifactStatus, same_artifact_status}
use ai_auto_platform.Artifact.Storage.{ObjectStoragePort}
use ai_auto_platform.Artifact.Rows.{serialize_artifact}
use ai_auto_platform.Exec.{Action, Context, Response, pure, check, call, ◌>>=◌, ◌>>◌}
use ai_auto_platform.Common.Libraries.{Libraries}
use ai_auto_platform.Upload.Rows.{storage_required, available}
use ai_auto_platform.ArtifactRoutes.Visible.{visible_artifact, is_gone, safe_download_name}

pub record DownloadUrlRead : Type 0 where
  pub url : String
  pub expires_in_seconds : ℕ
  pub content_disposition : String

module _ {R : Type 0} (ctx : Context) where
  unfoldable pub get_artifact : ℕ → ℕ → ℕ → Action R (Response Json)
  get_artifact organization_id project_id artifact_id = do
    a ← check (visible_artifact organization_id project_id artifact_id ctx.actor_id false)
    check (λ _. throw_if (is_gone a) artifact_not_found 404)
    pure (record {
      status_code = 200;
      content = serialize_artifact a;
      replayed = none;
      etag = some a.version;
    })

  unfoldable pub create_download_url :
      Libraries
      → Option (ObjectStoragePort R)
      → ℕ
      → ℕ
      → ℕ
      → (expires_in_seconds : ℕ) → Action R DownloadUrlRead
  unfolding safe_download_name
  create_download_url lib storage organization_id project_id artifact_id expires_in_seconds = do
    a ← check (visible_artifact organization_id project_id artifact_id ctx.actor_id false)
    check λ _.
        throw_if (not (same_artifact_status a.status ArtifactStatus.available))
          artifact_not_available 409
    port ← check (storage_required storage)
    let filename = safe_download_name lib a.display_name
    answer ← call (port.sign_download a.object_key expires_in_seconds filename)
    signed ← check (available answer)
    pure (record {
      url = signed.url;
      expires_in_seconds = signed.expires_in_seconds;
      content_disposition = "attachment; filename*=UTF-8''" ++ lib.quote filename;
    })
