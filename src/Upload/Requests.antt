-- ===== src/Upload/Requests.antt =====
-- The routes of api/upload_sessions.py as requests, and a server that answers them one after the
-- other. A completion carries what other requests commit while it holds no lock.
pub mod Histories
use ai_auto_platform.Prelude.{ℕ, Option, List, [], ◌∷◌, String}
use ai_auto_platform.Db.Models.{Db, UploadSessionModel}
use ai_auto_platform.Artifact.Storage.{ObjectStoragePort}
use ai_auto_platform.Exec.{World, Context, serve}
use ai_auto_platform.Common.Libraries.{Libraries}
use ai_auto_platform.Common.Settings.{Settings}
use ai_auto_platform.Upload.Payloads.{
  UploadSessionCreate, UploadPartSignRequest, UploadPartRegister, UploadCompleteRequest,
}
use ai_auto_platform.Upload.Create.{create_upload_session}
use ai_auto_platform.Upload.Read.{get_upload_session, list_upload_parts}
use ai_auto_platform.Upload.Sign.{sign_upload_parts}
use ai_auto_platform.Upload.Parts.{register_upload_part}
use ai_auto_platform.Upload.Publish.{complete_upload_session}
use ai_auto_platform.Upload.Cancel.{cancel_upload_session}

pub data Route : Type 0 where
  create : String → UploadSessionCreate → Option String → Route
  get parts : ℕ → Route
  sign : ℕ → UploadPartSignRequest → Route
  register : ℕ → ℕ → UploadPartRegister → Route
  complete : (others : Db → Db) → ℕ → ℕ → UploadCompleteRequest → Option String → Route
  cancel : ℕ → Option String → Route

pub record Request : Type 0 where
  pub ctx : Context
  pub organization_id : ℕ
  pub project_id : ℕ
  pub route : Route

module _ {R : Type 0} (cfg : Settings) (lib : Libraries) (storage : Option (ObjectStoragePort R))
    (ctx : Context) (org project : ℕ) where
  -- What a request leaves behind, whether it returns or raises.
  unfoldable pub handle : Route → World R → World R
  handle (create token p key) w =
      (serve (create_upload_session cfg ctx lib token org project p key) w).1
  handle (get id) w = (serve (get_upload_session ctx org project id) w).1
  handle (parts id) w = (serve (list_upload_parts ctx org project id) w).1
  handle (sign id p) w = (serve (sign_upload_parts storage ctx org project id p) w).1
  handle (register id number p) w = (serve (register_upload_part ctx org project id number p) w).1
  handle (complete others finished_at id p key) w =
      (serve (complete_upload_session lib storage others ctx finished_at org project id p key) w).1
  handle (cancel id key) w = (serve (cancel_upload_session storage ctx lib org project id key) w).1

module _ {R : Type 0} (cfg : Settings) (lib : Libraries)
    (storage : Option (ObjectStoragePort R)) where
  unfoldable pub run : List Request → World R → World R
  unfolding handle
  run [] w = w
  run (r ∷ rs) w = run rs (handle cfg lib storage r.ctx r.organization_id r.project_id r.route w)
