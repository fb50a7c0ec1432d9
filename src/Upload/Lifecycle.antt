-- ===== src/Upload/Lifecycle.antt =====
-- The states of upload sessions as a step relation: what is expected of every route of
-- api/upload_sessions.py and of the maintenance, stated apart from their code.
pub mod Invariants
pub mod Terminal
pub mod Rows
pub mod Routes
use ai_auto_platform.Prelude.{
  ℕ, ◌+◌, ◌≤◌, ◌<◌, ◌≡◌, true, none, some, List, [], ◌∷◌, ◌++◌, if◌then◌else◌, find_by, replace_by,
  Distinct,
}
use ai_auto_platform.Db.Models.{Db, UploadSessionModel}
use ai_auto_platform.Artifact.Domain.{UploadSessionStatus, is_active}
use ai_auto_platform.Common.Settings.{Settings}
use ai_auto_platform.Upload.Rows.{has_id, active_count, active_bytes}

infix 40 ◌⟶◌
-- The edges of the state machine. Only a session that is completing is completed, and a session
-- in a terminal state stays in it; a second cancellation is accepted.
pub data ◌⟶◌ : UploadSessionStatus → UploadSessionStatus → Type 0 where
  initialize : UploadSessionStatus.pending_upload ⟶ UploadSessionStatus.uploading
  checkpoint : UploadSessionStatus.uploading ⟶ UploadSessionStatus.completing
  publish : UploadSessionStatus.completing ⟶ UploadSessionStatus.completed
  abort_pending : UploadSessionStatus.pending_upload ⟶ UploadSessionStatus.aborted
  abort_uploading : UploadSessionStatus.uploading ⟶ UploadSessionStatus.aborted
  abort_again : UploadSessionStatus.aborted ⟶ UploadSessionStatus.aborted
  expire : {s : UploadSessionStatus} → is_active s ≡ true → s ⟶ UploadSessionStatus.expired

-- A write to one session: it follows an edge, keeps its identity and what was declared, and keeps
-- its reservation exactly as long as it is active.
pub record Advance (old new : UploadSessionModel) : Type 0 where
  pub same_id : new.id ≡ old.id
  pub same_organization : new.organization_id ≡ old.organization_id
  pub same_project : new.project_id ≡ old.project_id
  pub same_key : new.object_key ≡ old.object_key
  pub same_size : new.expected_size ≡ old.expected_size
  pub same_sha256 : new.expected_sha256 ≡ old.expected_sha256
  pub edge : old.status ⟶ new.status
  pub reservation : new.reserved_bytes ≡ (if is_active new.status then old.reserved_bytes else 0)

-- A write that notes something about a session: its state and its reservation stay.
pub record Annotation (old new : UploadSessionModel) : Type 0 where
  pub same_id : new.id ≡ old.id
  pub same_organization : new.organization_id ≡ old.organization_id
  pub same_size : new.expected_size ≡ old.expected_size
  pub same_status : new.status ≡ old.status
  pub same_reservation : new.reserved_bytes ≡ old.reserved_bytes

-- A new session within the limits: it reserves what it declares.
pub record Admitted (cfg : Settings) (us : List UploadSessionModel) (u : UploadSessionModel)
    : Type 0 where
  pub is_pending : u.status ≡ UploadSessionStatus.pending_upload
  pub reserves : u.reserved_bytes ≡ u.expected_size
  pub fits_file : u.expected_size ≤ cfg.upload_max_file_bytes
  pub fits_count : active_count u.organization_id us < cfg.upload_max_active_per_organization
  pub fits_bytes :
      active_bytes u.organization_id us + u.reserved_bytes
      ≤ cfg.upload_max_reserved_bytes_per_organization
  pub is_new : find_by (has_id u.id) us ≡ none

-- The key of the table `upload_sessions`.
abbrev pub session_id : UploadSessionModel → ℕ
session_id u = u.id

pub data Step (cfg : Settings) (us : List UploadSessionModel)
    : List UploadSessionModel → Type 0 where
  admit : (u : UploadSessionModel) → Admitted cfg us u → Step cfg us (us ++ u ∷ [])
  advance :
      (old new : UploadSessionModel)
      → find_by (has_id old.id) us ≡ some old
      → Advance old new
      → Step cfg us (replace_by (has_id new.id) new us)
  annotate :
      (old new : UploadSessionModel)
      → find_by (has_id old.id) us ≡ some old
      → Annotation old new
      → Step cfg us (replace_by (has_id new.id) new us)

pub data Reach (cfg : Settings) (us : List UploadSessionModel)
    : List UploadSessionModel → Type 0 where
  here : Reach cfg us us
  next : {vs ws : List UploadSessionModel} → Reach cfg us vs → Step cfg vs ws → Reach cfg us ws

pub Reach-trans :
    {cfg : Settings} {us vs ws : List UploadSessionModel}
    → Reach cfg us vs
    → Reach cfg vs ws
    → Reach cfg us ws
Reach-trans r here = r
Reach-trans r (next s t) = next (Reach-trans r s) t
