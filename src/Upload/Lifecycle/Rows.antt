-- ===== src/Upload/Lifecycle/Rows.antt =====
-- The assignments of api/upload_sessions.py as writes of the step relation, before and after the
-- flush.
use ai_auto_platform.Prelude.{
  ℕ, ◌+◌, ◌≡◌, refl, sym, Bool, true, Option, some, inl, inr, List, arith, Bool-cases,
  if◌then◌else◌, find_by, Distinct, find_by-has_key, find_by-holds, subst, String,
}
use ai_auto_platform.Errors.{ok, Result-cases}
use ai_auto_platform.Db.Models.{Db, ProjectModel, UploadSessionModel}
use ai_auto_platform.Artifact.Domain.{
  UploadSessionStatus, is_active, same_upload_status, require_upload_session_cancellable,
}
use ai_auto_platform.Common.Settings.{Settings}
use ai_auto_platform.Upload.Rows.{
  has_id, is_upload, is_unchanged, find_upload, is_due, expire, flushed, put_upload,
}
use ai_auto_platform.Upload.Authorize.{authorized_project, visible_upload}
use ai_auto_platform.Upload.Cancel.{abort}
use ai_auto_platform.Upload.Complete.{complete}
use ai_auto_platform.Upload.Lifecycle.{Advance, advance, Reach, next, session_id, ◌⟶◌}

-- An assignment of the columns that the routes write.
pub assign-Advance :
    {s : UploadSessionStatus} {remote : Option String} {reserved : ℕ} {done : Option ℕ}
    {version db_now : ℕ} (u : UploadSessionModel)
    → u.status ⟶ s
    → reserved ≡ (if is_active s then u.reserved_bytes else 0)
    → Advance u (record u {
      status = s;
      storage_upload_id = remote;
      reserved_bytes = reserved;
      completed_at = done;
      version = version;
      updated_at = db_now;
    })
assign-Advance u e h = record {
  same_id = refl;
  same_organization = refl;
  same_project = refl;
  same_key = refl;
  same_size = refl;
  same_sha256 = refl;
  edge = e;
  reservation = h;
}

pub same_upload_status→≡ : (s t : UploadSessionStatus) → same_upload_status s t ≡ true → s ≡ t
same_upload_status→≡ s t h = ground arith

unchanged-status :
    (old new : UploadSessionModel) → is_unchanged old new ≡ true → old.status ≡ new.status
unchanged-status old new h = same_upload_status→≡ old.status new.status (ground arith)

-- An advance that changes no column leaves the row's own state as its next one.
Advance-self :
    (old new : UploadSessionModel) → Advance old new → is_unchanged old new ≡ true → Advance old old
Advance-self old new a h =
    assign-Advance old (subst (λ t. old.status ⟶ t) (sym (unchanged-status old new h)) a.edge)
      (ground (arith, unchanged-status old new h))

Advance-version :
    (db_now version : ℕ) (old new : UploadSessionModel)
    → Advance old new
    → Advance old (record new { version = version; updated_at = db_now })
Advance-version db_now version old new a = record {
  same_id = a.same_id;
  same_organization = a.same_organization;
  same_project = a.same_project;
  same_key = a.same_key;
  same_size = a.same_size;
  same_sha256 = a.same_sha256;
  edge = a.edge;
  reservation = a.reservation;
}

pub Advance-flushed :
    (db_now : ℕ) (old new : UploadSessionModel)
    → Advance old new
    → Advance old (flushed db_now old new)
unfolding flushed
Advance-flushed db_now old new a = elim (Bool-cases (is_unchanged old new)) [
  | inl same ↦ rw same (Advance-self old new a same)
  | inr other ↦ rw other (Advance-version db_now (old.version + 1) old new a)
]

pub expire-Advance : (u : UploadSessionModel) (now : ℕ) → is_due u now ≡ true → Advance u (expire u)
expire-Advance u now h = assign-Advance u (◌⟶◌.expire (ground arith)) refl

pub find_upload-found :
    (org project id : ℕ) (db : Db) (u : UploadSessionModel)
    → Distinct session_id db.upload_sessions
    → find_upload org project id db ≡ ok u
    → find_by (has_id u.id) db.upload_sessions ≡ some u
unfolding find_upload
find_upload-found org project id db u d h =
    find_by-has_key session_id (is_upload org project id) u db.upload_sessions d (ground arith)

pub find_upload-id :
    (org project id : ℕ) (db : Db) (u : UploadSessionModel)
    → find_upload org project id db ≡ ok u
    → u.id ≡ id
unfolding find_upload
find_upload-id org project id db u h =
    let held = find_by-holds (is_upload org project id) db.upload_sessions u (ground arith) in
    ground arith

pub visible_upload-found :
    (org project id actor : ℕ) (write : Bool) (db : Db) (p : ProjectModel) (u : UploadSessionModel)
    → Distinct session_id db.upload_sessions
    → visible_upload org project id actor write db ≡ ok (p, u)
    → find_by (has_id u.id) db.upload_sessions ≡ some u
unfolding visible_upload
visible_upload-found org project id actor write db p u d h =
    elim (Result-cases (authorized_project org project actor write db)) [
      | inr (x, refused) ↦ ground arith
      | inl (q, allowed) ↦ find_upload-found org project id db u d (ground arith)
    ]

pub initialize-Advance :
    (remote_id : String) (u : UploadSessionModel)
    → same_upload_status u.status UploadSessionStatus.pending_upload ≡ true
    → Advance u
        (record u { storage_upload_id = some remote_id; status = UploadSessionStatus.uploading })
initialize-Advance remote_id u h =
    assign-Advance u
      (subst (λ s. s ⟶ UploadSessionStatus.uploading)
        (sym (same_upload_status→≡ u.status UploadSessionStatus.pending_upload h)) ◌⟶◌.initialize)
      refl

pub checkpoint-Advance :
    (u : UploadSessionModel)
    → same_upload_status u.status UploadSessionStatus.uploading ≡ true
    → Advance u (record u { status = UploadSessionStatus.completing })
checkpoint-Advance u h =
    assign-Advance u
      (subst (λ s. s ⟶ UploadSessionStatus.completing)
        (sym (same_upload_status→≡ u.status UploadSessionStatus.uploading h)) ◌⟶◌.checkpoint)
      refl

pub complete-Advance :
    (now : ℕ) (u : UploadSessionModel)
    → u.status ≡ UploadSessionStatus.completing
    → Advance u (complete now u)
complete-Advance now u h =
    assign-Advance u (subst (λ s. s ⟶ UploadSessionStatus.completed) (sym h) ◌⟶◌.publish) refl

abort_edge :
    (s : UploadSessionStatus)
    → require_upload_session_cancellable s ≡ ok tt
    → s ⟶ UploadSessionStatus.aborted
unfolding require_upload_session_cancellable
abort_edge UploadSessionStatus.pending_upload h = ◌⟶◌.abort_pending
abort_edge UploadSessionStatus.uploading h = ◌⟶◌.abort_uploading
abort_edge UploadSessionStatus.aborted h = ◌⟶◌.abort_again
abort_edge _ h = cc

pub abort-Advance :
    (u : UploadSessionModel)
    → require_upload_session_cancellable u.status ≡ ok tt
    → Advance u (abort u)
abort-Advance u h = assign-Advance u (abort_edge u.status h) refl

-- What has become of the sessions `us` follows the state machine.
abbrev pub Follows : Settings → List UploadSessionModel → Db → Type 0
Follows cfg us db = Reach cfg us db.upload_sessions

module _ {cfg : Settings} {us : List UploadSessionModel} where
  pub put-Follows :
      (old new : UploadSessionModel) (db : Db)
      → find_by (has_id old.id) db.upload_sessions ≡ some old
      → Advance old new
      → Follows cfg us db
      → Follows cfg us (put_upload new db)
  put-Follows old new db f a r = next r (advance old new f a)
