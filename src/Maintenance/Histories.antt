-- ===== src/Maintenance/Histories.antt =====
-- The states of upload sessions through `_expire_sessions` of modules/artifact/maintenance.py.
use ai_auto_platform.Prelude.{
  ℕ, ◌≡◌, refl, subst, some, inl, inr, List, [], ◌∷◌, String, arith, find_by, find_by-holds,
  Bool-cases, Option-cases,
}
use ai_auto_platform.Db.Models.{Db, UploadSessionModel}
use ai_auto_platform.Artifact.Domain.{is_active}
use ai_auto_platform.Artifact.Storage.{
  ObjectStoragePort, Stored, stored, storage_error, StorageErrorCode, is_not_found,
}
use ai_auto_platform.Common.Settings.{Settings}
use ai_auto_platform.Upload.Rows.{has_id, expire, flushed, put_upload, same_text}
use ai_auto_platform.Upload.Lifecycle.{Annotation, annotate, Reach, here, next, ◌⟶◌}
use ai_auto_platform.Upload.Lifecycle.Rows.{Follows, put-Follows, Advance-flushed, assign-Advance}
use ai_auto_platform.Maintenance.{State, count_failure, add_events}
use ai_auto_platform.Maintenance.Sessions.{
  Work, sweep_ids, expire_row, expire_rows, forget_remote, record_upload_failure, abort_answered,
  abort_work, expire_sessions,
}

found_id :
    (id : ℕ) (us : List UploadSessionModel) (u : UploadSessionModel)
    → find_by (has_id id) us ≡ some u
    → find_by (has_id u.id) us ≡ some u
found_id id us u h =
    let same : id ≡ u.id = ground (arith, find_by-holds (has_id id) us u h) in
    subst (λ k. find_by (has_id k) us ≡ some u) same h

-- A write that notes something about a session.
note-Follows :
    (cfg : Settings) {us : List UploadSessionModel} (u new : UploadSessionModel) (db : Db)
    → find_by (has_id u.id) db.upload_sessions ≡ some u
    → Annotation u new
    → Follows cfg us db
    → Follows cfg us (put_upload new db)
note-Follows cfg u new db found a r = next r (annotate u new found a)

module _ {R : Type 0} (cfg : Settings) {us : List UploadSessionModel} (db_now : ℕ) where
  expire_row-Follows :
      (u : UploadSessionModel) (s : State R)
      → find_by (has_id u.id) s.db.upload_sessions ≡ some u
      → Follows cfg us s.db
      → Follows cfg us (expire_row db_now u s).db
  unfolding expire_row add_events
  expire_row-Follows u s found r = elim (Bool-cases (is_active u.status)) [
    | inl active ↦ rw active (
        put-Follows u (flushed db_now u (expire u)) s.db found
          (Advance-flushed db_now u (expire u) (assign-Advance u (◌⟶◌.expire active) refl)) r)
    | inr ended ↦ rw ended r
  ]

  expire_rows-Follows :
      (ids : List ℕ) (s : State R)
      → Follows cfg us s.db
      → Follows cfg us (expire_rows db_now ids s).1.db
  unfolding expire_rows
  expire_rows-Follows [] s r = r
  expire_rows-Follows (id ∷ ids) s r =
      elim (Option-cases (find_by (has_id id) s.db.upload_sessions)) [
        | inl missing ↦ rw missing (expire_rows-Follows ids s r)
        | inr (u, found) ↦ rw found (
            expire_rows-Follows ids (expire_row db_now u s)
              (expire_row-Follows u s (found_id id s.db.upload_sessions u found) r))
      ]

  forget-Follows :
      (id : ℕ) (remote_id : String) (s : State R)
      → Follows cfg us s.db
      → Follows cfg us
          (forget_remote db_now remote_id (find_by (has_id id) s.db.upload_sessions) s).db
  forget-Follows id remote_id s r = elim (Option-cases (find_by (has_id id) s.db.upload_sessions)) [
    | inl missing ↦ rw missing r
    | inr (u, found) ↦
        rw found (elim (Bool-cases (same_text u.storage_upload_id (some remote_id))) [
          | inl same ↦ rw same (
              note-Follows cfg u _ s.db (found_id id s.db.upload_sessions u found)
                (record {
                  same_id = refl;
                  same_organization = refl;
                  same_size = refl;
                  same_status = refl;
                  same_reservation = refl;
                })
                r)
          | inr other ↦ rw other r
        ])
  ]

  failure-Follows :
      (code : StorageErrorCode) (now id : ℕ) (s : State R)
      → Follows cfg us s.db
      → Follows cfg us
          (record_upload_failure db_now code now
            (find_by (has_id id) s.db.upload_sessions)
            (count_failure s)).db
  unfolding record_upload_failure
  failure-Follows code now id s r = elim (Option-cases (find_by (has_id id) s.db.upload_sessions)) [
    | inl missing ↦ rw missing r
    | inr (u, found) ↦ rw found (
        note-Follows cfg u _ s.db (found_id id s.db.upload_sessions u found)
          (record {
            same_id = refl;
            same_organization = refl;
            same_size = refl;
            same_status = refl;
            same_reservation = refl;
          })
          r)
  ]

  answered-Follows :
      (now id : ℕ) (remote_id : String) (answer : Stored (Unit {0})) (s : State R)
      → Follows cfg us s.db
      → Follows cfg us (abort_answered db_now now id remote_id answer s).db
  unfolding abort_answered
  answered-Follows now id remote_id (stored _) s r = forget-Follows id remote_id s r
  answered-Follows now id remote_id (storage_error e) s r =
      elim (Bool-cases (is_not_found e.code)) [
        | inl gone ↦ rw gone (forget-Follows id remote_id s r)
        | inr failed ↦ rw failed (failure-Follows e.code now id s r)
      ]

  abort_work-Follows :
      (port : ObjectStoragePort R) (now : ℕ) (work : Work) (s : State R)
      → Follows cfg us s.db
      → Follows cfg us (abort_work db_now port now work s).db
  unfolding abort_work
  abort_work-Follows port now [] s r = r
  abort_work-Follows port now ((id, key, remote_id) ∷ work) s r =
      let (answer, remote) = port.abort_multipart key remote_id s.remote in
      let s' : State R = record s { remote = remote } in
      abort_work-Follows port now work (abort_answered db_now now id remote_id answer s')
        (answered-Follows now id remote_id answer s' r)

-- The pass over the sessions follows the state machine, whatever the storage answers: it expires
-- active sessions and otherwise only notes what has become of their multipart uploads.
pub expire_sessions-Reach :
    {R : Type 0} (cfg : Settings) (db_now : ℕ) (port : ObjectStoragePort R) (batch_size now : ℕ)
    → (s : State R)
    → Reach cfg s.db.upload_sessions
        (expire_sessions db_now port batch_size now s).db.upload_sessions
unfolding expire_sessions
expire_sessions-Reach cfg db_now port batch_size now s =
    let (work, s') = expire_rows db_now (sweep_ids batch_size now s.db) s in
    abort_work-Follows cfg db_now port now work s'
      (expire_rows-Follows cfg db_now (sweep_ids batch_size now s.db) s here)
