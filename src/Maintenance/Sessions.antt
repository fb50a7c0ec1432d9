-- ===== src/Maintenance/Sessions.antt =====
-- `_expire_sessions`: one transaction expires the sessions that are past their time, and then each
-- multipart upload that is left in the storage is aborted.
use ai_auto_platform.Prelude.{
  ℕ, ◌+◌, Bool, true, false, ◌&&◌, ◌||◌, Option, none, some, List, [], ◌∷◌, ◌++◌, String, leb, ltb,
  ◌==◌, if◌then◌else◌, is_some, is_empty, find_by, select, order_by, limit, map,
}
use ai_auto_platform.Db.Models.{Db, UploadSessionModel}
use ai_auto_platform.Artifact.Domain.{UploadSessionStatus, is_active}
use ai_auto_platform.Artifact.Storage.{
  ObjectStoragePort, Stored, stored, storage_error, StorageErrorCode, is_not_found,
  storage_error_value,
}
use ai_auto_platform.Upload.Rows.{has_id, is_due, expire, flushed, put_upload, same_text}
use ai_auto_platform.Maintenance.{State, count_failure, backoff, is_attempt_due, add_events}

-- `status.in_({EXPIRED, ABORTED, FAILED})`
abbrev pub is_left : UploadSessionStatus → Bool
is_left UploadSessionStatus.expired = true
is_left UploadSessionStatus.aborted = true
is_left UploadSessionStatus.failed = true
is_left _ = false

abbrev pub needs_sweep : ℕ → UploadSessionModel → Bool
needs_sweep now u =
    (is_due u now || (is_left u.status && is_some u.storage_upload_id))
    && is_attempt_due now u.cleanup_next_attempt_at

abbrev expires_before : UploadSessionModel → UploadSessionModel → Bool
expires_before u v =
    ltb u.expires_at v.expires_at || (u.expires_at == v.expires_at && leb u.id v.id)

-- The rows of the query, by their ids: the loop reads the rows as the transaction holds them.
unfoldable pub sweep_ids : ℕ → ℕ → Db → List ℕ
sweep_ids batch_size now db =
    map (λ u. u.id)
      (limit batch_size (order_by expires_before (select (needs_sweep now) db.upload_sessions)))

-- An upload that is left in the storage: `(row.id, row.object_key, row.storage_upload_id)`
abbrev pub Work : Type 0
Work = List (ℕ × String × String)

abbrev pub work_of : UploadSessionModel → Option String → Work
work_of u none = []
work_of u (some remote_id) = if is_empty remote_id then [] else (u.id, u.object_key, remote_id) ∷ []

-- A flush that writes columns of the cleanup.
abbrev pub cleaned : ℕ → UploadSessionModel → UploadSessionModel
cleaned db_now u = record u { version = u.version + 1; updated_at = db_now }

module _ {R : Type 0} (db_now : ℕ) where
  unfoldable pub expire_row : UploadSessionModel → State R → State R
  unfolding add_events
  expire_row u s =
      if is_active u.status
      then record s {
        db =
            add_events (some u.organization_id) (some u.project_id) u.id (u.version + 1)
              "UploadSessionExpired.v1" "UPLOAD_SESSION_EXPIRED"
              (put_upload (flushed db_now u (expire u)) s.db);
        metrics = record s.metrics { expired_sessions = s.metrics.expired_sessions + 1 };
      }
      else s

  abbrev pub expire_found : Option UploadSessionModel → State R → Work × State R
  expire_found none s = ([], s)
  expire_found (some u) s = (work_of u u.storage_upload_id, expire_row u s)

  -- The loop over the rows of the first transaction.
  unfoldable pub expire_rows : List ℕ → State R → Work × State R
  unfolding expire_row
  expire_rows [] s = ([], s)
  expire_rows (id ∷ ids) s =
      let (first, s') = expire_found (find_by (has_id id) s.db.upload_sessions) s in
      let (rest, s'') = expire_rows ids s' in (first ++ rest, s'')

  -- After an abort that succeeded, or found nothing.
  abbrev pub forget_remote : String → Option UploadSessionModel → State R → State R
  forget_remote remote_id none s = s
  forget_remote remote_id (some u) s =
      if same_text u.storage_upload_id (some remote_id)
      then record s {
        db =
            put_upload
              (cleaned db_now (record u {
                storage_upload_id = none;
                cleanup_attempts = 0;
                cleanup_last_error = none;
                cleanup_next_attempt_at = none;
              }))
              s.db;
        metrics = record s.metrics { multipart_aborted = s.metrics.multipart_aborted + 1 };
      }
      else s

  -- `_record_upload_failure`
  unfoldable pub record_upload_failure :
      StorageErrorCode → ℕ → Option UploadSessionModel → State R → State R
  record_upload_failure code now none s = s
  record_upload_failure code now (some u) s = record s {
    db =
        put_upload
          (cleaned db_now (record u {
            cleanup_attempts = u.cleanup_attempts + 1;
            cleanup_last_error = some (storage_error_value code);
            cleanup_next_attempt_at = some (now + backoff (u.cleanup_attempts + 1));
          }))
          s.db;
  }

  unfoldable pub abort_answered : ℕ → ℕ → String → Stored (Unit {0}) → State R → State R
  unfolding record_upload_failure
  abort_answered now id remote_id (stored _) s =
      forget_remote remote_id (find_by (has_id id) s.db.upload_sessions) s
  abort_answered now id remote_id (storage_error e) s =
      if is_not_found e.code
      then forget_remote remote_id (find_by (has_id id) s.db.upload_sessions) s
      else record_upload_failure e.code now (find_by (has_id id) s.db.upload_sessions)
          (count_failure s)

  -- The loop over `work`.
  unfoldable pub abort_work : ObjectStoragePort R → ℕ → Work → State R → State R
  unfolding abort_answered
  abort_work port now [] s = s
  abort_work port now ((id, key, remote_id) ∷ work) s =
      let (answer, r) = port.abort_multipart key remote_id s.remote in
      abort_work port now work (abort_answered now id remote_id answer (record s { remote = r }))

  unfoldable pub expire_sessions : ObjectStoragePort R → ℕ → ℕ → State R → State R
  unfolding expire_rows abort_work sweep_ids
  expire_sessions port batch_size now s =
      let (work, s') = expire_rows (sweep_ids batch_size now s.db) s in abort_work port now work s'
