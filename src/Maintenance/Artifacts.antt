-- ===== src/Maintenance/Artifacts.antt =====
-- `_delete_artifacts` and `_reconcile_missing`.
use ai_auto_platform.Prelude.{
  ℕ, ◌+◌, Bool, ◌&&◌, ◌||◌, Option, none, some, List, [], ◌∷◌, String, leb, ltb, ◌==◌,
  if◌then◌else◌, find_by, select, order_by, limit, map,
}
use ai_auto_platform.Db.Models.{Db, ArtifactModel}
use ai_auto_platform.Artifact.Domain.{ArtifactStatus, same_artifact_status}
use ai_auto_platform.Artifact.Storage.{
  ObjectStoragePort, ObjectMetadata, Stored, stored, storage_error, StorageErrorCode, is_not_found,
  storage_error_value,
}
use ai_auto_platform.Artifact.Rows.{has_artifact_id, put_artifact}
use ai_auto_platform.Maintenance.{State, count_failure, backoff, is_attempt_due, add_events}

abbrev updated_before : ArtifactModel → ArtifactModel → Bool
updated_before a b =
    ltb a.updated_at b.updated_at || (a.updated_at == b.updated_at && leb a.id b.id)

-- The first rows that pass a test, as `(x.id, x.object_key)`.
abbrev pub artifact_work : ℕ → (ArtifactModel → Bool) → Db → List (ℕ × String)
artifact_work batch_size test db =
    map (λ a. (a.id, a.object_key))
      (limit batch_size (order_by updated_before (select test db.artifacts)))

abbrev pub is_deleting : ArtifactModel → Bool
is_deleting a = same_artifact_status a.status ArtifactStatus.deleting

abbrev pub is_available : ArtifactModel → Bool
is_available a = same_artifact_status a.status ArtifactStatus.available

-- A flush that writes some columns.
abbrev pub written : ℕ → ArtifactModel → ArtifactModel
written db_now a = record a { version = a.version + 1; updated_at = db_now }

module _ {R : Type 0} (db_now : ℕ) where
  -- After a deletion that succeeded, or found nothing.
  unfoldable pub finish_delete : ℕ → Option ArtifactModel → State R → State R
  unfolding add_events
  finish_delete now none s = s
  finish_delete now (some a) s =
      if is_deleting a
      then record s {
        db =
            add_events (some a.organization_id) (some a.project_id) a.id (a.version + 1)
              "ArtifactDeleted.v1" "ARTIFACT_DELETED"
              (put_artifact
                (written db_now (record a {
                  status = ArtifactStatus.deleted;
                  deleted_at = some now;
                  cleanup_attempts = 0;
                  cleanup_last_error = none;
                  cleanup_next_attempt_at = none;
                }))
                s.db);
        metrics = record s.metrics { artifacts_deleted = s.metrics.artifacts_deleted + 1 };
      }
      else s

  -- `_record_artifact_failure`
  unfoldable pub record_artifact_failure :
      StorageErrorCode → ℕ → Option ArtifactModel → State R → State R
  record_artifact_failure code now none s = s
  record_artifact_failure code now (some a) s = record s {
    db =
        put_artifact
          (written db_now (record a {
            cleanup_attempts = a.cleanup_attempts + 1;
            cleanup_last_error = some (storage_error_value code);
            cleanup_next_attempt_at = some (now + backoff (a.cleanup_attempts + 1));
          }))
          s.db;
  }

  unfoldable pub delete_answered : ℕ → ℕ → Stored (Unit {0}) → State R → State R
  unfolding finish_delete record_artifact_failure
  delete_answered now id (stored _) s =
      finish_delete now (find_by (has_artifact_id id) s.db.artifacts) s
  delete_answered now id (storage_error e) s =
      if is_not_found e.code
      then finish_delete now (find_by (has_artifact_id id) s.db.artifacts) s
      else record_artifact_failure e.code now (find_by (has_artifact_id id) s.db.artifacts)
          (count_failure s)

  unfoldable pub delete_work : ObjectStoragePort R → ℕ → List (ℕ × String) → State R → State R
  unfolding delete_answered
  delete_work port now [] s = s
  delete_work port now ((id, key) ∷ work) s =
      let (answer, r) = port.delete key s.remote in
      delete_work port now work (delete_answered now id answer (record s { remote = r }))

  unfoldable pub delete_artifacts : ObjectStoragePort R → ℕ → ℕ → State R → State R
  unfolding delete_work
  delete_artifacts port batch_size now s =
      delete_work port now
        (artifact_work batch_size
          (λ a. is_deleting a && is_attempt_due now a.cleanup_next_attempt_at) s.db)
        s

  unfoldable pub mark_missing : Option ArtifactModel → State R → State R
  unfolding add_events
  mark_missing none s = s
  mark_missing (some a) s =
      if is_available a
      then record s {
        db =
            add_events (some a.organization_id) (some a.project_id) a.id (a.version + 1)
              "ArtifactObjectMissing.v1" "ARTIFACT_OBJECT_MISSING"
              (put_artifact (written db_now (record a { status = ArtifactStatus.failed })) s.db);
        metrics = record s.metrics { missing_objects = s.metrics.missing_objects + 1 };
      }
      else s

  unfoldable pub head_answered : ℕ → Stored ObjectMetadata → State R → State R
  unfolding mark_missing
  head_answered id (stored _) s = s
  head_answered id (storage_error e) s =
      if is_not_found e.code
      then mark_missing (find_by (has_artifact_id id) s.db.artifacts) s
      else count_failure s

  unfoldable pub head_work : ObjectStoragePort R → List (ℕ × String) → State R → State R
  unfolding head_answered
  head_work port [] s = s
  head_work port ((id, key) ∷ work) s =
      let (answer, r) = port.head key s.remote in
      head_work port work (head_answered id answer (record s { remote = r }))

  unfoldable pub reconcile_missing : ObjectStoragePort R → ℕ → State R → State R
  unfolding head_work
  reconcile_missing port batch_size s =
      head_work port (artifact_work batch_size is_available s.db) s
