-- ===== src/Maintenance/Orphans.antt =====
-- `_delete_orphans`: objects of the storage that no row knows, and `run_once`.
use ai_auto_platform.Prelude.{
  ℕ, ◌+◌, Bool, true, false, ◌&&◌, ◌||◌, not, Option, none, List, [], ◌∷◌, String, str_eq, leb, ltb,
  if◌then◌else◌, exists_by,
}
use ai_auto_platform.Db.Models.{Db}
use ai_auto_platform.Artifact.Domain.{ArtifactStatus, same_artifact_status}
use ai_auto_platform.Artifact.Storage.{
  ObjectStoragePort, ObjectStorageError, StorageObjectRef, Stored, stored, storage_error,
  is_not_found,
}
use ai_auto_platform.Common.Libraries.{Libraries}
use ai_auto_platform.Upload.Rows.{is_object_key}
use ai_auto_platform.Maintenance.{State, count_failure, add_events}
use ai_auto_platform.Maintenance.Sessions.{expire_sessions}
use ai_auto_platform.Maintenance.Artifacts.{delete_artifacts, reconcile_missing}

-- `known_upload or known_artifact`
unfoldable pub is_known : String → Db → Bool
is_known key db =
    exists_by (λ u. str_eq u.object_key key) db.upload_sessions
    || exists_by
        (λ a. str_eq a.object_key key && not (same_artifact_status a.status ArtifactStatus.deleted))
        db.artifacts

-- Not newer than `cutoff`, which is `now - orphan_grace`, and under a key of this program.
abbrev pub is_candidate : ℕ → ℕ → StorageObjectRef → Bool
is_candidate now orphan_grace item =
    not (ltb now (item.last_modified + orphan_grace)) && is_object_key item.object_key

module _ {R : Type 0} (lib : Libraries) (port : ObjectStoragePort R) (now orphan_grace : ℕ) where
  unfoldable pub record_orphan : String → State R → State R
  unfolding add_events
  record_orphan key s = record s {
    db =
        add_events none none (lib.url_uuid5 key) 1 "ArtifactOrphanDeleted.v1"
          "ARTIFACT_ORPHAN_DELETED" s.db;
    metrics = record s.metrics { orphan_objects_deleted = s.metrics.orphan_objects_deleted + 1 };
  }

  abbrev pub orphan_answered : String → Stored (Unit {0}) → State R → State R
  orphan_answered key (stored _) s = record_orphan key s
  orphan_answered key (storage_error e) s =
      if is_not_found e.code then record_orphan key s else count_failure s

  unfoldable pub delete_orphan : String → State R → State R
  unfolding record_orphan
  delete_orphan key s =
      let (answer, r) = port.delete key s.remote in
      orphan_answered key answer (record s { remote = r })

  -- One object of the listing, with the number of candidates seen.
  unfoldable pub sweep_object : StorageObjectRef → ℕ → State R → ℕ × State R
  unfolding delete_orphan is_known
  sweep_object item seen s =
      if is_candidate now orphan_grace item
      then (seen + 1, if is_known item.object_key s.db then s else delete_orphan item.object_key s)
      else (seen, s)

  -- The loop over the listing; the first result says whether it ended by its `break`.
  unfoldable pub sweep_objects : ℕ → ℕ → List StorageObjectRef → State R → Bool × State R
  unfolding sweep_object
  sweep_objects batch_size seen [] s = (false, s)
  sweep_objects batch_size seen (item ∷ items) s =
      let (seen', s') = sweep_object item seen s in
      let rest = sweep_objects batch_size seen' items s' in
      if leb batch_size seen then (true, s) else rest

  -- The error that ends the listing is raised if the loop comes to it.
  unfoldable pub delete_orphans : ℕ → State R → Option ObjectStorageError × State R
  unfolding sweep_objects
  delete_orphans batch_size s =
      let ((items, error), r) = port.list_objects "v1/o/" s.remote in
      let (broke, s') = sweep_objects batch_size 0 items (record s { remote = r }) in
      (if broke then none else error, s')

  -- `run_once`: the four passes, and the error that the last one may raise.
  unfoldable pub run_once : ℕ → ℕ → State R → Option ObjectStorageError × State R
  unfolding delete_orphans
  run_once db_now batch_size s = delete_orphans batch_size (
      reconcile_missing db_now port batch_size (
        delete_artifacts db_now port batch_size now (expire_sessions db_now port batch_size now s)))
