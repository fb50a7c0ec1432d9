-- ===== src/ArtifactRoutes/Histories.antt =====
-- The states of artifacts through `_delete_artifacts` and `_reconcile_missing` of
-- modules/artifact/maintenance.py.
use ai_auto_platform.Prelude.{
  ℕ, ◌≡◌, refl, sym, subst, true, ◌&&◌, Option, some, inl, inr, List, [], ◌∷◌, String, arith,
  find_by, find_by-holds, Bool-cases, Option-cases,
}
use ai_auto_platform.Db.Models.{ArtifactModel}
use ai_auto_platform.Artifact.Domain.{ArtifactStatus, same_artifact_status}
use ai_auto_platform.Artifact.Storage.{
  ObjectStoragePort, ObjectMetadata, Stored, stored, storage_error, StorageErrorCode, is_not_found,
}
use ai_auto_platform.Artifact.Rows.{has_artifact_id}
use ai_auto_platform.Maintenance.{State, count_failure, add_events, is_attempt_due}
use ai_auto_platform.Maintenance.Artifacts.{
  artifact_work, is_deleting, is_available, finish_delete, record_artifact_failure, delete_answered,
  delete_work, delete_artifacts, mark_missing, head_answered, head_work, reconcile_missing,
}
use ai_auto_platform.ArtifactRoutes.Lifecycle.{◌⇢◌, Change, Changes, here, next}

-- An assignment of the columns that the program writes to an artifact.
assign-Change :
    {s : ArtifactStatus} {deleted_at next_attempt : Option ℕ} {attempts version updated_at : ℕ}
    {last_error : Option String} (a : ArtifactModel)
    → a.status ⇢ s
    → Change a (record a {
      status = s;
      deleted_at = deleted_at;
      cleanup_attempts = attempts;
      cleanup_last_error = last_error;
      cleanup_next_attempt_at = next_attempt;
      version = version;
      updated_at = updated_at;
    })
assign-Change a e = record {
  same_id = refl;
  same_session = refl;
  same_key = refl;
  same_size = refl;
  same_sha256 = refl;
  same_integrity = refl;
  edge = e;
}

same_artifact_status→≡ : (s t : ArtifactStatus) → same_artifact_status s t ≡ true → s ≡ t
same_artifact_status→≡ s t h = ground arith

found_id :
    (id : ℕ) (xs : List ArtifactModel) (a : ArtifactModel)
    → find_by (has_artifact_id id) xs ≡ some a
    → find_by (has_artifact_id a.id) xs ≡ some a
found_id id xs a h =
    let same : id ≡ a.id = ground (arith, find_by-holds (has_artifact_id id) xs a h) in
    subst (λ k. find_by (has_artifact_id k) xs ≡ some a) same h

module _ {R : Type 0} (xs : List ArtifactModel) (db_now : ℕ) where
  finish-Changes :
      (now id : ℕ) (s : State R)
      → Changes xs s.db.artifacts
      → Changes xs
          (finish_delete db_now now (find_by (has_artifact_id id) s.db.artifacts) s).db.artifacts
  unfolding finish_delete add_events
  finish-Changes now id s r = elim (Option-cases (find_by (has_artifact_id id) s.db.artifacts)) [
    | inl missing ↦ rw missing r
    | inr (a, found) ↦ rw found (elim (Bool-cases (is_deleting a)) [
      | inl deleting ↦
          let edge =
            subst (λ t. t ⇢ ArtifactStatus.deleted)
              (sym (same_artifact_status→≡ a.status ArtifactStatus.deleting deleting)) ◌⇢◌.finish in
          rw deleting (next r a _ (found_id id s.db.artifacts a found) (assign-Change a edge))
      | inr other ↦ rw other r
    ])
  ]

  failure-Changes :
      (code : StorageErrorCode) (now id : ℕ) (s : State R)
      → Changes xs s.db.artifacts
      → Changes xs
          (record_artifact_failure db_now code now
            (find_by (has_artifact_id id) s.db.artifacts)
            (count_failure s)).db.artifacts
  unfolding record_artifact_failure
  failure-Changes code now id s r =
      elim (Option-cases (find_by (has_artifact_id id) s.db.artifacts)) [
        | inl missing ↦ rw missing r
        | inr (a, found) ↦
            rw found (next r a _ (found_id id s.db.artifacts a found) (assign-Change a ◌⇢◌.stay))
      ]

  delete_work-Changes :
      (port : ObjectStoragePort R) (now : ℕ) (work : List (ℕ × String)) (s : State R)
      → Changes xs s.db.artifacts
      → Changes xs (delete_work db_now port now work s).db.artifacts
  unfolding delete_work delete_answered
  delete_work-Changes port now [] s r = r
  delete_work-Changes port now ((id, key) ∷ work) s r =
      let (answer, remote) = port.delete key s.remote in
      let s' : State R = record s { remote = remote } in
      delete_work-Changes port now work (delete_answered db_now now id answer s')
        (answered answer s' r)
    where
      answered :
          (answer : Stored (Unit {0})) (t : State R)
          → Changes xs t.db.artifacts
          → Changes xs (delete_answered db_now now id answer t).db.artifacts
      answered (stored _) t q = finish-Changes now id t q
      answered (storage_error e) t q = elim (Bool-cases (is_not_found e.code)) [
        | inl gone ↦ rw gone (finish-Changes now id t q)
        | inr failed ↦ rw failed (failure-Changes e.code now id t q)
      ]

  missing-Changes :
      (id : ℕ) (s : State R)
      → Changes xs s.db.artifacts
      → Changes xs
          (mark_missing db_now (find_by (has_artifact_id id) s.db.artifacts) s).db.artifacts
  unfolding mark_missing add_events
  missing-Changes id s r = elim (Option-cases (find_by (has_artifact_id id) s.db.artifacts)) [
    | inl missing ↦ rw missing r
    | inr (a, found) ↦ rw found (elim (Bool-cases (is_available a)) [
      | inl available ↦
          let edge =
            subst (λ t. t ⇢ ArtifactStatus.failed)
              (sym (same_artifact_status→≡ a.status ArtifactStatus.available available)) ◌⇢◌.lose in
          rw available (next r a _ (found_id id s.db.artifacts a found) (assign-Change a edge))
      | inr other ↦ rw other r
    ])
  ]

  head_work-Changes :
      (port : ObjectStoragePort R) (work : List (ℕ × String)) (s : State R)
      → Changes xs s.db.artifacts
      → Changes xs (head_work db_now port work s).db.artifacts
  unfolding head_work head_answered
  head_work-Changes port [] s r = r
  head_work-Changes port ((id, key) ∷ work) s r =
      let (answer, remote) = port.head key s.remote in
      let s' : State R = record s { remote = remote } in
      head_work-Changes port work (head_answered db_now id answer s') (answered answer s' r)
    where
      answered :
          (answer : Stored ObjectMetadata) (t : State R)
          → Changes xs t.db.artifacts
          → Changes xs (head_answered db_now id answer t).db.artifacts
      answered (stored _) t q = q
      answered (storage_error e) t q = elim (Bool-cases (is_not_found e.code)) [
        | inl gone ↦ rw gone (missing-Changes id t q)
        | inr failed ↦ rw failed q
      ]

-- The deletion of artifacts and then the search for missing objects change artifacts only along
-- their edges, whatever the storage answers: only one that is deleting is deleted, only one that
-- is available fails, and none changes its object, its size, its digest or its integrity.
pub reconcile_missing-Changes :
    {R : Type 0} (db_now now batch_size : ℕ) (port : ObjectStoragePort R) (s : State R)
    → Changes s.db.artifacts
        (reconcile_missing db_now port batch_size
          (delete_artifacts db_now port batch_size now s)).db.artifacts
unfolding reconcile_missing delete_artifacts
reconcile_missing-Changes db_now now batch_size port s =
    let deleted = delete_artifacts db_now port batch_size now s in
    let due =
      λ (a : ArtifactModel). is_deleting a && is_attempt_due now a.cleanup_next_attempt_at in
    head_work-Changes s.db.artifacts db_now port (artifact_work batch_size is_available deleted.db)
      deleted
      (delete_work-Changes s.db.artifacts db_now port now (artifact_work batch_size due s.db) s
        here)
