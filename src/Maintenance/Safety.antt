-- ===== src/Maintenance/Safety.antt =====
-- What the maintenance deletes from the storage, about `_delete_orphans` of
-- modules/artifact/maintenance.py.
use ai_auto_platform.Prelude.{
  ℕ, ◌+◌, ◌≤◌, ◌≡◌, refl, arith, true, false, inl, inr, List, [], ◌∷◌, String, leb, Bool-cases,
}
use ai_auto_platform.Db.Models.{Db}
use ai_auto_platform.Artifact.Storage.{
  ObjectStoragePort, StorageObjectRef, Stored, stored, storage_error, is_not_found,
}
use ai_auto_platform.Common.Libraries.{Libraries}
use ai_auto_platform.Upload.Rows.{is_object_key}
use ai_auto_platform.Maintenance.{State, add_events}
use ai_auto_platform.Maintenance.Orphans.{
  is_known, is_candidate, record_orphan, orphan_answered, delete_orphan, sweep_object,
  sweep_objects, delete_orphans,
}

-- The tables that know object keys are those of another database.
abbrev pub SameRows : Db → Db → Type 0
SameRows old new = (new.upload_sessions ≡ old.upload_sessions) × (new.artifacts ≡ old.artifacts)

module _ {R : Type 0} (lib : Libraries) (port : ObjectStoragePort R) (now grace : ℕ) where
  -- `P` is kept by a deletion of an object that no row of `db` knows and that is old enough.
  abbrev pub AllowsOrphans : (R → Type 0) → Db → Type 0
  AllowsOrphans P db =
      (item : StorageObjectRef) (r : R)
      → item.last_modified + grace ≤ now
      → is_object_key item.object_key ≡ true
      → is_known item.object_key db ≡ false
      → P r
      → P (port.delete item.object_key r).1

  -- The rows are those of `db`, and what the storage holds has `P`.
  abbrev IsSafe : (R → Type 0) → Db → State R → Type 0
  IsSafe P db s = SameRows db s.db × P s.remote

  record-IsSafe :
      (P : R → Type 0) (db : Db) (key : String) (s : State R)
      → IsSafe P db s
      → IsSafe P db (record_orphan lib port now grace key s)
  unfolding record_orphan add_events
  record-IsSafe P db key s h = h

  answered-IsSafe :
      (P : R → Type 0) (db : Db) (key : String) (answer : Stored (Unit {0})) (s : State R)
      → IsSafe P db s
      → IsSafe P db (orphan_answered lib port now grace key answer s)
  answered-IsSafe P db key (stored _) s h = record-IsSafe P db key s h
  answered-IsSafe P db key (storage_error e) s h = elim (Bool-cases (is_not_found e.code)) [
    | inl gone ↦ rw gone (record-IsSafe P db key s h)
    | inr failed ↦ rw failed h
  ]

  object-IsSafe :
      (P : R → Type 0) (db : Db) (item : StorageObjectRef) (seen : ℕ) (s : State R)
      → AllowsOrphans P db
      → IsSafe P db s
      → IsSafe P db (sweep_object lib port now grace item seen s).1
  unfolding sweep_object delete_orphan is_known
  object-IsSafe P db item seen s allowed h = elim (Bool-cases (is_candidate now grace item)) [
    | inr other ↦ rw other h
    | inl candidate ↦ rw candidate (elim (Bool-cases (is_known item.object_key s.db)) [
      | inl known ↦ rw known h
      | inr orphan ↦
          let (answer, r) = port.delete item.object_key s.remote in
          let unknown : is_known item.object_key db ≡ false = ground (arith, h.0, orphan) in
          rw orphan (
            answered-IsSafe P db item.object_key answer (record s { remote = r })
              (h.0, allowed item s.remote (ground arith) (ground arith) unknown h.1))
    ])
  ]

  sweep-IsSafe :
      (P : R → Type 0) (db : Db) (batch_size seen : ℕ) (items : List StorageObjectRef) (s : State R)
      → AllowsOrphans P db
      → IsSafe P db s
      → IsSafe P db (sweep_objects lib port now grace batch_size seen items s).1
  unfolding sweep_objects
  sweep-IsSafe P db batch_size seen [] s allowed h = h
  sweep-IsSafe P db batch_size seen (item ∷ items) s allowed h =
      elim (Bool-cases (leb batch_size seen)) [
        | inl full ↦ rw full h
        | inr room ↦
            let (seen', s') = sweep_object lib port now grace item seen s in
            rw room (
              sweep-IsSafe P db batch_size seen' items s' allowed
                (object-IsSafe P db item seen s allowed h))
      ]

  -- The sweep of orphans changes no session and no artifact, and of the storage it keeps whatever
  -- the listing keeps and the deletion of one object keeps, if that object is at least as old as
  -- the grace period, has a key of this program, and is known to no session and to no artifact
  -- but deleted ones: no other object is deleted.
  pub delete_orphans-SameRows :
      (P : R → Type 0) (batch_size : ℕ) (s : State R)
      → AllowsOrphans P s.db
      → P (port.list_objects "v1/o/" s.remote).1
      → SameRows s.db (delete_orphans lib port now grace batch_size s).1.db
        × P (delete_orphans lib port now grace batch_size s).1.remote
  unfolding delete_orphans
  delete_orphans-SameRows P batch_size s allowed listed =
      let ((items, error), r) = port.list_objects "v1/o/" s.remote in
      sweep-IsSafe P s.db batch_size 0 items (record s { remote = r }) allowed
        ((refl, refl), listed)
