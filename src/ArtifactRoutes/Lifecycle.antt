-- ===== src/ArtifactRoutes/Lifecycle.antt =====
-- The states of artifacts as a step relation, for the routes and the maintenance.
use ai_auto_platform.Prelude.{
  ℕ, ◌≡◌, refl, ap, ◌∙◌, subst, false, some, inl, inr, List, arith, Bool-cases, find_by, replace_by,
  ◌==◌, find_by-replace_by_self, find_by-replace_by_ne,
}
use ai_auto_platform.Db.Models.{ArtifactModel}
use ai_auto_platform.Artifact.Domain.{ArtifactStatus, same_artifact_status}
use ai_auto_platform.Artifact.Rows.{has_artifact_id}

infix 40 ◌⇢◌
-- The edges: a deletion is requested of an artifact that is not deleted, the maintenance finishes
-- it, and an available artifact fails when its object is missing.
pub data ◌⇢◌ : ArtifactStatus → ArtifactStatus → Type 0 where
  request :
      {s : ArtifactStatus}
      → same_artifact_status s ArtifactStatus.deleted ≡ false
      → s ⇢ ArtifactStatus.deleting
  finish : ArtifactStatus.deleting ⇢ ArtifactStatus.deleted
  lose : ArtifactStatus.available ⇢ ArtifactStatus.failed
  stay : {s : ArtifactStatus} → s ⇢ s

-- A write to one artifact: it follows an edge and keeps what identifies its object and its content.
pub record Change (old new : ArtifactModel) : Type 0 where
  pub same_id : new.id ≡ old.id
  pub same_session : new.upload_session_id ≡ old.upload_session_id
  pub same_key : new.object_key ≡ old.object_key
  pub same_size : new.size_bytes ≡ old.size_bytes
  pub same_sha256 : new.verified_sha256 ≡ old.verified_sha256
  pub same_integrity : new.integrity_status ≡ old.integrity_status
  pub edge : old.status ⇢ new.status

pub data Changes (xs : List ArtifactModel) : List ArtifactModel → Type 0 where
  here : Changes xs xs
  next :
      {ys : List ArtifactModel}
      → Changes xs ys
      → (old new : ArtifactModel) → find_by (has_artifact_id old.id) ys ≡ some old
      → Change old new
      → Changes xs (replace_by (has_artifact_id new.id) new ys)

abbrev artifact_id : ArtifactModel → ℕ
artifact_id a = a.id

deleted_edge :
    {s t : ArtifactStatus} → s ⇢ t → s ≡ ArtifactStatus.deleted → t ≡ ArtifactStatus.deleted
deleted_edge (◌⇢◌.request live) h = let impossible = rw h at live in cc
deleted_edge ◌⇢◌.finish h = refl
deleted_edge ◌⇢◌.lose h = cc
deleted_edge ◌⇢◌.stay h = h

-- The artifact with this id is there, deleted.
pub record IsDeleted (id : ℕ) (xs : List ArtifactModel) : Type 0 where
  pub row : ArtifactModel
  pub found : find_by (has_artifact_id id) xs ≡ some row
  pub is_deleted : row.status ≡ ArtifactStatus.deleted

Change-IsDeleted :
    (id : ℕ) (xs : List ArtifactModel) (old new : ArtifactModel)
    → find_by (has_artifact_id old.id) xs ≡ some old
    → Change old new
    → IsDeleted id xs
    → IsDeleted id (replace_by (has_artifact_id new.id) new xs)
Change-IsDeleted id xs old new f c h = elim (Bool-cases (new.id == id)) [
  | inl e ↦
      let same : new.id ≡ id = ground arith in
      let here_now : find_by (has_artifact_id new.id) xs ≡ some old = rw (c.same_id) f in
      let old_row : old ≡ h.row = ground (arith, rw same at here_now, h.found) in
      let gone = ap (λ (a : ArtifactModel). a.status) old_row ∙ h.is_deleted in
      record {
        row = new;
        found =
            subst
              (λ k.
                find_by (has_artifact_id k) (replace_by (has_artifact_id new.id) new xs) ≡ some new)
              same (find_by-replace_by_self artifact_id new old xs here_now);
        is_deleted = deleted_edge c.edge gone;
      }
  | inr e ↦ record {
    row = h.row;
    found = rw (find_by-replace_by_ne artifact_id id new xs e) (h.found);
    is_deleted = h.is_deleted;
  }
]

-- An artifact that is deleted stays deleted.
pub Changes-IsDeleted :
    (id : ℕ) {xs ys : List ArtifactModel} → Changes xs ys → IsDeleted id xs → IsDeleted id ys
Changes-IsDeleted id here h = h
Changes-IsDeleted id (next {ys} r old new f c) h =
    Change-IsDeleted id ys old new f c (Changes-IsDeleted id r h)
