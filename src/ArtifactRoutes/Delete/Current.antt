-- ===== src/ArtifactRoutes/Delete/Current.antt =====
-- What a request to delete an artifact has checked and what it leaves, about `delete_artifact` of
-- api/artifacts.py.
use ai_auto_platform.Prelude.{
  ℕ, ◌≡◌, refl, arith, ◌+◌, length, length-append_one, some, true, false, Option, inl, inr, String,
  replace_by, Bool-cases,
}
use ai_auto_platform.Errors.{ok, Result-cases}
use ai_auto_platform.Db.Models.{Db, ArtifactModel, Json}
use ai_auto_platform.Artifact.Domain.{ArtifactStatus, same_artifact_status}
use ai_auto_platform.Artifact.Rows.{has_artifact_id, serialize_artifact}
use ai_auto_platform.Exec.{World, Context, Response, check, write, commit, pure, ◌>>=◌}
use ai_auto_platform.Common.Libraries.{Libraries, Integer}
use ai_auto_platform.Common.Reliability.{
  IdempotencyDecision, record_audit, record_outbox, complete_idempotent_command,
}
use ai_auto_platform.ArtifactRoutes.Visible.{version_of, is_version}
use ai_auto_platform.ArtifactRoutes.Delete.{request_deletion, delete_fresh}
use ai_auto_platform.ArtifactRoutes.Lifecycle.{◌⇢◌, Change}

request_deletion-Change :
    (db_now : ℕ) (a : ArtifactModel)
    → same_artifact_status a.status ArtifactStatus.deleted ≡ false
    → Change a (request_deletion db_now a)
unfolding request_deletion
request_deletion-Change db_now a live =
    elim (Bool-cases (same_artifact_status a.status ArtifactStatus.deleting)) [
      | inl already ↦ rw already (record {
        same_id = refl;
        same_session = refl;
        same_key = refl;
        same_size = refl;
        same_sha256 = refl;
        same_integrity = refl;
        edge = ◌⇢◌.stay;
      })
      | inr fresh ↦ rw fresh (record {
        same_id = refl;
        same_session = refl;
        same_key = refl;
        same_size = refl;
        same_sha256 = refl;
        same_integrity = refl;
        edge = ◌⇢◌.request live;
      })
    ]

request_deletion-deleting :
    (db_now : ℕ) (a : ArtifactModel) → (request_deletion db_now a).status ≡ ArtifactStatus.deleting
unfolding request_deletion
request_deletion-deleting db_now a =
    elim (Bool-cases (same_artifact_status a.status ArtifactStatus.deleting)) [
      | inl already ↦ rw already (ground arith)
      | inr fresh ↦ rw fresh refl
    ]

request_deletion-next :
    (db_now : ℕ) (a : ArtifactModel)
    → same_artifact_status a.status ArtifactStatus.deleting ≡ false
    → (request_deletion db_now a).version ≡ a.version + 1
unfolding request_deletion
request_deletion-next db_now a fresh = rw fresh refl

request_deletion-same :
    (db_now : ℕ) (a : ArtifactModel)
    → same_artifact_status a.status ArtifactStatus.deleting ≡ true
    → request_deletion db_now a ≡ a
unfolding request_deletion
request_deletion-same db_now a already = rw already refl

body_of : (x y : Response Json) → ok x ≡ ok y → y.content ≡ x.content
body_of x y h = cc

etag_of : (x y : Response Json) → ok x ≡ ok y → y.etag ≡ x.etag
etag_of x y h = cc

-- What a request that has returned was given, and what it has made durable: `a` is written over by
-- an artifact that is deleting, under the next version unless `a` has been deleting before.
pub record Requested {R : Type 0} (lib : Libraries) (if_match : Option String) (a : ArtifactModel)
    (old : Db) (r : Response Json) (end : World R) : Type 0 where
  pub given : Integer
  pub is_given : version_of lib if_match ≡ ok given
  pub is_current : is_version a.version given ≡ true
  pub was_there : same_artifact_status a.status ArtifactStatus.deleted ≡ false
  pub new : ArtifactModel
  pub is_deleting : new.status ≡ ArtifactStatus.deleting
  pub change : Change a new
  pub is_next :
      same_artifact_status a.status ArtifactStatus.deleting ≡ false → new.version ≡ a.version + 1
  pub is_same : same_artifact_status a.status ArtifactStatus.deleting ≡ true → new ≡ a
  pub artifacts : end.durable.artifacts ≡ replace_by (has_artifact_id new.id) new old.artifacts
  pub audited : length end.durable.audit_events ≡ length old.audit_events + 1
  pub published : length end.durable.outbox_events ≡ length old.outbox_events + 1
  pub body : r.content ≡ serialize_artifact new
  pub etag : r.etag ≡ some new.version

-- A request to delete an artifact that is not a replay and returns has been given the current
-- version of an artifact that is not deleted, and makes durable that the artifact is deleting, with
-- its object and content unchanged and under the next version unless it has been deleting before,
-- together with one audit event and one outbox event; the answer shows the artifact so.
pub delete_fresh-Requested :
    {R : Type 0} (lib : Libraries) (ctx : Context) (org project : ℕ) (if_match : Option String)
    → (a : ArtifactModel) (d : IdempotencyDecision) (w : World R) (r : Response Json)
    → (delete_fresh lib ctx org project if_match a d w).0 ≡ ok r
    → Requested lib if_match a w.pending r (delete_fresh lib ctx org project if_match a d w).1
unfolding delete_fresh record_audit record_outbox complete_idempotent_command ◌>>=◌ check write
    commit pure
delete_fresh-Requested lib ctx org project if_match a d w r h =
    elim (Result-cases (version_of lib if_match)) [
      | inr (e, refused) ↦ let raised = rw refused at h in cc
      | inl (given, is_given) ↦ elim (Bool-cases (is_version a.version given)) [
        | inr stale ↦ let raised = rw (is_given, stale) at h in cc
        | inl current ↦ elim (Bool-cases (same_artifact_status a.status ArtifactStatus.deleted)) [
          | inl gone ↦ let raised = rw (is_given, current, gone) at h in cc
          | inr live ↦
              let returned = rw (is_given, current, live) at h in
              let new = request_deletion ctx.db_now a in
              record {
                given = given;
                is_given = is_given;
                is_current = current;
                was_there = live;
                new = new;
                is_deleting = request_deletion-deleting ctx.db_now a;
                change = request_deletion-Change ctx.db_now a live;
                is_next = request_deletion-next ctx.db_now a;
                is_same = request_deletion-same ctx.db_now a;
                artifacts = rw (is_given, current, live) refl;
                audited = rw (is_given, current, live) (length-append_one w.pending.audit_events _);
                published =
                    rw (is_given, current, live) (length-append_one w.pending.outbox_events _);
                body = body_of _ r returned;
                etag = etag_of _ r returned;
              }
        ]
      ]
    ]
