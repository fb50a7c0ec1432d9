-- ===== src/ProjectRoutes/Updates/Once.antt =====
-- A version of a project that a client has used, about `update_project`, `archive_project`,
-- `restore_project` and `delete_project` of api/projects.py.
use ai_auto_platform.Prelude.{
  ℕ, ◌+◌, List, ◌≡◌, refl, sym, ap, ◌∙◌, subst, arith, true, false, inl, inr, Option, some, String,
  find_by, find_by-holds, Distinct, Distinct-replace_by, find_by-replace_by_self, find_by-has_key,
}
use ai_auto_platform.Errors.{ok, err, domain_error, version_mismatch, Result-cases}
use ai_auto_platform.Db.Models.{Db, ProjectModel, Json}
use ai_auto_platform.Exec.{World, Context, Response, check, ◌>>=◌}
use ai_auto_platform.Common.Libraries.{Libraries, Integer, pos, negsuc}
use ai_auto_platform.ArtifactRoutes.Visible.{is_version}
use ai_auto_platform.Upload.Authorize.{is_live_project}
use ai_auto_platform.ProjectRoutes.Payloads.{ProjectUpdate}
use ai_auto_platform.ProjectRoutes.Versions.{check_version}
use ai_auto_platform.ProjectRoutes.Access.{require_project_admin}
use ai_auto_platform.ProjectRoutes.Rows.{has_project_id, next_version}
use ai_auto_platform.ProjectRoutes.Changes.{updated_project, given_name}
use ai_auto_platform.ProjectRoutes.Updates.{
  update_project, change_status, archive_project, restore_project, delete_project,
}
use ai_auto_platform.ProjectRoutes.Updates.Flushed.{project_key}
use ai_auto_platform.ProjectRoutes.Updates.Locking.{IsGiven, Updated, update_project-Updated}
use ai_auto_platform.ProjectRoutes.Updates.Archived.{require_project_admin-found}

-- The project under this id has the version that follows the one that `If-Match` gives.
record IsAhead (lib : Libraries) (if_match : Option String) (id : ℕ) (projects : List ProjectModel)
    : Type 0 where
  row : ProjectModel
  found : find_by (has_project_id id) projects ≡ some row
  old : ProjectModel
  given : IsGiven lib if_match old
  ahead : row.version ≡ old.version + 1

is_version-next :
    (version : ℕ) (given : Integer)
    → is_version version given ≡ true
    → is_version (version + 1) given ≡ false
is_version-next version (pos n) h = ground arith
is_version-next version (negsuc n) h = refl

check_version-ahead :
    (lib : Libraries) (if_match : Option String) (old row : ProjectModel)
    → IsGiven lib if_match old
    → row.version ≡ old.version + 1
    → check_version lib row if_match ≡ err (domain_error version_mismatch 412)
unfolding check_version
check_version-ahead lib if_match old row given ahead =
    rw (given.read) (rw ahead (rw (is_version-next old.version given.given given.current) refl))

updated_project-id :
    (p : ProjectUpdate) (project new : ProjectModel)
    → updated_project p project ≡ ok new
    → new.id ≡ project.id
unfolding updated_project
updated_project-id p project new h = elim (Result-cases (given_name p.name project.name)) [
  | inr (e, wrong) ↦ let raised = rw wrong at h in cc
  | inl (name, fine) ↦ let done = rw fine at h in cc
]

-- The row that an administrator's request reads has the id that it asks for.
admin-id :
    (org id user : ℕ) (db : Db) (project : ProjectModel)
    → require_project_admin org id user db ≡ ok project
    → project.id ≡ id
admin-id org id user db project h = ground (
  arith,
  find_by-holds (is_live_project org id) db.projects project
      (require_project_admin-found org id user db project h),
)

admin-by_id :
    (org id user : ℕ) (db : Db) (project : ProjectModel)
    → Distinct project_key db.projects
    → require_project_admin org id user db ≡ ok project
    → find_by (has_project_id id) db.projects ≡ some project
admin-by_id org id user db project distinct h =
    subst (λ k. find_by (has_project_id k) db.projects ≡ some project)
      (admin-id org id user db project h)
      (find_by-has_key project_key (is_live_project org id) project db.projects distinct
        (require_project_admin-found org id user db project h))

Updated-IsAhead :
    (lib : Libraries) (ctx : Context) (org id : ℕ) (p : ProjectUpdate) (if_match : Option String)
    → (seen before after : Db) → Distinct project_key before.projects
    → (after.projects ≡ before.projects → ⊥)
    → Updated lib ctx org id p if_match seen before after
    → IsAhead lib if_match id after.projects × Distinct project_key after.projects
unfolding next_version
Updated-IsAhead lib ctx org id p if_match seen before after distinct wrote u = elim (u.outcome) [
  | inr nothing ↦ elim (wrote nothing.kept) [ ]
  | inl f ↦
      let new = next_version ctx.db_now u.project u.new in
      let same : new.id ≡ u.project.id = updated_project-id p u.project u.new u.changed in
      let there : find_by (has_project_id new.id) before.projects ≡ some f.row = rw same f.found in
      (
        record {
          row = new;
          found =
              subst (λ k. find_by (has_project_id k) after.projects ≡ some new)
                (same ∙ admin-id org id ctx.actor_id seen u.project u.allowed)
                (ap (find_by (has_project_id new.id)) f.written
                  ∙ find_by-replace_by_self project_key new f.row before.projects there);
          old = u.project;
          given = u.is_given;
          ahead = refl;
        },
        subst (Distinct project_key) (sym f.written)
            (Distinct-replace_by project_key new before.projects distinct),
      )
]

module _ {R : Type 0} (lib : Libraries) (ctx : Context) (others : Db → Db) (org id : ℕ)
    (if_match : Option String) (w : World R) (project : ProjectModel)
    (allowed : require_project_admin org id ctx.actor_id w.pending ≡ ok project)
    (stale : check_version lib project if_match ≡ err (domain_error version_mismatch 412)) where
  update_project-stale :
      (p : ProjectUpdate)
      → update_project lib ctx others org id p if_match w
        ≡ (err (domain_error version_mismatch 412), w)
  unfolding update_project ◌>>=◌ check
  update_project-stale p = rw (allowed, stale) refl

  archive_project-stale :
      archive_project lib ctx others org id if_match w
      ≡ (err (domain_error version_mismatch 412), w)
  unfolding archive_project change_status ◌>>=◌ check
  archive_project-stale = rw (allowed, stale) refl

  restore_project-stale :
      restore_project lib ctx others org id if_match w
      ≡ (err (domain_error version_mismatch 412), w)
  unfolding restore_project change_status ◌>>=◌ check
  restore_project-stale = rw (allowed, stale) refl

  delete_project-stale :
      delete_project lib ctx others org id if_match w ≡ (err (domain_error version_mismatch 412), w)
  unfolding delete_project ◌>>=◌ check
  delete_project-stale = rw (allowed, stale) refl

-- A client that has changed a project cannot use the same `If-Match` again: after an update that
-- returns and has written to the projects, and as long as nobody else writes to them, each update,
-- archiving, restoring and deletion of this project that an administrator sends with it is refused
-- with 412 and does nothing, whatever other requests had committed before the update's flush; the
-- ids of the projects are distinct.
pub update_project-again :
    {R : Type 0} (lib : Libraries) (ctx : Context) (others : Db → Db) (org id : ℕ)
    → (p : ProjectUpdate) (if_match : Option String) (w : World R) (r : Response Json)
    → Distinct project_key (others w.durable).projects
    → (update_project lib ctx others org id p if_match w).0 ≡ ok r
    → ((update_project lib ctx others org id p if_match w).1.durable.projects
          ≡ (others w.durable).projects
        → ⊥)
    → (user : Context) (others' : Db → Db) (p' : ProjectUpdate) (v : World R)
    → v.pending.projects ≡ (update_project lib ctx others org id p if_match w).1.durable.projects
    → (project : ProjectModel) → require_project_admin org id user.actor_id v.pending ≡ ok project
    → (update_project lib user others' org id p' if_match v
        ≡ (err (domain_error version_mismatch 412), v))
      × (archive_project lib user others' org id if_match v
          ≡ (err (domain_error version_mismatch 412), v))
      × (restore_project lib user others' org id if_match v
          ≡ (err (domain_error version_mismatch 412), v))
      × (delete_project lib user others' org id if_match v
          ≡ (err (domain_error version_mismatch 412), v))
update_project-again lib ctx others org id p if_match w r distinct done wrote user others' p' v kept
      project allowed =
    let after = (update_project lib ctx others org id p if_match w).1.durable in
    let (ahead, still) =
      Updated-IsAhead lib ctx org id p if_match w.pending (others w.durable) after distinct wrote
        (update_project-Updated lib ctx others org id p if_match w r done) in
    let there =
      admin-by_id org id user.actor_id v.pending project
        (subst (Distinct project_key) (sym kept) still) allowed in
    let same : ahead.row ≡ project =
      same_row ahead.row project
        (sym ahead.found ∙ ap (find_by (has_project_id id)) (sym kept) ∙ there) in
    let stale =
      subst (λ x. check_version lib x if_match ≡ err (domain_error version_mismatch 412)) same
        (check_version-ahead lib if_match ahead.old ahead.row ahead.given ahead.ahead) in
    (
      update_project-stale lib user others' org id if_match v project allowed stale p',
      archive_project-stale lib user others' org id if_match v project allowed stale,
      restore_project-stale lib user others' org id if_match v project allowed stale,
      delete_project-stale lib user others' org id if_match v project allowed stale,
    )
  where
    same_row : (x y : ProjectModel) → some x ≡ some y → x ≡ y
    same_row x y e = cc
