-- ===== src/ProjectRoutes/Updates/Archived.antt =====
-- An archived project and the routes that write to it, about `archive_project` of api/projects.py
-- and `create_upload_session` of api/upload_sessions.py.
use ai_auto_platform.Prelude.{
  ℕ, ◌≡◌, refl, sym, ap, ◌∙◌, subst, arith, true, false, inl, inr, Option, some, String, find_by,
  find_by-holds, Distinct, Distinct-replace_by, find_by-replace_by_self, find_by-has_key,
}
use ai_auto_platform.Errors.{ok, err, Exception, Result-cases}
use ai_auto_platform.Db.Models.{Db, ProjectModel, Json}
use ai_auto_platform.Project.Domain.{ProjectStatus, is_project_active}
use ai_auto_platform.Exec.{World, Context, Response, serve, check, ◌>>=◌}
use ai_auto_platform.Common.Libraries.{Libraries}
use ai_auto_platform.Common.Settings.{Settings}
use ai_auto_platform.Upload.Payloads.{UploadSessionCreate}
use ai_auto_platform.Upload.Authorize.{is_live_project, authorized_project}
use ai_auto_platform.Upload.Authorize.Writers.{authorized_project-HasAccess}
use ai_auto_platform.Upload.Create.{create_upload_session}
use ai_auto_platform.ProjectRoutes.Access.{visible_project, require_project_admin}
use ai_auto_platform.ProjectRoutes.Rows.{
  has_project_id, is_same_project, same_project_status, next_version,
}
use ai_auto_platform.ProjectRoutes.Changes.{with_status}
use ai_auto_platform.ProjectRoutes.Updates.{change_status, archive_project}
use ai_auto_platform.ProjectRoutes.Updates.Flushed.{project_key, Flushed}
use ai_auto_platform.ProjectRoutes.Updates.Locking.{Restated, change_status-Restated}

-- The project with this id is there, archived.
pub record IsArchived (id : ℕ) (db : Db) : Type 0 where
  pub row : ProjectModel
  pub found : find_by (has_project_id id) db.projects ≡ some row
  pub archived : is_project_active row.status ≡ false

pub require_project_admin-found :
    (org id user : ℕ) (db : Db) (project : ProjectModel)
    → require_project_admin org id user db ≡ ok project
    → find_by (is_live_project org id) db.projects ≡ some project
unfolding require_project_admin visible_project
require_project_admin-found org id user db project h = ground arith

module _ (org id : ℕ) (db : Db) (project : ProjectModel)
    (distinct : Distinct project_key db.projects)
    (found : find_by (is_live_project org id) db.projects ≡ some project) where
  found_by_id : find_by (has_project_id project.id) db.projects ≡ some project
  found_by_id =
      find_by-has_key project_key (is_live_project org id) project db.projects distinct found

  same_id : project.id ≡ id
  same_id = ground (arith, find_by-holds (is_live_project org id) db.projects project found)

-- A write to a project that is archived is refused.
authorized_project-refused :
    (org id user : ℕ) (db : Db)
    → Distinct project_key db.projects
    → IsArchived id db
    → (e : Exception) × (authorized_project org id user true db ≡ err e)
authorized_project-refused org id user db distinct a =
    elim (Result-cases (authorized_project org id user true db)) [
      | inr (e, refused) ↦ (e, refused)
      | inl (p, allowed) ↦
          let access = authorized_project-HasAccess org id user true db p allowed in
          let there = found_by_id org id db p distinct access.is_here in
          let same = same_id org id db p distinct access.is_here in
          let open_now = access.is_open refl in
          let found = rw same at there in let closed = a.archived in let rows = a.found in cc
    ]

same_status :
    (s t : ProjectStatus)
    → same_project_status s t ≡ true
    → is_project_active s ≡ is_project_active t
same_status s t h = ground arith

same_status_of :
    (old new : ProjectModel)
    → is_same_project old new ≡ true
    → same_project_status old.status new.status ≡ true
unfolding is_same_project
same_status_of old new h = ground arith

Flushed-IsArchived :
    (ctx : Context) (id : ℕ) (project : ProjectModel) (before after : Db)
    → project.id ≡ id
    → Flushed ctx.db_now project (with_status ProjectStatus.archived ctx.now project) before after
    → IsArchived id after
unfolding with_status next_version
Flushed-IsArchived ctx id project before after same f =
    let new =
      next_version ctx.db_now project (with_status ProjectStatus.archived ctx.now project) in
    record {
      row = new;
      found =
          subst (λ k. find_by (has_project_id k) after.projects ≡ some new) same
            (ap (find_by (has_project_id project.id)) f.written
              ∙ find_by-replace_by_self project_key new f.row before.projects f.found);
      archived = refl;
    }

Restated-IsArchived :
    (lib : Libraries) (ctx : Context) (org id : ℕ) (project : ProjectModel)
    → (if_match : Option String) (before after : Db) → Distinct project_key before.projects
    → find_by (is_live_project org id) before.projects ≡ some project
    → Restated lib ctx project ProjectStatus.archived if_match before after
    → IsArchived id after × Distinct project_key after.projects
unfolding with_status next_version
Restated-IsArchived lib ctx org id project if_match before after distinct found r =
    elim (r.outcome) [
      | inl f ↦ (
        Flushed-IsArchived ctx id project before after
            (same_id org id before project distinct found) f,
        subst (Distinct project_key) (sym f.written) (
            Distinct-replace_by project_key
              (next_version ctx.db_now project (with_status ProjectStatus.archived ctx.now project))
              before.projects distinct),
      )
      | inr u ↦ (
        record {
          row = project;
          found =
              ap (find_by (has_project_id id)) u.kept
              ∙ subst (λ k. find_by (has_project_id k) before.projects ≡ some project)
                  (same_id org id before project distinct found)
                  (found_by_id org id before project distinct found);
          archived =
              same_status project.status ProjectStatus.archived (
                same_status_of project (with_status ProjectStatus.archived ctx.now project) u.same);
        },
        subst (Distinct project_key) (sym u.kept) distinct,
      )
    ]

module _ {R : Type 0} (lib : Libraries) (ctx : Context) (org id : ℕ) (if_match : Option String)
    (w : World R) (settled : w.pending ≡ w.durable)
    (distinct : Distinct project_key w.durable.projects) where
  archive_project-IsArchived :
      (r : Response Json)
      → (archive_project lib ctx (λ db. db) org id if_match w).0 ≡ ok r
      → IsArchived id (archive_project lib ctx (λ db. db) org id if_match w).1.durable
        × Distinct project_key
            (archive_project lib ctx (λ db. db) org id if_match w).1.durable.projects
  unfolding archive_project ◌>>=◌ check
  archive_project-IsArchived r h =
      elim (Result-cases (require_project_admin org id ctx.actor_id w.pending)) [
        | inr (e, refused) ↦ let raised = rw refused at h in cc
        | inl (project, allowed) ↦
            elim (Result-cases
              (change_status lib ctx (λ db. db) project ProjectStatus.archived if_match w).0) [
                | inr (e, lost) ↦ let raised = rw (allowed, lost) at h in cc
                | inl (row, done) ↦
                    rw (allowed, done)
                      (Restated-IsArchived lib ctx org id project if_match w.durable _ distinct
                        (rw settled at (
                          require_project_admin-found org id ctx.actor_id w.pending project
                            allowed))
                        (change_status-Restated lib ctx (λ db. db) project ProjectStatus.archived
                          if_match w row done))
              ]
      ]

create_upload_session-refused :
    {R : Type 0} (cfg : Settings) (ctx : Context) (lib : Libraries) (token : String)
    → (org id : ℕ) (p : UploadSessionCreate) (key : Option String) (w : World R) → (e : Exception)
    → authorized_project org id ctx.actor_id true w.durable ≡ err e
    → serve (create_upload_session cfg ctx lib token org id p key) w
      ≡ (err e, record w { pending = w.durable })
unfolding serve create_upload_session ◌>>=◌ check
create_upload_session-refused cfg ctx lib token org id p key w e h = rw h refl

-- When an administrator has archived a project and nobody has interfered, no user can open an
-- upload in it: each such request is refused and leaves nothing; the ids of the projects are
-- distinct.
pub archive_project-create_upload_session :
    {R : Type 0} (lib : Libraries) (ctx : Context) (org id : ℕ) (if_match : Option String)
    → (w : World R) (r : Response Json) → Distinct project_key w.durable.projects
    → w.pending ≡ w.durable
    → (archive_project lib ctx (λ db. db) org id if_match w).0 ≡ ok r
    → (cfg : Settings) (user : Context) (token : String) (p : UploadSessionCreate)
    → (key : Option String)
    → let v = (archive_project lib ctx (λ db. db) org id if_match w).1 in
      (e : Exception) × (serve (create_upload_session cfg user lib token org id p key) v
        ≡ (err e, record v { pending = v.durable }))
archive_project-create_upload_session lib ctx org id if_match w r distinct settled h cfg user token
      p key =
    let v = (archive_project lib ctx (λ db. db) org id if_match w).1 in
    let (archived, still) =
      archive_project-IsArchived lib ctx org id if_match w settled distinct r h in
    let (e, refused) = authorized_project-refused org id user.actor_id v.durable still archived in
    (e, create_upload_session-refused cfg user lib token org id p key v e refused)
