-- ===== src/ProjectRoutes/Updates/Locking.antt =====
-- The version of a project that a client has to give to change it, about `update_project`,
-- `archive_project` and `restore_project` of api/projects.py.
use ai_auto_platform.Prelude.{ℕ, ◌≡◌, refl, true, false, ◌⊎◌, inl, inr, Option, String, Bool-cases}
use ai_auto_platform.Errors.{ok, Result-cases}
use ai_auto_platform.Db.Models.{Db, ProjectModel, Json}
use ai_auto_platform.Project.Domain.{ProjectStatus}
use ai_auto_platform.Exec.{World, Context, Response, check, write, pure, ◌>>=◌}
use ai_auto_platform.Common.Libraries.{Libraries, Integer}
use ai_auto_platform.Common.Reliability.{record_audit, record_outbox}
use ai_auto_platform.ArtifactRoutes.Visible.{is_version}
use ai_auto_platform.ProjectRoutes.Payloads.{ProjectUpdate}
use ai_auto_platform.ProjectRoutes.Versions.{expected_version, check_version}
use ai_auto_platform.ProjectRoutes.Access.{require_project_admin}
use ai_auto_platform.ProjectRoutes.Rows.{commit_project}
use ai_auto_platform.ProjectRoutes.Changes.{is_null, updated_project, with_status}
use ai_auto_platform.ProjectRoutes.Updates.{update_project, record_status, change_status}
use ai_auto_platform.ProjectRoutes.Updates.Flushed.{
  IsAdded, Flushed, Unflushed, commit_project-Flushed,
}

-- `If-Match` gives the version of the project.
pub record IsGiven (lib : Libraries) (if_match : Option String) (project : ProjectModel)
    : Type 0 where
  pub given : Integer
  pub read : expected_version lib if_match ≡ ok given
  pub current : is_version project.version given ≡ true

check_version-IsGiven :
    (lib : Libraries) (if_match : Option String) (project : ProjectModel)
    → check_version lib project if_match ≡ ok tt
    → IsGiven lib if_match project
unfolding check_version
check_version-IsGiven lib if_match project h = elim (Result-cases (expected_version lib if_match)) [
  | inr (e, refused) ↦ let raised = rw refused at h in cc
  | inl (given, read) ↦ elim (Bool-cases (is_version project.version given)) [
    | inr stale ↦ let raised = rw (read, stale) at h in cc
    | inl current ↦ record { given = given; read = read; current = current }
  ]
]

nothing-IsAdded : {R : Type 0} → IsAdded {R = R} (pure tt)
unfolding pure
nothing-IsAdded = record { answers = λ w. refl; projects = λ w. refl }

status-IsAdded :
    {R : Type 0} (ctx : Context) (project : ProjectModel) (target : ProjectStatus)
    → IsAdded {R = R} (record_status ctx project target)
unfolding record_status record_audit record_outbox ◌>>=◌ write
status-IsAdded ctx project target = record { answers = λ w. refl; projects = λ w. refl }

-- What an update that has returned has read, was given and has left.
pub record Updated (lib : Libraries) (ctx : Context) (org id : ℕ) (p : ProjectUpdate)
    (if_match : Option String) (seen before after : Db) : Type 0 where
  pub project : ProjectModel
  pub allowed : require_project_admin org id ctx.actor_id seen ≡ ok project
  pub is_given : IsGiven lib if_match project
  pub new : ProjectModel
  pub changed : updated_project p project ≡ ok new
  pub outcome : Flushed ctx.db_now project new before after ⊎ Unflushed project new before after

-- An update that returns was sent by an administrator with the version of the project that it has
-- read; whatever other requests have committed since, it has either written over a row that is
-- still of that version, under the next one, or nothing, when it changes nothing.
pub update_project-Updated :
    {R : Type 0} (lib : Libraries) (ctx : Context) (others : Db → Db) (org id : ℕ)
    → (p : ProjectUpdate) (if_match : Option String) (w : World R) (r : Response Json)
    → (update_project lib ctx others org id p if_match w).0 ≡ ok r
    → Updated lib ctx org id p if_match w.pending
        (others w.durable)
        (update_project lib ctx others org id p if_match w).1.durable
unfolding update_project ◌>>=◌ check
update_project-Updated lib ctx others org id p if_match w r h =
    elim (Result-cases (require_project_admin org id ctx.actor_id w.pending)) [
      | inr (e, refused) ↦ let raised = rw refused at h in cc
      | inl (project, allowed) ↦ elim (Result-cases (check_version lib project if_match)) [
        | inr (e, stale) ↦ let raised = rw (allowed, stale) at h in cc
        | inl (_, current) ↦ elim (Result-cases (updated_project p project)) [
          | inr (e, wrong) ↦ let raised = rw (allowed, current, wrong) at h in cc
          | inl (new, changed) ↦
              elim (Result-cases
                (commit_project ctx others project new (is_null p.code) (pure tt) w).0) [
                  | inr (e, lost) ↦ let raised = rw (allowed, current, changed, lost) at h in cc
                  | inl (row, done) ↦ record {
                    project = project;
                    allowed = allowed;
                    is_given = check_version-IsGiven lib if_match project current;
                    new = new;
                    changed = changed;
                    outcome =
                        rw (allowed, current, changed, done)
                          (commit_project-Flushed ctx others project new (is_null p.code) (pure tt)
                            nothing-IsAdded w row done);
                  }
                ]
        ]
      ]
    ]

-- What a change of the status that has returned was given and has left.
pub record Restated (lib : Libraries) (ctx : Context) (project : ProjectModel)
    (target : ProjectStatus) (if_match : Option String) (before after : Db) : Type 0 where
  pub is_given : IsGiven lib if_match project
  pub outcome :
      Flushed ctx.db_now project (with_status target ctx.now project) before after
      ⊎ Unflushed project (with_status target ctx.now project) before after

pub change_status-Restated :
    {R : Type 0} (lib : Libraries) (ctx : Context) (others : Db → Db) (project : ProjectModel)
    → (target : ProjectStatus) (if_match : Option String) (w : World R) (row : ProjectModel)
    → (change_status lib ctx others project target if_match w).0 ≡ ok row
    → Restated lib ctx project target if_match
        (others w.durable)
        (change_status lib ctx others project target if_match w).1.durable
unfolding change_status ◌>>=◌ check
change_status-Restated lib ctx others project target if_match w row h =
    elim (Result-cases (check_version lib project if_match)) [
      | inr (e, stale) ↦ let raised = rw stale at h in cc
      | inl (_, current) ↦
          let done = rw current at h in
          record {
            is_given = check_version-IsGiven lib if_match project current;
            outcome = rw current (
                commit_project-Flushed ctx others project (with_status target ctx.now project) false
                  (record_status ctx project target) (status-IsAdded ctx project target) w row
                  done);
          }
    ]
