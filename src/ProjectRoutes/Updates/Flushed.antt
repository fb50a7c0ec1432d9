-- ===== src/ProjectRoutes/Updates/Flushed.antt =====
-- What `_commit_project` of api/projects.py has found and what it leaves.
use ai_auto_platform.Prelude.{
  ℕ, ◌≡◌, true, false, not, ◌&&◌, ◌⊎◌, inl, inr, some, Bool, arith, find_by, exists_by, replace_by,
  Bool-cases, Option-cases,
}
use ai_auto_platform.Errors.{ok, Result-cases}
use ai_auto_platform.Db.Models.{Db, ProjectModel}
use ai_auto_platform.Exec.{World, Action, Context, check, write, commit, others_run, ◌>>=◌}
use ai_auto_platform.ProjectRoutes.Rows.{
  has_project_id, is_same_project, has_code, check_flush, next_version, commit_project,
}

abbrev pub project_key : ProjectModel → ℕ
project_key p = p.id

-- The world when other requests have committed.
abbrev after_others : {R : Type 0} → (Db → Db) → World R → World R
after_others others w = record w { durable = others w.durable; pending = others w.durable }

-- What is added to the session besides the project: it never raises and leaves the projects alone.
pub record IsAdded {R : Type 0} (added : Action R (Unit {0})) : Type 0 where
  pub answers : (w : World R) → (added w).0 ≡ ok tt
  pub projects : (w : World R) → (added w).1.pending.projects ≡ w.pending.projects

-- The row that was there is still of the version that was read, its code is free, and the row is
-- written over under the next version.
pub record Flushed (db_now : ℕ) (old new : ProjectModel) (before after : Db) : Type 0 where
  pub row : ProjectModel
  pub found : find_by (has_project_id old.id) before.projects ≡ some row
  pub same_version : row.version ≡ old.version
  pub free_code : exists_by (has_code new) before.projects ≡ false
  pub written :
      after.projects
      ≡ replace_by (has_project_id new.id) (next_version db_now old new) before.projects

-- Nothing has changed in the project, and nothing is written to it.
pub record Unflushed (old new : ProjectModel) (before after : Db) : Type 0 where
  pub same : is_same_project old new ≡ true
  pub kept : after.projects ≡ before.projects

pub check_flush-row :
    (old new : ProjectModel) (null_code : Bool) (db : Db)
    → check_flush old new null_code db ≡ ok tt
    → (row : ProjectModel) × (find_by (has_project_id old.id) db.projects ≡ some row)
      × (row.version ≡ old.version)
      × (exists_by (has_code new) db.projects ≡ false)
unfolding check_flush
check_flush-row old new null_code db h =
    elim (Option-cases (find_by (has_project_id old.id) db.projects)) [
      | inl missing ↦ let raised = rw missing at h in cc
      | inr (row, found) ↦ (row, found, ground (arith, h, found), ground (arith, h, found))
    ]

module _ {R : Type 0} (ctx : Context) (others : Db → Db) (old new : ProjectModel) (null_code : Bool)
    (added : Action R (Unit {0})) (is_added : IsAdded added) where
  -- A commit that returns either has had nothing to flush, or has found the row unchanged since it
  -- was read and has written it, whatever other requests have committed in between.
  pub commit_project-Flushed :
      (w : World R) (r : ProjectModel)
      → (commit_project ctx others old new null_code added w).0 ≡ ok r
      → Flushed ctx.db_now old new
          (others w.durable)
          (commit_project ctx others old new null_code added w).1.durable
        ⊎ Unflushed old new
            (others w.durable)
            (commit_project ctx others old new null_code added w).1.durable
  unfolding commit_project ◌>>=◌ check write commit others_run
  commit_project-Flushed w r h =
      let v = after_others others w in
      elim (Bool-cases (is_same_project old new && not null_code)) [
        | inl same ↦ inr (record {
          same = ground (arith, same);
          kept = rw (same, is_added.answers v) (is_added.projects v);
        })
        | inr changed ↦ elim (Result-cases (check_flush old new null_code (others w.durable))) [
          | inr (e, refused) ↦ let raised = rw (changed, refused) at h in cc
          | inl (_, passed) ↦
              let (row, found, version, free) =
                check_flush-row old new null_code (others w.durable) passed in
              inl (record {
                row = row;
                found = found;
                same_version = version;
                free_code = free;
                written = rw (changed, passed, is_added.answers _) (is_added.projects _);
              })
        ]
      ]
