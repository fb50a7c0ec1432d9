-- ===== src/ProjectRoutes/Requests/Histories.antt =====
-- Histories of requests on projects, about the routes of api/projects.py.
use ai_auto_platform.Prelude.{ℕ, List, [], ◌∷◌, All}
use ai_auto_platform.Db.Models.{Db}
use ai_auto_platform.Exec.{World, Context}
use ai_auto_platform.Exec.Rules.{serve-keeps}
use ai_auto_platform.Common.Libraries.{Libraries}
use ai_auto_platform.ProjectRoutes.Requests.{
  Route, Request, create, update, archive, restore, delete, add_member, change_member,
  remove_member, handle, run,
}
use ai_auto_platform.ProjectRoutes.Requests.Codes.{IsCoded}
use ai_auto_platform.ProjectRoutes.Requests.Kept.{
  D, create_project-Keeps, update_project-Keeps, archive_project-Keeps, restore_project-Keeps,
  delete_project-Keeps, add_member-Keeps, update_member-Keeps, remove_member-Keeps,
}

abbrev KeepsCodes : (Db → Db) → Type 0
KeepsCodes others = (db : Db) → IsCoded db.projects → IsCoded (others db).projects

-- What is asked of the requests that commit before a flush.
abbrev pub IsQuiet : Route → Type 0
IsQuiet (update others id p if_match) = KeepsCodes others
IsQuiet (archive others id if_match) = KeepsCodes others
IsQuiet (restore others id if_match) = KeepsCodes others
IsQuiet (delete others id if_match) = KeepsCodes others
IsQuiet _ = Unit

module _ {R : Type 0} (lib : Libraries) where
  handle-IsCoded :
      (ctx : Context) (org : ℕ) (route : Route) (w : World R)
      → IsQuiet route
      → D w.durable
      → D (handle lib ctx org route w).durable
  unfolding handle
  handle-IsCoded ctx org (create p key) w q h =
      serve-keeps D _ w (create_project-Keeps lib ctx org p key) h
  handle-IsCoded ctx org (update others id p if_match) w q h =
      serve-keeps D _ w (λ v d _. update_project-Keeps lib ctx others q org id if_match v d p) h
  handle-IsCoded ctx org (archive others id if_match) w q h =
      serve-keeps D _ w (λ v d _. archive_project-Keeps lib ctx others q org id if_match v d) h
  handle-IsCoded ctx org (restore others id if_match) w q h =
      serve-keeps D _ w (λ v d _. restore_project-Keeps lib ctx others q org id if_match v d) h
  handle-IsCoded ctx org (delete others id if_match) w q h =
      serve-keeps D _ w (λ v d _. delete_project-Keeps lib ctx others q org id if_match v d) h
  handle-IsCoded ctx org (add_member id user role) w q h =
      serve-keeps D _ w (λ v d r. add_member-Keeps ctx org id user v d r role) h
  handle-IsCoded ctx org (change_member id user role) w q h =
      serve-keeps D _ w (λ v d r. update_member-Keeps ctx org id user v d r role) h
  handle-IsCoded ctx org (remove_member id user) w q h =
      serve-keeps D _ w (λ v d r. remove_member-Keeps ctx org id user v d r) h

  -- Whatever requests on projects the server answers, no two projects have the same id and no two
  -- of an organization the same code, if this is so at first and the requests that commit before a
  -- flush keep it.
  pub run-IsCoded :
      (rs : List Request) (w : World R)
      → All (λ r. IsQuiet r.route) rs
      → IsCoded w.durable.projects
      → IsCoded (run lib rs w).durable.projects
  unfolding run
  run-IsCoded [] w q h = h
  run-IsCoded (r ∷ rs) w q h =
      run-IsCoded rs (handle lib r.ctx r.organization_id r.route w) q.1
        (handle-IsCoded r.ctx r.organization_id r.route w q.0 h)
