-- ===== src/ProjectRoutes/Requests.antt =====
-- The routes of api/projects.py that write, as requests, and a server that answers them one after
-- the other. A change of a project carries what other requests commit before its flush.
pub mod Codes
pub mod Kept
pub mod Histories
use ai_auto_platform.Prelude.{ℕ, Option, List, [], ◌∷◌, String}
use ai_auto_platform.Db.Models.{Db}
use ai_auto_platform.Project.Domain.{ProjectRole}
use ai_auto_platform.Exec.{World, Context, serve}
use ai_auto_platform.Common.Libraries.{Libraries}
use ai_auto_platform.ProjectRoutes.Payloads.{ProjectCreate, ProjectUpdate}
use ai_auto_platform.ProjectRoutes.Create.{create_project}
use ai_auto_platform.ProjectRoutes.Updates.{
  update_project, archive_project, restore_project, delete_project,
}
use ai_auto_platform.ProjectRoutes.Members.{
  add_project_member, update_project_member, remove_project_member,
}

pub data Route : Type 0 where
  create : ProjectCreate → Option String → Route
  update : (others : Db → Db) → ℕ → ProjectUpdate → Option String → Route
  archive restore delete : (others : Db → Db) → ℕ → Option String → Route
  add_member change_member : ℕ → ℕ → ProjectRole → Route
  remove_member : ℕ → ℕ → Route

pub record Request : Type 0 where
  pub ctx : Context
  pub organization_id : ℕ
  pub route : Route

module _ {R : Type 0} (lib : Libraries) where
  -- What a request leaves behind, whether it returns or raises.
  unfoldable pub handle : Context → ℕ → Route → World R → World R
  handle ctx org (create p key) w = (serve (create_project ctx lib org p key) w).1
  handle ctx org (update others id p if_match) w =
      (serve (update_project lib ctx others org id p if_match) w).1
  handle ctx org (archive others id if_match) w =
      (serve (archive_project lib ctx others org id if_match) w).1
  handle ctx org (restore others id if_match) w =
      (serve (restore_project lib ctx others org id if_match) w).1
  handle ctx org (delete others id if_match) w =
      (serve (delete_project lib ctx others org id if_match) w).1
  handle ctx org (add_member id user role) w = (serve (add_project_member ctx org id user role) w).1
  handle ctx org (change_member id user role) w =
      (serve (update_project_member ctx org id user role) w).1
  handle ctx org (remove_member id user) w = (serve (remove_project_member ctx org id user) w).1

  unfoldable pub run : List Request → World R → World R
  unfolding handle
  run [] w = w
  run (r ∷ rs) w = run rs (handle r.ctx r.organization_id r.route w)
