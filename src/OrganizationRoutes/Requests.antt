-- ===== src/OrganizationRoutes/Requests.antt =====
-- The routes of api/organizations.py that write, as requests, and a server that answers them one
-- after the other.
pub mod Kept
pub mod Histories
use ai_auto_platform.Prelude.{ℕ, Option, List, [], ◌∷◌, String}
use ai_auto_platform.Organization.Domain.{OrganizationRole}
use ai_auto_platform.Exec.{World, Context, serve}
use ai_auto_platform.Common.Libraries.{Libraries}
use ai_auto_platform.OrganizationRoutes.Payloads.{OrganizationCreate, InviteCreate}
use ai_auto_platform.OrganizationRoutes.Create.{create_organization}
use ai_auto_platform.OrganizationRoutes.Invites.{create_invite, revoke_invite}
use ai_auto_platform.OrganizationRoutes.Accept.{accept_invite}
use ai_auto_platform.OrganizationRoutes.Members.{update_member, remove_member}

pub data Route : Type 0 where
  create : OrganizationCreate → Option String → Route
  invite : String → ℕ → InviteCreate → Route
  revoke : ℕ → ℕ → Route
  accept : String → Route
  update : ℕ → ℕ → OrganizationRole → Route
  remove : ℕ → ℕ → Route

module _ {R : Type 0} (lib : Libraries) where
  -- What a request leaves behind, whether it returns or raises.
  unfoldable pub handle : Context → Route → World R → World R
  handle ctx (create p key) w = (serve (create_organization ctx lib p key) w).1
  handle ctx (invite token org p) w = (serve (create_invite lib ctx token org p) w).1
  handle ctx (revoke org id) w = (serve (revoke_invite ctx org id) w).1
  handle ctx (accept token) w = (serve (accept_invite lib ctx token) w).1
  handle ctx (update org member role) w = (serve (update_member ctx org member role) w).1
  handle ctx (remove org member) w = (serve (remove_member ctx org member) w).1

  unfoldable pub run : List (Context × Route) → World R → World R
  unfolding handle
  run [] w = w
  run ((ctx, route) ∷ rs) w = run rs (handle ctx route w)
