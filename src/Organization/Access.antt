-- ===== src/Organization/Access.antt =====
-- api/organization_access.py, as functions of the database.
-- `set_tenant_context` chooses the role and the variables of PostgreSQL's row-level security and
-- is left out: every query here names its organization.
use ai_auto_platform.Prelude.{
  ℕ, Bool, ◌&&◌, ◌||◌, not, leb, ◌==◌, if◌then◌else◌, find_by, replace_by, delete_by, count_by,
}
use ai_auto_platform.Errors.{
  Result, ok, ◌>>=◌, ◌>>◌, throw_if, or_throw, organization_not_found, organization_admin_required,
  member_not_found, last_owner_required, owner_permission_required,
}
use ai_auto_platform.Db.Models.{Db, OrganizationModel, OrganizationMemberModel}
use ai_auto_platform.Organization.Domain.{OrganizationRole, is_owner, is_organization_admin}

abbrev pub is_membership : ℕ → ℕ → OrganizationMemberModel → Bool
is_membership organization_id user_id m =
    m.organization_id == organization_id && m.user_id == user_id

abbrev pub is_organization : ℕ → OrganizationModel → Bool
is_organization organization_id o = o.id == organization_id

unfoldable pub require_organization_member : ℕ → ℕ → Db → Result OrganizationMemberModel
require_organization_member organization_id user_id db =
    or_throw (find_by (is_membership organization_id user_id) db.organization_members)
      organization_not_found 404

unfoldable pub require_organization_admin : ℕ → ℕ → Db → Result OrganizationMemberModel
unfolding require_organization_member
require_organization_admin organization_id user_id db = do
  membership ← require_organization_member organization_id user_id db
  throw_if (not (is_organization_admin membership.role)) organization_admin_required 403
  ok membership

-- `_lock_and_authorize`; the row lock orders the requests of one organization.
unfoldable pub lock_and_authorize : ℕ → ℕ → Db → Result OrganizationMemberModel
unfolding require_organization_admin
lock_and_authorize organization_id actor_id db = do
  or_throw (find_by (is_organization organization_id) db.organizations) organization_not_found 404
  require_organization_admin organization_id actor_id db

-- `_target`
unfoldable pub target_member : ℕ → ℕ → Db → Result OrganizationMemberModel
target_member organization_id member_id db =
    or_throw (find_by (is_membership organization_id member_id) db.organization_members)
      member_not_found 404

abbrev pub is_owner_of : ℕ → OrganizationMemberModel → Bool
is_owner_of organization_id m = m.organization_id == organization_id && is_owner m.role

unfoldable pub ensure_other_owner : ℕ → Db → Result (Unit {0})
ensure_other_owner organization_id db =
    throw_if (leb (count_by (is_owner_of organization_id) db.organization_members) 1)
      last_owner_required 409

-- The changed member, and the database with it.
unfoldable pub change_member_role :
    ℕ → ℕ → ℕ → OrganizationRole → Db → Result (OrganizationMemberModel × Db)
unfolding lock_and_authorize target_member ensure_other_owner
change_member_role organization_id actor_id member_id role db = do
  actor ← lock_and_authorize organization_id actor_id db
  target ← target_member organization_id member_id db
  throw_if ((is_owner target.role || is_owner role) && not (is_owner actor.role))
      owner_permission_required 403
  if is_owner target.role && not (is_owner role)
      then ensure_other_owner organization_id db
      else ok tt
  let changed = record target { role = role }
  let rows = replace_by (is_membership organization_id member_id) changed db.organization_members
  ok (changed, record db { organization_members = rows })

unfoldable pub remove_organization_member : ℕ → ℕ → ℕ → Db → Result (OrganizationMemberModel × Db)
unfolding lock_and_authorize target_member ensure_other_owner
remove_organization_member organization_id actor_id member_id db = do
  actor ← lock_and_authorize organization_id actor_id db
  target ← target_member organization_id member_id db
  if is_owner target.role
      then throw_if (not (is_owner actor.role)) owner_permission_required 403
        >> ensure_other_owner organization_id db
      else ok tt
  let rows = delete_by (is_membership organization_id member_id) db.organization_members
  ok (target, record db { organization_members = rows })
