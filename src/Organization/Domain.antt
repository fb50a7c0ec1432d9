-- ===== src/Organization/Domain.antt =====
-- modules/organization/domain.py: the roles, and the in-memory aggregate `Organization`.
pub mod Owners
use ai_auto_platform.Prelude.{
  ℕ, Bool, true, false, ◌&&◌, not, Option, none, some, List, [], ◌∷◌, String, ◌==◌, if◌then◌else◌,
  is_some, find_by, replace_by, delete_by, exists_by, ◌++◌,
}
use ai_auto_platform.Errors.{
  Result, ok, ◌>>=◌, ◌>>◌, throw_if, or_throw, member_already_exists, member_not_found,
  last_owner_required,
}

pub data OrganizationRole : Type 0 where
  owner admin member : OrganizationRole

abbrev pub is_owner : OrganizationRole → Bool
is_owner OrganizationRole.owner = true
is_owner _ = false

-- `role in {OrganizationRole.OWNER, OrganizationRole.ADMIN}`
abbrev pub is_organization_admin : OrganizationRole → Bool
is_organization_admin OrganizationRole.member = false
is_organization_admin _ = true

unfoldable pub organization_role_value : OrganizationRole → String
organization_role_value OrganizationRole.owner = "OWNER"
organization_role_value OrganizationRole.admin = "ADMIN"
organization_role_value OrganizationRole.member = "MEMBER"

pub record OrganizationMember : Type 0 where
  pub user_id : ℕ
  pub role : OrganizationRole
  pub active : Bool

-- `members` is a dict: its entries in insertion order, each under its key.
pub record Organization : Type 0 where
  pub id : ℕ
  pub name : String
  pub members : List (ℕ × OrganizationMember)

abbrev pub has_key : ℕ → ℕ × OrganizationMember → Bool
has_key k (j, _) = k == j

-- `_member`
unfoldable pub get_member : Organization → ℕ → Result OrganizationMember
get_member o user_id = do
  (_, m) ← or_throw (find_by (has_key user_id) o.members) member_not_found 404
  ok m

abbrev pub is_other_owner : ℕ → ℕ × OrganizationMember → Bool
is_other_owner excluded (_, m) = m.active && not (m.user_id == excluded) && is_owner m.role

-- `_require_another_owner`
unfoldable pub require_another_owner : Organization → ℕ → Result (Unit {0})
require_another_owner o excluded =
    throw_if (not (exists_by (is_other_owner excluded) o.members)) last_owner_required 409

unfoldable pub add_member : Organization → OrganizationMember → Result Organization
add_member o m = do
  throw_if (is_some (find_by (has_key m.user_id) o.members)) member_already_exists 409
  ok (record o { members = o.members ++ (m.user_id, m) ∷ [] })

unfoldable pub change_role : Organization → ℕ → OrganizationRole → Result Organization
unfolding get_member require_another_owner
change_role o user_id role = do
  m ← get_member o user_id
  if is_owner m.role && not (is_owner role) then require_another_owner o user_id else ok tt
  ok (record o {
    members = replace_by (has_key user_id) (user_id, record m { role = role }) o.members;
  })

unfoldable pub remove_member : Organization → ℕ → Result Organization
unfolding get_member require_another_owner
remove_member o user_id = do
  m ← get_member o user_id
  if is_owner m.role then require_another_owner o user_id else ok tt
  ok (record o { members = delete_by (has_key user_id) o.members })
