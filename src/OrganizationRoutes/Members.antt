-- ===== src/OrganizationRoutes/Members.antt =====
-- `list_members`, `update_member` and `remove_member`
use ai_auto_platform.Prelude.{
  ℕ, Bool, Option, none, some, List, [], ◌∷◌, map, leb, ◌==◌, find_by, select, join_by, order_by,
}
use ai_auto_platform.Errors.{Result, ok, err, unhandled}
use ai_auto_platform.Db.Models.{OrganizationMemberModel, UserModel, Value}
use ai_auto_platform.Organization.Domain.{OrganizationRole, organization_role_value}
use ai_auto_platform.Organization.Access.{
  require_organization_member, change_member_role, remove_organization_member,
}
use ai_auto_platform.Exec.{Action, Context, pure, check, write, commit, ◌>>=◌, ◌>>◌}
use ai_auto_platform.OrganizationRoutes.Payloads.{MemberRead}
use ai_auto_platform.OrganizationRoutes.Events.{record_organization_change}

unfoldable pub member_read : OrganizationMemberModel → UserModel → MemberRead
member_read m u = record {
  organization_id = m.organization_id;
  user_id = u.id;
  email = u.email;
  display_name = u.display_name;
  role = m.role;
}

-- A user that is missing has no `email` to read.
abbrev pub loaded : Option UserModel → Result UserModel
loaded none = err unhandled
loaded (some u) = ok u

abbrev pub is_user : ℕ → UserModel → Bool
is_user user_id u = u.id == user_id

module _ {R : Type 0} (ctx : Context) where
  unfoldable pub list_members : ℕ → Action R (List MemberRead)
  unfolding member_read
  list_members organization_id = do
    check (require_organization_member organization_id ctx.actor_id)
    check λ db. ok (
        map (λ (m, u). member_read m u)
          (order_by (λ (m, _) (n, _). leb m.created_at n.created_at)
            (join_by (λ (m : OrganizationMemberModel) (u : UserModel). u.id == m.user_id)
              (select (λ m. m.organization_id == organization_id) db.organization_members)
              db.users)))

  unfoldable pub update_member : ℕ → ℕ → OrganizationRole → Action R MemberRead
  update_member organization_id member_id role = do
    (target, changed) ← check (change_member_role organization_id ctx.actor_id member_id role)
    write (λ _. changed)
    user ← check (λ db. ok (find_by (is_user member_id) db.users))
    record_organization_change ctx organization_id "organization.member.role.update"
        "organization_member" member_id "OrganizationMemberRoleChanged.v1"
        (("memberId", Value.uuid member_id)
          ∷ ("role", Value.text (organization_role_value target.role))
          ∷ [])
    commit
    u ← check (λ _. loaded user)
    pure (record {
      organization_id = organization_id;
      user_id = member_id;
      email = u.email;
      display_name = u.display_name;
      role = target.role;
    })

  -- Answers 204 without a body.
  unfoldable pub remove_member : ℕ → ℕ → Action R (Unit {0})
  remove_member organization_id member_id = do
    (_, left) ← check (remove_organization_member organization_id ctx.actor_id member_id)
    write (λ _. left)
    record_organization_change ctx organization_id "organization.member.remove"
        "organization_member" member_id "OrganizationMemberRemoved.v1"
        (("memberId", Value.uuid member_id) ∷ [])
    commit
    pure tt
