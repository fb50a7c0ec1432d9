-- ===== src/OrganizationRoutes/Accept.antt =====
-- `accept_invite`. `resolve_invite_tenant` sets the tenant of the row-level security and is left
-- out: the query finds the invitation by the hash of its token alone.
pub mod Once
use ai_auto_platform.Prelude.{
  ℕ, Bool, true, false, not, Option, some, [], ◌∷◌, String, str_eq, leb, if◌then◌else◌, is_some,
  find_by, exists_by,
}
use ai_auto_platform.Errors.{or_throw, invite_not_found}
use ai_auto_platform.OrganizationRoutes.Acceptable.{check_acceptable, check_new_member}
use ai_auto_platform.Db.Models.{Db, OrganizationMemberModel, OrganizationInviteModel, Value}
use ai_auto_platform.Organization.Access.{is_membership}
use ai_auto_platform.Exec.{Action, Context, pure, check, write, commit, ◌>>=◌, ◌>>◌}
use ai_auto_platform.Common.Libraries.{Libraries}
use ai_auto_platform.OrganizationRoutes.Payloads.{MemberRead}
use ai_auto_platform.OrganizationRoutes.Events.{
  record_organization_change, has_token_hash, insert_membership, put_invite,
}
use ai_auto_platform.OrganizationRoutes.Create.{new_membership}

unfoldable pub accept_invite : {R : Type 0} → Libraries → Context → String → Action R MemberRead
unfolding check_acceptable check_new_member new_membership
accept_invite lib ctx token = do
  i ← check λ db.
      or_throw (find_by (has_token_hash (lib.text_sha256 token)) db.organization_invites)
        invite_not_found 404
  check (λ _. check_acceptable lib ctx i)
  let m = new_membership ctx i.organization_id i.role
  check (check_new_member m)
  write (insert_membership m)
  write (put_invite (record i { accepted_at = some ctx.now }))
  record_organization_change ctx i.organization_id "organization.invite.accept"
      "organization_invite" i.id "OrganizationInviteAccepted.v1"
      (("inviteId", Value.uuid i.id) ∷ ("memberId", Value.uuid ctx.actor_id) ∷ [])
  commit
  pure (record {
    organization_id = m.organization_id;
    user_id = ctx.actor_id;
    email = ctx.actor_email;
    display_name = ctx.actor_name;
    role = m.role;
  })
