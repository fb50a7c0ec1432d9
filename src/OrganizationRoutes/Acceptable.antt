-- ===== src/OrganizationRoutes/Acceptable.antt =====
-- The checks of `accept_invite`
use ai_auto_platform.Prelude.{not, str_eq, leb, is_some, exists_by}
use ai_auto_platform.Errors.{
  Result, ◌>>◌, throw_if, invite_already_accepted, invite_revoked, invite_expired,
  invite_email_mismatch, member_already_exists,
}
use ai_auto_platform.Db.Models.{Db, OrganizationMemberModel, OrganizationInviteModel}
use ai_auto_platform.Organization.Access.{is_membership}
use ai_auto_platform.Exec.{Context}
use ai_auto_platform.Common.Libraries.{Libraries}

-- The checks on the invitation, in their order.
unfoldable pub check_acceptable : Libraries → Context → OrganizationInviteModel → Result (Unit {0})
check_acceptable lib ctx i = do
  throw_if (is_some i.accepted_at) invite_already_accepted 409
  throw_if (is_some i.revoked_at) invite_revoked 409
  throw_if (leb i.expires_at ctx.now) invite_expired 409
  throw_if (not (str_eq (lib.casefold ctx.actor_email) (lib.casefold i.email)))
      invite_email_mismatch 403

-- The flush of the membership at the commit: its key is unique.
unfoldable pub check_new_member : OrganizationMemberModel → Db → Result (Unit {0})
check_new_member m db =
    throw_if (exists_by (is_membership m.organization_id m.user_id) db.organization_members)
      member_already_exists 409
