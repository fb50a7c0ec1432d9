-- ===== src/OrganizationRoutes/Payloads.antt =====
-- The bodies of the requests and of the responses. A validator returns the value that the handler
-- sees, or `none` for a rejection (422).
use ai_auto_platform.Prelude.{
  ℕ, ◌&&◌, ◌||◌, not, Option, none, some, String, ◌==◌, if◌then◌else◌, has_length, strip,
  count_char, starts_with_char, ends_with_char,
}
use ai_auto_platform.Db.Models.{OrganizationInviteModel}
use ai_auto_platform.Organization.Domain.{OrganizationRole, is_owner}
use ai_auto_platform.Common.Libraries.{Libraries}

pub record OrganizationCreate : Type 0 where
  pub name : String

unfoldable pub validate_organization : OrganizationCreate → Option OrganizationCreate
validate_organization p = if has_length 2 120 p.name then some p else none

pub record InviteCreate : Type 0 where
  pub email : String
  pub role : OrganizationRole

unfoldable pub normalize_email : Libraries → String → Option String
unfolding strip count_char starts_with_char ends_with_char
normalize_email lib value =
    let normalized = lib.casefold (strip value) in
    if not (count_char b'@' normalized == 1)
      || starts_with_char b'@' normalized
      || ends_with_char b'@' normalized
    then none
    else some normalized

abbrev with_email : InviteCreate → Option String → Option InviteCreate
with_email p none = none
with_email p (some email) = some (record p { email = email })

-- The role is one of `InvitableRole`: an administrator or a member.
unfoldable pub validate_invite : Libraries → InviteCreate → Option InviteCreate
unfolding normalize_email
validate_invite lib p =
    if has_length 3 320 p.email && not (is_owner p.role)
    then with_email p (normalize_email lib p.email)
    else none

-- `InviteRead`, and `InviteCreated` if there is a token
pub record InviteRead : Type 0 where
  pub id : ℕ
  pub organization_id : ℕ
  pub email : String
  pub role : OrganizationRole
  pub expires_at : ℕ
  pub accepted_at : Option ℕ
  pub revoked_at : Option ℕ
  pub token : Option String

-- `_invite_read`
unfoldable pub invite_read : OrganizationInviteModel → Option String → InviteRead
invite_read invite token = record {
  id = invite.id;
  organization_id = invite.organization_id;
  email = invite.email;
  role = invite.role;
  expires_at = invite.expires_at;
  accepted_at = invite.accepted_at;
  revoked_at = invite.revoked_at;
  token = token;
}

pub record MemberRead : Type 0 where
  pub organization_id : ℕ
  pub user_id : ℕ
  pub email : String
  pub display_name : String
  pub role : OrganizationRole
