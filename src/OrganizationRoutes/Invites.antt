-- ===== src/OrganizationRoutes/Invites.antt =====
-- `create_invite`, `list_invites` and `revoke_invite`
pub mod Saved
use ai_auto_platform.Prelude.{
  ℕ, ◌+◌, ◌*◌, Bool, true, false, ◌&&◌, ◌||◌, not, Option, none, some, List, [], ◌∷◌, String,
  str_eq, map, leb, ltb, ◌==◌, if◌then◌else◌, is_some, find_by, exists_by, select, join_by,
  order_by, strip,
}
use ai_auto_platform.Errors.{
  Result, ok, err, unhandled, throw_if, or_throw, member_already_exists, invite_already_exists,
  invite_not_found, invite_already_accepted,
}
use ai_auto_platform.Db.Models.{
  Db, OrganizationMemberModel, OrganizationInviteModel, UserModel, Value,
}
use ai_auto_platform.Organization.Domain.{organization_role_value}
use ai_auto_platform.Organization.Access.{require_organization_admin}
use ai_auto_platform.Exec.{Action, Context, pure, check, write, commit, ◌>>=◌, ◌>>◌}
use ai_auto_platform.Common.Libraries.{Libraries}
use ai_auto_platform.Common.Settings.{seconds}
use ai_auto_platform.OrganizationRoutes.Payloads.{InviteCreate, InviteRead, invite_read}
use ai_auto_platform.OrganizationRoutes.Events.{
  record_organization_change, has_invite_id, has_token_hash, is_invite_of, insert_invite,
  put_invite,
}

abbrev is_user_of : OrganizationMemberModel → UserModel → Bool
is_user_of m u = u.id == m.user_id

-- `existing_member`: a member of the organization whose user has this e-mail address.
unfoldable pub has_member_with_email : Libraries → ℕ → String → Db → Bool
has_member_with_email lib organization_id email db =
    exists_by
      (λ (m, u). m.organization_id == organization_id && str_eq (lib.sql_lower u.email) email)
      (join_by is_user_of db.organization_members db.users)

-- `not accepted_at and not revoked_at and expires_at > now`
abbrev pub is_live_invite : ℕ → OrganizationInviteModel → Bool
is_live_invite now i =
    not (is_some i.accepted_at) && not (is_some i.revoked_at) && ltb now i.expires_at

abbrev pub is_live_option : ℕ → Option OrganizationInviteModel → Bool
is_live_option now none = false
is_live_option now (some i) = is_live_invite now i

-- The flush of a row that is new: its id and its organization with the address are unique.
unfoldable pub check_new_invite : OrganizationInviteModel → Db → Result (Unit {0})
check_new_invite i db =
    if exists_by (has_invite_id i.id) db.organization_invites
      || exists_by (is_invite_of i.organization_id i.email) db.organization_invites
    then err unhandled
    else ok tt

-- The flush of any: the hash of the token is unique.
unfoldable pub check_token_hash : OrganizationInviteModel → Db → Result (Unit {0})
check_token_hash i db =
    if exists_by (λ j. str_eq j.token_hash i.token_hash && not (j.id == i.id))
      db.organization_invites
    then err unhandled
    else ok tt

-- `OrganizationInviteModel(…)` with the assignments behind it.
unfoldable pub new_invite :
    Libraries → Context → ℕ → InviteCreate → String → String → OrganizationInviteModel
new_invite lib ctx organization_id p email token = record {
  id = ctx.new_id;
  organization_id = organization_id;
  email = email;
  role = p.role;
  token_hash = lib.text_sha256 token;
  invited_by = ctx.actor_id;
  expires_at = ctx.now + seconds (7 * 24 * 60 * 60);
  accepted_at = none;
  revoked_at = none;
  created_at = ctx.db_now;
}

-- The assignments to a row that is there.
unfoldable pub renew_invite :
    Libraries → Context → InviteCreate → String → OrganizationInviteModel → OrganizationInviteModel
renew_invite lib ctx p token i = record i {
  role = p.role;
  token_hash = lib.text_sha256 token;
  invited_by = ctx.actor_id;
  expires_at = ctx.now + seconds (7 * 24 * 60 * 60);
  accepted_at = none;
  revoked_at = none;
}

module _ {R : Type 0} (lib : Libraries) (ctx : Context) where
  -- `existing or OrganizationInviteModel(…)`, the assignments and the flush.
  unfoldable pub save_invite :
      ℕ
      → InviteCreate
      → String
      → String
      → Option OrganizationInviteModel
      → Action R OrganizationInviteModel
  unfolding check_new_invite check_token_hash new_invite renew_invite
  save_invite organization_id p email token none = do
    let i = new_invite lib ctx organization_id p email token
    check (check_new_invite i)
    check (check_token_hash i)
    write (insert_invite i)
    pure i
  save_invite organization_id p email token (some existing) = do
    let i = renew_invite lib ctx p token existing
    check (check_token_hash i)
    write (put_invite i)
    pure i

  -- `token` is `secrets.token_urlsafe(32)`.
  unfoldable pub create_invite : String → ℕ → InviteCreate → Action R InviteRead
  unfolding save_invite has_member_with_email invite_read strip
  create_invite token organization_id p = do
    check (require_organization_admin organization_id ctx.actor_id)
    let email = lib.casefold (strip p.email)
    check λ db.
        throw_if (has_member_with_email lib organization_id email db) member_already_exists 409
    existing ←
        check (λ db. ok (find_by (is_invite_of organization_id email) db.organization_invites))
    check (λ _. throw_if (is_live_option ctx.now existing) invite_already_exists 409)
    i ← save_invite organization_id p email token existing
    record_organization_change ctx organization_id "organization.invite.create"
        "organization_invite" i.id "OrganizationInviteCreated.v1"
        (("inviteId", Value.uuid i.id) ∷ ("role", Value.text (organization_role_value i.role)) ∷ [])
    commit
    pure (invite_read i (some token))

module _ {R : Type 0} (ctx : Context) where
  unfoldable pub list_invites : ℕ → Action R (List InviteRead)
  list_invites organization_id = do
    check (require_organization_admin organization_id ctx.actor_id)
    check λ db. ok (
        map (λ (i : OrganizationInviteModel). invite_read i none)
          (order_by (λ i j. leb i.created_at j.created_at)
            (select (λ i. i.organization_id == organization_id) db.organization_invites)))

  -- Answers 204 without a body.
  unfoldable pub revoke_invite : ℕ → ℕ → Action R (Unit {0})
  revoke_invite organization_id invite_id = do
    check (require_organization_admin organization_id ctx.actor_id)
    i ← check λ db.
        or_throw
          (find_by (λ i. i.id == invite_id && i.organization_id == organization_id)
            db.organization_invites)
          invite_not_found 404
    check (λ _. throw_if (is_some i.accepted_at) invite_already_accepted 409)
    write (put_invite (record i { revoked_at = some ctx.now }))
    record_organization_change ctx organization_id "organization.invite.revoke"
        "organization_invite" i.id "OrganizationInviteRevoked.v1"
        (("inviteId", Value.uuid i.id) ∷ [])
    commit
    pure tt
