-- ===== src/Tests/Organizations.antt =====
-- An invitation from its creation to its acceptance, and a history of requests on a company.
use ai_auto_platform.Prelude.{◌≡◌, refl, arith, none, some, List, [], ◌∷◌, String, strip}
use ai_auto_platform.Errors.{ok, err, domain_error, invite_already_accepted}
use ai_auto_platform.Db.Models.{Db, OrganizationInviteModel}
use ai_auto_platform.Organization.Domain.{OrganizationRole}
use ai_auto_platform.Organization.Access.{require_organization_admin}
use ai_auto_platform.Exec.{World, Context, ◌>>=◌}
use ai_auto_platform.Common.Reliability.{record_audit, record_outbox}
use ai_auto_platform.OrganizationRoutes.Payloads.{InviteCreate, InviteRead, invite_read}
use ai_auto_platform.OrganizationRoutes.Events.{record_organization_change}
use ai_auto_platform.OrganizationRoutes.Create.{new_membership}
use ai_auto_platform.OrganizationRoutes.Acceptable.{check_acceptable, check_new_member}
use ai_auto_platform.OrganizationRoutes.Invites.{
  create_invite, save_invite, new_invite, has_member_with_email, check_new_invite, check_token_hash,
}
use ai_auto_platform.OrganizationRoutes.Invites.Saved.{joined, create_invite-accept_invite}
use ai_auto_platform.OrganizationRoutes.Accept.{accept_invite}
use ai_auto_platform.OrganizationRoutes.Accept.Once.{
  Accepted, accept_invite-Accepted, accept_invite-again,
}
use ai_auto_platform.OrganizationRoutes.Requests.{Route, invite, accept, update, remove, run}
use ai_auto_platform.OrganizationRoutes.Requests.Histories.{
  IsOwned, IsPaired, run-IsOwned, run-IsPaired,
}
use ai_auto_platform.Tests.Samples.{context, database, libraries, world}

abbrev guest : Context
guest = record (context 0) {
  actor_id = 5;
  actor_email = "guest@company";
  actor_name = "Guest";
  now = 60;
}

abbrev open_invite : OrganizationInviteModel
open_invite = record {
  id = 40;
  organization_id = 7;
  email = "guest@company";
  role = OrganizationRole.member;
  token_hash = "text";
  invited_by = 1;
  expires_at = 100;
  accepted_at = none;
  revoked_at = none;
  created_at = 0;
}

abbrev inviting : Db
inviting = record database { organization_invites = open_invite ∷ [] }

abbrev inviting_world : World (List String)
inviting_world = record { durable = inviting; pending = inviting; remote = [] }

accept_invite-Accepted_example :
    Accepted libraries guest "token" inviting
      (accept_invite libraries guest "token" inviting_world).1
unfolding accept_invite check_acceptable check_new_member new_membership record_organization_change
    record_audit record_outbox ◌>>=◌
accept_invite-Accepted_example =
    accept_invite-Accepted libraries guest "token" inviting_world
      (joined guest 7 OrganizationRole.member) refl

accept_invite-again_example :
    accept_invite libraries
      (context 0)
      "token"
      (accept_invite libraries guest "token" inviting_world).1
    ≡ (
      err (domain_error invite_already_accepted 409),
      (accept_invite libraries guest "token" inviting_world).1,
    )
unfolding accept_invite check_acceptable check_new_member new_membership record_organization_change
    record_audit record_outbox ◌>>=◌
accept_invite-again_example =
    accept_invite-again libraries guest "token" inviting_world
      (joined guest 7 OrganizationRole.member) (context 0) refl (refl, tt)

abbrev invitation : InviteCreate
invitation = record { email = "guest@company"; role = OrganizationRole.admin }

abbrev created : InviteRead
created = record {
  id = 41;
  organization_id = 7;
  email = "guest@company";
  role = OrganizationRole.admin;
  expires_at = 604_800_000_050;
  accepted_at = none;
  revoked_at = none;
  token = some "token";
}

create_invite-accept_invite_example :
    (accept_invite libraries guest "token"
      (create_invite libraries (context 41) "token" 7 invitation world).1).0
    ≡ ok (joined guest 7 OrganizationRole.admin)
unfolding create_invite save_invite new_invite has_member_with_email check_new_invite
    check_token_hash invite_read strip require_organization_admin record_organization_change
    record_audit record_outbox ◌>>=◌
create_invite-accept_invite_example =
    create_invite-accept_invite libraries (context 41) "token" 7 invitation world created guest tt
      refl refl refl refl

-- The owner invites a guest, who accepts, is made an owner, and removes the first owner.
abbrev history : List (Context × Route)
history =
    (context 41, invite "token" 7 invitation)
    ∷ (guest, accept "token")
    ∷ (context 0, update 7 5 OrganizationRole.owner)
    ∷ (guest, remove 7 1)
    ∷ []

run-IsOwned_example : IsOwned 7 (run libraries history world).durable
run-IsOwned_example = run-IsOwned libraries history world 7 (omega arith)

run-IsPaired_example : IsPaired 0 0 (run libraries history world).durable
run-IsPaired_example = run-IsPaired libraries history world
