-- ===== src/OrganizationRoutes/Events.antt =====
-- `_record_organization_change`, and the rows of organizations, invitations and memberships.
use ai_auto_platform.Prelude.{
  ℕ, Bool, ◌&&◌, none, some, [], ◌∷◌, ◌++◌, String, str_eq, ◌==◌, replace_by,
}
use ai_auto_platform.Db.Models.{
  Db, Json, OrganizationModel, OrganizationMemberModel, OrganizationInviteModel,
}
use ai_auto_platform.Exec.{Action, Context, ◌>>◌}
use ai_auto_platform.Common.Reliability.{record_audit, record_outbox}

unfoldable pub record_organization_change :
    {R : Type 0}
    → Context
    → (organization_id : ℕ) (action resource_type : String) (resource_id : ℕ) (event_type : String)
    → Json
    → Action R (Unit {0})
record_organization_change ctx organization_id action resource_type resource_id event_type payload =
    record_audit ctx action resource_type resource_id (some organization_id) none payload
    >> record_outbox ctx.trace_id (some organization_id) "organization" organization_id event_type 1
        payload

abbrev pub has_invite_id : ℕ → OrganizationInviteModel → Bool
has_invite_id id i = i.id == id

abbrev pub has_token_hash : String → OrganizationInviteModel → Bool
has_token_hash hash i = str_eq i.token_hash hash

abbrev pub is_invite_of : ℕ → String → OrganizationInviteModel → Bool
is_invite_of organization_id email i = i.organization_id == organization_id && str_eq i.email email

abbrev pub insert_organization : OrganizationModel → Db → Db
insert_organization o db = record db { organizations = db.organizations ++ o ∷ [] }

abbrev pub insert_membership : OrganizationMemberModel → Db → Db
insert_membership m db = record db { organization_members = db.organization_members ++ m ∷ [] }

abbrev pub insert_invite : OrganizationInviteModel → Db → Db
insert_invite i db = record db { organization_invites = db.organization_invites ++ i ∷ [] }

abbrev pub put_invite : OrganizationInviteModel → Db → Db
put_invite i db = record db {
  organization_invites = replace_by (has_invite_id i.id) i db.organization_invites;
}
