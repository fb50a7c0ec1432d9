-- ===== src/OrganizationRoutes/Create.antt =====
-- `create_organization` and `list_organizations`
use ai_auto_platform.Prelude.{
  ℕ, Bool, false, ◌&&◌, Option, none, some, List, [], ◌∷◌, String, map, leb, ◌==◌, if◌then◌else◌,
  exists_by, join_by, order_by, strip,
}
use ai_auto_platform.Errors.{Result, ok, err, unhandled, throw_if, organization_conflict}
use ai_auto_platform.Db.Models.{Db, OrganizationModel, OrganizationMemberModel, Json, Value}
use ai_auto_platform.Organization.Domain.{OrganizationRole}
use ai_auto_platform.Organization.Access.{is_organization, is_membership}
use ai_auto_platform.Exec.{Action, Context, Response, pure, check, write, commit, ◌>>=◌, ◌>>◌}
use ai_auto_platform.Common.Libraries.{Libraries}
use ai_auto_platform.Common.Reliability.{
  IdempotencyDecision, begin_idempotent_command, complete_idempotent_command, record_audit,
  record_outbox, replay_or,
}
use ai_auto_platform.OrganizationRoutes.Payloads.{OrganizationCreate}
use ai_auto_platform.OrganizationRoutes.Events.{insert_organization, insert_membership}

-- `OrganizationRead.model_validate(organization).model_dump(mode="json")`
unfoldable pub serialize_organization : OrganizationModel → Json
serialize_organization o = ("id", Value.uuid o.id) ∷ ("name", Value.text o.name) ∷ []

unfoldable pub new_organization : Context → OrganizationCreate → OrganizationModel
unfolding strip
new_organization ctx p = record { id = ctx.new_id; name = strip p.name; created_at = ctx.db_now }

unfoldable pub new_membership : Context → ℕ → OrganizationRole → OrganizationMemberModel
new_membership ctx organization_id role = record {
  organization_id = organization_id;
  user_id = ctx.actor_id;
  role = role;
  created_at = ctx.db_now;
}

-- The flush of the organization: its key is unique.
unfoldable pub check_organization : OrganizationModel → Db → Result (Unit {0})
check_organization o db =
    if exists_by (is_organization o.id) db.organizations then err unhandled else ok tt

-- The flush of the membership at the commit: its key is unique.
unfoldable pub check_creator : OrganizationMemberModel → Db → Result (Unit {0})
check_creator m db =
    throw_if (exists_by (is_membership m.organization_id m.user_id) db.organization_members)
      organization_conflict 409

abbrev is_membership_of : ℕ → OrganizationModel → OrganizationMemberModel → Bool
is_membership_of user_id o m = o.id == m.organization_id && m.user_id == user_id

-- The organizations of the user, in the order of their creation.
unfoldable pub organizations_of : ℕ → Db → List OrganizationModel
organizations_of user_id db =
    order_by (λ o q. leb o.created_at q.created_at)
      (map (λ (o, m). o)
        (join_by (is_membership_of user_id) db.organizations db.organization_members))

module _ {R : Type 0} (ctx : Context) where
  -- The part behind `if decision.is_replay`.
  unfoldable pub create_fresh : OrganizationCreate → IdempotencyDecision → Action R (Response Json)
  create_fresh p decision = do
    let o = new_organization ctx p
    check (check_organization o)
    write (insert_organization o)
    let m = new_membership ctx o.id OrganizationRole.owner
    check (check_creator m)
    write (insert_membership m)
    let detail = ("name", Value.text o.name) ∷ []
    record_audit ctx "organization.create" "organization" o.id (some o.id) none detail
    record_outbox ctx.trace_id (some o.id) "organization" o.id "OrganizationCreated.v1" 1 detail
    complete_idempotent_command decision 201 (serialize_organization o)
    commit
    pure (record {
      status_code = 201;
      content = serialize_organization o;
      replayed = some false;
      etag = none;
    })

  unfoldable pub create_organization :
      Libraries → OrganizationCreate → Option String → Action R (Response Json)
  unfolding create_fresh
  create_organization lib p idempotency_key = do
    decision ←
        begin_idempotent_command lib ctx (record { template = "organizations.create"; id = 0 })
          idempotency_key (("name", Value.text p.name) ∷ [])
    replay_or decision.replay (create_fresh p decision)

  unfoldable pub list_organizations : Action R (List OrganizationModel)
  unfolding organizations_of
  list_organizations = check (λ db. ok (organizations_of ctx.actor_id db))
