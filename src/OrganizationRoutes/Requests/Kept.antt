-- ===== src/OrganizationRoutes/Requests/Kept.antt =====
-- Predicates on databases that the steps of the routes keep, and that the routes of
-- api/organizations.py then keep.
use ai_auto_platform.Prelude.{ℕ, ◌≡◌, Option, none, some, List, [], ◌∷◌, ◌++◌, String}
use ai_auto_platform.Errors.{ok}
use ai_auto_platform.Db.Models.{
  Db, OrganizationModel, OrganizationMemberModel, OrganizationInviteModel, AuditEventModel,
  OutboxEventModel, IdempotencyRecordModel, Json,
}
use ai_auto_platform.Organization.Domain.{OrganizationRole}
use ai_auto_platform.Organization.Access.{change_member_role, remove_organization_member}
use ai_auto_platform.Exec.{World, Action, Context, commit, ◌>>=◌}
use ai_auto_platform.Exec.Rules.{
  Keeps, Keeps-pure, Keeps-check, Keeps-write, Keeps-commit, Keeps-assoc, Keeps-pure_bind,
}
use ai_auto_platform.Common.Libraries.{Libraries}
use ai_auto_platform.Common.Reliability.{
  IdempotencyDecision, record_audit, record_outbox, complete_idempotent_command,
}
use ai_auto_platform.Common.Reliability.Rules.{Keeps-begin, Keeps-replay_or, with_records}
use ai_auto_platform.OrganizationRoutes.Payloads.{OrganizationCreate, InviteCreate}
use ai_auto_platform.OrganizationRoutes.Events.{record_organization_change, insert_membership}
use ai_auto_platform.OrganizationRoutes.Create.{create_fresh, create_organization}
use ai_auto_platform.OrganizationRoutes.Invites.{save_invite, create_invite, revoke_invite}
use ai_auto_platform.OrganizationRoutes.Accept.{accept_invite}
use ai_auto_platform.OrganizationRoutes.Members.{update_member, remove_member}

-- An audit event and an outbox event.
abbrev pub with_events : AuditEventModel → OutboxEventModel → Db → Db
with_events a o db = record db {
  audit_events = db.audit_events ++ a ∷ [];
  outbox_events = db.outbox_events ++ o ∷ [];
}

abbrev pub with_rows :
    List OrganizationModel → List OrganizationInviteModel → List IdempotencyRecordModel → Db → Db
with_rows organizations invites records db = record db {
  organizations = organizations;
  organization_invites = invites;
  idempotency_records = records;
}

-- What the routes do to a database, and the predicate is kept by.
pub record IsKept (D : Db → Type 0) : Type 0 where
  pub rows :
      (db : Db) (organizations : List OrganizationModel) (invites : List OrganizationInviteModel)
      → (records : List IdempotencyRecordModel) → D db
      → D (with_rows organizations invites records db)
  pub events :
      (db : Db) (a : AuditEventModel) (o : OutboxEventModel) → D db → D (with_events a o db)
  pub inserted : (db : Db) (m : OrganizationMemberModel) → D db → D (insert_membership m db)
  pub changed :
      (db db' : Db) (org actor member : ℕ) (role : OrganizationRole) (m : OrganizationMemberModel)
      → change_member_role org actor member role db ≡ ok (m, db')
      → D db
      → D db'
  pub removed :
      (db db' : Db) (org actor member : ℕ) (m : OrganizationMemberModel)
      → remove_organization_member org actor member db ≡ ok (m, db')
      → D db
      → D db'

module _ {R : Type 0} (D : Db → Type 0) (kept : IsKept D) (ctx : Context) where
  create_fresh-Keeps :
      (p : OrganizationCreate) (d : IdempotencyDecision) (w : World R)
      → D w.durable
      → D w.pending
      → Keeps D (create_fresh ctx p d w)
  unfolding create_fresh record_audit record_outbox complete_idempotent_command
  create_fresh-Keeps p d w h r = Keeps-check _ _ w h λ _ _. Keeps-write _ _ _ (
      Keeps-check _ _ _ h λ _ _. Keeps-write _ _ _ (
        Keeps-write _ _ _ (
          Keeps-write _ _ _ (
            Keeps-write _ _ _ (
              Keeps-commit _ _ (
                let end =
                  kept.events _ _ _ (
                    kept.inserted _ _ (kept.rows w.pending _ w.pending.organization_invites _ r)) in
                Keeps-pure _ end _ end))))))

  pub create_organization-Keeps :
      (lib : Libraries) (p : OrganizationCreate) (key : Option String) (w : World R)
      → D w.durable
      → D w.pending
      → Keeps D (create_organization ctx lib p key w)
  unfolding create_organization
  create_organization-Keeps lib p key w h r = Keeps-begin lib ctx _ key _ _ w h λ decision records.
      let begun =
        kept.rows w.pending w.pending.organizations w.pending.organization_invites records r in
      Keeps-replay_or decision.replay _ _ h begun
        (create_fresh-Keeps p decision (with_records w records) h begun)

  -- The events of a change, its commit, and what is left.
  finish-Keeps :
      {A : Type 0} (org : ℕ) (action type : String) (id : ℕ) (event : String) (payload : Json)
      → (k : Unit {0} → Action R A) (w : World R) → D w.pending
      → ((v : World R) → D v.durable → D v.pending → Keeps D (k tt v))
      → Keeps D (
          (record_organization_change ctx org action type id event payload >>= λ _. commit >>= k) w)
  unfolding record_organization_change record_audit record_outbox
  finish-Keeps org action type id event payload k w r next = Keeps-assoc _ _ _ w (
      Keeps-write _ _ w
        (Keeps-write _ _ _ (Keeps-commit _ _ (let end = kept.events _ _ _ r in next _ end end))))

  pub accept_invite-Keeps :
      (lib : Libraries) (token : String) (w : World R)
      → D w.durable
      → D w.pending
      → Keeps D (accept_invite lib ctx token w)
  unfolding accept_invite
  accept_invite-Keeps lib token w h r = Keeps-check _ _ w h λ i _. Keeps-check _ _ _ h λ _ _.
      Keeps-check _ _ _ h λ _ _. Keeps-write _ _ _ (
        Keeps-write _ _ _ (
          finish-Keeps _ _ _ _ _ _ _ _
            (kept.rows _ w.pending.organizations _ w.pending.idempotency_records
              (kept.inserted w.pending _ r))
            λ v durable pending. Keeps-pure v durable _ pending))

  pub revoke_invite-Keeps :
      (org id : ℕ) (w : World R) → D w.durable → D w.pending → Keeps D (revoke_invite ctx org id w)
  unfolding revoke_invite
  revoke_invite-Keeps org id w h r = Keeps-check _ _ w h λ _ _. Keeps-check _ _ _ h λ i _.
      Keeps-check _ _ _ h λ _ _. Keeps-write _ _ _ (
        finish-Keeps _ _ _ _ _ _ _ _
          (kept.rows _ w.pending.organizations _ w.pending.idempotency_records r)
          λ v durable pending. Keeps-pure v durable _ pending)

  pub update_member-Keeps :
      (org member : ℕ) (role : OrganizationRole) (w : World R)
      → D w.durable
      → D w.pending
      → Keeps D (update_member ctx org member role w)
  unfolding update_member
  update_member-Keeps org member role w h r = Keeps-check _ _ w h λ done e. Keeps-write _ _ _ (
      Keeps-check _ _ _ h λ _ _.
        finish-Keeps _ _ _ _ _ _ _ _
          (kept.changed w.pending done.1 org ctx.actor_id member role done.0 e r)
          λ v durable pending. Keeps-check _ _ v durable λ _ _. Keeps-pure v durable _ pending)

  pub remove_member-Keeps :
      (org member : ℕ) (w : World R)
      → D w.durable
      → D w.pending
      → Keeps D (remove_member ctx org member w)
  unfolding remove_member
  remove_member-Keeps org member w h r = Keeps-check _ _ w h λ done e. Keeps-write _ _ _ (
      finish-Keeps _ _ _ _ _ _ _ _
        (kept.removed w.pending done.1 org ctx.actor_id member done.0 e r)
        λ v durable pending. Keeps-pure v durable _ pending)

  save-Keeps :
      {A : Type 0} (lib : Libraries) (org : ℕ) (p : InviteCreate) (email token : String)
      → (existing : Option OrganizationInviteModel) (k : OrganizationInviteModel → Action R A)
      → (w : World R) → D w.durable
      → D w.pending
      → ((i : OrganizationInviteModel) (v : World R) → D v.durable → D v.pending → Keeps D (k i v))
      → Keeps D ((save_invite lib ctx org p email token existing >>= k) w)
  unfolding save_invite
  save-Keeps lib org p email token none k w h r next = Keeps-assoc _ _ _ w (
      Keeps-check _ _ w h λ _ _. Keeps-assoc _ _ _ w (
        Keeps-check _ _ w h λ _ _. Keeps-assoc _ _ _ w (
          Keeps-write _ _ w (
            Keeps-pure_bind _ _ _ (
              next _ _ h
                (kept.rows _ w.pending.organizations _ w.pending.idempotency_records r))))))
  save-Keeps lib org p email token (some existing) k w h r next = Keeps-assoc _ _ _ w (
      Keeps-check _ _ w h λ _ _. Keeps-assoc _ _ _ w (
        Keeps-write _ _ w (
          Keeps-pure_bind _ _ _
            (next _ _ h (kept.rows _ w.pending.organizations _ w.pending.idempotency_records r)))))

  pub create_invite-Keeps :
      (lib : Libraries) (token : String) (org : ℕ) (p : InviteCreate) (w : World R)
      → D w.durable
      → D w.pending
      → Keeps D (create_invite lib ctx token org p w)
  unfolding create_invite
  create_invite-Keeps lib token org p w h r = Keeps-check _ _ w h λ _ _. Keeps-check _ _ _ h λ _ _.
      Keeps-check _ _ _ h λ existing _. Keeps-check _ _ _ h λ _ _.
        save-Keeps lib org p _ token existing _ w h r λ i v durable pending.
          finish-Keeps _ _ _ _ _ _ _ v pending
            λ v' durable' pending'. Keeps-pure v' durable' _ pending'
