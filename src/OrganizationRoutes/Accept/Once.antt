-- ===== src/OrganizationRoutes/Accept/Once.antt =====
-- What an acceptance has checked and what it leaves, about `accept_invite` of api/organizations.py.
use ai_auto_platform.Prelude.{
  ℕ, ◌≡◌, refl, ap, ◌∙◌, true, false, some, inl, inr, [], ◌∷◌, ◌++◌, String, arith, str_eq, leb,
  is_some, find_by, exists_by, replace_by, Distinct, Bool-cases, Option-cases, find_by-holds,
  find_by-replace_by_found,
}
use ai_auto_platform.Errors.{ok, err, domain_error, Result-cases, invite_already_accepted}
use ai_auto_platform.Db.Models.{Db, OrganizationInviteModel}
use ai_auto_platform.Organization.Access.{is_membership}
use ai_auto_platform.Exec.{World, Context, check, write, commit, pure, ◌>>=◌}
use ai_auto_platform.Common.Libraries.{Libraries}
use ai_auto_platform.Common.Reliability.{record_audit, record_outbox}
use ai_auto_platform.OrganizationRoutes.Payloads.{MemberRead}
use ai_auto_platform.OrganizationRoutes.Events.{
  record_organization_change, has_token_hash, has_invite_id,
}
use ai_auto_platform.OrganizationRoutes.Create.{new_membership}
use ai_auto_platform.OrganizationRoutes.Acceptable.{check_acceptable, check_new_member}
use ai_auto_platform.OrganizationRoutes.Accept.{accept_invite}

abbrev pub invite_id : OrganizationInviteModel → ℕ
invite_id i = i.id

abbrev pub accepted : Context → OrganizationInviteModel → OrganizationInviteModel
accepted ctx i = record i { accepted_at = some ctx.now }

-- The invitation of the token was open, in time and for this user, who was no member; then they
-- are a member with its role, and it is accepted.
pub record Accepted {R : Type 0} (lib : Libraries) (ctx : Context) (token : String) (old : Db)
    (end : World R) : Type 0 where
  pub invite : OrganizationInviteModel
  pub found :
      find_by (has_token_hash (lib.text_sha256 token)) old.organization_invites ≡ some invite
  pub not_accepted : is_some invite.accepted_at ≡ false
  pub not_revoked : is_some invite.revoked_at ≡ false
  pub in_time : leb invite.expires_at ctx.now ≡ false
  pub same_email : str_eq (lib.casefold ctx.actor_email) (lib.casefold invite.email) ≡ true
  pub no_member :
      exists_by (is_membership invite.organization_id ctx.actor_id) old.organization_members ≡ false
  pub members :
      end.durable.organization_members
      ≡ old.organization_members ++ new_membership ctx invite.organization_id invite.role ∷ []
  pub invites :
      end.durable.organization_invites
      ≡ replace_by (has_invite_id invite.id) (accepted ctx invite) old.organization_invites
  pub settled : end.pending ≡ end.durable

record IsAcceptable (lib : Libraries) (ctx : Context) (i : OrganizationInviteModel) : Type 0 where
  not_accepted : is_some i.accepted_at ≡ false
  not_revoked : is_some i.revoked_at ≡ false
  in_time : leb i.expires_at ctx.now ≡ false
  same_email : str_eq (lib.casefold ctx.actor_email) (lib.casefold i.email) ≡ true

check_acceptable-IsAcceptable :
    (lib : Libraries) (ctx : Context) (i : OrganizationInviteModel)
    → check_acceptable lib ctx i ≡ ok tt
    → IsAcceptable lib ctx i
unfolding check_acceptable
check_acceptable-IsAcceptable lib ctx i h = record {
  not_accepted = ground arith;
  not_revoked = ground arith;
  in_time = ground arith;
  same_email = ground arith;
}

module _ {R : Type 0} (lib : Libraries) (token : String) where
  accepted_already :
      (ctx' : Context) (i : OrganizationInviteModel) (v : World R)
      → find_by (has_token_hash (lib.text_sha256 token)) v.pending.organization_invites ≡ some i
      → is_some i.accepted_at ≡ true
      → accept_invite lib ctx' token v ≡ (err (domain_error invite_already_accepted 409), v)
  unfolding accept_invite check_acceptable ◌>>=◌ check
  accepted_already ctx' i v found done = rw found (rw done refl)

module _ {R : Type 0} (lib : Libraries) (ctx : Context) (token : String) (w : World R) where
  -- An acceptance that returns has found an open invitation in time for this user, who is then,
  -- durably, a member with the invitation's role; the invitation is accepted.
  pub accept_invite-Accepted :
      (r : MemberRead)
      → (accept_invite lib ctx token w).0 ≡ ok r
      → Accepted lib ctx token w.pending (accept_invite lib ctx token w).1
  unfolding accept_invite check_new_member new_membership record_organization_change record_audit
      record_outbox ◌>>=◌ check write commit pure
  accept_invite-Accepted r h =
      elim (Option-cases
        (find_by (has_token_hash (lib.text_sha256 token)) w.pending.organization_invites)) [
          | inl missing ↦ let raised = rw missing at h in cc
          | inr (i, found) ↦ elim (Result-cases (check_acceptable lib ctx i)) [
            | inr (e, refused) ↦ let raised = rw (found, refused) at h in cc
            | inl (_, allowed) ↦
                let a = check_acceptable-IsAcceptable lib ctx i allowed in
                elim (Bool-cases (
                  exists_by (is_membership i.organization_id ctx.actor_id)
                    w.pending.organization_members)) [
                      | inl member ↦ let raised = rw (found, allowed, member) at h in cc
                      | inr new ↦ record {
                        invite = i;
                        found = found;
                        not_accepted = a.not_accepted;
                        not_revoked = a.not_revoked;
                        in_time = a.in_time;
                        same_email = a.same_email;
                        no_member = new;
                        members = rw (found, allowed, new) refl;
                        invites = rw (found, allowed, new) refl;
                        settled = rw (found, allowed, new) refl;
                      }
                    ]
          ]
        ]

  -- An invitation that has been accepted is not accepted again, by anyone: the request is refused
  -- as a conflict and writes nothing, if the ids of the invitations are distinct.
  pub accept_invite-again :
      (r : MemberRead) (ctx' : Context)
      → (accept_invite lib ctx token w).0 ≡ ok r
      → Distinct invite_id w.pending.organization_invites
      → accept_invite lib ctx' token (accept_invite lib ctx token w).1
        ≡ (err (domain_error invite_already_accepted 409), (accept_invite lib ctx token w).1)
  accept_invite-again r ctx' h distinct =
      let a = accept_invite-Accepted r h in
      let hash =
        find_by-holds (has_token_hash (lib.text_sha256 token)) w.pending.organization_invites
          a.invite a.found in
      let again =
        find_by-replace_by_found invite_id (has_token_hash (lib.text_sha256 token)) a.invite
          (accepted ctx a.invite) w.pending.organization_invites distinct a.found hash in
      accepted_already lib token ctx' (accepted ctx a.invite) (accept_invite lib ctx token w).1
        (ap (λ (db : Db). find_by (has_token_hash (lib.text_sha256 token)) db.organization_invites)
            a.settled
          ∙ ap (find_by (has_token_hash (lib.text_sha256 token))) a.invites
          ∙ again)
        refl
