-- ===== src/OrganizationRoutes/Invites/Saved.antt =====
-- What `create_invite` of api/organizations.py leaves, and its acceptance by `accept_invite`.
use ai_auto_platform.Prelude.{
  ℕ, ◌+◌, ◌*◌, ◌≡◌, refl, ap, ◌∙◌, true, false, Option, none, some, inl, inr, String, arith, str_eq,
  leb, eq_iff, eq_refl, find_by, exists_by, Distinct, Bool-cases, find_by-holds, find_by-has_key,
  find_by-replace_by_only, find_by-append_only, strip,
}
use ai_auto_platform.Errors.{ok, Result-cases}
use ai_auto_platform.Db.Models.{Db, OrganizationInviteModel}
use ai_auto_platform.Organization.Domain.{OrganizationRole}
use ai_auto_platform.Organization.Access.{is_membership, require_organization_admin}
use ai_auto_platform.Exec.{World, Context, check, write, commit, pure, ◌>>=◌}
use ai_auto_platform.Common.Libraries.{Libraries}
use ai_auto_platform.Common.Settings.{seconds}
use ai_auto_platform.Common.Reliability.{record_audit, record_outbox}
use ai_auto_platform.OrganizationRoutes.Payloads.{InviteCreate, InviteRead, MemberRead}
use ai_auto_platform.OrganizationRoutes.Events.{
  record_organization_change, has_token_hash, is_invite_of,
}
use ai_auto_platform.OrganizationRoutes.Create.{new_membership}
use ai_auto_platform.OrganizationRoutes.Invites.{
  has_member_with_email, is_live_option, check_new_invite, check_token_hash, new_invite,
  renew_invite, save_invite, create_invite,
}
use ai_auto_platform.OrganizationRoutes.Acceptable.{check_acceptable, check_new_member}
use ai_auto_platform.OrganizationRoutes.Accept.{accept_invite}
use ai_auto_platform.OrganizationRoutes.Accept.Once.{invite_id}

-- The row of the invitation: open for the address for seven days, and found by its token.
pub record Saved (lib : Libraries) (ctx : Context) (token : String) (org : ℕ) (p : InviteCreate)
    (email : String) (old new : Db) : Type 0 where
  pub invite : OrganizationInviteModel
  pub found :
      find_by (has_token_hash (lib.text_sha256 token)) new.organization_invites ≡ some invite
  pub organization : invite.organization_id ≡ org
  pub address : invite.email ≡ email
  pub role : invite.role ≡ p.role
  pub expires : invite.expires_at ≡ ctx.now + seconds (7 * 24 * 60 * 60)
  pub not_accepted : invite.accepted_at ≡ none
  pub not_revoked : invite.revoked_at ≡ none
  pub members : new.organization_members ≡ old.organization_members

module _ {R : Type 0} (lib : Libraries) (ctx : Context) (token : String) (org : ℕ)
    (p : InviteCreate) (email : String) (w : World R) where
  save_new :
      (i : OrganizationInviteModel)
      → (save_invite lib ctx org p email token none w).0 ≡ ok i
      → Saved lib ctx token org p email w.pending
          (save_invite lib ctx org p email token none w).1.pending
  unfolding save_invite check_new_invite check_token_hash new_invite ◌>>=◌ check write pure
  save_new i h =
      let rows = w.pending.organization_invites in
      let new = new_invite lib ctx org p email token in
      elim (Result-cases (check_new_invite new w.pending)) [
        | inr (e, taken) ↦ let raised = rw taken at h in cc
        | inl (_, free) ↦ elim (Result-cases (check_token_hash new w.pending)) [
          | inr (e, taken) ↦ let raised = rw (free, taken) at h in cc
          | inl (_, only) ↦ record {
            invite = new;
            found =
                rw (free, only)
                  (find_by-append_only invite_id (has_token_hash (lib.text_sha256 token)) new
                    ctx.new_id rows (ground arith) (ground arith)
                    (eq_refl (lib.text_sha256 token)));
            organization = refl;
            address = refl;
            role = refl;
            expires = refl;
            not_accepted = refl;
            not_revoked = refl;
            members = rw (free, only) refl;
          }
        ]
      ]

  save_again :
      (existing i : OrganizationInviteModel)
      → Distinct invite_id w.pending.organization_invites
      → find_by (is_invite_of org email) w.pending.organization_invites ≡ some existing
      → (save_invite lib ctx org p email token (some existing) w).0 ≡ ok i
      → Saved lib ctx token org p email w.pending
          (save_invite lib ctx org p email token (some existing) w).1.pending
  unfolding save_invite check_token_hash renew_invite ◌>>=◌ check write pure
  save_again existing i distinct there h =
      let rows = w.pending.organization_invites in
      let new = renew_invite lib ctx p token existing in
      let held = find_by-holds (is_invite_of org email) rows existing there in
      let row = find_by-has_key invite_id (is_invite_of org email) existing rows distinct there in
      let same : str_eq existing.email email ≡ true = ground arith in
      elim (Result-cases (check_token_hash new w.pending)) [
        | inr (e, taken) ↦ let raised = rw taken at h in cc
        | inl (_, only) ↦ record {
          invite = new;
          found = rw only (
              find_by-replace_by_only invite_id (has_token_hash (lib.text_sha256 token)) existing
                new existing.id rows (ground arith) row (eq_refl (lib.text_sha256 token)));
          organization = ground arith;
          address = (eq_iff existing.email email).0 same;
          role = refl;
          expires = refl;
          not_accepted = refl;
          not_revoked = refl;
          members = rw only refl;
        }
      ]

  save-Saved :
      (existing : Option OrganizationInviteModel) (i : OrganizationInviteModel)
      → Distinct invite_id w.pending.organization_invites
      → find_by (is_invite_of org email) w.pending.organization_invites ≡ existing
      → (save_invite lib ctx org p email token existing w).0 ≡ ok i
      → Saved lib ctx token org p email w.pending
          (save_invite lib ctx org p email token existing w).1.pending
  save-Saved none i distinct there h = save_new i h
  save-Saved (some existing) i distinct there h = save_again existing i distinct there h

Saved-same :
    (lib : Libraries) (ctx : Context) (token : String) (org : ℕ) (p : InviteCreate)
    → (email : String) (old new new' : Db) → new'.organization_invites ≡ new.organization_invites
    → new'.organization_members ≡ new.organization_members
    → Saved lib ctx token org p email old new
    → Saved lib ctx token org p email old new'
Saved-same lib ctx token org p email old new new' invites members s = record {
  invite = s.invite;
  found = ap (find_by (has_token_hash (lib.text_sha256 token))) invites ∙ s.found;
  organization = s.organization;
  address = s.address;
  role = s.role;
  expires = s.expires;
  not_accepted = s.not_accepted;
  not_revoked = s.not_revoked;
  members = members ∙ s.members;
}

module _ {R : Type 0} (lib : Libraries) (ctx : Context) (token : String) (org : ℕ)
    (p : InviteCreate) (w : World R) where
  -- A new invitation that is answered has been saved, and is durable.
  pub create_invite-Saved :
      (r : InviteRead)
      → Distinct invite_id w.pending.organization_invites
      → (create_invite lib ctx token org p w).0 ≡ ok r
      → Saved lib ctx token org p
          (lib.casefold (strip p.email))
          w.pending
          (create_invite lib ctx token org p w).1.pending
  unfolding create_invite record_organization_change record_audit record_outbox ◌>>=◌ check write
      commit pure
  create_invite-Saved r distinct h =
      let email = lib.casefold (strip p.email) in
      elim (Result-cases (require_organization_admin org ctx.actor_id w.pending)) [
        | inr (e, refused) ↦ let raised = rw refused at h in cc
        | inl (m, admin) ↦ elim (Bool-cases (has_member_with_email lib org email w.pending)) [
          | inl member ↦ let raised = rw (admin, member) at h in cc
          | inr new ↦
              elim (Bool-cases (
                is_live_option ctx.now
                  (find_by (is_invite_of org email) w.pending.organization_invites))) [
                    | inl live ↦ let raised = rw (admin, new, live) at h in cc
                    | inr dead ↦
                        elim (Result-cases
                          (save_invite lib ctx org p email token
                            (find_by (is_invite_of org email) w.pending.organization_invites)
                            w).0) [
                              | inr (e, lost) ↦ let raised = rw (admin, new, dead, lost) at h in cc
                              | inl (i, saved) ↦
                                  let rows = w.pending.organization_invites in
                                  let existing = find_by (is_invite_of org email) rows in
                                  let end = (save_invite lib ctx org p email token existing w).1 in
                                  Saved-same lib ctx token org p email w.pending end.pending _
                                    (rw (admin, new, dead, saved) refl)
                                    (rw (admin, new, dead, saved) refl)
                                    (save-Saved lib ctx token org p email w existing i distinct refl
                                      saved)
                            ]
                  ]
        ]
      ]

abbrev pub joined : Context → ℕ → OrganizationRole → MemberRead
joined ctx org role = record {
  organization_id = org;
  user_id = ctx.actor_id;
  email = ctx.actor_email;
  display_name = ctx.actor_name;
  role = role;
}

module _ {R : Type 0} (lib : Libraries) (ctx : Context) (token : String) (org : ℕ)
    (p : InviteCreate) (w : World R) where
  -- An invitation that has been created is accepted when its token is sent within seven days by a
  -- user of its e-mail address who is not yet a member of the organization, who then gets its role;
  -- the ids of the invitations are distinct.
  pub create_invite-accept_invite :
      (r : InviteRead) (guest : Context)
      → Distinct invite_id w.pending.organization_invites
      → (create_invite lib ctx token org p w).0 ≡ ok r
      → leb (ctx.now + seconds (7 * 24 * 60 * 60)) guest.now ≡ false
      → str_eq (lib.casefold guest.actor_email) (lib.casefold (lib.casefold (strip p.email))) ≡ true
      → exists_by (is_membership org guest.actor_id) w.pending.organization_members ≡ false
      → (accept_invite lib guest token (create_invite lib ctx token org p w).1).0
        ≡ ok (joined guest org p.role)
  unfolding accept_invite check_acceptable check_new_member new_membership
      record_organization_change record_audit record_outbox ◌>>=◌ check write commit pure
  create_invite-accept_invite r guest distinct h in_time same stranger =
      let s = create_invite-Saved lib ctx token org p w r distinct h in
      rw (s.found) (
        rw (s.not_accepted) (
          rw (s.not_revoked) (
            rw (s.expires) (
              rw in_time (
                rw (s.address) (
                  rw same
                    (rw (s.organization) (rw (s.members) (rw stranger (rw (s.role) refl))))))))))
