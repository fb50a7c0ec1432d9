-- ===== src/Upload/Authorize/Writers.antt =====
-- Access to a project, about `_authorized_project` of api/upload_sessions.py.
use ai_auto_platform.Prelude.{
  ℕ, ◌≡◌, arith, Bool, true, some, inl, inr, ◌⊎◌, find_by, Option-cases, Bool-cases,
}
use ai_auto_platform.Errors.{ok}
use ai_auto_platform.Db.Models.{Db, ProjectModel, ProjectMemberModel, OrganizationMemberModel}
use ai_auto_platform.Organization.Domain.{is_organization_admin}
use ai_auto_platform.Organization.Access.{is_membership, require_organization_member}
use ai_auto_platform.Project.Domain.{is_project_active, is_project_writer}
use ai_auto_platform.Upload.Authorize.{is_live_project, is_project_membership, authorized_project}

-- The user is a member of the organization and administers it, or is a member of the project who,
-- to write, may write.
pub record HasAccess (org project user : ℕ) (write : Bool) (db : Db) (p : ProjectModel)
    : Type 0 where
  pub membership : OrganizationMemberModel
  pub is_member : find_by (is_membership org user) db.organization_members ≡ some membership
  pub is_here : find_by (is_live_project org project) db.projects ≡ some p
  pub is_open : write ≡ true → is_project_active p.status ≡ true
  pub role :
      (is_organization_admin membership.role ≡ true)
      ⊎ (m : ProjectMemberModel) × (find_by (is_project_membership project user) db.project_members
          ≡ some m)
        × (write ≡ true → is_project_writer m.role ≡ true)

-- Whoever passes the check of a project has access to it: as an administrator of the organization
-- or as a member of the project, who to write must have a role that writes; the project is not
-- deleted, and to write it must be active.
pub authorized_project-HasAccess :
    (org project user : ℕ) (write : Bool) (db : Db) (p : ProjectModel)
    → authorized_project org project user write db ≡ ok p
    → HasAccess org project user write db p
unfolding authorized_project require_organization_member
authorized_project-HasAccess org project user write db p h =
    elim (Option-cases (find_by (is_membership org user) db.organization_members)) [
      | inl stranger ↦ ground arith
      | inr (m, member) ↦ elim (Option-cases (find_by (is_live_project org project) db.projects)) [
        | inl missing ↦ ground arith
        | inr (q, there) ↦ record {
          membership = m;
          is_member = member;
          is_here = ground arith;
          is_open = λ write_it. ground arith;
          role = elim (Bool-cases (is_organization_admin m.role)) [
            | inl admin ↦ inl admin
            | inr other ↦
                elim (Option-cases
                  (find_by (is_project_membership project user) db.project_members)) [
                    | inl outside ↦ ground arith
                    | inr (pm, inside) ↦ inr (pm, inside, λ write_it. ground arith)
                  ]
          ];
        }
      ]
    ]
