-- ===== src/Tests/Members.antt =====
-- Access to a project, and the owners of an organization.
use ai_auto_platform.Prelude.{ℕ, ◌≡◌, ◌≤◌, refl, arith, some, [], ◌∷◌, true, find_by, length}
use ai_auto_platform.Db.Models.{Db, OrganizationMemberModel}
use ai_auto_platform.Organization.Domain.{
  OrganizationRole, Organization, OrganizationMember, is_owner, is_organization_admin, change_role,
  remove_member,
}
use ai_auto_platform.Organization.Domain.Owners.{
  has_active_owner, remove_member-has_active_owner, change_role-has_active_owner,
}
use ai_auto_platform.Organization.Access.{
  is_membership, change_member_role, remove_organization_member,
}
use ai_auto_platform.Organization.Ownership.{
  owners, change_member_role-IsOwner, remove_organization_member-owners,
}
use ai_auto_platform.Upload.Authorize.{authorized_project}
use ai_auto_platform.Upload.Authorize.Writers.{HasAccess, authorized_project-HasAccess}
use ai_auto_platform.Tests.Samples.{database, project, membership}

authorized_project-HasAccess_example : HasAccess 7 3 1 true database project
unfolding authorized_project
authorized_project-HasAccess_example = authorized_project-HasAccess 7 3 1 true database project refl

-- The owner makes the member an owner.
abbrev promoted : Db
promoted = record database {
  organization_members =
      membership 1 OrganizationRole.owner ∷ membership 2 OrganizationRole.owner ∷ [];
}

change_member_role-IsOwner_example :
    (acting : OrganizationMemberModel) × (find_by (is_membership 7 1) database.organization_members
      ≡ some acting)
    × (is_organization_admin acting.role ≡ true)
    × (true ≡ true → is_owner acting.role ≡ true)
unfolding change_member_role
change_member_role-IsOwner_example =
    change_member_role-IsOwner 7 1 2 OrganizationRole.owner database promoted
      (membership 2 OrganizationRole.owner) (membership 2 OrganizationRole.member) refl refl

remove_organization_member-owners_example :
    (1
      ≤ owners 7
          (record promoted { organization_members = membership 1 OrganizationRole.owner ∷ [] }))
    × (2 ≡ length promoted.organization_members)
unfolding remove_organization_member
remove_organization_member-owners_example =
    remove_organization_member-owners 7 1 2 promoted
      (record promoted { organization_members = membership 1 OrganizationRole.owner ∷ [] })
      (membership 2 OrganizationRole.owner) refl (omega arith)

abbrev entry : ℕ → OrganizationRole → ℕ × OrganizationMember
entry user role = (user, record { user_id = user; role = role; active = true })

abbrev two_owners : Organization
two_owners = record {
  id = 7;
  name = "Company";
  members = entry 1 OrganizationRole.owner ∷ entry 2 OrganizationRole.owner ∷ [];
}

remove_member-has_active_owner_example :
    has_active_owner
      (record { id = 7; name = "Company"; members = entry 2 OrganizationRole.owner ∷ [] })
    ≡ true
unfolding remove_member
remove_member-has_active_owner_example =
    remove_member-has_active_owner two_owners
      (record { id = 7; name = "Company"; members = entry 2 OrganizationRole.owner ∷ [] }) 1
      (refl, (refl, tt)) refl refl

change_role-has_active_owner_example :
    has_active_owner (record {
      id = 7;
      name = "Company";
      members = entry 1 OrganizationRole.admin ∷ entry 2 OrganizationRole.owner ∷ [];
    })
    ≡ true
unfolding change_role
change_role-has_active_owner_example =
    change_role-has_active_owner two_owners
      (record {
        id = 7;
        name = "Company";
        members = entry 1 OrganizationRole.admin ∷ entry 2 OrganizationRole.owner ∷ [];
      })
      1 OrganizationRole.admin (refl, (refl, tt)) refl refl
