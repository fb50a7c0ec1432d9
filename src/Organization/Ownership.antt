-- ===== src/Organization/Ownership.antt =====
-- The owners of an organization, about `change_member_role` and `remove_organization_member` of
-- api/organization_access.py.
use ai_auto_platform.Prelude.{
  ℕ, ◌≤◌, ◌≡◌, arith, true, false, ◌&&◌, ◌||◌, not, inl, inr, find_by, leb, count_by, Option-cases,
  replace_by, delete_by, length, length-delete_by, suc, some, sum_by-replace_by, sum_by-delete_by,
  find_by-holds, Bool-cases, ◌==◌,
}
use ai_auto_platform.Errors.{ok, Result-cases}
use ai_auto_platform.Db.Models.{Db, OrganizationMemberModel}
use ai_auto_platform.Organization.Domain.{OrganizationRole, is_owner, is_organization_admin}
use ai_auto_platform.Organization.Access.{
  is_membership, is_owner_of, require_organization_member, require_organization_admin,
  lock_and_authorize, target_member, ensure_other_owner, change_member_role,
  remove_organization_member,
}

abbrev pub owners : ℕ → Db → ℕ
owners org db = count_by (is_owner_of org) db.organization_members

-- What a change of a role that succeeds has found and done.
record Changed (org actor member : ℕ) (role : OrganizationRole) (db db' : Db)
    (m : OrganizationMemberModel) : Type 0 where
  acting : OrganizationMemberModel
  target : OrganizationMemberModel
  allowed : lock_and_authorize org actor db ≡ ok acting
  found : find_by (is_membership org member) db.organization_members ≡ some target
  permission : ((is_owner target.role || is_owner role) && not (is_owner acting.role)) ≡ false
  left_over : (is_owner target.role && not (is_owner role)) ≡ true → leb (owners org db) 1 ≡ false
  changed : m ≡ record target { role = role }
  rows : db'.organization_members ≡ replace_by (is_membership org member) m db.organization_members
  events : (db'.audit_events ≡ db.audit_events) × (db'.outbox_events ≡ db.outbox_events)

change_member_role-Changed :
    (org actor member : ℕ) (role : OrganizationRole) (db db' : Db) (m : OrganizationMemberModel)
    → change_member_role org actor member role db ≡ ok (m, db')
    → Changed org actor member role db db' m
unfolding change_member_role ensure_other_owner target_member
change_member_role-Changed org actor member role db db' m h =
    elim (Result-cases (lock_and_authorize org actor db)) [
      | inr (e, refused) ↦ ground arith
      | inl (a, allowed) ↦
          elim (Option-cases (find_by (is_membership org member) db.organization_members)) [
            | inl missing ↦ ground arith
            | inr (t, found) ↦ record {
              acting = a;
              target = t;
              allowed = allowed;
              found = found;
              permission = ground arith;
              left_over = λ demoted. ground arith;
              changed = ground arith;
              rows = ground arith;
              events = (ground arith, ground arith);
            }
          ]
    ]

lock_and_authorize-found :
    (org actor : ℕ) (db : Db) (a : OrganizationMemberModel)
    → lock_and_authorize org actor db ≡ ok a
    → (find_by (is_membership org actor) db.organization_members ≡ some a)
      × (is_organization_admin a.role ≡ true)
unfolding lock_and_authorize require_organization_admin require_organization_member
lock_and_authorize-found org actor db a h = ground arith

-- A change of a role that succeeds leaves the organization an owner, if it had one.
pub change_member_role-owners :
    (org actor member : ℕ) (role : OrganizationRole) (db db' : Db) (m : OrganizationMemberModel)
    → change_member_role org actor member role db ≡ ok (m, db')
    → 1 ≤ owners org db
    → 1 ≤ owners org db'
change_member_role-owners org actor member role db db' m h some_owner =
    let c = change_member_role-Changed org actor member role db db' m h in
    let held = find_by-holds (is_membership org member) db.organization_members c.target c.found in
    let sum =
      sum_by-replace_by (is_membership org member) (is_owner_of org) (λ _. 1) m c.target
        db.organization_members c.found in
    rw (c.rows) (ground (arith, held, sum, c.changed, c.left_over))

-- A change of a role that succeeds and makes an owner, or changes one, is made by an owner of the
-- organization; any other by its owner or administrator.
pub change_member_role-IsOwner :
    (org actor member : ℕ) (role : OrganizationRole) (db db' : Db)
    → (m target : OrganizationMemberModel)
    → change_member_role org actor member role db ≡ ok (m, db')
    → find_by (is_membership org member) db.organization_members ≡ some target
    → (acting : OrganizationMemberModel) × (find_by
          (is_membership org actor)
          db.organization_members
        ≡ some acting)
      × (is_organization_admin acting.role ≡ true)
      × ((is_owner target.role || is_owner role) ≡ true → is_owner acting.role ≡ true)
change_member_role-IsOwner org actor member role db db' m target h found =
    let c = change_member_role-Changed org actor member role db db' m h in
    let (there, admin) = lock_and_authorize-found org actor db c.acting c.allowed in
    let same : c.target ≡ target = ground (arith, c.found, found) in
    (c.acting, there, admin, λ owned. ground (arith, c.permission, same, owned))

-- What a removal that succeeds has found and done.
record Removed (org actor member : ℕ) (db db' : Db) (m : OrganizationMemberModel) : Type 0 where
  acting : OrganizationMemberModel
  allowed : lock_and_authorize org actor db ≡ ok acting
  found : find_by (is_membership org member) db.organization_members ≡ some m
  left_over :
      is_owner m.role ≡ true → (is_owner acting.role ≡ true) × (leb (owners org db) 1 ≡ false)
  rows : db'.organization_members ≡ delete_by (is_membership org member) db.organization_members
  events : (db'.audit_events ≡ db.audit_events) × (db'.outbox_events ≡ db.outbox_events)

remove_organization_member-Removed :
    (org actor member : ℕ) (db db' : Db) (m : OrganizationMemberModel)
    → remove_organization_member org actor member db ≡ ok (m, db')
    → Removed org actor member db db' m
unfolding remove_organization_member ensure_other_owner target_member
remove_organization_member-Removed org actor member db db' m h =
    elim (Result-cases (lock_and_authorize org actor db)) [
      | inr (e, refused) ↦ ground arith
      | inl (a, allowed) ↦
          elim (Option-cases (find_by (is_membership org member) db.organization_members)) [
            | inl missing ↦ ground arith
            | inr (t, found) ↦ record {
              acting = a;
              allowed = allowed;
              found = ground arith;
              left_over = λ owned. (ground arith, ground arith);
              rows = ground arith;
              events = (ground arith, ground arith);
            }
          ]
    ]

-- A removal that succeeds takes exactly one membership out and leaves the organization an owner, if
-- it had one.
pub remove_organization_member-owners :
    (org actor member : ℕ) (db db' : Db) (m : OrganizationMemberModel)
    → remove_organization_member org actor member db ≡ ok (m, db')
    → 1 ≤ owners org db
    → (1 ≤ owners org db')
      × (suc (length db'.organization_members) ≡ length db.organization_members)
remove_organization_member-owners org actor member db db' m h some_owner =
    let c = remove_organization_member-Removed org actor member db db' m h in
    let held = find_by-holds (is_membership org member) db.organization_members m c.found in
    let sum =
      sum_by-delete_by (is_membership org member) (is_owner_of org) (λ _. 1) m
        db.organization_members c.found in
    (
      rw (c.rows) (ground (arith, held, sum, c.left_over)),
      rw (c.rows) (length-delete_by (is_membership org member) m db.organization_members c.found),
    )

-- The owners of any organization, also of another than the one where a member changes.
pub change_member_role-owners_anywhere :
    (any org actor member : ℕ) (role : OrganizationRole) (db db' : Db)
    → (m : OrganizationMemberModel) → change_member_role org actor member role db ≡ ok (m, db')
    → 1 ≤ owners any db
    → 1 ≤ owners any db'
change_member_role-owners_anywhere any org actor member role db db' m h some_owner =
    elim (Bool-cases (any == org)) [
      | inl same ↦
          let there : any ≡ org = ground arith in
          rw there
            (change_member_role-owners org actor member role db db' m h (rw there at some_owner))
      | inr other ↦
          let c = change_member_role-Changed org actor member role db db' m h in
          let held =
            find_by-holds (is_membership org member) db.organization_members c.target c.found in
          let sum =
            sum_by-replace_by (is_membership org member) (is_owner_of any) (λ _. 1) m c.target
              db.organization_members c.found in
          rw (c.rows) (ground (arith, held, sum, c.changed))
    ]

pub remove_organization_member-owners_anywhere :
    (any org actor member : ℕ) (db db' : Db) (m : OrganizationMemberModel)
    → remove_organization_member org actor member db ≡ ok (m, db')
    → 1 ≤ owners any db
    → 1 ≤ owners any db'
remove_organization_member-owners_anywhere any org actor member db db' m h some_owner =
    elim (Bool-cases (any == org)) [
      | inl same ↦
          let there : any ≡ org = ground arith in
          rw there
            (remove_organization_member-owners org actor member db db' m h
              (rw there at some_owner)).0
      | inr other ↦
          let c = remove_organization_member-Removed org actor member db db' m h in
          let held = find_by-holds (is_membership org member) db.organization_members m c.found in
          let sum =
            sum_by-delete_by (is_membership org member) (is_owner_of any) (λ _. 1) m
              db.organization_members c.found in
          rw (c.rows) (ground (arith, held, sum))
    ]

-- What the two leave of the other tables.
pub change_member_role-events :
    (org actor member : ℕ) (role : OrganizationRole) (db db' : Db) (m : OrganizationMemberModel)
    → change_member_role org actor member role db ≡ ok (m, db')
    → (db'.audit_events ≡ db.audit_events) × (db'.outbox_events ≡ db.outbox_events)
change_member_role-events org actor member role db db' m h =
    let c = change_member_role-Changed org actor member role db db' m h in c.events

pub remove_organization_member-events :
    (org actor member : ℕ) (db db' : Db) (m : OrganizationMemberModel)
    → remove_organization_member org actor member db ≡ ok (m, db')
    → (db'.audit_events ≡ db.audit_events) × (db'.outbox_events ≡ db.outbox_events)
remove_organization_member-events org actor member db db' m h =
    let c = remove_organization_member-Removed org actor member db db' m h in c.events
