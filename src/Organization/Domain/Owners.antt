-- ===== src/Organization/Domain/Owners.antt =====
-- The active owners of the in-memory aggregate, about `change_role` and `remove_member` of
-- modules/organization/domain.py.
use ai_auto_platform.Prelude.{
  ℕ, ◌≡◌, arith, Bool, true, false, ◌&&◌, not, some, inl, inr, List, [], ◌∷◌, find_by,
  find_by-holds, exists_by, replace_by, delete_by, All, All-find_by, Bool-cases, Option-cases,
}
use ai_auto_platform.Errors.{ok}
use ai_auto_platform.Organization.Domain.{
  OrganizationRole, OrganizationMember, Organization, is_owner, has_key, get_member, is_other_owner,
  require_another_owner, change_role, remove_member,
}

module _ {A : Type 0} (p q : A → Bool) where
  -- A row that is not looked for may be deleted.
  exists_by-delete_by :
      (old : A) (xs : List A)
      → find_by p xs ≡ some old
      → q old ≡ false
      → exists_by q xs ≡ true
      → exists_by q (delete_by p xs) ≡ true
  exists_by-delete_by old [] found other h = cc
  exists_by-delete_by old (x ∷ xs) found other h = ground (arith, exists_by-delete_by old xs)

  exists_by-replace_by :
      (old new : A) (xs : List A)
      → find_by p xs ≡ some old
      → (q old ≡ true → q new ≡ true)
      → exists_by q xs ≡ true
      → exists_by q (replace_by p new xs) ≡ true
  exists_by-replace_by old new [] found keep h = cc
  exists_by-replace_by old new (x ∷ xs) found keep h =
      ground (arith, exists_by-replace_by old new xs)

exists_by-weaken :
    {A : Type 0} (p q : A → Bool) (xs : List A)
    → ((x : A) → p x ≡ true → q x ≡ true)
    → exists_by p xs ≡ true
    → exists_by q xs ≡ true
exists_by-weaken p q [] imp h = cc
exists_by-weaken p q (x ∷ xs) imp h = ground (arith, imp x, exists_by-weaken p q xs imp)

abbrev is_active_owner : ℕ × OrganizationMember → Bool
is_active_owner (k, m) = m.active && is_owner m.role

-- Each entry of the dict stands under its member's user id, as `add_member` puts it.
abbrev pub IsKeyed : Organization → Type 0
IsKeyed o = All (λ (k, m). m.user_id ≡ k) o.members

abbrev pub has_active_owner : Organization → Bool
has_active_owner o = exists_by is_active_owner o.members

another_owner :
    (o : Organization) (user_id : ℕ)
    → require_another_owner o user_id ≡ ok tt
    → exists_by (is_other_owner user_id) o.members ≡ true
unfolding require_another_owner
another_owner o user_id h = ground arith

-- Removing a member, if it succeeds, leaves an active owner, if there was one.
pub remove_member-has_active_owner :
    (o o' : Organization) (user_id : ℕ)
    → IsKeyed o
    → remove_member o user_id ≡ ok o'
    → has_active_owner o ≡ true
    → has_active_owner o' ≡ true
unfolding remove_member get_member
remove_member-has_active_owner o o' user_id keyed h owned =
    elim (Option-cases (find_by (has_key user_id) o.members)) [
      | inl missing ↦ ground arith
      | inr ((k, m), found) ↦
          let key = find_by-holds (has_key user_id) o.members (k, m) found in
          let same =
            All-find_by (λ (k, m). m.user_id ≡ k) (has_key user_id) o.members (k, m) keyed found in
          elim (Bool-cases (is_owner m.role)) [
            | inl owner ↦
                let others = another_owner o user_id (ground arith) in
                let left =
                  exists_by-delete_by (has_key user_id) (is_other_owner user_id) (k, m) o.members
                    found (ground arith) others in
                let still =
                  exists_by-weaken (is_other_owner user_id) is_active_owner
                    (delete_by (has_key user_id) o.members) (λ (j, n) t. ground arith) left in
                ground (arith, still)
            | inr plain ↦
                let still =
                  exists_by-delete_by (has_key user_id) is_active_owner (k, m) o.members found
                    (ground arith) owned in
                ground (arith, still)
          ]
    ]

-- Changing a role, if it succeeds, leaves an active owner, if there was one.
pub change_role-has_active_owner :
    (o o' : Organization) (user_id : ℕ) (role : OrganizationRole)
    → IsKeyed o
    → change_role o user_id role ≡ ok o'
    → has_active_owner o ≡ true
    → has_active_owner o' ≡ true
unfolding change_role get_member
change_role-has_active_owner o o' user_id role keyed h owned =
    elim (Option-cases (find_by (has_key user_id) o.members)) [
      | inl missing ↦ ground arith
      | inr ((k, m), found) ↦
          let key = find_by-holds (has_key user_id) o.members (k, m) found in
          let same =
            All-find_by (λ (k, m). m.user_id ≡ k) (has_key user_id) o.members (k, m) keyed found in
          let new : OrganizationMember = record m { role = role } in
          elim (Bool-cases (is_owner m.role && not (is_owner role))) [
            | inl demoted ↦
                let others = another_owner o user_id (ground arith) in
                let left =
                  exists_by-replace_by (has_key user_id) (is_other_owner user_id) (k, m)
                    (user_id, new) o.members found (λ t. ground arith) others in
                let still =
                  exists_by-weaken (is_other_owner user_id) is_active_owner
                    (replace_by (has_key user_id) (user_id, new) o.members)
                    (λ (j, n) t. ground arith) left in
                ground (arith, still)
            | inr kept ↦
                let still =
                  exists_by-replace_by (has_key user_id) is_active_owner (k, m) (user_id, new)
                    o.members found (λ t. ground arith) owned in
                ground (arith, still)
          ]
    ]
