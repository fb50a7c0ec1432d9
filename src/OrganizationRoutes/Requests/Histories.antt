-- ===== src/OrganizationRoutes/Requests/Histories.antt =====
-- Histories of requests on organizations, about the routes of api/organizations.py.
use ai_auto_platform.Prelude.{
  ℕ, ◌+◌, ◌≤◌, ◌≡◌, refl, arith, List, [], ◌∷◌, ◌++◌, length, suc, sum_by-append,
}
use ai_auto_platform.Db.Models.{Db}
use ai_auto_platform.Exec.{World, Context}
use ai_auto_platform.Exec.Rules.{serve-keeps}
use ai_auto_platform.Common.Libraries.{Libraries}
use ai_auto_platform.Organization.Access.{is_owner_of}
use ai_auto_platform.Organization.Ownership.{
  owners, change_member_role-owners_anywhere, remove_organization_member-owners_anywhere,
  change_member_role-events, remove_organization_member-events,
}
use ai_auto_platform.OrganizationRoutes.Requests.{
  Route, create, invite, revoke, accept, update, remove, handle, run,
}
use ai_auto_platform.OrganizationRoutes.Requests.Kept.{
  IsKept, create_organization-Keeps, create_invite-Keeps, revoke_invite-Keeps, accept_invite-Keeps,
  update_member-Keeps, remove_member-Keeps,
}

module _ {R : Type 0} (D : Db → Type 0) (kept : IsKept D) (lib : Libraries) where
  handle-kept :
      (ctx : Context) (route : Route) (w : World R)
      → D w.durable
      → D (handle lib ctx route w).durable
  unfolding handle
  handle-kept ctx (create p key) w h =
      serve-keeps D _ w (create_organization-Keeps D kept ctx lib p key) h
  handle-kept ctx (invite token org p) w h =
      serve-keeps D _ w (create_invite-Keeps D kept ctx lib token org p) h
  handle-kept ctx (revoke org id) w h = serve-keeps D _ w (revoke_invite-Keeps D kept ctx org id) h
  handle-kept ctx (accept token) w h =
      serve-keeps D _ w (accept_invite-Keeps D kept ctx lib token) h
  handle-kept ctx (update org member role) w h =
      serve-keeps D _ w (update_member-Keeps D kept ctx org member role) h
  handle-kept ctx (remove org member) w h =
      serve-keeps D _ w (remove_member-Keeps D kept ctx org member) h

  run-kept : (rs : List (Context × Route)) (w : World R) → D w.durable → D (run lib rs w).durable
  unfolding run
  run-kept [] w h = h
  run-kept ((ctx, route) ∷ rs) w h =
      run-kept rs (handle lib ctx route w) (handle-kept ctx route w h)

abbrev pub IsOwned : ℕ → Db → Type 0
IsOwned org db = 1 ≤ owners org db

more_owners : (a b c : ℕ) → a ≡ b + c → 1 ≤ b → 1 ≤ a
more_owners a b c e h = omega (arith, e, h)

IsOwned-kept : (org : ℕ) → IsKept (IsOwned org)
IsOwned-kept org = record {
  rows = λ db organizations invites records h. h;
  events = λ db a o h. h;
  inserted = λ db m h.
      more_owners _ _ _ (sum_by-append (is_owner_of org) (λ _. 1) db.organization_members (m ∷ []))
        h;
  changed = λ db db' at_org actor member role m e h.
      change_member_role-owners_anywhere org at_org actor member role db db' m e h;
  removed = λ db db' at_org actor member m e h.
      remove_organization_member-owners_anywhere org at_org actor member db db' m e h;
}

length-append : {A : Type 0} (xs : List A) (x : A) → length (xs ++ x ∷ []) ≡ suc (length xs)
length-append [] x = refl
length-append (y ∷ xs) x = omega (arith, length-append xs x)

-- Since the numbers `a` of audit events and `o` of outbox events, as many have come of each.
abbrev pub IsPaired : ℕ → ℕ → Db → Type 0
IsPaired a o db = a + length db.outbox_events ≡ o + length db.audit_events

paired_more : (a o n m n' m' : ℕ) → a + m ≡ o + n → n' ≡ suc n → m' ≡ suc m → a + m' ≡ o + n'
paired_more a o n m n' m' h e f = omega (arith, h, e, f)

IsPaired-kept : (a o : ℕ) → IsKept (IsPaired a o)
IsPaired-kept a o = record {
  rows = λ db organizations invites records h. h;
  events = λ db audit outbox h.
      paired_more a o _ _ _ _ h (length-append db.audit_events audit)
        (length-append db.outbox_events outbox);
  inserted = λ db m h. h;
  changed = λ db db' org actor member role m e h.
      let (audits, outboxes) = change_member_role-events org actor member role db db' m e in
      rw audits (rw outboxes h);
  removed = λ db db' org actor member m e h.
      let (audits, outboxes) = remove_organization_member-events org actor member db db' m e in
      rw audits (rw outboxes h);
}

module _ {R : Type 0} (lib : Libraries) (rs : List (Context × Route)) (w : World R) where
  -- Whatever requests on organizations the server answers, an organization that has an owner at
  -- first has an owner in the end.
  pub run-IsOwned : (org : ℕ) → IsOwned org w.durable → IsOwned org (run lib rs w).durable
  run-IsOwned org h = run-kept (IsOwned org) (IsOwned-kept org) lib rs w h

  -- Whatever requests on organizations the server answers, the audit events and the outbox events
  -- that they leave durable are as many of one kind as of the other.
  pub run-IsPaired :
      IsPaired
        (length w.durable.audit_events)
        (length w.durable.outbox_events)
        (run lib rs w).durable
  run-IsPaired =
      run-kept (IsPaired (length w.durable.audit_events) (length w.durable.outbox_events))
        (IsPaired-kept _ _) lib rs w (omega arith)
