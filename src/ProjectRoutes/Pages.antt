-- ===== src/ProjectRoutes/Pages.antt =====
-- `list_projects`
pub mod Order
pub mod Complete
use ai_auto_platform.Prelude.{
  ℕ, zero, suc, ◌+◌, ◌-◌, Bool, true, ◌&&◌, ◌||◌, not, Option, none, some, List, [], ◌∷◌, String,
  map, leb, ltb, ◌==◌, if◌then◌else◌, is_some, length, find_by, select, join_by, order_by, limit,
  is_empty,
}
use ai_auto_platform.Errors.{Result, ok, ◌>>=◌, ◌>>◌}
use ai_auto_platform.Db.Models.{Db, ProjectModel, ProjectMemberModel, OrganizationMemberModel, Json}
use ai_auto_platform.Organization.Domain.{OrganizationRole, is_organization_admin}
use ai_auto_platform.Organization.Access.{require_organization_member}
use ai_auto_platform.ProjectRoutes.Cursors.{CursorLibraries, encode_cursor, decode_cursor}

-- `order_by(created_at, id)`: the first project stands no later than the second.
abbrev pub is_before : ProjectModel → ProjectModel → Bool
is_before p q = ltb p.created_at q.created_at || (p.created_at == q.created_at && leb p.id q.id)

-- The condition of a cursor: created later, or at the same time with a greater id.
abbrev pub is_after : ℕ × ℕ → ProjectModel → Bool
is_after (created_at, id) p =
    ltb created_at p.created_at || (p.created_at == created_at && ltb id p.id)

abbrev pub is_current_project : ℕ → ProjectModel → Bool
is_current_project organization_id p =
    p.organization_id == organization_id && not (is_some p.deleted_at)

abbrev is_member_of : ℕ → ProjectModel → ProjectMemberModel → Bool
is_member_of user_id p m = m.project_id == p.id && m.user_id == user_id

-- The query before the cursor: all projects for who administers the organization, else those in
-- which the user is a member.
unfoldable pub listed_projects : ℕ → ℕ → OrganizationRole → Db → List ProjectModel
listed_projects organization_id user_id role db =
    let rows = select (is_current_project organization_id) db.projects in
    if is_organization_admin role
    then rows
    else map (λ (p, m). p) (join_by (is_member_of user_id) rows db.project_members)

-- `if cursor`
unfoldable pub cursor_rows :
    CursorLibraries → Option String → List ProjectModel → Result (List ProjectModel)
unfolding decode_cursor
cursor_rows lib none rows = ok rows
cursor_rows lib (some cursor) rows =
    if is_empty cursor
    then ok rows
    else do key ← decode_cursor lib cursor; ok (select (is_after key) rows)

-- The element under an index, if there is one.
abbrev pub get_elem? : List ProjectModel → ℕ → Option ProjectModel
get_elem? [] n = none
get_elem? (x ∷ xs) zero = some x
get_elem? (x ∷ xs) (suc n) = get_elem? xs n

-- A page, and the project that the header `X-Next-Cursor` encodes if there are more.
unfoldable pub page_of : ℕ → List ProjectModel → List ProjectModel × Option ProjectModel
page_of n rows =
    let projects = limit (suc n) (order_by is_before rows) in
    if ltb n (length projects)
    then (limit n projects, get_elem? projects (n - 1))
    else (projects, none)

abbrev next_cursor : CursorLibraries → Option ProjectModel → Option String
next_cursor lib none = none
next_cursor lib (some p) = some (encode_cursor lib p)

unfoldable pub list_projects :
    CursorLibraries → ℕ → ℕ → ℕ → Option String → Db → Result (List ProjectModel × Option String)
unfolding cursor_rows page_of listed_projects encode_cursor
list_projects lib organization_id actor_id n cursor db = do
  membership ← require_organization_member organization_id actor_id db
  rows ← cursor_rows lib cursor (listed_projects organization_id actor_id membership.role db)
  let (projects, last) = page_of n rows
  ok (projects, next_cursor lib last)
