-- ===== src/ArtifactRoutes/Pages.antt =====
-- `_encode_cursor`, `_decode_cursor` and `list_artifacts` of api/artifacts.py
pub mod Listed
use Prim.Native.String.{◌++◌}
use ai_auto_platform.Prelude.{
  ℕ, ◌+◌, false, Bool, ◌&&◌, ◌||◌, not, Option, none, some, List, [], ◌∷◌, String, map, leb, ltb,
  ◌==◌, if◌then◌else◌, length, select, order_by, limit, is_empty, count, rstrip_char,
}
use ai_auto_platform.Errors.{Result, ok, ◌>>=◌, ◌>>◌, or_throw, invalid_cursor}
use ai_auto_platform.Db.Models.{Db, ArtifactModel, Json}
use ai_auto_platform.Artifact.Rows.{serialize_artifact}
use ai_auto_platform.Exec.{Action, Context, check}
use ai_auto_platform.Upload.Authorize.{authorized_project}
use ai_auto_platform.ProjectRoutes.Cursors.{
  CursorLibraries, padding, equals_signs, cursor_time, cursor_id,
}
use ai_auto_platform.ArtifactRoutes.Visible.{is_gone}

pub record ArtifactPage : Type 0 where
  pub items : List Json
  pub next_cursor : Option String

unfoldable pub encode_artifact_cursor : CursorLibraries → ArtifactModel → String
unfolding rstrip_char
encode_artifact_cursor lib a =
    rstrip_char b'='
      (lib.b64encode (lib.dumps_pair (lib.isoformat a.created_at) (lib.uuid_text a.id)))

unfoldable pub decode_artifact_cursor : CursorLibraries → String → Result (ℕ × ℕ)
unfolding equals_signs
decode_artifact_cursor lib cursor = do
  raw ←
      or_throw (lib.b64decode (cursor ++ equals_signs (padding (count cursor)))) invalid_cursor 400
  (first, second) ← or_throw (lib.loads_pair raw) invalid_cursor 400
  created_at ← cursor_time lib first
  artifact_id ← cursor_id lib second
  ok (created_at, artifact_id)

-- The query before the cursor: the artifacts of the project whose deletion is not requested.
abbrev pub is_listed : ℕ → ℕ → ArtifactModel → Bool
is_listed organization_id project_id a =
    a.organization_id == organization_id && a.project_id == project_id && not (is_gone a)

-- The condition of a cursor: created earlier, or at the same time with a smaller id.
abbrev pub is_older : ℕ × ℕ → ArtifactModel → Bool
is_older (created_at, id) a =
    ltb a.created_at created_at || (a.created_at == created_at && ltb a.id id)

-- `order_by(created_at.desc(), id.desc())`
abbrev pub is_newer : ArtifactModel → ArtifactModel → Bool
is_newer a b = ltb b.created_at a.created_at || (a.created_at == b.created_at && leb b.id a.id)

-- `if cursor`
unfoldable pub older_artifacts :
    CursorLibraries → Option String → List ArtifactModel → Result (List ArtifactModel)
unfolding decode_artifact_cursor
older_artifacts lib none rows = ok rows
older_artifacts lib (some cursor) rows =
    if is_empty cursor
    then ok rows
    else do key ← decode_artifact_cursor lib cursor; ok (select (is_older key) rows)

-- `items[-1]`
abbrev pub last_item : List ArtifactModel → Option ArtifactModel
last_item [] = none
last_item (a ∷ []) = some a
last_item (a ∷ b ∷ rest) = last_item (b ∷ rest)

abbrev pub cursor_after : CursorLibraries → Option ArtifactModel → Option String
cursor_after lib none = none
cursor_after lib (some a) = some (encode_artifact_cursor lib a)

-- The page of `n` artifacts out of a query's first `n + 1` rows; `n` is at least 1.
unfoldable pub artifact_page : CursorLibraries → ℕ → List ArtifactModel → ArtifactPage
unfolding encode_artifact_cursor serialize_artifact
artifact_page lib n rows =
    let items = limit n rows in
    record {
      items = map serialize_artifact items;
      next_cursor = if ltb n (length rows) then cursor_after lib (last_item items) else none;
    }

module _ {R : Type 0} (ctx : Context) (lib : CursorLibraries) where
  unfoldable pub list_artifacts : ℕ → ℕ → (n : ℕ) → (cursor : Option String) → Action R ArtifactPage
  unfolding authorized_project older_artifacts artifact_page check
  list_artifacts organization_id project_id n cursor = check λ db. do
    authorized_project organization_id project_id ctx.actor_id false db
    rows ← older_artifacts lib cursor (select (is_listed organization_id project_id) db.artifacts)
    ok (artifact_page lib n (limit (1 + n) (order_by is_newer rows)))
