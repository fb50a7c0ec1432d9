-- ===== src/ArtifactRoutes/Visible.antt =====
-- `_visible_artifact`, `_version` and `_safe_download_name` of api/artifacts.py.
use ai_auto_platform.Prelude.{
  ℕ, Bool, false, ◌&&◌, ◌||◌, Option, none, some, String, ◌==◌, if◌then◌else◌, find_by, strip,
  is_empty, remove_prefix, unquote, replace_char, take_chars,
}
use ai_auto_platform.Errors.{
  Result, ◌>>◌, throw, or_throw, artifact_not_found, if_match_required, invalid_if_match,
}
use ai_auto_platform.Db.Models.{Db, ArtifactModel}
use ai_auto_platform.Artifact.Domain.{ArtifactStatus, same_artifact_status}
use ai_auto_platform.Artifact.Rows.{has_artifact_id}
use ai_auto_platform.Common.Libraries.{Libraries, Integer, pos, negsuc}
use ai_auto_platform.Upload.Authorize.{authorized_project}

-- `id == …`, `organization_id == …`, `project_id == …`
abbrev pub is_artifact : ℕ → ℕ → ℕ → ArtifactModel → Bool
is_artifact organization_id project_id artifact_id a =
    has_artifact_id artifact_id a
    && (a.organization_id == organization_id && a.project_id == project_id)

unfoldable pub visible_artifact : ℕ → ℕ → ℕ → ℕ → Bool → Db → Result ArtifactModel
unfolding authorized_project
visible_artifact organization_id project_id artifact_id actor_id write db = do
  authorized_project organization_id project_id actor_id write db
  or_throw (find_by (is_artifact organization_id project_id artifact_id) db.artifacts)
      artifact_not_found 404

-- `status in {DELETING, DELETED}`
abbrev pub is_gone : ArtifactModel → Bool
is_gone a =
    same_artifact_status a.status ArtifactStatus.deleting
    || same_artifact_status a.status ArtifactStatus.deleted

-- `value.removeprefix("W/")`
abbrev pub without_weak : Option String → String → String
without_weak none value = value
without_weak (some rest) value = rest

-- The quoted text, if it has at least one character.
abbrev pub quoted_version : Libraries → Option String → Result Integer
quoted_version lib none = throw invalid_if_match 400
quoted_version lib (some text) =
    if is_empty text
    then throw invalid_if_match 400
    else or_throw (lib.parse_int text) invalid_if_match 400

-- `_version`
unfoldable pub version_of : Libraries → Option String → Result Integer
unfolding remove_prefix unquote
version_of lib none = throw if_match_required 428
version_of lib (some if_match) =
    let value = strip if_match in
    quoted_version lib (unquote (without_weak (remove_prefix "W/" value) value))

abbrev pub is_version : ℕ → Integer → Bool
is_version version (pos n) = version == n
is_version version (negsuc _) = false

abbrev pub or_default : String → String
or_default name = if is_empty name then "artifact.bin" else name

-- `_safe_download_name`; 92 is the backslash.
unfoldable pub safe_download_name : Libraries → String → String
unfolding replace_char
safe_download_name lib value =
    take_chars 255
      (or_default (strip (replace_char b'"' "_" (lib.path_name (replace_char 92 "/" value)))))
