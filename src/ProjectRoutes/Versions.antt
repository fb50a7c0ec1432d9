-- ===== src/ProjectRoutes/Versions.antt =====
-- `_etag`, `_expected_version` and `_check_version`
pub mod RoundTrip
use Prim.Native.String.{◌++◌}
use ai_auto_platform.Prelude.{
  ℕ, Bool, not, Option, none, some, String, if◌then◌else◌, strip, remove_prefix, unquote,
}
use ai_auto_platform.Errors.{
  Result, ◌>>=◌, ◌>>◌, throw, throw_if, if_match_required, version_mismatch,
}
use ai_auto_platform.Db.Models.{ProjectModel}
use ai_auto_platform.Common.Libraries.{Libraries, Integer}
use ai_auto_platform.ArtifactRoutes.Visible.{without_weak, quoted_version, is_version}

-- `_etag`
unfoldable pub etag_of : Libraries → ℕ → String
etag_of lib version = "\"" ++ lib.show_int version ++ "\""

unfoldable pub expected_version : Libraries → Option String → Result Integer
unfolding strip remove_prefix unquote
expected_version lib none = throw if_match_required 428
expected_version lib (some if_match) =
    let value = strip if_match in
    quoted_version lib (unquote (without_weak (remove_prefix "W/" value) value))

unfoldable pub check_version : Libraries → ProjectModel → Option String → Result (Unit {0})
unfolding expected_version
check_version lib project if_match = do
  expected ← expected_version lib if_match
  throw_if (not (is_version project.version expected)) version_mismatch 412
