-- ===== src/Upload/Rows.antt =====
-- Upload sessions as rows: their object keys, their expiry, the version that a flush advances, the
-- organization's quota, and the body of a response.
use Prim.Native.String.{◌++◌}
use ai_auto_platform.Prelude.{
  ℕ, ◌+◌, Bool, true, false, ◌&&◌, Option, none, some, List, [], ◌∷◌, String, count, str_eq, leb,
  ◌==◌, if◌then◌else◌, find_by, select, is_empty, replace_by, sum_by, count_by, remove_prefix,
  all_chars, is_lower_hex,
}
use ai_auto_platform.Errors.{
  Result, ok, throw, or_throw, upload_session_not_found, upload_state_conflict, storage_unavailable,
}
use ai_auto_platform.Db.Models.{Db, UploadSessionModel, UploadPartModel, Json, Value, optional_time}
use ai_auto_platform.Artifact.Storage.{Stored, stored, storage_error}
use ai_auto_platform.Artifact.Domain.{
  UploadSessionStatus, is_active, upload_status_value, same_upload_status,
}

-- `OBJECT_KEY_PATTERN.fullmatch`, `^v1/o/[0-9a-f]{32}$`
unfoldable pub is_object_key : String → Bool
is_object_key key = elim (remove_prefix "v1/o/" key) [
  | none ↦ false
  | some rest ↦ count rest == 32 && all_chars is_lower_hex rest
]

-- `f"v1/o/{secrets.token_hex(16)}"`, from the token
abbrev pub object_key_of : String → String
object_key_of token_hex = "v1/o/" ++ token_hex

abbrev pub has_id : ℕ → UploadSessionModel → Bool
has_id id u = u.id == id

-- `id == upload_id`, `organization_id == …`, `project_id == …`
abbrev pub is_upload : ℕ → ℕ → ℕ → UploadSessionModel → Bool
is_upload organization_id project_id upload_id u =
    has_id upload_id u && (u.organization_id == organization_id && u.project_id == project_id)

unfoldable pub find_upload : ℕ → ℕ → ℕ → Db → Result UploadSessionModel
find_upload organization_id project_id upload_id db =
    or_throw (find_by (is_upload organization_id project_id upload_id) db.upload_sessions)
      upload_session_not_found 404

abbrev pub is_due : UploadSessionModel → ℕ → Bool
is_due u now = is_active u.status && leb u.expires_at now

-- The assignments of `_expire_if_needed`, made if `is_due`.
abbrev pub expire : UploadSessionModel → UploadSessionModel
expire u = record u { status = UploadSessionStatus.expired; reserved_bytes = 0 }

abbrev pub same_number : Option ℕ → Option ℕ → Bool
same_number none none = true
same_number (some a) (some b) = a == b
same_number _ _ = false

abbrev pub same_text : Option String → Option String → Bool
same_text none none = true
same_text (some a) (some b) = str_eq a b
same_text _ _ = false

-- No column has changed that a route assigns.
abbrev pub is_unchanged : UploadSessionModel → UploadSessionModel → Bool
is_unchanged old new =
    same_upload_status old.status new.status
    && old.reserved_bytes == new.reserved_bytes
    && same_text old.storage_upload_id new.storage_upload_id
    && same_number old.completed_at new.completed_at

-- A flush writes a row whose columns have changed, under the next version (`version_id_col`).
unfoldable pub flushed : ℕ → UploadSessionModel → UploadSessionModel → UploadSessionModel
flushed db_now old new =
    if is_unchanged old new
    then old
    else record new { version = old.version + 1; updated_at = db_now }

abbrev pub put_upload : UploadSessionModel → Db → Db
put_upload u db = record db { upload_sessions = replace_by (has_id u.id) u db.upload_sessions }

-- `not upload.storage_upload_id` is an error of the state.
unfoldable pub remote_upload_id : UploadSessionModel → Db → Result String
remote_upload_id u db = elim u.storage_upload_id [
  | none ↦ throw upload_state_conflict 409
  | some id ↦ if is_empty id then throw upload_state_conflict 409 else ok id
]

-- `_storage_required` and `_storage_failure`
abbrev pub storage_required : {P : Type 0} → Option P → Db → Result P
storage_required storage db = or_throw storage storage_unavailable 503

abbrev pub available : {A : Type 0} → Stored A → Db → Result A
available (stored a) db = ok a
available (storage_error e) db = throw storage_unavailable 503

abbrev pub is_part_of : ℕ → UploadPartModel → Bool
is_part_of upload_id p = p.upload_session_id == upload_id

unfoldable pub insert_part : UploadPartModel → List UploadPartModel → List UploadPartModel
insert_part p [] = p ∷ []
insert_part p (q ∷ qs) =
    let rest = insert_part p qs in if leb p.part_number q.part_number then p ∷ q ∷ qs else q ∷ rest

-- `.order_by(UploadPartModel.part_number)`
unfoldable pub order_parts : List UploadPartModel → List UploadPartModel
unfolding insert_part
order_parts [] = []
order_parts (p ∷ ps) = insert_part p (order_parts ps)

-- `select(UploadPartModel).where(upload_session_id == …).order_by(part_number)`
unfoldable pub parts_of : ℕ → Db → List UploadPartModel
unfolding order_parts
parts_of upload_id db = order_parts (select (is_part_of upload_id) db.upload_parts)

-- The sessions that `_active_quota` counts and sums.
abbrev pub is_reserving : ℕ → UploadSessionModel → Bool
is_reserving organization_id u = u.organization_id == organization_id && is_active u.status

abbrev pub active_count : ℕ → List UploadSessionModel → ℕ
active_count organization_id = count_by (is_reserving organization_id)

abbrev pub active_bytes : ℕ → List UploadSessionModel → ℕ
active_bytes organization_id = sum_by (is_reserving organization_id) (λ u. u.reserved_bytes)

-- `_serialize`: the fields of `UploadSessionRead`
unfoldable pub serialize : UploadSessionModel → Json
serialize u =
    ("id", Value.uuid u.id)
    ∷ ("organization_id", Value.uuid u.organization_id)
    ∷ ("project_id", Value.uuid u.project_id)
    ∷ ("created_by", Value.uuid u.created_by)
    ∷ ("display_name", Value.text u.display_name)
    ∷ ("expected_size", Value.number u.expected_size)
    ∷ ("expected_sha256", Value.text u.expected_sha256)
    ∷ ("declared_content_type", Value.text u.declared_content_type)
    ∷ ("status", Value.text (upload_status_value u.status))
    ∷ ("expires_at", Value.number u.expires_at)
    ∷ ("completed_at", optional_time u.completed_at)
    ∷ ("version", Value.number u.version)
    ∷ ("created_at", Value.number u.created_at)
    ∷ ("updated_at", Value.number u.updated_at)
    ∷ []
