-- ===== src/ProjectRoutes/Cursors.antt =====
-- `_encode_cursor` and `_decode_cursor`
pub mod RoundTrip
use Prim.Native.String.{[], ◌∷◌, ◌++◌}
use ai_auto_platform.Prelude.{
  ℕ, ◌-◌, ◌%◌, zero, suc, Option, none, some, String, count, rstrip_char,
}
use ai_auto_platform.Errors.{
  Result, ok, err, unhandled, ◌>>=◌, ◌>>◌, throw, or_throw, invalid_cursor,
}
use ai_auto_platform.Db.Models.{ProjectModel}

-- A value that `json.loads` returns inside a list: a text, null, or a value of another kind.
pub data Loaded : Type 0 where
  text : String → Loaded
  null other : Loaded

-- What the cursors call: `datetime`, `uuid`, `json` and `base64`. `none` is an error that
-- `_decode_cursor` catches.
pub record CursorLibraries : Type 0 where
  -- `time.isoformat()`
  pub isoformat : ℕ → String
  -- `datetime.fromisoformat(text)`
  pub fromisoformat : String → Option ℕ
  -- `str(uuid)`
  pub uuid_text : ℕ → String
  -- `UUID(text)`
  pub parse_uuid : String → Option ℕ
  -- `json.dumps([first, second], separators=(",", ":")).encode()`
  pub dumps_pair : String → String → String
  -- `json.loads(raw)`, unpacked in two
  pub loads_pair : String → Option (Loaded × Loaded)
  -- `base64.urlsafe_b64encode(raw).decode()`
  pub b64encode : String → String
  -- `base64.urlsafe_b64decode(text)`
  pub b64decode : String → Option String

unfoldable pub encode_cursor : CursorLibraries → ProjectModel → String
unfolding rstrip_char
encode_cursor lib p =
    rstrip_char b'='
      (lib.b64encode (lib.dumps_pair (lib.isoformat p.created_at) (lib.uuid_text p.id)))

-- `-n % 4`
abbrev pub padding : ℕ → ℕ
padding n = (4 - n % 4) % 4

-- `"=" * n`
unfoldable pub equals_signs : ℕ → String
equals_signs zero = []
equals_signs (suc n) = "=" ∷ equals_signs n

-- `datetime.fromisoformat(created_at)`: a value that is no text is a `TypeError`.
abbrev pub cursor_time : CursorLibraries → Loaded → Result ℕ
cursor_time lib (Loaded.text s) = or_throw (lib.fromisoformat s) invalid_cursor 400
cursor_time lib _ = throw invalid_cursor 400

-- `UUID(project_id)`: null is a `TypeError`, a value of another kind an `AttributeError`, which is
-- not caught.
abbrev pub cursor_id : CursorLibraries → Loaded → Result ℕ
cursor_id lib (Loaded.text s) = or_throw (lib.parse_uuid s) invalid_cursor 400
cursor_id lib Loaded.null = throw invalid_cursor 400
cursor_id lib Loaded.other = err unhandled

unfoldable pub decode_cursor : CursorLibraries → String → Result (ℕ × ℕ)
unfolding equals_signs
decode_cursor lib cursor = do
  raw ←
      or_throw (lib.b64decode (cursor ++ equals_signs (padding (count cursor)))) invalid_cursor 400
  (first, second) ← or_throw (lib.loads_pair raw) invalid_cursor 400
  created_at ← cursor_time lib first
  project_id ← cursor_id lib second
  ok (created_at, project_id)
