-- ===== src/Common/Libraries.antt =====
-- What the program calls and does not implement: digests, texts, paths and numbers in texts.
use ai_auto_platform.Prelude.{ℕ, Option, List, String}
use ai_auto_platform.Db.Models.{Json}

-- A Python integer.
pub data Integer : Type 0 where
  pos negsuc : ℕ → Integer

pub record Libraries : Type 0 where
  -- `json.dumps(payload, sort_keys=True, …)`, then `hashlib.sha256(…).hexdigest()`
  pub json_sha256 : Json → String
  -- `hashlib.sha256(data).hexdigest()`
  pub bytes_sha256 : List ℕ → String
  -- `hashlib.sha256(token.encode()).digest()`
  pub text_sha256 : String → String
  -- `str.casefold`
  pub casefold : String → String
  -- `str.lower`
  pub lower : String → String
  -- `lower(text)` of PostgreSQL
  pub sql_lower : String → String
  -- `uuid5(NAMESPACE_URL, name)`
  pub url_uuid5 : String → ℕ
  -- `int(text)`, none for a `ValueError`
  pub parse_int : String → Option Integer
  -- `PurePath(path).name`
  pub path_name : String → String
  -- `quote(text, safe="")`
  pub quote : String → String
  -- `str(number)`
  pub show_int : ℕ → String
