-- ===== src/ProjectRoutes/Payloads.antt =====
-- The bodies of the requests. A validator returns the value that the handler sees, or `none` for a
-- rejection (422).
use ai_auto_platform.Prelude.{
  ℕ, Bool, true, ◌&&◌, ◌||◌, Option, none, some, String, count, leb, if◌then◌else◌, is_some,
  has_length, is_code, strip,
}
use ai_auto_platform.Common.Libraries.{Libraries}

pub record ProjectCreate : Type 0 where
  pub code : String
  pub name : String
  pub description : Option String

-- A field of a body that may be left out, or be null.
abbrev pub Given : Type 0
Given = Option (Option String)

pub record ProjectUpdate : Type 0 where
  pub code : Given
  pub name : Given
  pub description : Given

unfoldable pub normalize_code : Libraries → String → String
unfolding strip
normalize_code lib value = lib.lower (strip value)

abbrev pub is_short : ℕ → Option String → Bool
is_short hi none = true
is_short hi (some s) = leb (count s) hi

unfoldable pub validate_project : Libraries → ProjectCreate → Option ProjectCreate
unfolding normalize_code is_code
validate_project lib p =
    if has_length 2 50 p.code
      && is_code p.code
      && has_length 2 120 p.name
      && is_short 4000 p.description
    then some (record p { code = normalize_code lib p.code })
    else none

-- A field that is given and not null satisfies the test.
abbrev pub all_given : (String → Bool) → Given → Bool
all_given test (some (some s)) = test s
all_given test _ = true

abbrev pub map_given : (String → String) → Given → Given
map_given f (some (some s)) = some (some (f s))
map_given f given = given

unfoldable pub validate_update : Libraries → ProjectUpdate → Option ProjectUpdate
unfolding normalize_code is_code
validate_update lib p =
    if all_given (λ s. has_length 2 50 s && is_code s) p.code
      && all_given (has_length 2 120) p.name
      && all_given (has_length 0 4000) p.description
      && (is_some p.code || is_some p.name || is_some p.description)
    then some (record p { code = map_given (normalize_code lib) p.code })
    else none
