-- ===== src/Prelude/Text.antt =====
-- Operations of `str` over the code points of a text.
use Prim.Native.Nat.{ℕ, suc, zero, ◌+◌}
use Prim.Native.Char.{Char, code}
use Prim.Native.String.{String, [], ◌∷◌, ◌++◌, count}
use mathlib.Core.Bool.{Bool, true, false, ◌&&◌, ◌||◌}
use mathlib.Core.Option.{Option, none, some}
use ai_auto_platform.Prelude.Tests.{leb, ◌==◌, if◌then◌else◌, when}

-- `str.isspace` of one character, as Unicode's table has it.
unfoldable pub is_space : Char → Bool
is_space ch =
    let c = code ch in
    (leb 9 c && leb c 13)
    || (leb 28 c && leb c 32)
    || c == 0x85
    || c == 0xa0
    || c == 0x1680
    || (leb 0x2000 c && leb c 0x200a)
    || c == 0x2028
    || c == 0x2029
    || c == 0x202f
    || c == 0x205f
    || c == 0x3000

abbrev pub is_empty : String → Bool
is_empty [] = true
is_empty (c ∷ s) = false

unfoldable pub lstrip : String → String
unfolding is_space
lstrip [] = []
lstrip (c ∷ s) = elim (is_space c) [ true ↦ lstrip s | false ↦ c ∷ s ]

unfoldable pub rstrip : String → String
unfolding is_space
rstrip [] = []
rstrip (c ∷ s) = let rest = rstrip s in if is_space c && is_empty rest then [] else c ∷ rest

-- `value.strip()`
unfoldable pub strip : String → String
unfolding lstrip rstrip
strip s = rstrip (lstrip s)

-- `re`'s class `[0-9a-f]`
unfoldable pub is_lower_hex : Char → Bool
is_lower_hex ch = let c = code ch in (leb b'0' c && leb c b'9') || (leb b'a' c && leb c b'f')

unfoldable pub all_chars : (Char → Bool) → String → Bool
all_chars p [] = true
all_chars p (c ∷ s) = p c && all_chars p s

-- What follows a prefix.
unfoldable pub remove_prefix : String → String → Option String
remove_prefix [] s = some s
remove_prefix (c ∷ p) [] = none
remove_prefix (c ∷ p) (d ∷ s) =
    let rest = remove_prefix p s in if code c == code d then rest else none

-- `ord(character) < 32 or ord(character) == 127`
unfoldable pub is_control : Char → Bool
is_control ch = let c = code ch in leb c 31 || c == 127

-- `value.replace(old, new)` for the character of the code `old`
unfoldable pub replace_char : ℕ → String → String → String
replace_char old new [] = []
replace_char old new (c ∷ s) =
    let rest = replace_char old new s in if code c == old then new ++ rest else c ∷ rest

-- `value[:n]`
abbrev pub take_chars : ℕ → String → String
take_chars zero s = []
take_chars (suc n) [] = []
take_chars (suc n) (c ∷ s) = c ∷ take_chars n s

abbrev prepend_char : Char → Option String → Option String
prepend_char c none = none
prepend_char c (some s) = some (c ∷ s)

-- What stands in front of a last double quote.
unfoldable pub before_last_quote : String → Option String
before_last_quote [] = none
before_last_quote (c ∷ s) =
    let rest = before_last_quote s in
    if is_empty s then (if code c == b'"' then some [] else none) else prepend_char c rest

abbrev then_before_last_quote : Option String → Option String
then_before_last_quote none = none
then_before_last_quote (some s) = before_last_quote s

-- The text between a first and a last double quote.
unfoldable pub unquote : String → Option String
unfolding remove_prefix before_last_quote
unquote value = then_before_last_quote (remove_prefix "\"" value)

-- `Field(min_length=lo, max_length=hi)`
abbrev pub has_length : ℕ → ℕ → String → Bool
has_length lo hi s = leb lo (count s) && leb (count s) hi

-- `value.count(character)` for the character of the code `k`
unfoldable pub count_char : ℕ → String → ℕ
count_char k [] = 0
count_char k (c ∷ s) = when (code c == k) 1 + count_char k s

-- `value.startswith(character)`
unfoldable pub starts_with_char : ℕ → String → Bool
starts_with_char k [] = false
starts_with_char k (c ∷ s) = code c == k

-- `value.endswith(character)`
unfoldable pub ends_with_char : ℕ → String → Bool
ends_with_char k [] = false
ends_with_char k (c ∷ s) = let rest = ends_with_char k s in if is_empty s then code c == k else rest

-- `re`'s class `[a-z0-9]`
unfoldable pub is_code_start : Char → Bool
is_code_start ch = let c = code ch in (leb b'a' c && leb c b'z') || (leb b'0' c && leb c b'9')

-- `^[a-z0-9][a-z0-9-]*$`
unfoldable pub is_code : String → Bool
unfolding all_chars is_code_start
is_code [] = false
is_code (c ∷ s) = is_code_start c && all_chars (λ d. is_code_start d || code d == b'-') s

-- `value.rstrip(character)` for the character of the code `k`
unfoldable pub rstrip_char : ℕ → String → String
rstrip_char k [] = []
rstrip_char k (c ∷ s) =
    let rest = rstrip_char k s in if code c == k && is_empty rest then [] else c ∷ rest
