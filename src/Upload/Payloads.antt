-- ===== src/Upload/Payloads.antt =====
-- The bodies of the requests on upload sessions, with the checks that pydantic makes before a
-- handler runs. A validator returns the value that the handler sees, or `none` for a rejection
-- (422).
pub mod Bounds
use ai_auto_platform.Prelude.{
  ℕ, Bool, true, false, ◌&&◌, ◌||◌, not, Option, none, some, List, [], ◌∷◌, String, count, leb, ltb,
  ◌==◌, if◌then◌else◌, length, map, strip, is_empty, all_chars, is_lower_hex, is_control,
  has_length,
}

pub record UploadSessionCreate : Type 0 where
  pub display_name : String
  pub size_bytes : ℕ
  pub sha256 : String
  pub content_type : String

-- `reject_control_characters`, and `validate_etag`
unfoldable pub reject_control_characters : String → Option String
reject_control_characters value =
    let normalized = strip value in
    if is_empty normalized || not (all_chars (λ c. not (is_control c)) normalized)
    then none
    else some normalized

-- `validate_sha256`: `^[0-9a-f]{64}$`
unfoldable pub validate_sha256 : String → Option String
validate_sha256 value =
    if count value == 64 && all_chars is_lower_hex value then some value else none

infixl 5 ◌>>=◌
abbrev ◌>>=◌ : {A B : Type 0} → Option A → (A → Option B) → Option B
none >>= f = none
some a >>= f = f a

abbrev accept : {A : Type 0} → Bool → A → Option A
accept test a = if test then some a else none

unfoldable pub validate_create : UploadSessionCreate → Option UploadSessionCreate
unfolding reject_control_characters validate_sha256
validate_create p = do
  long_name ← accept (has_length 1 512 p.display_name) p.display_name
  size ← accept (ltb 0 p.size_bytes) p.size_bytes
  digest ← validate_sha256 p.sha256
  long_type ← accept (has_length 1 255 p.content_type) p.content_type
  name ← reject_control_characters long_name
  type ← reject_control_characters long_type
  some (record { display_name = name; size_bytes = size; sha256 = digest; content_type = type })

pub record UploadPartSignRequest : Type 0 where
  pub part_numbers : List ℕ
  pub expires_in_seconds : ℕ

abbrev pub is_part_number : ℕ → Bool
is_part_number n = leb 1 n && leb n 10_000

abbrev pub contains : ℕ → List ℕ → Bool
contains a [] = false
contains a (x ∷ xs) = a == x || contains a xs

-- `len(set(numbers)) == len(numbers)`: no number stands twice.
unfoldable pub all_unique : List ℕ → Bool
all_unique [] = true
all_unique (x ∷ xs) = not (contains x xs) && all_unique xs

unfoldable pub all_part_numbers : List ℕ → Bool
all_part_numbers [] = true
all_part_numbers (x ∷ xs) = is_part_number x && all_part_numbers xs

unfoldable pub validate_sign : UploadPartSignRequest → Option UploadPartSignRequest
unfolding all_unique all_part_numbers
validate_sign p =
    if leb 1 (length p.part_numbers)
      && leb (length p.part_numbers) 100
      && all_part_numbers p.part_numbers
      && all_unique p.part_numbers
      && leb 60 p.expires_in_seconds
      && leb p.expires_in_seconds 3600
    then some p
    else none

pub record UploadPartRegister : Type 0 where
  pub etag : String
  pub size_bytes : ℕ

unfoldable pub validate_register : UploadPartRegister → Option UploadPartRegister
unfolding reject_control_characters
validate_register p = do
  long_etag ← accept (has_length 1 512 p.etag) p.etag
  etag ← reject_control_characters long_etag
  size ← accept (ltb 0 p.size_bytes) p.size_bytes
  some (record { etag = etag; size_bytes = size })

pub record UploadCompletePart : Type 0 where
  pub part_number : ℕ
  pub etag : String

pub record UploadCompleteRequest : Type 0 where
  pub parts : List UploadCompletePart

-- `numbers == sorted(numbers)`
unfoldable pub is_sorted : List ℕ → Bool
is_sorted [] = true
is_sorted (x ∷ []) = true
is_sorted (x ∷ y ∷ xs) = leb x y && is_sorted (y ∷ xs)

abbrev is_complete_part : UploadCompletePart → Bool
is_complete_part p = is_part_number p.part_number && has_length 1 512 p.etag

abbrev all_complete_parts : List UploadCompletePart → Bool
all_complete_parts [] = true
all_complete_parts (p ∷ ps) = is_complete_part p && all_complete_parts ps

abbrev pub numbers_of : List UploadCompletePart → List ℕ
numbers_of = map (λ p. p.part_number)

unfoldable pub validate_complete : UploadCompleteRequest → Option UploadCompleteRequest
unfolding is_sorted all_unique
validate_complete r =
    if leb 1 (length r.parts)
      && leb (length r.parts) 10_000
      && all_complete_parts r.parts
      && is_sorted (numbers_of r.parts)
      && all_unique (numbers_of r.parts)
    then some r
    else none
