-- ===== src/Artifact/Storage.antt =====
-- modules/artifact/storage.py: the values and the port of the object storage. The state of the
-- storage is a parameter, since the service behind the port is not part of the program.
use ai_auto_platform.Prelude.{ℕ, ◌≡◌, refl, ◌⊎◌, inl, inr, Bool, true, false, Option, List, String}

pub data StorageErrorCode : Type 0 where
  not_found conflict access_denied invalid_request timeout : StorageErrorCode
  temporary_unavailable cancelled internal : StorageErrorCode

abbrev pub is_not_found : StorageErrorCode → Bool
is_not_found StorageErrorCode.not_found = true
is_not_found _ = false

abbrev pub storage_error_value : StorageErrorCode → String
storage_error_value StorageErrorCode.not_found = "NOT_FOUND"
storage_error_value StorageErrorCode.conflict = "CONFLICT"
storage_error_value StorageErrorCode.access_denied = "ACCESS_DENIED"
storage_error_value StorageErrorCode.invalid_request = "INVALID_REQUEST"
storage_error_value StorageErrorCode.timeout = "TIMEOUT"
storage_error_value StorageErrorCode.temporary_unavailable = "TEMPORARY_UNAVAILABLE"
storage_error_value StorageErrorCode.cancelled = "CANCELLED"
storage_error_value StorageErrorCode.internal = "INTERNAL"

pub record ObjectStorageError : Type 0 where
  pub code : StorageErrorCode
  pub retryable : Bool

-- What a call of the storage returns or raises.
pub data Stored {ℓ} (A : Type ℓ) : Type ℓ where
  stored : A → Stored A
  storage_error : ObjectStorageError → Stored A

pub record ObjectMetadata : Type 0 where
  pub size_bytes : ℕ
  pub etag : Option String
  pub content_type : Option String
  pub checksum_crc64 : Option String

pub record StorageObjectRef : Type 0 where
  pub object_key : String
  pub last_modified : ℕ

pub record CompletedPart : Type 0 where
  pub part_number : ℕ
  pub etag : String

pub record PresignedRequest : Type 0 where
  pub url : String
  pub expires_in_seconds : ℕ

-- `ObjectStoragePort`. `read_chunks` gives the chunks that the stream yields, or the error that
-- ends it; `complete_multipart` is handed a column that may be NULL; `list_objects` the objects that it yields, and then the error that ends it, if any.
pub record ObjectStoragePort (R : Type 0) : Type 0 where
  pub start_multipart : String → String → R → Stored String × R
  pub sign_upload_part : String → String → ℕ → ℕ → R → Stored PresignedRequest × R
  pub complete_multipart : String → Option String → List CompletedPart → R → Stored (Unit {0}) × R
  pub abort_multipart : String → String → R → Stored (Unit {0}) × R
  pub head : String → R → Stored ObjectMetadata × R
  pub read_chunks : String → R → Stored (List (List ℕ)) × R
  pub sign_download : String → ℕ → String → R → Stored PresignedRequest × R
  pub delete : String → R → Stored (Unit {0}) × R
  pub list_objects : String → R → (List StorageObjectRef × Option ObjectStorageError) × R

pub Stored-cases {ℓ} :
    {A : Type ℓ} (s : Stored A)
    → ((a : A) × (s ≡ stored a)) ⊎ ((e : ObjectStorageError) × (s ≡ storage_error e))
Stored-cases (stored a) = inl (a, refl)
Stored-cases (storage_error e) = inr (e, refl)
