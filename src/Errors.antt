-- ===== src/Errors.antt =====
-- The exceptions of a request: common/errors.py. A handler either returns or raises.
-- `safe_detail`, the text shown to the user, is a constant at each `raise` and is left out.
use ai_auto_platform.Prelude.{ℕ, ◌≡◌, refl, ◌⊎◌, inl, inr, Bool, Option, none, some, if◌then◌else◌}

-- `DomainError.code`
pub data ErrorCode : Type 0 where
  project_archived project_not_found project_write_required project_admin_required : ErrorCode
  project_code_exists project_member_exists project_member_not_found : ErrorCode
  organization_not_found organization_admin_required organization_member_required : ErrorCode
  organization_conflict owner_permission_required last_owner_required : ErrorCode
  member_already_exists member_not_found : ErrorCode
  invite_not_found invite_already_exists invite_already_accepted invite_revoked : ErrorCode
  invite_expired invite_email_mismatch invite_conflict : ErrorCode
  idempotency_key_required invalid_idempotency_key : ErrorCode
  idempotency_in_progress idempotency_conflict : ErrorCode
  if_match_required invalid_if_match version_mismatch invalid_cursor : ErrorCode
  storage_unavailable upload_session_not_found upload_too_large upload_concurrency_limit : ErrorCode
  quota_exceeded upload_expired upload_state_conflict invalid_part_number : ErrorCode
  upload_part_conflict part_list_mismatch object_missing size_mismatch checksum_mismatch : ErrorCode
  artifact_not_found artifact_not_available : ErrorCode
  invalid_login_state invalid_login_nonce authentication_required : ErrorCode
  identity_provider_unavailable identity_provider_error : ErrorCode

-- `DomainError`; `unhandled` is any other exception, which the server answers with 500.
pub data Exception : Type 0 where
  domain_error : ErrorCode → ℕ → Exception
  unhandled : Exception

pub data Result {ℓ} (A : Type ℓ) : Type ℓ where
  ok : A → Result A
  err : Exception → Result A

infixl 5 ◌>>=◌ ◌>>◌
abbrev pub ◌>>=◌ {ℓ κ} : {A : Type ℓ} {B : Type κ} → Result A → (A → Result B) → Result B
ok a >>= f = f a
err e >>= f = err e

abbrev pub ◌>>◌ {ℓ κ} : {A : Type ℓ} {B : Type κ} → Result A → Result B → Result B
m >> k = m >>= λ _. k

abbrev pub throw {ℓ} : {A : Type ℓ} → ErrorCode → ℕ → Result A
throw code status = err (domain_error code status)

-- `if test: raise DomainError(code, …, status)`
abbrev pub throw_if : Bool → ErrorCode → ℕ → Result (Unit {0})
throw_if test code status = if test then throw code status else ok tt

-- `if value is None: raise DomainError(code, …, status)`
abbrev pub or_throw {ℓ} : {A : Type ℓ} → Option A → ErrorCode → ℕ → Result A
or_throw none code status = throw code status
or_throw (some a) code status = ok a

pub Result-cases {ℓ} :
    {A : Type ℓ} (r : Result A) → ((a : A) × (r ≡ ok a)) ⊎ ((e : Exception) × (r ≡ err e))
Result-cases (ok a) = inl (a, refl)
Result-cases (err e) = inr (e, refl)
