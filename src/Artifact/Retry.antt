-- ===== src/Artifact/Retry.antt =====
-- `S3CompatibleObjectStorageAdapter._run` of modules/artifact/storage.py: a call of the gateway with
-- retries. The waits themselves are left out; what a cancellation does is a parameter for each
-- attempt: whether it is set before the attempt, and whether it comes in the wait behind it.
pub mod Bounds
use ai_auto_platform.Prelude.{
  ℕ, zero, suc, ◌+◌, Bool, true, false, ◌||◌, not, Option, none, some, leb, if◌then◌else◌,
}
use ai_auto_platform.Artifact.Storage.{
  StorageErrorCode, ObjectStorageError, Stored, stored, storage_error,
}

-- `RetryPolicy`
pub record RetryPolicy : Type 0 where
  pub max_attempts : ℕ

-- `cancellation`, as the attempts see it
pub record CancellationSignal : Type 0 where
  pub is_set : ℕ → Bool
  pub comes_in_wait : ℕ → Bool

abbrev pub is_cancelled : Option CancellationSignal → ℕ → Bool
is_cancelled none attempt = false
is_cancelled (some signal) attempt = signal.is_set attempt

abbrev pub is_interrupted : Option CancellationSignal → ℕ → Bool
is_interrupted none attempt = false
is_interrupted (some signal) attempt = signal.comes_in_wait attempt

-- What one call of the gateway does: it returns, runs out of time, or raises `StorageGatewayError`.
pub data Attempt (A : Type 0) : Type 0 where
  returned : A → Attempt A
  timed_out : Attempt A
  failed : StorageErrorCode → Attempt A

-- `code in {TIMEOUT, TEMPORARY_UNAVAILABLE}`
abbrev pub is_retryable : StorageErrorCode → Bool
is_retryable StorageErrorCode.timeout = true
is_retryable StorageErrorCode.temporary_unavailable = true
is_retryable _ = false

abbrev pub cancelled_error : ObjectStorageError
cancelled_error = record { code = StorageErrorCode.cancelled; retryable = false }

-- What comes out, the state of the gateway, and how many calls were made. No result is the
-- `AssertionError` behind the loop.
pub record Run (R A : Type 0) : Type 0 where
  pub result : Option (Stored A)
  pub remote : R
  pub calls : ℕ

module _ {R A : Type 0} (policy : RetryPolicy) (signal : Option CancellationSignal)
    (call : R → Attempt A × R) where
  -- After an attempt: the error is raised, or `rest` goes on with the loop.
  abbrev pub after_failure : StorageErrorCode → ℕ → R → ℕ → Run R A → Run R A
  after_failure code attempt remote calls rest =
      if not (is_retryable code) || leb policy.max_attempts attempt
      then record {
        result = some (storage_error (record { code = code; retryable = is_retryable code }));
        remote = remote;
        calls = calls;
      }
      else if is_interrupted signal attempt
      then record { result = some (storage_error cancelled_error); remote = remote; calls = calls }
      else rest

  abbrev pub after_attempt : Attempt A → ℕ → R → ℕ → Run R A → Run R A
  after_attempt (returned a) attempt remote calls rest = record {
    result = some (stored a);
    remote = remote;
    calls = calls;
  }
  after_attempt timed_out attempt remote calls rest =
      after_failure StorageErrorCode.timeout attempt remote calls rest
  after_attempt (failed code) attempt remote calls rest =
      after_failure code attempt remote calls rest

  -- The loop, with the number of attempts that `range` still holds.
  unfoldable pub attempts_left : ℕ → ℕ → ℕ → R → Run R A
  attempts_left zero attempt calls remote = record { result = none; remote = remote; calls = calls }
  attempts_left (suc left) attempt calls remote =
      let (answer, r) = call remote in
      let rest = attempts_left left (attempt + 1) (calls + 1) r in
      if is_cancelled signal attempt
      then record { result = some (storage_error cancelled_error); remote = remote; calls = calls }
      else after_attempt answer attempt r (calls + 1) rest

  -- `_run`
  unfoldable pub run_call : R → Run R A
  unfolding attempts_left
  run_call remote = attempts_left policy.max_attempts 1 0 remote
