-- ===== src/Artifact/Retry/Bounds.antt =====
-- The number of calls that a call with retries makes, about `_run` of modules/artifact/storage.py.
use ai_auto_platform.Prelude.{
  ℕ, zero, suc, ◌+◌, ◌≤◌, ◌≡◌, refl, arith, true, false, ◌||◌, not, Option, is_some, leb, inl, inr,
  Bool-cases,
}
use ai_auto_platform.Artifact.Storage.{StorageErrorCode}
use ai_auto_platform.Artifact.Retry.{
  RetryPolicy, CancellationSignal, Attempt, returned, timed_out, failed, is_retryable, is_cancelled,
  is_interrupted, Run, after_failure, after_attempt, attempts_left, run_call,
}

-- A run that ends in a result, after at most so many calls.
abbrev pub EndsWithin : {R A : Type 0} → ℕ → Run R A → Type 0
EndsWithin n run = (is_some run.result ≡ true) × (run.calls ≤ n)

module _ {R A : Type 0} (policy : RetryPolicy) (signal : Option CancellationSignal)
    (call : R → Attempt A × R) where
  failure-EndsWithin :
      (code : StorageErrorCode) (attempt calls : ℕ) (remote : R) (rest : Run R A)
      → calls ≤ policy.max_attempts
      → (leb policy.max_attempts attempt ≡ false → EndsWithin policy.max_attempts rest)
      → EndsWithin policy.max_attempts
          (after_failure policy signal call code attempt remote calls rest)
  failure-EndsWithin code attempt calls remote rest h next =
      elim (Bool-cases (not (is_retryable code) || leb policy.max_attempts attempt)) [
        | inl last ↦ rw last (refl, h)
        | inr more ↦ rw more (elim (Bool-cases (is_interrupted signal attempt)) [
          | inl stop ↦ rw stop (refl, h)
          | inr go ↦ rw go (next (ground arith))
        ])
      ]

  attempt-EndsWithin :
      (answer : Attempt A) (attempt calls : ℕ) (remote : R) (rest : Run R A)
      → calls ≤ policy.max_attempts
      → (leb policy.max_attempts attempt ≡ false → EndsWithin policy.max_attempts rest)
      → EndsWithin policy.max_attempts
          (after_attempt policy signal call answer attempt remote calls rest)
  attempt-EndsWithin (returned a) attempt calls remote rest h next = (refl, h)
  attempt-EndsWithin timed_out attempt calls remote rest h next =
      failure-EndsWithin StorageErrorCode.timeout attempt calls remote rest h next
  attempt-EndsWithin (failed code) attempt calls remote rest h next =
      failure-EndsWithin code attempt calls remote rest h next

  left-EndsWithin :
      (left attempt calls : ℕ) (remote : R)
      → attempt ≡ calls + 1
      → calls + left ≡ policy.max_attempts
      → 1 ≤ left
      → EndsWithin policy.max_attempts (attempts_left policy signal call left attempt calls remote)
  unfolding attempts_left
  left-EndsWithin zero attempt calls remote e total some_left = ground arith
  left-EndsWithin (suc left) attempt calls remote e total some_left =
      let (answer, r) = call remote in
      elim (Bool-cases (is_cancelled signal attempt)) [
        | inl stop ↦ rw stop (refl, omega arith)
        | inr go ↦ rw go (
            attempt-EndsWithin answer attempt (calls + 1) r
              (attempts_left policy signal call left (attempt + 1) (calls + 1) r) (omega arith)
              (λ more.
                left-EndsWithin left (attempt + 1) (calls + 1) r (omega arith) (omega arith)
                  (ground arith)))
      ]

  -- A call with retries under a policy of at least one attempt ends in a result, and never in the
  -- error behind its loop, after at most as many calls of the gateway as the policy has attempts,
  -- whatever the gateway answers and whenever it is cancelled.
  pub run_call-EndsWithin :
      (remote : R)
      → 1 ≤ policy.max_attempts
      → EndsWithin policy.max_attempts (run_call policy signal call remote)
  unfolding run_call
  run_call-EndsWithin remote h = left-EndsWithin policy.max_attempts 1 0 remote refl (omega arith) h
