-- ===== src/Tests/Storage.antt =====
-- A gateway that is unavailable twice and then answers.
use ai_auto_platform.Prelude.{ℕ, suc, zero, none, arith}
use ai_auto_platform.Artifact.Storage.{StorageErrorCode}
use ai_auto_platform.Artifact.Retry.{RetryPolicy, Attempt, returned, failed, run_call}
use ai_auto_platform.Artifact.Retry.Bounds.{EndsWithin, run_call-EndsWithin}

abbrev policy : RetryPolicy
policy = record { max_attempts = 3 }

abbrev gateway : ℕ → Attempt ℕ × ℕ
gateway zero = (returned 5, 0)
gateway (suc n) = (failed StorageErrorCode.temporary_unavailable, n)

run_call-EndsWithin_example : EndsWithin 3 (run_call policy none gateway 2)
run_call-EndsWithin_example = run_call-EndsWithin policy none gateway 2 (omega arith)
