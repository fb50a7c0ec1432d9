-- ===== src/Common/Settings.antt =====
-- The limits of `Settings` in settings.py that the routes and the maintenance read.
use ai_auto_platform.Prelude.{ℕ, ◌*◌, ◌^◌}

pub record Settings : Type 0 where
  pub upload_max_file_bytes : ℕ
  pub upload_max_active_per_organization : ℕ
  pub upload_max_reserved_bytes_per_organization : ℕ
  pub upload_session_ttl_seconds : ℕ
  pub artifact_maintenance_interval_seconds : ℕ
  pub artifact_maintenance_timeout_seconds : ℕ
  pub artifact_maintenance_batch_size : ℕ
  pub artifact_orphan_grace_seconds : ℕ
  pub artifact_maintenance_alert_failure_threshold : ℕ

abbrev pub default_settings : Settings
default_settings = record {
  upload_max_file_bytes = 20 * 1024 ^ 3;
  upload_max_active_per_organization = 20;
  upload_max_reserved_bytes_per_organization = 100 * 1024 ^ 3;
  upload_session_ttl_seconds = 24 * 60 * 60;
  artifact_maintenance_interval_seconds = 300;
  artifact_maintenance_timeout_seconds = 240;
  artifact_maintenance_batch_size = 100;
  artifact_orphan_grace_seconds = 24 * 60 * 60;
  artifact_maintenance_alert_failure_threshold = 1;
}

-- `timedelta(seconds=n)`, in microseconds
abbrev pub seconds : ℕ → ℕ
seconds n = n * 1_000_000
