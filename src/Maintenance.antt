-- ===== src/Maintenance.antt =====
-- modules/artifact/maintenance.py: the state of a run, its events and the wait between attempts.
-- `db` is what is committed, as every step of a run commits its own transaction.
pub mod Sessions
pub mod Artifacts
pub mod Orphans
pub mod Backoff
pub mod Histories
pub mod Safety
use ai_auto_platform.Prelude.{
  zero, suc, ℕ, ◌+◌, ◌-◌, ◌*◌, ◌^◌, min, Bool, true, false, Option, none, some, List, [], ◌∷◌, ◌++◌,
  String, leb,
}
use ai_auto_platform.Db.Models.{Db, AuditEventModel, OutboxEventModel}
use ai_auto_platform.Common.Settings.{seconds}

pub record MaintenanceMetrics : Type 0 where
  pub expired_sessions : ℕ
  pub multipart_aborted : ℕ
  pub artifacts_deleted : ℕ
  pub missing_objects : ℕ
  pub orphan_objects_deleted : ℕ
  pub failures : ℕ

abbrev pub no_metrics : MaintenanceMetrics
no_metrics = record {
  expired_sessions = 0;
  multipart_aborted = 0;
  artifacts_deleted = 0;
  missing_objects = 0;
  orphan_objects_deleted = 0;
  failures = 0;
}

pub record State (R : Type 0) : Type 0 where
  pub db : Db
  pub remote : R
  pub metrics : MaintenanceMetrics

abbrev pub count_failure : {R : Type 0} → State R → State R
count_failure s = record s { metrics = record s.metrics { failures = s.metrics.failures + 1 } }

-- `_backoff`: `30 * 2 ** -1` is 15.
unfoldable pub backoff : ℕ → ℕ
backoff zero = seconds 15
backoff (suc attempts) = seconds (min 3600 (30 * 2 ^ min attempts 7))

-- `cleanup_next_attempt_at.is_(None)` or `<= now`
abbrev pub is_attempt_due : ℕ → Option ℕ → Bool
is_attempt_due now none = true
is_attempt_due now (some t) = leb t now

-- `_events`; the actor is `UUID(int=0)`.
unfoldable pub add_events :
    (org_id project_id : Option ℕ) (resource_id version : ℕ) (event_type action : String) → Db → Db
add_events org_id project_id resource_id version event_type action db =
    let audit : AuditEventModel = record {
      organization_id = org_id;
      project_id = project_id;
      actor_type = "SYSTEM";
      actor_id = 0;
      action = action;
      resource_type = "artifact_maintenance";
      resource_id = resource_id;
      result = "SUCCESS";
      trace_id = none;
      detail = [];
    } in
    let outbox : OutboxEventModel = record {
      organization_id = org_id;
      aggregate_type = "artifact";
      aggregate_id = resource_id;
      event_type = event_type;
      payload = record {
        schema_version = 1;
        aggregate_version = version;
        trace_id = none;
        content = [];
      };
    } in
    record db {
      audit_events = db.audit_events ++ audit ∷ [];
      outbox_events = db.outbox_events ++ outbox ∷ [];
    }
