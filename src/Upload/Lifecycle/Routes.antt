-- ===== src/Upload/Lifecycle/Routes.antt =====
-- The routes' runs and the steps of the state machine: `create_upload_session`; the other routes are
-- in the children.
pub mod Sessions
pub mod Signing
pub mod Cancelling
pub mod Completing
pub mod Checkpoint
use ai_auto_platform.Prelude.{
  ℕ, ◌≡◌, refl, Bool, true, false, Option, none, some, List, String, arith, ltb, find_by, Distinct,
  if◌then◌else◌, exists_by, exists_by-has_key,
}
use ai_auto_platform.Errors.{Result, ok, throw_if, upload_too_large}
use ai_auto_platform.Db.Models.{Db, UploadSessionModel, UploadPartModel, Json}
use ai_auto_platform.Artifact.Storage.{ObjectStoragePort}
use ai_auto_platform.Exec.{World, Action, Context, Response, serve}
use ai_auto_platform.Exec.Rules.{
  Keeps, Keeps-pure, Keeps-raise, Keeps-check, Keeps-call, Keeps-write, Keeps-commit, Keeps-if,
  serve-keeps,
}
use ai_auto_platform.Common.Libraries.{Libraries}
use ai_auto_platform.Common.Settings.{Settings}
use ai_auto_platform.Common.Reliability.{
  IdempotencyDecision, record_audit, record_outbox, complete_idempotent_command,
}
use ai_auto_platform.Common.Reliability.Rules.{Keeps-begin, Keeps-replay_or, with_records}
use ai_auto_platform.Upload.Rows.{object_key_of, flushed, expire, is_due}
use ai_auto_platform.Upload.Payloads.{UploadSessionCreate}
use ai_auto_platform.Upload.Create.{
  create_upload_session, reserve_upload, new_upload, check_quota, check_constraints, insert_upload,
}
use ai_auto_platform.Upload.Lifecycle.{Admitted, admit, Reach, next, session_id}
use ai_auto_platform.Upload.Lifecycle.Invariants.{Reach-Distinct}
use ai_auto_platform.Upload.Lifecycle.Rows.{
  Follows, put-Follows, Advance-flushed, expire-Advance, find_upload-found,
}

module _ (cfg : Settings) where
  -- The checks of a new session are what the state machine asks of it.
  new_upload-Admitted :
      (ctx : Context) (org project : ℕ) (p : UploadSessionCreate) (key : String) (db : Db)
      → ltb cfg.upload_max_file_bytes p.size_bytes ≡ false
      → check_quota cfg org p db ≡ ok tt
      → check_constraints (new_upload cfg ctx org project p key) db ≡ ok tt
      → Admitted cfg db.upload_sessions (new_upload cfg ctx org project p key)
  unfolding new_upload check_quota check_constraints
  new_upload-Admitted ctx org project p key db small quota fresh = record {
    is_pending = refl;
    reserves = refl;
    fits_file = ground arith;
    fits_count = ground arith;
    fits_bytes = ground arith;
    is_new = exists_by-has_key session_id ctx.new_id db.upload_sessions (ground arith);
  }

module _ {R : Type 0} (cfg : Settings) {us : List UploadSessionModel} where
  reserve-Follows :
      (ctx : Context) (token : String) (org project : ℕ) (p : UploadSessionCreate)
      → (d : IdempotencyDecision) (w : World R) → ltb cfg.upload_max_file_bytes p.size_bytes ≡ false
      → Follows cfg us w.durable
      → Follows cfg us w.pending
      → Keeps (Follows cfg us) (reserve_upload cfg ctx token org project p d w)
  unfolding reserve_upload record_audit record_outbox complete_idempotent_command
  reserve-Follows ctx token org project p d w small h r = Keeps-check _ _ w h λ locked _.
      Keeps-check _ _ w h λ quota fits. Keeps-check _ _ w h λ asserted _.
        Keeps-check _ _ w h λ constrained fresh.
          let u = new_upload cfg ctx org project p (object_key_of token) in
          let admitted =
            new_upload-Admitted cfg ctx org project p (object_key_of token) w.pending small fits
              fresh in
          Keeps-write _ _ _ (
            Keeps-write _ _ _ (
              Keeps-write _ _ _ (Keeps-write _ _ _ (Keeps-pure _ h _ (next r (admit u admitted))))))

  -- `create_upload_session` follows the state machine.
  pub create-Keeps :
      (lib : Libraries) (ctx : Context) (token : String) (org project : ℕ) (p : UploadSessionCreate)
      → (key : Option String) (w : World R) → Follows cfg us w.durable
      → Follows cfg us w.pending
      → Keeps (Follows cfg us) (create_upload_session cfg ctx lib token org project p key w)
  unfolding create_upload_session
  create-Keeps lib ctx token org project p key w h r = Keeps-check _ _ w h λ project_row _.
      Keeps-check _ _ w h λ sized fits. Keeps-begin lib ctx _ key _ _ w h λ d records.
        Keeps-replay_or d.replay _ _ h r
          (reserve-Follows ctx token org project p d (with_records w records) (ground arith) h r)
