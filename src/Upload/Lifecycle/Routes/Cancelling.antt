-- ===== src/Upload/Lifecycle/Routes/Cancelling.antt =====
-- The run of `cancel_upload_session` and the steps of the state machine.
use ai_auto_platform.Prelude.{
  ℕ, ◌≡◌, true, Option, none, some, List, String, find_by, Distinct, is_empty,
}
use ai_auto_platform.Db.Models.{Db, ProjectModel, UploadSessionModel}
use ai_auto_platform.Artifact.Storage.{ObjectStoragePort}
use ai_auto_platform.Exec.{World, Action, Context, ◌>>=◌}
use ai_auto_platform.Exec.Rules.{
  Keeps, Keeps-pure, Keeps-check, Keeps-call, Keeps-write, Keeps-assoc, Keeps-pure_bind,
  Keeps-if_bind,
}
use ai_auto_platform.Common.Libraries.{Libraries}
use ai_auto_platform.Common.Settings.{Settings}
use ai_auto_platform.Common.Reliability.{
  IdempotencyDecision, record_audit, record_outbox, complete_idempotent_command,
}
use ai_auto_platform.Common.Reliability.Rules.{Keeps-begin, Keeps-replay_or, with_records}
use ai_auto_platform.Upload.Rows.{flushed, expire, is_due, has_id}
use ai_auto_platform.Upload.Cancel.{
  abort, abort_remote, abort_upload, finish_cancel, cancel_visible, cancel_upload_session,
}
use ai_auto_platform.Upload.Lifecycle.{session_id, Advance}
use ai_auto_platform.Upload.Lifecycle.Invariants.{Reach-Distinct}
use ai_auto_platform.Upload.Lifecycle.Rows.{
  Follows, put-Follows, Advance-flushed, expire-Advance, abort-Advance, visible_upload-found,
}

module _ {R A : Type 0} {D : Db → Type 0} (storage : Option (ObjectStoragePort R))
    (ctx : Context) where
  -- The call that aborts the upload in the storage writes nothing to the database.
  Keeps-abort_remote :
      (u : UploadSessionModel) (remote_id : Option String) (k : Unit {0} → Action R A) (w : World R)
      → D w.durable
      → ((r : R) → Keeps D (k tt (record w { remote = r })))
      → Keeps D ((abort_remote storage ctx u remote_id >>= k) w)
  unfolding abort_remote
  Keeps-abort_remote u none k w h next = Keeps-pure_bind tt k w (next w.remote)
  Keeps-abort_remote u (some remote_id) k w h next =
      Keeps-if_bind (is_empty remote_id) _ _ k w (λ _. Keeps-pure_bind tt k w (next w.remote))
        (λ _. Keeps-assoc _ _ k w (
          Keeps-check _ _ w h λ port _.
            Keeps-assoc _ _ k w (Keeps-call _ _ w λ answer r. Keeps-check _ _ _ h λ _ _. next r)))

module _ {R : Type 0} (storage : Option (ObjectStoragePort R)) (cfg : Settings)
    {us : List UploadSessionModel} (ctx : Context) where
  finish-Keeps :
      (project : ProjectModel) (u new : UploadSessionModel) (d : IdempotencyDecision) (w : World R)
      → Advance u new
      → find_by (has_id u.id) w.pending.upload_sessions ≡ some u
      → Follows cfg us w.durable
      → Follows cfg us w.pending
      → Keeps (Follows cfg us) (finish_cancel storage ctx project u d new w)
  unfolding finish_cancel record_audit record_outbox complete_idempotent_command
  finish-Keeps project u new d w a found h r =
      let r' =
        put-Follows u (flushed ctx.db_now u new) w.pending found
          (Advance-flushed ctx.db_now u new a) r in
      Keeps-write _ _ w
        (Keeps-write _ _ _ (Keeps-write _ _ _ (Keeps-write _ _ _ (Keeps-pure _ h _ r'))))

  cancel_visible-Keeps :
      (project : ProjectModel) (u : UploadSessionModel) (d : IdempotencyDecision) (w : World R)
      → find_by (has_id u.id) w.pending.upload_sessions ≡ some u
      → Follows cfg us w.durable
      → Follows cfg us w.pending
      → Keeps (Follows cfg us) (cancel_visible storage ctx project u d w)
  unfolding cancel_visible abort_upload
  cancel_visible-Keeps project u d w found h r =
      Keeps-if_bind (is_due u ctx.now) _ _ _ w
        (λ due.
          Keeps-pure_bind _ _ w
            (finish-Keeps project u (expire u) d w (expire-Advance u ctx.now due) found h r))
        (λ _. Keeps-assoc _ _ _ w (
          Keeps-check _ _ w h λ _ cancellable. Keeps-assoc _ _ _ w (
            Keeps-abort_remote storage ctx u u.storage_upload_id _ w h λ after.
              Keeps-pure_bind _ _ _ (
                finish-Keeps project u (abort u) d (record w { remote = after })
                  (abort-Advance u cancellable) found h r))))

  pub cancel-Keeps :
      (lib : Libraries) (org project id : ℕ) (key : Option String) (w : World R)
      → Distinct session_id us
      → Follows cfg us w.durable
      → Follows cfg us w.pending
      → Keeps (Follows cfg us) (cancel_upload_session storage ctx lib org project id key w)
  unfolding cancel_upload_session
  cancel-Keeps lib org project id key w d h r = Keeps-check _ _ w h λ seen e.
      let found =
        visible_upload-found org project id ctx.actor_id true w.pending seen.0 seen.1
          (Reach-Distinct r d) e in
      Keeps-begin lib ctx _ key _ _ w h λ decision records.
        Keeps-replay_or decision.replay _ _ h r
          (cancel_visible-Keeps seen.0 seen.1 decision (with_records w records) found h r)
