-- ===== src/Upload/Lifecycle/Routes/Checkpoint.antt =====
-- The run of `complete_upload_session` and the steps of the state machine.
use ai_auto_platform.Prelude.{
  ℕ, ◌≡◌, sym, subst, ◌||◌, not, arith, false, Option, none, some, List, String, inl, find_by,
  find_by-replace_by_self, Distinct,
}
use ai_auto_platform.Db.Models.{Db, UploadSessionModel, ArtifactModel, Json}
use ai_auto_platform.Artifact.Domain.{UploadSessionStatus, same_upload_status}
use ai_auto_platform.Artifact.Storage.{ObjectStoragePort, CompletedPart}
use ai_auto_platform.Exec.{World, Action, Context, Response, others_run, check, ◌>>=◌}
use ai_auto_platform.Exec.Rules.{
  Keeps, Keeps-pure, Keeps-check, Keeps-write, Keeps-commit, Keeps-others_run, Keeps-if,
  Keeps-assoc, Keeps-pure_bind, Keeps-if_bind,
}
use ai_auto_platform.Common.Libraries.{Libraries}
use ai_auto_platform.Common.Settings.{Settings}
use ai_auto_platform.Upload.Rows.{flushed, is_due, has_id, put_upload}
use ai_auto_platform.Upload.Payloads.{UploadCompleteRequest}
use ai_auto_platform.Upload.Complete.{published, reacquire, submitted, find_artifact}
use ai_auto_platform.Upload.Publish.{
  verify_and_publish, checkpoint, complete_checked, complete_found, complete_upload_session,
}
use ai_auto_platform.Upload.Lifecycle.{session_id, Reach-trans}
use ai_auto_platform.Upload.Lifecycle.Invariants.{Reach-Distinct}
use ai_auto_platform.Upload.Lifecycle.Rows.{
  Follows, put-Follows, Advance-flushed, checkpoint-Advance, find_upload-found, find_upload-id,
  same_upload_status→≡,
}
use ai_auto_platform.Upload.Lifecycle.Routes.Sessions.{refuse-Keeps}
use ai_auto_platform.Upload.Lifecycle.Routes.Completing.{
  IsSettled, IsQuiet, verify-Keeps, flushed-completing, reacquire-found, reacquire-id,
  settled_unpublished,
}

IsSettled-completing :
    (u : UploadSessionModel) (db : Db)
    → (not (
        same_upload_status u.status UploadSessionStatus.uploading
        || same_upload_status u.status UploadSessionStatus.completing))
      ≡ false
    → same_upload_status u.status UploadSessionStatus.uploading ≡ false
    → find_by (has_id u.id) db.upload_sessions ≡ some u
    → IsSettled u.id db
IsSettled-completing u db state other found = record {
  row = u;
  found = found;
  settled = inl (same_upload_status→≡ u.status UploadSessionStatus.completing (ground arith));
}

module _ {R : Type 0} (ctx : Context) (lib : Libraries) (storage : Option (ObjectStoragePort R))
    (finished_at org project : ℕ) where
  -- The part of the handler behind the checkpoint.
  abbrev resume : ℕ → List CompletedPart → Action R (Response Json)
  resume id parts = do
    u ← check (reacquire id)
    existing ← check (find_artifact u.id)
    verify_and_publish ctx lib storage finished_at org project u parts (published u existing)

module _ {R : Type 0} (cfg : Settings) {us : List UploadSessionModel} (ctx : Context)
    (lib : Libraries) (storage : Option (ObjectStoragePort R)) (finished_at org project : ℕ) where
  resume-Keeps :
      (id : ℕ) (parts : List CompletedPart) (w : World R)
      → IsSettled id w.pending
      → Follows cfg us w.durable
      → Follows cfg us w.pending
      → Keeps (Follows cfg us) (resume ctx lib storage finished_at org project id parts w)
  resume-Keeps id parts w s h r = Keeps-check _ _ w h λ u e. Keeps-check _ _ w h λ existing a.
      verify-Keeps cfg ctx lib storage finished_at org project u parts (published u existing) w
        (settled_unpublished id u existing w.pending s e a)
        (subst (λ k. find_by (has_id k) w.pending.upload_sessions ≡ some u)
          (sym (reacquire-id id u w.pending e)) (reacquire-found id u w.pending e))
        h r

  -- Requests that leave the checkpointed session settled keep the machine going.
  checkpointed-Keeps :
      (others : Db → Db) (u new : UploadSessionModel) (parts : List CompletedPart) (w : World R)
      → new.id ≡ u.id
      → new.status ≡ UploadSessionStatus.completing
      → IsQuiet cfg u.id others
      → find_by (has_id new.id) w.pending.upload_sessions ≡ some new
      → Follows cfg us w.pending
      → Keeps (Follows cfg us) (
          (others_run others >>= λ _. resume ctx lib storage finished_at org project u.id parts)
            (record w { durable = w.pending }))
  checkpointed-Keeps others u new parts w same completing quiet found r =
      let r' = Reach-trans r (quiet.follows w.pending) in
      let settled =
        quiet.settles w.pending new
          (subst (λ k. find_by (has_id k) w.pending.upload_sessions ≡ some new) same found)
          completing in
      Keeps-others_run others _ _ (resume-Keeps u.id parts _ settled r' r')

  checked-Keeps :
      (others : Db → Db) (u : UploadSessionModel) (parts : List CompletedPart) (w : World R)
      → (not (
          same_upload_status u.status UploadSessionStatus.uploading
          || same_upload_status u.status UploadSessionStatus.completing))
        ≡ false
      → IsQuiet cfg u.id others
      → find_by (has_id u.id) w.pending.upload_sessions ≡ some u
      → Follows cfg us w.durable
      → Follows cfg us w.pending
      → Keeps
          (Follows cfg us)
          (complete_checked lib storage others ctx finished_at org project u parts w)
  unfolding complete_checked checkpoint
  checked-Keeps others u parts w state quiet found h r = Keeps-check _ _ w h λ remote_id _.
      Keeps-check _ _ w h λ matched _.
        Keeps-if_bind (same_upload_status u.status UploadSessionStatus.uploading) _ _ _ w
          (λ uploading.
            let new : UploadSessionModel = record u { status = UploadSessionStatus.completing } in
            let v = flushed ctx.db_now u new in
            let a = Advance-flushed ctx.db_now u new (checkpoint-Advance u uploading) in
            let r' = put-Follows u v w.pending found a r in
            let found' = find_by-replace_by_self session_id v u w.pending.upload_sessions (
              subst (λ k. find_by (has_id k) w.pending.upload_sessions ≡ some u) (sym a.same_id)
                found) in
            Keeps-assoc _ _ _ w (
              Keeps-write _ _ w (
                Keeps-assoc _ _ _ _ (
                  Keeps-commit _ _ (
                    checkpointed-Keeps others u v parts
                      (record w { pending = put_upload v w.pending }) a.same_id
                      (flushed-completing ctx.db_now u uploading) quiet found' r')))))
          (λ other.
            Keeps-pure_bind _ _ w
              (resume-Keeps u.id parts w (IsSettled-completing u w.pending state other found) h r))

  complete_found-Keeps :
      (others : Db → Db) (u : UploadSessionModel) (parts : List CompletedPart)
      → (existing : Option ArtifactModel) (w : World R) → IsQuiet cfg u.id others
      → find_by (has_id u.id) w.pending.upload_sessions ≡ some u
      → Follows cfg us w.durable
      → Follows cfg us w.pending
      → Keeps
          (Follows cfg us)
          (complete_found lib storage others ctx finished_at org project u parts existing w)
  unfolding complete_found
  complete_found-Keeps others u parts (some a) w quiet found h r = Keeps-pure w h _ r
  complete_found-Keeps others u parts none w quiet found h r =
      Keeps-if (is_due u ctx.now) _ _ w (λ due. refuse-Keeps cfg ctx u w due found r)
        (λ _.
          Keeps-check _ _ w h
            λ checked state. checked-Keeps others u parts w (ground arith) quiet found h r)

  pub complete-Keeps :
      (others : Db → Db) (id : ℕ) (p : UploadCompleteRequest) (key : Option String) (w : World R)
      → Distinct session_id us
      → IsQuiet cfg id others
      → Follows cfg us w.durable
      → Follows cfg us w.pending
      → Keeps
          (Follows cfg us)
          (complete_upload_session lib storage others ctx finished_at org project id p key w)
  unfolding complete_upload_session
  complete-Keeps others id p key w d quiet h r = Keeps-check _ _ w h λ _ _.
      Keeps-check _ _ w h λ _ _. Keeps-check _ _ w h λ u e. Keeps-check _ _ w h λ existing _.
        complete_found-Keeps others u (submitted p.parts) (published u existing) w
          (subst (λ n. IsQuiet cfg n others) (sym (find_upload-id org project id w.pending u e))
            quiet)
          (find_upload-found org project id w.pending u (Reach-Distinct r d) e) h r
