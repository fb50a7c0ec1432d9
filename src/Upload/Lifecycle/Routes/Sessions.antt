-- ===== src/Upload/Lifecycle/Routes/Sessions.antt =====
-- The runs of `get_upload_session`, `list_upload_parts` and `register_upload_part`, and the steps of
-- the state machine.
use ai_auto_platform.Prelude.{ℕ, ◌≡◌, true, false, Option, none, some, List, find_by, Distinct}
use ai_auto_platform.Db.Models.{Db, UploadSessionModel, UploadPartModel}
use ai_auto_platform.Exec.{World, Context}
use ai_auto_platform.Exec.Rules.{
  Keeps, Keeps-pure, Keeps-raise, Keeps-check, Keeps-write, Keeps-commit, Keeps-if,
  Keeps-check_last,
}
use ai_auto_platform.Common.Settings.{Settings}
use ai_auto_platform.Common.Reliability.{record_audit, record_outbox}
use ai_auto_platform.Upload.Rows.{flushed, expire, is_due, has_id, put_upload}
use ai_auto_platform.Upload.Payloads.{UploadPartRegister}
use ai_auto_platform.Upload.Read.{get_upload_session, list_upload_parts}
use ai_auto_platform.Upload.Sign.{expire_and_refuse}
use ai_auto_platform.Upload.Parts.{register_or_compare, register_upload_part, has_content}
use ai_auto_platform.Upload.Lifecycle.{session_id}
use ai_auto_platform.Upload.Lifecycle.Invariants.{Reach-Distinct}
use ai_auto_platform.Upload.Lifecycle.Rows.{
  Follows, put-Follows, Advance-flushed, expire-Advance, visible_upload-found,
}

module _ (cfg : Settings) {us : List UploadSessionModel} (ctx : Context) where
  -- The write of an expired session.
  expired-Follows :
      (u : UploadSessionModel) (db : Db)
      → is_due u ctx.now ≡ true
      → find_by (has_id u.id) db.upload_sessions ≡ some u
      → Follows cfg us db
      → Follows cfg us (put_upload (flushed ctx.db_now u (expire u)) db)
  expired-Follows u db due found r =
      put-Follows u (flushed ctx.db_now u (expire u)) db found
        (Advance-flushed ctx.db_now u (expire u) (expire-Advance u ctx.now due)) r

module _ {R : Type 0} (cfg : Settings) {us : List UploadSessionModel} (ctx : Context) where
  pub get-Keeps :
      (org project id : ℕ) (w : World R)
      → Distinct session_id us
      → Follows cfg us w.durable
      → Follows cfg us w.pending
      → Keeps (Follows cfg us) (get_upload_session ctx org project id w)
  unfolding get_upload_session record_audit record_outbox
  get-Keeps org project id w d h r = Keeps-check _ _ w h λ seen e.
      let found =
        visible_upload-found org project id ctx.actor_id false w.pending seen.0 seen.1
          (Reach-Distinct r d) e in
      Keeps-if (is_due seen.1 ctx.now) _ _ w
        (λ due.
          let r' = expired-Follows cfg ctx seen.1 w.pending due found r in
          Keeps-write _ _ w
            (Keeps-write _ _ _ (Keeps-write _ _ _ (Keeps-commit _ _ (Keeps-pure _ r' _ r')))))
        (λ _. Keeps-pure w h _ r)

  pub parts-Keeps :
      (org project id : ℕ) (w : World R)
      → Follows cfg us w.durable
      → Follows cfg us w.pending
      → Keeps (Follows cfg us) (list_upload_parts ctx org project id w)
  unfolding list_upload_parts
  parts-Keeps org project id w h r = Keeps-check _ _ w h λ seen _. Keeps-check_last _ w h r

  pub refuse-Keeps :
      {A : Type 0} (u : UploadSessionModel) (w : World R)
      → is_due u ctx.now ≡ true
      → find_by (has_id u.id) w.pending.upload_sessions ≡ some u
      → Follows cfg us w.pending
      → Keeps (Follows cfg us) (expire_and_refuse {A = A} ctx u w)
  unfolding expire_and_refuse
  refuse-Keeps u w due found r =
      Keeps-write _ _ w
        (Keeps-commit _ _ (Keeps-raise _ (expired-Follows cfg ctx u w.pending due found r) _ _))

  -- Registering a part touches no session but one that is past its time.
  pub register-Keeps :
      (org project id number : ℕ) (p : UploadPartRegister) (w : World R)
      → Distinct session_id us
      → Follows cfg us w.durable
      → Follows cfg us w.pending
      → Keeps (Follows cfg us) (register_upload_part ctx org project id number p w)
  unfolding register_upload_part record_audit record_outbox
  register-Keeps org project id number p w d h r = Keeps-check _ _ w h λ _ _.
      Keeps-check _ _ w h λ seen e.
        let found =
          visible_upload-found org project id ctx.actor_id true w.pending seen.0 seen.1
            (Reach-Distinct r d) e in
        Keeps-if (is_due seen.1 ctx.now) _ _ w (λ due. refuse-Keeps seen.1 w due found r)
          (λ _. Keeps-check _ _ w h λ _ _. Keeps-check _ _ w h λ part _. registered part seen.1)
    where
      registered :
          (part : Option UploadPartModel) (u : UploadSessionModel)
          → Keeps (Follows cfg us) (register_or_compare ctx org project u number p part w)
      registered (some part) u =
          Keeps-if (has_content p part) _ _ w (λ _. Keeps-pure w h _ r) (λ _. Keeps-raise w h _ _)
      registered none u =
          Keeps-write _ _ w
            (Keeps-write _ _ _ (Keeps-write _ _ _ (Keeps-commit _ _ (Keeps-pure _ r _ r))))
