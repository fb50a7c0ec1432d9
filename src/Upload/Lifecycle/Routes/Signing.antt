-- ===== src/Upload/Lifecycle/Routes/Signing.antt =====
-- The run of `sign_upload_parts` and the steps of the state machine.
use ai_auto_platform.Prelude.{ℕ, ◌≡◌, true, Option, some, List, [], ◌∷◌, String, find_by, Distinct}
use ai_auto_platform.Db.Models.{Db, UploadSessionModel}
use ai_auto_platform.Artifact.Domain.{UploadSessionStatus, same_upload_status}
use ai_auto_platform.Artifact.Storage.{ObjectStoragePort}
use ai_auto_platform.Exec.{World, Action, Context, ◌>>=◌}
use ai_auto_platform.Exec.Rules.{
  Keeps, Keeps-pure, Keeps-raise, Keeps-check, Keeps-call, Keeps-write, Keeps-commit, Keeps-if,
  Keeps-assoc, Keeps-pure_bind,
}
use ai_auto_platform.Common.Settings.{Settings}
use ai_auto_platform.Common.Reliability.{record_audit, record_outbox}
use ai_auto_platform.Upload.Rows.{flushed, is_due, has_id}
use ai_auto_platform.Upload.Payloads.{UploadPartSignRequest}
use ai_auto_platform.Upload.Sign.{
  UploadPartSigned, sign_each, sign_numbers, initialize_multipart, sign_upload_parts,
}
use ai_auto_platform.Upload.Lifecycle.{session_id}
use ai_auto_platform.Upload.Lifecycle.Invariants.{Reach-Distinct}
use ai_auto_platform.Upload.Lifecycle.Rows.{
  Follows, put-Follows, Advance-flushed, initialize-Advance, find_upload-found,
}
use ai_auto_platform.Upload.Lifecycle.Routes.Sessions.{refuse-Keeps}

-- The world after calls of the storage.
abbrev with_remote : {R : Type 0} → World R → R → World R
with_remote w r = record w { remote = r }

module _ {R A : Type 0} {D : Db → Type 0} (port : ObjectStoragePort R) where
  -- Signing writes nothing to the database.
  Keeps-sign_each :
      (u : UploadSessionModel) (remote_id : String) (seconds : ℕ) (numbers : List ℕ)
      → (k : List UploadPartSigned → Action R A) (w : World R) → D w.durable
      → ((signed : List UploadPartSigned) (r : R) → Keeps D (k signed (with_remote w r)))
      → Keeps D ((sign_each port u remote_id seconds numbers >>= k) w)
  unfolding sign_each
  Keeps-sign_each u remote_id seconds [] k w h next = Keeps-pure_bind _ k w (next [] w.remote)
  Keeps-sign_each u remote_id seconds (n ∷ numbers) k w h next = Keeps-assoc _ _ k w (
      Keeps-call _ _ w λ answer r. Keeps-assoc _ _ k _ (
        Keeps-check _ _ (with_remote w r) h λ presigned _. Keeps-assoc _ _ k _ (
          Keeps-sign_each u remote_id seconds numbers _ (with_remote w r) h
            λ rest r'. Keeps-pure_bind _ k _ (next _ r'))))

module _ {R : Type 0} (cfg : Settings) {us : List UploadSessionModel} (ctx : Context) where
  sign_numbers-Keeps :
      (port : ObjectStoragePort R) (u : UploadSessionModel) (p : UploadPartSignRequest)
      (w : World R)
      → Follows cfg us w.durable
      → Follows cfg us w.pending
      → Keeps (Follows cfg us) (sign_numbers port u p w)
  unfolding sign_numbers
  sign_numbers-Keeps port u p w h r = Keeps-check _ _ w h λ remote_id _.
      Keeps-sign_each port u remote_id p.expires_in_seconds p.part_numbers _ w h
        λ signed after. Keeps-commit _ _ (Keeps-pure _ r _ r)

  initialize-Keeps :
      (port : ObjectStoragePort R) (org project : ℕ) (u : UploadSessionModel)
      → (p : UploadPartSignRequest) (w : World R)
      → same_upload_status u.status UploadSessionStatus.pending_upload ≡ true
      → find_by (has_id u.id) w.pending.upload_sessions ≡ some u
      → Follows cfg us w.durable
      → Follows cfg us w.pending
      → Keeps
          (Follows cfg us)
          ((initialize_multipart port ctx org project u >>= λ v. sign_numbers port v p) w)
  unfolding initialize_multipart record_audit record_outbox
  initialize-Keeps port org project u p w pending found h r = Keeps-assoc _ _ _ w (
      Keeps-call _ _ w λ answer after. Keeps-assoc _ _ _ _ (
        Keeps-check _ _ (with_remote w after) h λ remote_id _. Keeps-assoc _ _ _ _ (
          let new = record u {
            storage_upload_id = some remote_id;
            status = UploadSessionStatus.uploading;
          } in
          let r' =
            put-Follows u (flushed ctx.db_now u new) w.pending found
              (Advance-flushed ctx.db_now u new (initialize-Advance remote_id u pending)) r in
          Keeps-write _ _ _ (
            Keeps-assoc _ _ _ _ (
              Keeps-write _ _ _ (
                Keeps-assoc _ _ _ _ (
                  Keeps-write _ _ _ (
                    Keeps-assoc _ _ _ _ (
                      Keeps-commit _ _
                        (Keeps-pure_bind _ _ _ (sign_numbers-Keeps port _ p _ r' r')))))))))))

  pub sign-Keeps :
      (storage : Option (ObjectStoragePort R)) (org project id : ℕ) (p : UploadPartSignRequest)
      → (w : World R) → Distinct session_id us
      → Follows cfg us w.durable
      → Follows cfg us w.pending
      → Keeps (Follows cfg us) (sign_upload_parts storage ctx org project id p w)
  unfolding sign_upload_parts
  sign-Keeps storage org project id p w d h r = Keeps-check _ _ w h λ _ _.
      Keeps-check _ _ w h λ u e.
        let found = find_upload-found org project id w.pending u (Reach-Distinct r d) e in
        Keeps-if (is_due u ctx.now) _ _ w (λ due. refuse-Keeps cfg ctx u w due found r)
          (λ _. Keeps-check _ _ w h λ port _.
            Keeps-if (same_upload_status u.status UploadSessionStatus.pending_upload) _ _ w
              (λ pending. initialize-Keeps port org project u p w pending found h r)
              (λ _.
                Keeps-if (same_upload_status u.status UploadSessionStatus.uploading) _ _ w
                  (λ _. sign_numbers-Keeps port u p w h r) (λ _. Keeps-raise w h _ _)))
