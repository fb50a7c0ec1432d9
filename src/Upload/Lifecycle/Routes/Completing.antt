-- ===== src/Upload/Lifecycle/Routes/Completing.antt =====
-- The parts of `complete_upload_session` behind its checkpoint: verification and publication.
use ai_auto_platform.Prelude.{
  ℕ, ◌≡◌, refl, ap, sym, ◌∙◌, find_by-holds, true, Option, none, some, List, String, find_by,
  if◌then◌else◌, inl, inr, ◌⊎◌, Option-cases, is_some, arith, not,
}
use ai_auto_platform.Errors.{ok, size_mismatch, checksum_mismatch}
use ai_auto_platform.Db.Models.{Db, UploadSessionModel, ArtifactModel}
use ai_auto_platform.Artifact.Domain.{UploadSessionStatus, same_upload_status}
use ai_auto_platform.Artifact.Storage.{
  ObjectStoragePort, CompletedPart, Stored, stored, storage_error, ObjectMetadata,
}
use ai_auto_platform.Artifact.Rows.{is_artifact_of}
use ai_auto_platform.Artifact.Completion.{VerificationResult, verify_object, stream_object}
use ai_auto_platform.Exec.{World, Action, Context, pure, raise, ◌>>=◌}
use ai_auto_platform.Exec.Rules.{
  Keeps, Keeps-pure, Keeps-raise, Keeps-check, Keeps-call, Keeps-write, Keeps-commit, Keeps-if,
  Keeps-assoc, Keeps-pure_bind,
}
use ai_auto_platform.Common.Libraries.{Libraries}
use ai_auto_platform.Common.Settings.{Settings}
use ai_auto_platform.Common.Reliability.{record_audit, record_outbox}
use ai_auto_platform.Upload.Rows.{flushed, has_id}
use ai_auto_platform.Upload.Complete.{
  size_matches, checksum_matches, complete, published, reacquire, find_artifact, artifact_response,
}
use ai_auto_platform.Upload.Publish.{answer, publish, confirm_completion, verify_and_publish}
use ai_auto_platform.Upload.Lifecycle.{Reach}
use ai_auto_platform.Upload.Lifecycle.Rows.{Follows, put-Follows, Advance-flushed, complete-Advance}

-- The session is completing, or completed with its artifact.
pub record IsSettled (id : ℕ) (db : Db) : Type 0 where
  pub row : UploadSessionModel
  pub found : find_by (has_id id) db.upload_sessions ≡ some row
  pub settled :
      (row.status ≡ UploadSessionStatus.completing)
      ⊎ (is_some (find_by (is_artifact_of id) db.artifacts) ≡ true)
        × (row.status ≡ UploadSessionStatus.completed)

-- What is asked of the requests that run at the checkpoint: they follow the state machine, and a
-- session that is completing is left so, or completed.
pub record IsQuiet (cfg : Settings) (id : ℕ) (others : Db → Db) : Type 0 where
  pub follows : (db : Db) → Reach cfg db.upload_sessions (others db).upload_sessions
  pub settles :
      (db : Db) (u : UploadSessionModel)
      → find_by (has_id id) db.upload_sessions ≡ some u
      → u.status ≡ UploadSessionStatus.completing
      → IsSettled id (others db)

module _ {R A : Type 0} {D : Db → Type 0} (port : ObjectStoragePort R) where
  -- Neither the confirmation of a completion nor the verification writes to the database.
  Keeps-confirm :
      (key : String) (done : Stored (Unit {0})) (k : Unit {0} → Action R A) (w : World R)
      → D w.durable
      → ((r : R) → Keeps D (k tt (record w { remote = r })))
      → Keeps D ((confirm_completion port key done >>= k) w)
  unfolding confirm_completion
  Keeps-confirm key (stored _) k w h next = Keeps-pure_bind tt k w (next w.remote)
  Keeps-confirm key (storage_error e) k w h next =
      Keeps-assoc _ _ k w (Keeps-call _ _ w λ found r. Keeps-check _ _ _ h λ _ _. next r)

  Keeps-stream :
      (lib : Libraries) (key : String) (m : Stored ObjectMetadata)
      → (k : Stored VerificationResult → Action R A) (w : World R)
      → ((v : Stored VerificationResult) (r : R) → Keeps D (k v (record w { remote = r })))
      → Keeps D ((stream_object lib port key m >>= k) w)
  Keeps-stream lib key (storage_error e) k w next = Keeps-pure_bind _ k w (next _ w.remote)
  Keeps-stream lib key (stored m) k w next =
      Keeps-assoc _ _ k w (Keeps-call _ _ w λ chunks r. Keeps-pure_bind _ k _ (next _ r))

  Keeps-verify :
      (lib : Libraries) (key : String)
      → (k : Stored VerificationResult → Action R A) (w : World R)
      → ((v : Stored VerificationResult) (r : R) → Keeps D (k v (record w { remote = r })))
      → Keeps D ((verify_object lib port key >>= k) w)
  unfolding verify_object
  Keeps-verify lib key k w next =
      Keeps-assoc _ _ k w (Keeps-call _ _ w λ m r. Keeps-stream lib key m k _ next)

pub flushed-completing :
    (db_now : ℕ) (u : UploadSessionModel)
    → same_upload_status u.status UploadSessionStatus.uploading ≡ true
    → (flushed db_now u (record u { status = UploadSessionStatus.completing })).status
      ≡ UploadSessionStatus.completing
unfolding flushed
flushed-completing db_now u h = ground arith

pub reacquire-found :
    (id : ℕ) (u : UploadSessionModel) (db : Db)
    → reacquire id db ≡ ok u
    → find_by (has_id id) db.upload_sessions ≡ some u
unfolding reacquire
reacquire-found id u db e = elim (Option-cases (find_by (has_id id) db.upload_sessions)) [
  | inl missing ↦ ground arith
  | inr (v, there) ↦ ground arith
]

pub reacquire-id : (id : ℕ) (u : UploadSessionModel) (db : Db) → reacquire id db ≡ ok u → u.id ≡ id
reacquire-id id u db e =
    let held = find_by-holds (has_id id) db.upload_sessions u (reacquire-found id u db e) in
    ground arith

-- A settled session whose publication is still to come is completing.
pub settled_unpublished :
    (id : ℕ) (u : UploadSessionModel) (existing : Option ArtifactModel) (db : Db)
    → IsSettled id db
    → reacquire id db ≡ ok u
    → find_artifact u.id db ≡ ok existing
    → published u existing ≡ none
    → u.status ≡ UploadSessionStatus.completing
settled_unpublished id u existing db s e a h =
    let row : s.row ≡ u = ground (arith, s.found, reacquire-found id u db e) in
    let status : s.row.status ≡ u.status = ap (λ (v : UploadSessionModel). v.status) row in
    elim (s.settled) [
      | inl c ↦ sym status ∙ c
      | inr (there, c) ↦
          let a' = rw (reacquire-id id u db e) at a in ground (arith, a', there, c, status)
    ]

module _ {R : Type 0} (cfg : Settings) {us : List UploadSessionModel} (ctx : Context) where
  answer-Keeps :
      (u : UploadSessionModel) (v : VerificationResult) (a : ArtifactModel) (w : World R)
      → Follows cfg us w.durable
      → Follows cfg us w.pending
      → Keeps (Follows cfg us) (answer u v a w)
  unfolding answer
  answer-Keeps u v a w h r =
      Keeps-if (not (size_matches u v)) (raise size_mismatch 409)
        (if not (checksum_matches u v)
          then raise checksum_mismatch 409
          else pure (artifact_response a))
        w (λ _. Keeps-raise w h size_mismatch 409)
        (λ _.
          Keeps-if (not (checksum_matches u v)) (raise checksum_mismatch 409)
            (pure (artifact_response a)) w (λ _. Keeps-raise w h checksum_mismatch 409)
            (λ _. Keeps-pure w h (artifact_response a) r))

  publish-Keeps :
      (finished_at org project : ℕ) (u : UploadSessionModel) (v : VerificationResult) (w : World R)
      → u.status ≡ UploadSessionStatus.completing
      → find_by (has_id u.id) w.pending.upload_sessions ≡ some u
      → Follows cfg us w.durable
      → Follows cfg us w.pending
      → Keeps (Follows cfg us) (publish ctx finished_at org project u v w)
  unfolding publish record_audit record_outbox
  publish-Keeps finished_at org project u v w completing found h r =
      let r' =
        put-Follows u (flushed ctx.db_now u (complete finished_at u)) w.pending found
          (Advance-flushed ctx.db_now u (complete finished_at u)
            (complete-Advance finished_at u completing))
          r in
      Keeps-check _ _ w h λ _ _. Keeps-write _ _ w (
        Keeps-write _ _ _
          (Keeps-write _ _ _ (Keeps-write _ _ _ (Keeps-commit _ _ (answer-Keeps u v _ _ r' r')))))

  module _ (lib : Libraries) (storage : Option (ObjectStoragePort R))
      (finished_at org project : ℕ) where
    pub verify-Keeps :
        (u : UploadSessionModel) (parts : List CompletedPart) (answered : Option ArtifactModel)
        → (w : World R) → (answered ≡ none → u.status ≡ UploadSessionStatus.completing)
        → find_by (has_id u.id) w.pending.upload_sessions ≡ some u
        → Follows cfg us w.durable
        → Follows cfg us w.pending
        → Keeps
            (Follows cfg us)
            (verify_and_publish ctx lib storage finished_at org project u parts answered w)
    unfolding verify_and_publish
    verify-Keeps u parts (some a) w completing found h r = Keeps-pure w h _ r
    verify-Keeps u parts none w completing found h r = Keeps-check _ _ w h λ port _.
        Keeps-call _ _ w λ done after.
          Keeps-confirm port u.object_key done _ (record w { remote = after }) h
            λ confirmed.
              Keeps-verify port lib u.object_key _ (record w { remote = confirmed })
                λ answer read.
                  Keeps-check _ _ (record w { remote = read }) h
                    λ v _.
                      publish-Keeps finished_at org project u v (record w { remote = read })
                        (completing refl) found h r
