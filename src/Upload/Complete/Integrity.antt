-- ===== src/Upload/Complete/Integrity.antt =====
-- The integrity of a published artifact and what a publication makes durable, about
-- `complete_upload_session` of api/upload_sessions.py.
use ai_auto_platform.Prelude.{
  ℕ, ◌+◌, ◌&&◌, Bool, true, false, ◌≡◌, replace_by, ◌↔◌, refl, arith, not, List, [], ◌∷◌, ◌++◌,
  length, length-append_one, eq_iff, if◌then◌else◌, Bool-cases, inl, inr,
}
use ai_auto_platform.Errors.{Result, ok, err, domain_error, size_mismatch, checksum_mismatch}
use ai_auto_platform.Db.Models.{UploadSessionModel, ArtifactModel}
use ai_auto_platform.Artifact.Domain.{ArtifactStatus, IntegrityStatus, SecurityScanStatus}
use ai_auto_platform.Artifact.Rows.{check_artifact_constraints}
use ai_auto_platform.Artifact.Storage.{ObjectMetadata}
use ai_auto_platform.Artifact.Completion.{VerificationResult, verify_stream}
use ai_auto_platform.Artifact.Completion.Streams.{bytes_of, verify_stream-bytes_of}
use ai_auto_platform.Exec.{World, Context, pure, raise, check, write, commit, ◌>>=◌}
use ai_auto_platform.Common.Libraries.{Libraries}
use ai_auto_platform.Common.Reliability.{record_audit, record_outbox}
use ai_auto_platform.Upload.Rows.{has_id, flushed}
use ai_auto_platform.Upload.Complete.{
  status_of, integrity_of, new_artifact, complete, size_matches, checksum_matches,
  artifact_response,
}
use ai_auto_platform.Upload.Publish.{publish, answer}

-- The object has the size and the digest that were declared.
abbrev pub IsDeclared : Libraries → UploadSessionModel → List ℕ → Type 0
IsDeclared lib u bytes =
    (length bytes ≡ u.expected_size) × (lib.bytes_sha256 bytes ≡ u.expected_sha256)

-- The two states of a new artifact, by the outcome of the comparison.
outcome :
    (matches : Bool) (P : Type 0)
    → (matches ≡ true ↔ P)
    → let integrity = if matches then IntegrityStatus.verified else IntegrityStatus.mismatch in
      (status_of integrity ≡ ArtifactStatus.available ↔ P)
      × (integrity ≡ IntegrityStatus.verified ↔ P)
      × (status_of integrity ≡ ArtifactStatus.quarantined ↔ (P → ⊥))
outcome true P (to, _) = (
  ((λ _. to refl), λ _. refl),
  ((λ _. to refl), λ _. refl),
  ((λ h p. cc), λ wrong. elim (wrong (to refl)) [ ]),
)
outcome false P (_, back) = (
  ((λ h. cc), λ p. let e = back p in cc),
  ((λ h. cc), λ p. let e = back p in cc),
  ((λ _ p. let e = back p in cc), λ _. refl),
)

module _ (lib : Libraries) (ctx : Context) (org project : ℕ) (u : UploadSessionModel)
    (m : ObjectMetadata) where
  matches_iff :
      (chunks : List (List ℕ))
      → (size_matches u (verify_stream lib m chunks)
            && checksum_matches u (verify_stream lib m chunks))
          ≡ true
        ↔ IsDeclared lib u (bytes_of chunks)
  matches_iff chunks =
      let (text_equal, text_same) = eq_iff (lib.bytes_sha256 (bytes_of chunks)) u.expected_sha256 in
      rw (verify_stream-bytes_of lib m chunks) (
        (λ h. (ground arith, text_equal (ground arith))),
        λ declared. ground (arith, declared.0, text_same declared.1),
      )

  -- A new artifact is available, and its integrity verified, exactly if the bytes that the storage
  -- streams have the declared length and the declared digest, whatever the chunks and the storage's
  -- metadata are; it is quarantined otherwise. No security scan is a condition of this: each new
  -- artifact is marked as one that needs none.
  pub new_artifact-IsDeclared :
      (chunks : List (List ℕ))
      → let a = new_artifact ctx org project u (verify_stream lib m chunks) in
        (a.status ≡ ArtifactStatus.available ↔ IsDeclared lib u (bytes_of chunks))
        × (a.integrity_status ≡ IntegrityStatus.verified ↔ IsDeclared lib u (bytes_of chunks))
        × (a.status ≡ ArtifactStatus.quarantined ↔ (IsDeclared lib u (bytes_of chunks) → ⊥))
        × (a.security_scan_status ≡ SecurityScanStatus.not_required)
  unfolding new_artifact integrity_of
  new_artifact-IsDeclared chunks =
      let v = verify_stream lib m chunks in
      let (released, verified_only, held) =
        outcome (size_matches u v && checksum_matches u v) _ (matches_iff chunks) in
      (released, verified_only, held, refl)

abbrev pub publication : {A : Type 0} → UploadSessionModel → VerificationResult → A → Result A
publication u v a =
    if not (size_matches u v)
    then err (domain_error size_mismatch 409)
    else if not (checksum_matches u v)
    then err (domain_error checksum_mismatch 409)
    else ok a

answer-publication :
    {R : Type 0} (u : UploadSessionModel) (v : VerificationResult) (a : ArtifactModel) (w : World R)
    → answer u v a w ≡ (publication u v (artifact_response a), w)
unfolding answer raise pure
answer-publication u v a w = elim (Bool-cases (size_matches u v)) [
  | inr wrong ↦ rw wrong refl
  | inl right ↦ rw right (elim (Bool-cases (checksum_matches u v)) [
    | inr wrong ↦ rw wrong refl
    | inl same ↦ rw same refl
  ])
]

-- A publication whose row is accepted makes durable, at once, the artifact, the completed session,
-- one audit event and one outbox event, also if the size or the digest is wrong: then the artifact
-- stays, the answer is the error of the first of the two that is wrong, and 201 otherwise.
pub publish-durable :
    {R : Type 0} (ctx : Context) (finished_at org project : ℕ) (u : UploadSessionModel)
    → (v : VerificationResult) (w : World R)
    → check_artifact_constraints (new_artifact ctx org project u v) w.pending ≡ ok tt
    → let end = publish ctx finished_at org project u v w in
      let a = new_artifact ctx org project u v in
      let session = flushed ctx.db_now u (complete finished_at u) in
      (end.0 ≡ publication u v (artifact_response a))
      × (end.1.durable.artifacts ≡ w.pending.artifacts ++ a ∷ [])
      × (end.1.durable.upload_sessions
          ≡ replace_by (has_id session.id) session w.pending.upload_sessions)
      × (length end.1.durable.audit_events ≡ length w.pending.audit_events + 1)
      × (length end.1.durable.outbox_events ≡ length w.pending.outbox_events + 1)
unfolding publish record_audit record_outbox ◌>>=◌ check write commit
publish-durable ctx finished_at org project u v w fits = rw fits (
    rw (answer-publication u v (new_artifact ctx org project u v)) (
      refl,
      refl,
      refl,
      length-append_one w.pending.audit_events _,
      length-append_one w.pending.outbox_events _,
    ))
