-- ===== src/Tests/Publications.antt =====
-- Streams, artifacts and parts at the sample data.
use ai_auto_platform.Prelude.{
  ℕ, ◌≡◌, ◌↔◌, refl, none, some, List, [], ◌∷◌, ◌≤◌, length, replace_by, find_by,
}
use ai_auto_platform.Errors.{ok}
use ai_auto_platform.Db.Models.{UploadSessionModel}
use ai_auto_platform.Artifact.Domain.{
  UploadSessionStatus, ArtifactStatus, IntegrityStatus, SecurityScanStatus,
}
use ai_auto_platform.Artifact.Rows.{check_artifact_constraints}
use ai_auto_platform.Artifact.Completion.{VerificationResult, verify_stream}
use ai_auto_platform.Artifact.Completion.Streams.{verify_stream-bytes_of}
use ai_auto_platform.Upload.Rows.{has_id, flushed}
use ai_auto_platform.Upload.Payloads.{UploadPartRegister, UploadCompleteRequest, validate_complete}
use ai_auto_platform.Upload.Payloads.Bounds.{IsAscending, validate_complete-IsAscending}
use ai_auto_platform.Upload.Parts.{is_part, new_part, register_or_compare}
use ai_auto_platform.Upload.Parts.Repeats.{register_or_compare-again}
use ai_auto_platform.Upload.Complete.{new_artifact, complete, artifact_response}
use ai_auto_platform.Upload.Complete.Integrity.{
  IsDeclared, new_artifact-IsDeclared, publication, publish-durable,
}
use ai_auto_platform.Upload.Publish.{publish}
use ai_auto_platform.Tests.Samples.{context, upload, metadata, libraries, world}

abbrev completing : UploadSessionModel
completing = upload 11 UploadSessionStatus.completing 3

abbrev chunks : List (List ℕ)
chunks = (1 ∷ 2 ∷ []) ∷ [] ∷ (3 ∷ []) ∷ []

abbrev verified : VerificationResult
verified = verify_stream libraries metadata chunks

verify_stream-bytes_of_example :
    verified ≡ record { metadata = metadata; verified_sha256 = "digest" }
verify_stream-bytes_of_example = verify_stream-bytes_of libraries metadata chunks

new_artifact-IsDeclared_example :
    let a = new_artifact (context 22) 7 3 completing verified in
    let declared = IsDeclared libraries completing (1 ∷ 2 ∷ 3 ∷ []) in
    (a.status ≡ ArtifactStatus.available ↔ declared)
    × (a.integrity_status ≡ IntegrityStatus.verified ↔ declared)
    × (a.status ≡ ArtifactStatus.quarantined ↔ (declared → ⊥))
    × (a.security_scan_status ≡ SecurityScanStatus.not_required)
new_artifact-IsDeclared_example =
    new_artifact-IsDeclared libraries (context 22) 7 3 completing metadata chunks

publish-durable_example :
    let end = publish (context 22) 60 7 3 completing verified world in
    let a = new_artifact (context 22) 7 3 completing verified in
    let session = flushed 51 completing (complete 60 completing) in
    (end.0 ≡ publication completing verified (artifact_response a))
    × (end.1.durable.artifacts ≡ a ∷ [])
    × (end.1.durable.upload_sessions
        ≡ replace_by (has_id session.id) session world.pending.upload_sessions)
    × (length end.1.durable.audit_events ≡ 1)
    × (length end.1.durable.outbox_events ≡ 1)
unfolding check_artifact_constraints
publish-durable_example = publish-durable (context 22) 60 7 3 completing verified world refl

abbrev content : UploadPartRegister
content = record { etag = "second"; size_bytes = 4 }

register_or_compare-again_example :
    let part = new_part (context 0) 7 11 2 content in
    let after =
      (register_or_compare
        (context 0)
        7
        3
        (upload 11 UploadSessionStatus.uploading 3)
        2
        content
        none
        world).1 in
    (find_by (is_part 11 2) after.durable.upload_parts ≡ some part)
    × (register_or_compare
          (context 0)
          7
          3
          (upload 11 UploadSessionStatus.uploading 3)
          2
          content
          (some part)
          after
        ≡ (ok part, after))
register_or_compare-again_example =
    register_or_compare-again (context 0) (context 0) 7 3 2
      (upload 11 UploadSessionStatus.uploading 3) content content world refl

abbrev two_parts : UploadCompleteRequest
two_parts = record {
  parts =
      record { part_number = 1; etag = "tag" } ∷ record { part_number = 4; etag = "second" } ∷ [];
}

validate_complete-IsAscending_example :
    (two_parts ≡ two_parts)
    × (1 ≤ length two_parts.parts)
    × (length two_parts.parts ≤ 10_000)
    × IsAscending (1 ∷ 4 ∷ [])
unfolding validate_complete
validate_complete-IsAscending_example = validate_complete-IsAscending two_parts two_parts refl
