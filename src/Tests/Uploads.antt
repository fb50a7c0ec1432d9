-- ===== src/Tests/Uploads.antt =====
-- A history of requests: a new session, a part signed, a completion, a cancellation.
use ai_auto_platform.Prelude.{ℕ, refl, some, inl, List, [], ◌∷◌, String, All, arith}
use ai_auto_platform.Artifact.Domain.{UploadSessionStatus}
use ai_auto_platform.Exec.{World}
use ai_auto_platform.Common.Settings.{default_settings}
use ai_auto_platform.Upload.Requests.{Request, Route, create, sign, complete, cancel, run}
use ai_auto_platform.Upload.Requests.Histories.{
  AreUndisturbed, run-Reach, run-IsWithinQuota, run-InState, run-IsReserved,
}
use ai_auto_platform.Upload.Lifecycle.{Reach, here}
use ai_auto_platform.Upload.Lifecycle.Invariants.{IsReserved, IsWithinQuota}
use ai_auto_platform.Upload.Lifecycle.Terminal.{InState}
use ai_auto_platform.Upload.Lifecycle.Routes.Completing.{IsQuiet}
use ai_auto_platform.Tests.Samples.{context, sessions, libraries, storage, world, key}

abbrev request : ℕ → Route → Request
request new_id route = record {
  ctx = context new_id;
  organization_id = 7;
  project_id = 3;
  route = route;
}

abbrev requests : List Request
requests =
    request 21 (
      create "00000000000000000000000000000000"
        (record {
          display_name = "new";
          size_bytes = 5;
          sha256 = "digest";
          content_type = "text/plain";
        })
        (some key))
    ∷ request 0 (sign 21 (record { part_numbers = 1 ∷ []; expires_in_seconds = 60 }))
    ∷ request 22 (
        complete (λ db. db) 60 11 (record { parts = record { part_number = 1; etag = "tag" } ∷ [] })
          (some key))
    ∷ request 0 (cancel 21 (some key))
    ∷ []

abbrev end : World (List String)
end = run default_settings libraries (some storage) requests world

quiet : (id : ℕ) → IsQuiet default_settings id (λ db. db)
quiet id = record {
  follows = λ db. here;
  settles = λ db u found completing. record { row = u; found = found; settled = inl completing };
}

undisturbed : AreUndisturbed default_settings requests
undisturbed = (tt, (tt, (quiet 11, (tt, tt))))

run-Reach_example : Reach default_settings sessions end.durable.upload_sessions
run-Reach_example =
    run-Reach default_settings libraries (some storage) requests world undisturbed
      (refl, (refl, tt))

run-IsWithinQuota_example : IsWithinQuota default_settings 7 end.durable.upload_sessions
run-IsWithinQuota_example =
    run-IsWithinQuota default_settings libraries (some storage) requests world 7 undisturbed
      (refl, (refl, tt)) (omega arith, omega arith)

run-InState_example : InState 12 UploadSessionStatus.aborted end.durable.upload_sessions
run-InState_example =
    run-InState default_settings libraries (some storage) requests world 12
      UploadSessionStatus.aborted refl undisturbed (refl, (refl, tt))
      (record { row = _; found = refl; in_state = refl })

run-IsReserved_example : All IsReserved end.durable.upload_sessions
run-IsReserved_example =
    run-IsReserved default_settings libraries (some storage) requests world undisturbed
      (refl, (refl, tt)) (refl, (refl, tt))
