-- ===== src/Upload/Requests/Histories.antt =====
-- Histories of requests on upload sessions, about the routes of api/upload_sessions.py.
use ai_auto_platform.Prelude.{ℕ, ◌≡◌, true, Option, List, [], ◌∷◌, Distinct, All}
use ai_auto_platform.Artifact.Domain.{UploadSessionStatus, is_terminal}
use ai_auto_platform.Artifact.Storage.{ObjectStoragePort}
use ai_auto_platform.Exec.{World, Context}
use ai_auto_platform.Exec.Rules.{serve-keeps}
use ai_auto_platform.Common.Libraries.{Libraries}
use ai_auto_platform.Common.Settings.{Settings}
use ai_auto_platform.Upload.Lifecycle.{session_id, Reach, here, Reach-trans}
use ai_auto_platform.Upload.Lifecycle.Invariants.{
  IsReserved, IsWithinQuota, Reach-Distinct, Reach-IsReserved, Reach-IsWithinQuota,
}
use ai_auto_platform.Upload.Lifecycle.Terminal.{InState, Reach-InState}
use ai_auto_platform.Upload.Lifecycle.Rows.{Follows}
use ai_auto_platform.Upload.Lifecycle.Routes.{create-Keeps}
use ai_auto_platform.Upload.Lifecycle.Routes.Sessions.{get-Keeps, parts-Keeps, register-Keeps}
use ai_auto_platform.Upload.Lifecycle.Routes.Signing.{sign-Keeps}
use ai_auto_platform.Upload.Lifecycle.Routes.Cancelling.{cancel-Keeps}
use ai_auto_platform.Upload.Lifecycle.Routes.Completing.{IsQuiet}
use ai_auto_platform.Upload.Lifecycle.Routes.Checkpoint.{complete-Keeps}
use ai_auto_platform.Upload.Requests.{
  Route, Request, create, get, parts, sign, register, complete, cancel, handle, run,
}

-- What is asked of the requests that run during a completion.
abbrev pub IsUndisturbed : Settings → Route → Type 0
IsUndisturbed cfg (complete others finished_at id p key) = IsQuiet cfg id others
IsUndisturbed cfg _ = Unit

abbrev pub AreUndisturbed : Settings → List Request → Type 0
AreUndisturbed cfg = All (λ r. IsUndisturbed cfg r.route)

module _ {R : Type 0} (cfg : Settings) (lib : Libraries)
    (storage : Option (ObjectStoragePort R)) where
  handle-Reach :
      (ctx : Context) (org project : ℕ) (route : Route) (w : World R)
      → IsUndisturbed cfg route
      → Distinct session_id w.durable.upload_sessions
      → Reach cfg w.durable.upload_sessions
          (handle cfg lib storage ctx org project route w).durable.upload_sessions
  unfolding handle
  handle-Reach ctx org project (create token p key) w q d =
      serve-keeps (Follows cfg w.durable.upload_sessions) _ w
        (create-Keeps cfg lib ctx token org project p key) here
  handle-Reach ctx org project (get id) w q d =
      serve-keeps (Follows cfg w.durable.upload_sessions) _ w
        (λ v. get-Keeps cfg ctx org project id v d) here
  handle-Reach ctx org project (parts id) w q d =
      serve-keeps (Follows cfg w.durable.upload_sessions) _ w (parts-Keeps cfg ctx org project id)
        here
  handle-Reach ctx org project (sign id p) w q d =
      serve-keeps (Follows cfg w.durable.upload_sessions) _ w
        (λ v. sign-Keeps cfg ctx storage org project id p v d) here
  handle-Reach ctx org project (register id number p) w q d =
      serve-keeps (Follows cfg w.durable.upload_sessions) _ w
        (λ v. register-Keeps cfg ctx org project id number p v d) here
  handle-Reach ctx org project (complete others finished_at id p key) w q d =
      serve-keeps (Follows cfg w.durable.upload_sessions) _ w
        (λ v. complete-Keeps cfg ctx lib storage finished_at org project others id p key v d q) here
  handle-Reach ctx org project (cancel id key) w q d =
      serve-keeps (Follows cfg w.durable.upload_sessions) _ w
        (λ v. cancel-Keeps storage cfg ctx lib org project id key v d) here

  -- Whatever requests on upload sessions the server answers, each raising or returning, the rows
  -- that are durable in the end are reached from the first ones by steps of the state machine, if
  -- the ids are unique at first and the requests that run during a completion follow the state
  -- machine and leave its session completing, or completed with its artifact.
  pub run-Reach :
      (requests : List Request) (w : World R)
      → AreUndisturbed cfg requests
      → Distinct session_id w.durable.upload_sessions
      → Reach cfg w.durable.upload_sessions (run cfg lib storage requests w).durable.upload_sessions
  unfolding run
  run-Reach [] w q d = here
  run-Reach (r ∷ rs) w q d =
      let first = handle-Reach r.ctx r.organization_id r.project_id r.route w q.0 d in
      Reach-trans first (run-Reach rs _ q.1 (Reach-Distinct first d))

  -- Whatever requests the server answers, an organization that is within its two limits at first,
  -- the number of active sessions and the bytes they reserve, is within them in the end, if the
  -- ids are unique at first and the requests that run during a completion follow the state
  -- machine and leave its session completing, or completed with its artifact.
  pub run-IsWithinQuota :
      (requests : List Request) (w : World R) (org : ℕ)
      → AreUndisturbed cfg requests
      → Distinct session_id w.durable.upload_sessions
      → IsWithinQuota cfg org w.durable.upload_sessions
      → IsWithinQuota cfg org (run cfg lib storage requests w).durable.upload_sessions
  run-IsWithinQuota requests w org q d = Reach-IsWithinQuota org (run-Reach requests w q d)

  -- Whatever requests the server answers, every active session reserves its declared size and
  -- every other one nothing in the end, if this is so at first, and if the ids are unique at
  -- first and the requests that run during a completion follow the state machine and leave its
  -- session completing, or completed with its artifact.
  pub run-IsReserved :
      (requests : List Request) (w : World R)
      → AreUndisturbed cfg requests
      → Distinct session_id w.durable.upload_sessions
      → All IsReserved w.durable.upload_sessions
      → All IsReserved (run cfg lib storage requests w).durable.upload_sessions
  run-IsReserved requests w q d = Reach-IsReserved (run-Reach requests w q d)

  -- Whatever requests the server answers, a session that is in a terminal state at first is there
  -- in the same state in the end, if the ids are unique at first and the requests that run during
  -- a completion follow the state machine and leave its session completing, or completed with its
  -- artifact.
  pub run-InState :
      (requests : List Request) (w : World R) (id : ℕ) (s : UploadSessionStatus)
      → is_terminal s ≡ true
      → AreUndisturbed cfg requests
      → Distinct session_id w.durable.upload_sessions
      → InState id s w.durable.upload_sessions
      → InState id s (run cfg lib storage requests w).durable.upload_sessions
  run-InState requests w id s final q d = Reach-InState id s final (run-Reach requests w q d)
