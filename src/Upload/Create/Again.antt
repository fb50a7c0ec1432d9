-- ===== src/Upload/Create/Again.antt =====
-- A request for a new session that is sent again, about `create_upload_session` of
-- api/upload_sessions.py.
use ai_auto_platform.Prelude.{
  ℕ, ◌≤◌, ◌≡◌, refl, arith, true, false, some, String, str_eq, ltb, if◌then◌else◌, Bool-cases, inl,
  inr,
}
use ai_auto_platform.Errors.{ok, err, domain_error, idempotency_conflict}
use ai_auto_platform.Db.Models.{Json, ProjectModel}
use ai_auto_platform.Exec.{World, Context, serve, check, pure, ◌>>=◌}
use ai_auto_platform.Common.Libraries.{Libraries}
use ai_auto_platform.Common.Settings.{Settings}
use ai_auto_platform.Common.Reliability.{RouteKey, require_idempotency_key, replayed_response}
use ai_auto_platform.Common.Reliability.Replay.{IsAnswered, begin_idempotent_command-again}
use ai_auto_platform.Upload.Payloads.{UploadSessionCreate}
use ai_auto_platform.Upload.Authorize.{authorized_project}
use ai_auto_platform.Upload.Create.{create_upload_session, create_dump}

-- A request for a new session under a key that is answered, by a user who may still write to the
-- project, answers as the first one did if the hash of its payload is the same, and is refused as
-- a conflict if not; either way the request writes nothing, neither durably nor to the storage.
pub create_upload_session-again :
    {R : Type 0} (cfg : Settings) (ctx : Context) (lib : Libraries) (token : String)
    → (org project : ℕ) (row : ProjectModel) (p : UploadSessionCreate) (key hash : String)
    → (status : ℕ) (body : Json) (w : World R)
    → authorized_project org project ctx.actor_id true w.durable ≡ ok row
    → p.size_bytes ≤ cfg.upload_max_file_bytes
    → require_idempotency_key (some key) ≡ ok key
    → IsAnswered ctx.actor_id
        (record { template = "projects.{}.upload-sessions.create"; id = project })
        key
        hash
        status
        body
        w.durable
    → serve (create_upload_session cfg ctx lib token org project p (some key)) w ≡ (
      if str_eq hash (lib.json_sha256 (create_dump p))
          then ok (replayed_response status body)
          else err (domain_error idempotency_conflict 409),
      record w { pending = w.durable },
    )
unfolding create_upload_session serve ◌>>=◌ check pure
create_upload_session-again cfg ctx lib token org project row p key hash status body w allowed small
      valid a =
    let route : RouteKey = record {
      template = "projects.{}.upload-sessions.create";
      id = project;
    } in
    let size : ltb cfg.upload_max_file_bytes p.size_bytes ≡ false = ground arith in
    let again =
      begin_idempotent_command-again lib ctx route key (create_dump p)
        (record w { pending = w.durable }) hash status body valid a in
    rw allowed (
      rw size (
        rw again (elim (Bool-cases (str_eq hash (lib.json_sha256 (create_dump p)))) [
          | inl same ↦ rw same refl
          | inr other ↦ rw other refl
        ])))
