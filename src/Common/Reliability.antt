-- ===== src/Common/Reliability.antt =====
-- common/reliability.py: idempotent commands, audit events and outbox events.
pub mod Rules
pub mod Replay
use ai_auto_platform.Prelude.{
  ℕ, ◌+◌, ◌*◌, Bool, true, false, ◌&&◌, not, Option, none, some, List, [], ◌∷◌, ◌++◌, String, count,
  str_eq, leb, ◌==◌, if◌then◌else◌, is_some, find_by, replace_by, exists_by,
}
use ai_auto_platform.Errors.{
  Result, ok, throw, throw_if, or_throw, idempotency_key_required, invalid_idempotency_key,
  idempotency_in_progress, idempotency_conflict,
}
use ai_auto_platform.Db.Models.{
  Db, Json, Value, AuditEventModel, OutboxEventModel, IdempotencyState, IdempotencyRecordModel,
}
use ai_auto_platform.Exec.{Action, Context, Response, pure, check, write, ◌>>=◌, ◌>>◌}
use ai_auto_platform.Common.Libraries.{Libraries}
use ai_auto_platform.Common.Settings.{seconds}

-- A key such as `f"upload-sessions.{upload_id}.cancel"`: its text, and the id in it (0 if none).
pub record RouteKey : Type 0 where
  pub template : String
  pub id : ℕ

-- `replay_status` and `replay_body` are set together.
pub record IdempotencyDecision : Type 0 where
  pub entry : IdempotencyRecordModel
  pub replay : Option (ℕ × Json)

abbrev pub is_replay : IdempotencyDecision → Bool
is_replay d = is_some d.replay

-- The primary key of the table: (actor_id, route_key, idempotency_key).
abbrev pub is_command : ℕ → RouteKey → String → IdempotencyRecordModel → Bool
is_command actor_id route key r =
    r.actor_id == actor_id
    && str_eq r.route_template route.template
    && r.route_id == route.id
    && str_eq r.idempotency_key key

-- The first two checks of `begin_idempotent_command`.
unfoldable pub require_idempotency_key : Option String → Result String
require_idempotency_key none = throw idempotency_key_required 428
require_idempotency_key (some key) =
    if leb 16 (count key) && leb (count key) 128 then ok key else throw invalid_idempotency_key 400

abbrev pub replay_response :
    IdempotencyRecordModel → IdempotencyState → Option ℕ → Option Json → Result IdempotencyDecision
replay_response r IdempotencyState.completed (some status) (some body) =
    ok (record { entry = r; replay = some (status, body) })
replay_response r _ _ _ = throw idempotency_in_progress 409

-- The checks on a record that is already there.
unfoldable pub replay_existing : String → IdempotencyRecordModel → Result IdempotencyDecision
replay_existing hash r =
    if str_eq r.request_hash hash
    then replay_response r r.state r.response_status r.response_body
    else throw idempotency_conflict 409

unfoldable pub replay_found : String → Option IdempotencyRecordModel → Result IdempotencyDecision
unfolding replay_existing
replay_found hash none = throw idempotency_in_progress 409
replay_found hash (some r) = replay_existing hash r

unfoldable pub new_record : Libraries → Context → RouteKey → String → Json → IdempotencyRecordModel
new_record lib ctx route key payload = record {
  actor_id = ctx.actor_id;
  route_template = route.template;
  route_id = route.id;
  idempotency_key = key;
  request_hash = lib.json_sha256 payload;
  state = IdempotencyState.processing;
  response_status = none;
  response_body = none;
  expires_at = ctx.now + seconds (24 * 60 * 60);
}

-- `INSERT … ON CONFLICT DO NOTHING RETURNING`: the row, if it was inserted.
abbrev pub insert_record : IdempotencyRecordModel → Db → Db
insert_record r db = record db { idempotency_records = db.idempotency_records ++ r ∷ [] }

module _ {R : Type 0} where
  unfoldable pub begin_idempotent_command :
      Libraries → Context → RouteKey → Option String → Json → Action R IdempotencyDecision
  unfolding require_idempotency_key replay_found new_record
  begin_idempotent_command lib ctx route idempotency_key payload = do
    key ← check (λ _. require_idempotency_key idempotency_key)
    let same = is_command ctx.actor_id route key
    let r = new_record lib ctx route key payload
    taken ← check (λ db. ok (exists_by same db.idempotency_records))
    if taken
        then check (λ db. replay_found r.request_hash (find_by same db.idempotency_records))
        else do write (insert_record r); pure (record { entry = r; replay = none })

  unfoldable pub complete_idempotent_command : IdempotencyDecision → ℕ → Json → Action R (Unit {0})
  complete_idempotent_command d response_status response_body =
      let r = d.entry in
      let same =
        is_command r.actor_id (record { template = r.route_template; id = r.route_id })
          r.idempotency_key in
      let done = record r {
        state = IdempotencyState.completed;
        response_status = some response_status;
        response_body = some response_body;
      } in
      write λ db. record db { idempotency_records = replace_by same done db.idempotency_records }

  unfoldable pub record_audit :
      Context
      → (action resource_type : String) (resource_id : ℕ) (organization_id project_id : Option ℕ)
      → Json
      → Action R (Unit {0})
  record_audit ctx action resource_type resource_id organization_id project_id detail =
      let event : AuditEventModel = record {
        organization_id = organization_id;
        project_id = project_id;
        actor_type = "USER";
        actor_id = ctx.actor_id;
        action = action;
        resource_type = resource_type;
        resource_id = resource_id;
        result = "SUCCESS";
        trace_id = ctx.trace_id;
        detail = detail;
      } in
      write λ db. record db { audit_events = db.audit_events ++ event ∷ [] }

  unfoldable pub record_outbox :
      Option String
      → (organization_id : Option ℕ) (aggregate_type : String) (aggregate_id : ℕ)
      → (event_type : String) (aggregate_version : ℕ) → Json
      → Action R (Unit {0})
  record_outbox trace organization_id aggregate_type aggregate_id event_type version payload =
      let event : OutboxEventModel = record {
        organization_id = organization_id;
        aggregate_type = aggregate_type;
        aggregate_id = aggregate_id;
        event_type = event_type;
        payload = record {
          schema_version = 1;
          aggregate_version = version;
          trace_id = trace;
          content = payload;
        };
      } in
      write λ db. record db { outbox_events = db.outbox_events ++ event ∷ [] }

-- `Idempotent-Replayed: true`
abbrev pub replayed_response : ℕ → Json → Response Json
replayed_response status body = record {
  status_code = status;
  content = body;
  replayed = some true;
  etag = none;
}

-- `if decision.is_replay: return JSONResponse(…)`
abbrev pub replay_or :
    {R : Type 0} → Option (ℕ × Json) → Action R (Response Json) → Action R (Response Json)
replay_or (some (status, body)) fresh = pure (replayed_response status body)
replay_or none fresh = fresh
