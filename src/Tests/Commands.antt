-- ===== src/Tests/Commands.antt =====
-- A command that is answered, and sent again.
use ai_auto_platform.Prelude.{◌≡◌, refl, arith, none, some, List, [], String}
use ai_auto_platform.Errors.{ok}
use ai_auto_platform.Db.Models.{Db, IdempotencyRecordModel, IdempotencyState}
use ai_auto_platform.Exec.{World, serve, ◌>>=◌}
use ai_auto_platform.Common.Settings.{default_settings}
use ai_auto_platform.Common.Reliability.{
  RouteKey, IdempotencyDecision, new_record, insert_record, begin_idempotent_command,
  complete_idempotent_command, require_idempotency_key, replayed_response,
}
use ai_auto_platform.Common.Reliability.Replay.{
  IsAnswered, complete_idempotent_command-IsAnswered, begin_idempotent_command-again,
}
use ai_auto_platform.Upload.Payloads.{UploadSessionCreate}
use ai_auto_platform.Upload.Authorize.{authorized_project}
use ai_auto_platform.Upload.Create.{create_upload_session}
use ai_auto_platform.Upload.Create.Again.{create_upload_session-again}
use ai_auto_platform.Tests.Samples.{context, database, project, libraries, world, key}

abbrev route : RouteKey
route = record { template = "projects.{}.upload-sessions.create"; id = 3 }

abbrev started : IdempotencyRecordModel
started = new_record libraries (context 0) route key []

abbrev decision : IdempotencyDecision
decision = record { entry = started; replay = none }

abbrev begun : World (List String)
begun = record world { pending = insert_record started database }

complete_idempotent_command-IsAnswered_example :
    IsAnswered 1 route key "payload" 201 []
      (complete_idempotent_command decision 201 [] begun).1.pending
unfolding begin_idempotent_command new_record ◌>>=◌
complete_idempotent_command-IsAnswered_example =
    complete_idempotent_command-IsAnswered libraries (context 0) route key [] decision world begun
      201 [] refl refl

abbrev done : IdempotencyRecordModel
done = record {
  actor_id = 1;
  route_template = "projects.{}.upload-sessions.create";
  route_id = 3;
  idempotency_key = key;
  request_hash = "payload";
  state = IdempotencyState.completed;
  response_status = some 201;
  response_body = some [];
  expires_at = 500;
}

abbrev answered_database : Db
answered_database = insert_record done database

abbrev answered_world : World (List String)
answered_world = record { durable = answered_database; pending = answered_database; remote = [] }

answered : IsAnswered 1 route key "payload" 201 [] answered_database
answered = record {
  entry = done;
  found = refl;
  same_hash = refl;
  completed = refl;
  answered_status = refl;
  answered_body = refl;
}

begin_idempotent_command-again_example :
    begin_idempotent_command libraries (context 0) route (some key) [] answered_world
    ≡ (ok (record { entry = answered.entry; replay = some (201, []) }), answered_world)
unfolding require_idempotency_key
begin_idempotent_command-again_example =
    begin_idempotent_command-again libraries (context 0) route key [] answered_world "payload" 201
      [] refl answered

abbrev payload : UploadSessionCreate
payload = record {
  display_name = "new";
  size_bytes = 5;
  sha256 = "digest";
  content_type = "text/plain";
}

create_upload_session-again_example :
    serve
      (create_upload_session default_settings (context 31) libraries "token" 7 3 payload (some key))
      answered_world
    ≡ (ok (replayed_response 201 []), answered_world)
unfolding authorized_project require_idempotency_key
create_upload_session-again_example =
    create_upload_session-again default_settings (context 31) libraries "token" 7 3 project payload
      key "payload" 201 [] answered_world refl (omega arith) refl answered
