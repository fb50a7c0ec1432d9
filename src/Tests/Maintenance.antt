-- ===== src/Tests/Maintenance.antt =====
-- The maintenance at the sample data: the first object of the listing is an orphan.
use ai_auto_platform.Prelude.{◌≡◌, ◌≤◌, List, [], String, false, All}
use ai_auto_platform.Common.Settings.{default_settings, seconds}
use ai_auto_platform.Upload.Lifecycle.{Reach}
use ai_auto_platform.Maintenance.{State, no_metrics, backoff}
use ai_auto_platform.Maintenance.Backoff.{backoff-bounds}
use ai_auto_platform.Maintenance.Sessions.{expire_sessions}
use ai_auto_platform.Maintenance.Histories.{expire_sessions-Reach}
use ai_auto_platform.Maintenance.Orphans.{delete_orphans, is_known}
use ai_auto_platform.Maintenance.Safety.{SameRows, delete_orphans-SameRows}
use ai_auto_platform.Tests.Samples.{database, sessions, storage, libraries}

abbrev start : State (List String)
start = record { db = database; remote = []; metrics = no_metrics }

-- No key that a row knows has been deleted.
abbrev KeepsKnown : List String → Type 0
KeepsKnown = All (λ key. is_known key database ≡ false)

delete_orphans-SameRows_example :
    SameRows database (delete_orphans libraries storage 50 10 100 start).1.db
    × KeepsKnown (delete_orphans libraries storage 50 10 100 start).1.remote
delete_orphans-SameRows_example =
    delete_orphans-SameRows libraries storage 50 10 KeepsKnown 100 start
      (λ item r old ours orphan kept. (orphan, kept)) tt

expire_sessions-Reach_example :
    Reach default_settings sessions (expire_sessions 201 storage 100 200 start).db.upload_sessions
expire_sessions-Reach_example = expire_sessions-Reach default_settings 201 storage 100 200 start

backoff-bounds_example :
    (seconds 30 ≤ backoff 1)
    × (backoff 0 ≤ seconds 3600)
    × (backoff 0 ≤ backoff 1)
    × (backoff 8 ≡ seconds 3600)
backoff-bounds_example = backoff-bounds 0
