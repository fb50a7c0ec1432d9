-- ===== src/Tests/Projects.antt =====
-- Projects: pages, versions and the archive.
use ai_auto_platform.Prelude.{
  ap, List, exists_by, ◌==◌, ℕ, ◌≡◌, refl, arith, none, some, [], ◌∷◌, String, strip,
}
use ai_auto_platform.Errors.{ok, err, domain_error, version_mismatch, Exception}
use ai_auto_platform.Db.Models.{Db, ProjectModel}
use ai_auto_platform.Organization.Domain.{OrganizationRole}
use ai_auto_platform.Organization.Access.{require_organization_member}
use ai_auto_platform.ProjectRoutes.Pages.{listed_projects}
use ai_auto_platform.Project.Domain.{ProjectStatus}
use ai_auto_platform.Exec.{World, serve, ◌>>=◌}
use ai_auto_platform.Common.Libraries.{pos}
use ai_auto_platform.Common.Settings.{default_settings}
use ai_auto_platform.Common.Reliability.{record_audit, record_outbox}
use ai_auto_platform.Upload.Payloads.{UploadSessionCreate}
use ai_auto_platform.Upload.Create.{create_upload_session}
use ai_auto_platform.ProjectRoutes.Payloads.{ProjectUpdate}
use ai_auto_platform.ProjectRoutes.Versions.{etag_of, expected_version, check_version}
use ai_auto_platform.ProjectRoutes.Versions.RoundTrip.{expected_version-etag_of}
use ai_auto_platform.ProjectRoutes.Cursors.{encode_cursor, decode_cursor}
use ai_auto_platform.ProjectRoutes.Cursors.RoundTrip.{decode_cursor-encode_cursor}
use ai_auto_platform.ProjectRoutes.Pages.Complete.{all_pages, all_pages-order_by}
use ai_auto_platform.ProjectRoutes.Access.{require_project_admin}
use ai_auto_platform.ProjectRoutes.Rows.{put_project, commit_project}
use ai_auto_platform.ProjectRoutes.Changes.{updated_project, given_name, with_status}
use ai_auto_platform.ProjectRoutes.Updates.{
  update_project, archive_project, restore_project, delete_project, change_status, record_status,
  project_response,
}
use ai_auto_platform.ProjectRoutes.Updates.Locking.{Updated, update_project-Updated}
use ai_auto_platform.ProjectRoutes.Updates.Once.{update_project-again}
use ai_auto_platform.ProjectRoutes.Updates.Archived.{archive_project-create_upload_session}
use ai_auto_platform.Tests.Samples.{context, database, libraries, membership, project, world}
use ai_auto_platform.Tests.Cursors.{cursors, cursors-ReadsBack}

expected_version-etag_of_example :
    expected_version libraries (some (etag_of libraries 1)) ≡ ok (pos 1)
expected_version-etag_of_example = expected_version-etag_of libraries 1 refl refl

decode_cursor-encode_cursor_example :
    decode_cursor cursors (encode_cursor cursors project) ≡ ok (0, 3)
decode_cursor-encode_cursor_example = decode_cursor-encode_cursor cursors project cursors-ReadsBack

abbrev another : ℕ → ℕ → String → ProjectModel
another id created_at code = record project { id = id; created_at = created_at; code = code }

abbrev three_projects : Db
three_projects = record database { projects = another 8 20 "b" ∷ another 9 10 "c" ∷ project ∷ [] }

all_pages-order_by_example :
    all_pages cursors 7 1 2 three_projects 5 none
    ≡ ok (project ∷ another 9 10 "c" ∷ another 8 20 "b" ∷ [])
unfolding require_organization_member listed_projects
all_pages-order_by_example =
    all_pages-order_by cursors cursors-ReadsBack 7 1 1 three_projects
      (membership 1 OrganizationRole.owner) refl (refl, (refl, (refl, tt))) 5 (omega arith)

abbrev renamed : ProjectModel
renamed = record project { name = "New name"; version = 2; updated_at = 51 }

abbrev renaming : ProjectUpdate
renaming = record { code = none; name = some (some "New name"); description = none }

update_project-Updated_example :
    Updated libraries
      (context 0)
      7
      3
      renaming
      (some "\"1\"")
      database
      database
      (update_project libraries (context 0) (λ db. db) 7 3 renaming (some "\"1\"") world).1.durable
unfolding update_project check_version expected_version strip require_project_admin updated_project
    given_name commit_project ◌>>=◌
update_project-Updated_example =
    update_project-Updated libraries (context 0) (λ db. db) 7 3 renaming (some "\"1\"") world
      (project_response renamed) refl

abbrev changed_world : World (List String)
changed_world = record world {
  durable = put_project renamed database;
  pending = put_project renamed database;
}

update_project-again_example :
    (update_project libraries (context 0) (λ db. db) 7 3 renaming (some "\"1\"") changed_world
      ≡ (err (domain_error version_mismatch 412), changed_world))
    × (archive_project libraries (context 0) (λ db. db) 7 3 (some "\"1\"") changed_world
        ≡ (err (domain_error version_mismatch 412), changed_world))
    × (restore_project libraries (context 0) (λ db. db) 7 3 (some "\"1\"") changed_world
        ≡ (err (domain_error version_mismatch 412), changed_world))
    × (delete_project libraries (context 0) (λ db. db) 7 3 (some "\"1\"") changed_world
        ≡ (err (domain_error version_mismatch 412), changed_world))
unfolding update_project check_version expected_version strip require_project_admin updated_project
    given_name commit_project ◌>>=◌
update_project-again_example =
    update_project-again libraries (context 0) (λ db. db) 7 3 renaming (some "\"1\"") world
      (project_response renamed) (refl, tt) refl
      (λ e. let seen = ap (exists_by (λ (p : ProjectModel). p.version == 2)) e in cc) (context 0)
      (λ db. db) renaming changed_world refl renamed refl

abbrev archived : ProjectModel
archived = record project {
  status = ProjectStatus.archived;
  archived_at = some 50;
  version = 2;
  updated_at = 51;
}

abbrev file : UploadSessionCreate
file = record {
  display_name = "file";
  size_bytes = 3;
  sha256 = "digest";
  content_type = "text/plain";
}

archive_project-create_upload_session_example :
    let v = (archive_project libraries (context 0) (λ db. db) 7 3 (some "\"1\"") world).1 in
    (e : Exception) × (serve
        (create_upload_session default_settings (context 13) libraries "token" 7 3 file none)
        v
      ≡ (err e, record v { pending = v.durable }))
unfolding archive_project change_status check_version expected_version strip require_project_admin
    with_status record_status record_audit record_outbox commit_project ◌>>=◌
archive_project-create_upload_session_example =
    archive_project-create_upload_session libraries (context 0) 7 3 (some "\"1\"") world
      (project_response archived) (refl, tt) refl refl default_settings (context 13) "token" file
      none
