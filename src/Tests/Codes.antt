-- ===== src/Tests/Codes.antt =====
-- A history of requests on projects.
use ai_auto_platform.Prelude.{refl, none, some, List, [], ◌∷◌}
use ai_auto_platform.Project.Domain.{ProjectRole}
use ai_auto_platform.ProjectRoutes.Requests.{Request, create, archive, add_member, run}
use ai_auto_platform.ProjectRoutes.Requests.Codes.{IsCoded}
use ai_auto_platform.ProjectRoutes.Requests.Histories.{run-IsCoded}
use ai_auto_platform.Tests.Samples.{context, libraries, world, key}

-- A second project, one whose code is taken, a member, and the archive of the first project.
abbrev requests : List Request
requests =
    record {
      ctx = context 4;
      organization_id = 7;
      route = create (record { code = "q1"; name = "Other"; description = none }) (some key);
    }
    ∷ record {
      ctx = context 5;
      organization_id = 7;
      route =
          create (record { code = "P"; name = "Taken"; description = none })
            (some "another key 16 chars");
    }
    ∷ record { ctx = context 0; organization_id = 7; route = add_member 3 2 ProjectRole.engineer }
    ∷ record { ctx = context 0; organization_id = 7; route = archive (λ db. db) 3 (some "\"1\"") }
    ∷ []

run-IsCoded_example : IsCoded (run libraries requests world).durable.projects
run-IsCoded_example =
    run-IsCoded libraries requests world (tt, (tt, (tt, (λ db h. h, tt)))) ((refl, tt), (tt, tt))
