-- ===== src/ProjectRoutes/Requests/Kept.antt =====
-- The runs of the routes of api/projects.py and the codes of the projects.
use ai_auto_platform.Prelude.{ℕ, false, not, ◌&&◌, Bool, Option, String}
use ai_auto_platform.Db.Models.{Db, ProjectModel, Json}
use ai_auto_platform.Project.Domain.{ProjectStatus, ProjectRole}
use ai_auto_platform.Exec.{
  World, Action, Context, Response, pure, check, write, commit, ◌>>=◌, ◌>>◌,
}
use ai_auto_platform.Exec.Rules.{
  Keeps, Keeps-pure, Keeps-check, Keeps-write, Keeps-commit, Keeps-others_run, Keeps-assoc,
  Keeps-pure_bind, Keeps-if_bind,
}
use ai_auto_platform.Common.Libraries.{Libraries}
use ai_auto_platform.Common.Reliability.{
  IdempotencyDecision, record_audit, record_outbox, complete_idempotent_command,
}
use ai_auto_platform.Common.Reliability.Rules.{Keeps-begin, Keeps-replay_or, with_records}
use ai_auto_platform.ProjectRoutes.Payloads.{ProjectCreate, ProjectUpdate}
use ai_auto_platform.ProjectRoutes.Rows.{
  commit_project, next_version, refresh_project, is_same_project, check_flush, put_project,
}
use ai_auto_platform.ProjectRoutes.Create.{create_project_fresh, create_project}
use ai_auto_platform.ProjectRoutes.Changes.{is_null, with_status}
use ai_auto_platform.ProjectRoutes.Updates.{
  record_status, change_status, update_project, archive_project, restore_project, delete_project,
}
use ai_auto_platform.ProjectRoutes.Updates.Flushed.{check_flush-row}
use ai_auto_platform.ProjectRoutes.Members.{
  record_project_member_change, add_project_member, update_project_member, remove_project_member,
}
use ai_auto_platform.ProjectRoutes.Requests.Codes.{IsCoded, insert-IsCoded, put-IsCoded}

abbrev pub D : Db → Type 0
D db = IsCoded db.projects

-- What is put into the session leaves the codes as they are.
record IsHarmless {R : Type 0} (A : Type 0) (added : Action R (Unit {0})) : Type 0 where
  goes_on :
      (k : Unit {0} → Action R A) (w : World R)
      → D w.durable
      → D w.pending
      → ((v : World R) → D v.durable → D v.pending → Keeps D (k tt v))
      → Keeps D ((added >>= k) w)

nothing-IsHarmless : {R A : Type 0} → IsHarmless {R = R} A (pure tt)
nothing-IsHarmless = record { goes_on = λ k w h r next. Keeps-pure_bind _ k w (next w h r) }

status-IsHarmless :
    {R A : Type 0} (ctx : Context) (project : ProjectModel) (target : ProjectStatus)
    → IsHarmless {R = R} A (record_status ctx project target)
unfolding record_status record_audit record_outbox
status-IsHarmless ctx project target = record {
  goes_on =
      λ k w h r next. Keeps-assoc _ _ k w (Keeps-write _ _ w (Keeps-write _ _ _ (next _ h r)));
}

module _ {R A : Type 0} (ctx : Context) (others : Db → Db)
    (quiet : (db : Db) → D db → D (others db)) where
  commit-Keeps :
      (old new : ProjectModel) (null_code : Bool) (added : Action R (Unit {0}))
      → IsHarmless A added
      → (k : ProjectModel → Action R A) (w : World R) → D w.durable
      → ((row : ProjectModel) (v : World R) → D v.durable → D v.pending → Keeps D (k row v))
      → Keeps D ((commit_project ctx others old new null_code added >>= k) w)
  unfolding commit_project next_version
  commit-Keeps old new null_code added harmless k w h next =
      let q = quiet w.durable h in
      let end : Action R ProjectModel = commit >> check (refresh_project old.id) in
      let flush : Action R ProjectModel =
        check (check_flush old new null_code)
        >> (write (put_project (next_version ctx.db_now old new)) >> (added >> end)) in
      Keeps-assoc _ _ k w (
        Keeps-others_run others _ w (
          Keeps-if_bind (is_same_project old new && not null_code) (added >> end) flush k _
            (λ _. Keeps-assoc _ _ k _ (
              harmless.goes_on _ _ q q λ v held r.
                Keeps-assoc _ _ k v
                  (Keeps-commit _ v (Keeps-check _ _ _ r λ row _. next row _ r r))))
            (λ _. Keeps-assoc _ _ k _ (
              Keeps-check _ _ _ q λ _ e. Keeps-assoc _ _ k _ (
                Keeps-write _ _ _ (
                  let (row, found, same, free) =
                    check_flush-row old new null_code (others w.durable) e in
                  let put =
                    put-IsCoded (next_version ctx.db_now old new) (others w.durable).projects free
                      q in
                  Keeps-assoc _ _ k _ (
                    harmless.goes_on _ _ q put λ v held r.
                      Keeps-assoc _ _ k v
                        (Keeps-commit _ v (Keeps-check _ _ _ r λ row' _. next row' _ r r)))))))))

module _ {R : Type 0} (lib : Libraries) (ctx : Context) where
  create_fresh-Keeps :
      (org : ℕ) (p : ProjectCreate) (d : IdempotencyDecision) (w : World R)
      → D w.durable
      → D w.pending
      → Keeps D (create_project_fresh ctx org p d w)
  unfolding create_project_fresh record_audit record_outbox complete_idempotent_command
  create_fresh-Keeps org p d w h r = Keeps-check _ _ w h λ _ e. Keeps-write _ _ _ (
      Keeps-check _ _ _ h λ _ _. Keeps-write _ _ _ (
        Keeps-write _ _ _ (
          Keeps-write _ _ _ (
            Keeps-write _ _ _ (
              Keeps-commit _ _
                (let end = insert-IsCoded _ w.pending e r in Keeps-pure _ end _ end))))))

  pub create_project-Keeps :
      (org : ℕ) (p : ProjectCreate) (key : Option String) (w : World R)
      → D w.durable
      → D w.pending
      → Keeps D (create_project ctx lib org p key w)
  unfolding create_project
  create_project-Keeps org p key w h r = Keeps-check _ _ w h λ _ _. Keeps-check _ _ _ h λ _ _.
      Keeps-begin lib ctx _ key _ _ w h λ decision records.
        Keeps-replay_or decision.replay _ _ h r
          (create_fresh-Keeps org p decision (with_records w records) h r)

module _ {R : Type 0} (lib : Libraries) (ctx : Context) (others : Db → Db)
    (quiet : (db : Db) → D db → D (others db)) (org id : ℕ) (if_match : Option String) (w : World R)
    (h : D w.durable) where
  pub update_project-Keeps :
      (p : ProjectUpdate) → Keeps D (update_project lib ctx others org id p if_match w)
  unfolding update_project
  update_project-Keeps p = Keeps-check _ _ w h λ project _. Keeps-check _ _ _ h λ _ _.
      Keeps-check _ _ _ h λ new _.
        commit-Keeps ctx others quiet project new (is_null p.code) (pure tt) nothing-IsHarmless _ w
          h λ row v d r. Keeps-pure v d _ r

  status-Keeps :
      (project : ProjectModel) (target : ProjectStatus)
      (k : ProjectModel → Action R (Response Json))
      → ((row : ProjectModel) (v : World R) → D v.durable → D v.pending → Keeps D (k row v))
      → Keeps D ((change_status lib ctx others project target if_match >>= k) w)
  unfolding change_status
  status-Keeps project target k next = Keeps-assoc _ _ k w (
      Keeps-check _ _ w h λ _ _.
        commit-Keeps ctx others quiet project (with_status target ctx.now project) false
          (record_status ctx project target) (status-IsHarmless ctx project target) k w h next)

  pub archive_project-Keeps : Keeps D (archive_project lib ctx others org id if_match w)
  unfolding archive_project
  archive_project-Keeps =
      Keeps-check _ _ w h
        λ project _. status-Keeps project ProjectStatus.archived _ λ row v d r. Keeps-pure v d _ r

  pub restore_project-Keeps : Keeps D (restore_project lib ctx others org id if_match w)
  unfolding restore_project
  restore_project-Keeps =
      Keeps-check _ _ w h
        λ project _. status-Keeps project ProjectStatus.active _ λ row v d r. Keeps-pure v d _ r

  pub delete_project-Keeps : Keeps D (delete_project lib ctx others org id if_match w)
  unfolding delete_project
  delete_project-Keeps = Keeps-check _ _ w h λ project _. Keeps-check _ _ _ h λ _ _.
      commit-Keeps ctx others quiet project _ false (pure tt) nothing-IsHarmless _ w h
        λ row v d r. Keeps-pure v d _ r

module _ {R : Type 0} (ctx : Context) (org id user : ℕ) (w : World R) (h : D w.durable)
    (r : D w.pending) where
  member-Keeps :
      {A : Type 0} (project : ProjectModel) (action event : String) (role : Option ProjectRole)
      → (k : Unit {0} → Action R A) (v : World R) → D v.pending
      → ((u : World R) → D u.pending → Keeps D (k tt u))
      → Keeps D ((record_project_member_change ctx project user action event role >>= k) v)
  unfolding record_project_member_change record_audit record_outbox
  member-Keeps project action event role k v held next =
      Keeps-assoc _ _ k v (Keeps-write _ _ v (Keeps-write _ _ _ (next _ held)))

  pub add_member-Keeps : (role : ProjectRole) → Keeps D (add_project_member ctx org id user role w)
  unfolding add_project_member
  add_member-Keeps role = Keeps-check _ _ w h λ project _. Keeps-check _ _ _ h λ _ _.
      Keeps-check _ _ _ h λ _ _.
        Keeps-write _ _ _
          (member-Keeps project _ _ _ _ _ r λ u held. Keeps-commit _ u (Keeps-pure _ held _ held))

  pub update_member-Keeps :
      (role : ProjectRole) → Keeps D (update_project_member ctx org id user role w)
  unfolding update_project_member
  update_member-Keeps role = Keeps-check _ _ w h λ project _. Keeps-check _ _ _ h λ _ _.
      Keeps-write _ _ _
        (member-Keeps project _ _ _ _ _ r λ u held. Keeps-commit _ u (Keeps-pure _ held _ held))

  pub remove_member-Keeps : Keeps D (remove_project_member ctx org id user w)
  unfolding remove_project_member
  remove_member-Keeps = Keeps-check _ _ w h λ project _. Keeps-check _ _ _ h λ _ _.
      member-Keeps project _ _ _ _ w r
        λ u held. Keeps-write _ _ u (Keeps-commit _ _ (Keeps-pure _ held _ held))
