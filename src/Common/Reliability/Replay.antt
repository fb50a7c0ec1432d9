-- ===== src/Common/Reliability/Replay.antt =====
-- A command that is sent again under its key, about common/reliability.py.
use ai_auto_platform.Prelude.{
  ℕ, ◌≡◌, refl, sym, ap, arith, Bool, true, false, Option, some, none, inl, inr, List, [], ◌∷◌,
  ◌++◌, String, str_eq, eq_refl, if◌then◌else◌, find_by, exists_by, replace_by, Bool-cases,
}
use ai_auto_platform.Errors.{Result, ok, err, domain_error, idempotency_conflict, Result-cases}
use ai_auto_platform.Db.Models.{Db, Json, IdempotencyRecordModel, IdempotencyState}
use ai_auto_platform.Exec.{World, Context, write, ◌>>=◌}
use ai_auto_platform.Common.Libraries.{Libraries}
use ai_auto_platform.Common.Reliability.{
  RouteKey, IdempotencyDecision, is_command, is_replay, require_idempotency_key, replay_found,
  replay_existing, replay_response, new_record, begin_idempotent_command,
  complete_idempotent_command,
}

module _ {ℓ} {A : Type ℓ} (p : A → Bool) where
  replace_by-append_new :
      (old new : A) (xs : List A)
      → exists_by p xs ≡ false
      → p old ≡ true
      → replace_by p new (xs ++ old ∷ []) ≡ xs ++ new ∷ []
  replace_by-append_new old new [] e h = ground arith
  replace_by-append_new old new (x ∷ xs) e h = ground (arith, replace_by-append_new old new xs)

  find_by-append_new :
      (new : A) (xs : List A)
      → exists_by p xs ≡ false
      → p new ≡ true
      → find_by p (xs ++ new ∷ []) ≡ some new
  find_by-append_new new [] e h = ground arith
  find_by-append_new new (x ∷ xs) e h = ground (arith, find_by-append_new new xs)

  pub find_by-exists_by : (x : A) (xs : List A) → find_by p xs ≡ some x → exists_by p xs ≡ true
  find_by-exists_by x [] h = cc
  find_by-exists_by x (y ∷ xs) h = ground (arith, find_by-exists_by x xs)

is_command_self :
    (r : IdempotencyRecordModel)
    → is_command r.actor_id
        (record { template = r.route_template; id = r.route_id })
        r.idempotency_key
        r
      ≡ true
is_command_self r = ground (arith, eq_refl r.route_template, eq_refl r.idempotency_key)

-- The command has been answered: its record holds the request's hash and the response.
pub record IsAnswered (actor_id : ℕ) (route : RouteKey) (key hash : String) (status : ℕ)
    (body : Json) (db : Db) : Type 0 where
  pub entry : IdempotencyRecordModel
  pub found : find_by (is_command actor_id route key) db.idempotency_records ≡ some entry
  pub same_hash : entry.request_hash ≡ hash
  pub completed : entry.state ≡ IdempotencyState.completed
  pub answered_status : entry.response_status ≡ some status
  pub answered_body : entry.response_body ≡ some body

replay_response-is_replay :
    (r : IdempotencyRecordModel) (d : IdempotencyDecision)
    → (state : IdempotencyState) (status : Option ℕ) (body : Option Json)
    → replay_response r state status body ≡ ok d
    → is_replay d ≡ true
replay_response-is_replay r d IdempotencyState.completed (some status) (some body) h = ground arith
replay_response-is_replay r d IdempotencyState.completed (some status) none h = cc
replay_response-is_replay r d IdempotencyState.completed none body h = cc
replay_response-is_replay r d IdempotencyState.processing status body h = cc

-- A record that is there is replayed or refused.
replay_found-is_replay :
    (hash : String) (o : Option IdempotencyRecordModel) (d : IdempotencyDecision)
    → replay_found hash o ≡ ok d
    → is_replay d ≡ true
unfolding replay_found replay_existing
replay_found-is_replay hash none d h = cc
replay_found-is_replay hash (some r) d h = elim (Bool-cases (str_eq r.request_hash hash)) [
  | inl same ↦
      replay_response-is_replay r d r.state r.response_status r.response_body (rw same at h)
  | inr other ↦ let refused = rw other at h in cc
]

module _ {R : Type 0} (lib : Libraries) (ctx : Context) (route : RouteKey) (key : String) where
  fresh_record :
      (payload : Json) (d : IdempotencyDecision) (w w' : World R)
      → begin_idempotent_command lib ctx route (some key) payload w ≡ (ok d, w')
      → is_replay d ≡ false
      → (exists_by (is_command ctx.actor_id route key) w.pending.idempotency_records ≡ false)
        × (d.entry ≡ new_record lib ctx route key payload)
        × (w'.pending.idempotency_records
            ≡ w.pending.idempotency_records ++ new_record lib ctx route key payload ∷ [])
  unfolding begin_idempotent_command ◌>>=◌ require_idempotency_key replay_found replay_existing
  fresh_record payload d w w' h f = elim (Result-cases (require_idempotency_key (some key))) [
    | inr (x, e) ↦ let refused = rw e at h in cc
    | inl (given, e) ↦
        let valid : require_idempotency_key (some key) ≡ ok key = ground (arith, e) in
        let begun = rw valid at h in
        elim (Bool-cases
          (exists_by (is_command ctx.actor_id route key) w.pending.idempotency_records)) [
            | inl taken ↦
                let found = rw taken at begun in
                let replayed =
                  replay_found-is_replay (lib.json_sha256 payload)
                    (find_by (is_command ctx.actor_id route key) w.pending.idempotency_records) d
                    (ap (λ (v : Result IdempotencyDecision × World R). v.0) found) in
                cc
            | inr new ↦
                let inserted = rw new at begun in
                (
                  new,
                  ground (arith, inserted),
                  sym (
                      ap
                        (λ (v : Result IdempotencyDecision × World R).
                          v.1.pending.idempotency_records)
                        inserted),
                )
          ]
  ]

  -- A command that has begun as new and is completed is answered: its record holds the hash of its
  -- payload, the status and the body.
  pub complete_idempotent_command-IsAnswered :
      (payload : Json) (d : IdempotencyDecision) (w w' : World R) (status : ℕ) (body : Json)
      → begin_idempotent_command lib ctx route (some key) payload w ≡ (ok d, w')
      → is_replay d ≡ false
      → IsAnswered ctx.actor_id route key
          (lib.json_sha256 payload)
          status
          body
          (complete_idempotent_command d status body w').1.pending
  unfolding complete_idempotent_command new_record write
  complete_idempotent_command-IsAnswered payload d w w' status body h f =
      let (absent, made, rows) = fresh_record payload d w w' h f in
      let r = new_record lib ctx route key payload in
      let done : IdempotencyRecordModel = record r {
        state = IdempotencyState.completed;
        response_status = some status;
        response_body = some body;
      } in
      let p = is_command ctx.actor_id route key in
      record {
        entry = done;
        found = rw made (
            rw rows (
              rw
                (replace_by-append_new p r done w.pending.idempotency_records absent
                  (is_command_self r))
                (find_by-append_new p done w.pending.idempotency_records absent
                  (is_command_self done))));
        same_hash = refl;
        completed = refl;
        answered_status = refl;
        answered_body = refl;
      }

module _ {R : Type 0} (lib : Libraries) (ctx : Context) (route : RouteKey) (key : String) where
  -- A command that is answered, sent again under the same valid key, is answered in the same way if
  -- its payload has the same hash, and refused as a conflict if not; either way nothing is written.
  pub begin_idempotent_command-again :
      (payload : Json) (w : World R) (hash : String) (status : ℕ) (body : Json)
      → require_idempotency_key (some key) ≡ ok key
      → (a : IsAnswered ctx.actor_id route key hash status body w.pending)
      → begin_idempotent_command lib ctx route (some key) payload w ≡ (
        if str_eq hash (lib.json_sha256 payload)
            then ok (record { entry = a.entry; replay = some (status, body) })
            else err (domain_error idempotency_conflict 409),
        w,
      )
  unfolding begin_idempotent_command ◌>>=◌ replay_found replay_existing new_record
  begin_idempotent_command-again payload w hash status body valid a =
      let p = is_command ctx.actor_id route key in
      rw valid (
        rw (find_by-exists_by p a.entry w.pending.idempotency_records a.found) (
          rw (a.found) (
            rw (a.completed)
              (rw (a.answered_status) (rw (a.answered_body) (rw (a.same_hash) refl))))))
