-- ===== src/Common/Reliability/Rules.antt =====
-- Idempotent commands under the rules of Exec/Rules, about common/reliability.py.
use ai_auto_platform.Prelude.{
  ℕ, Option, none, some, inl, inr, List, [], ◌∷◌, ◌++◌, String, Bool-cases, find_by, exists_by,
}
use ai_auto_platform.Errors.{Result-cases}
use ai_auto_platform.Db.Models.{Db, Json, IdempotencyRecordModel}
use ai_auto_platform.Exec.{World, Action, Context, Response, ◌>>=◌}
use ai_auto_platform.Exec.Rules.{Keeps, Keeps-pure}
use ai_auto_platform.Common.Libraries.{Libraries}
use ai_auto_platform.Common.Reliability.{
  RouteKey, IdempotencyDecision, is_command, require_idempotency_key, replay_found, new_record,
  begin_idempotent_command, replay_or,
}

-- The world with other idempotency records pending.
abbrev pub with_records : {R : Type 0} → World R → List IdempotencyRecordModel → World R
with_records w records = record w { pending = record w.pending { idempotency_records = records } }

module _ {R A : Type 0} {D : Db → Type 0} where
  pub Keeps-begin :
      (lib : Libraries) (ctx : Context) (route : RouteKey) (key : Option String) (payload : Json)
      → (k : IdempotencyDecision → Action R A) (w : World R) → D w.durable
      → ((d : IdempotencyDecision) (records : List IdempotencyRecordModel)
          → Keeps D (k d (with_records w records)))
      → Keeps D ((begin_idempotent_command lib ctx route key payload >>= k) w)
  unfolding begin_idempotent_command ◌>>=◌
  Keeps-begin lib ctx route key payload k w h next =
      elim (Result-cases (require_idempotency_key key)) [
        | inr (x, e) ↦ rw e (record { at = h })
        | inl (given, e) ↦
            let same = is_command ctx.actor_id route given in
            let hash = lib.json_sha256 payload in
            let rows = w.pending.idempotency_records in
            rw e (elim (Bool-cases (exists_by same rows)) [
              | inr new ↦ rw new (next _ (rows ++ new_record lib ctx route given payload ∷ []))
              | inl taken ↦ rw taken (elim (Result-cases (replay_found hash (find_by same rows))) [
                | inl (d, found) ↦ rw found (next d rows)
                | inr (x, lost) ↦ rw lost (record { at = h })
              ])
            ])
      ]

module _ {R : Type 0} {D : Db → Type 0} where
  pub Keeps-replay_or :
      (replay : Option (ℕ × Json)) (fresh : Action R (Response Json)) (w : World R)
      → D w.durable
      → D w.pending
      → Keeps D (fresh w)
      → Keeps D (replay_or replay fresh w)
  Keeps-replay_or none fresh w h p next = next
  Keeps-replay_or (some (status, body)) fresh w h p next = Keeps-pure w h _ p
