-- ===== src/Exec.antt =====
-- A request's run: the database transaction of `AsyncSession`, and `get_session` of db/session.py.
-- `durable` is what other requests see, `pending` what this one sees and has not yet committed;
-- `remote` is the state of the object storage. An action returns or raises; what it did to the
-- storage and what it committed stay either way.
pub mod Rules
use ai_auto_platform.Prelude.{ℕ, Bool, Option, String, if◌then◌else◌}
use ai_auto_platform.Errors.{ErrorCode, Exception, domain_error, Result, ok, err}
use ai_auto_platform.Db.Models.{Db}

pub record World (R : Type 0) : Type 0 where
  pub durable : Db
  pub pending : Db
  pub remote : R

abbrev pub Action : Type 0 → Type 0 → Type 0
Action R A = World R → Result A × World R

module _ {R A : Type 0} where
  unfoldable pub pure : A → Action R A
  pure a w = (ok a, w)

  unfoldable pub raise : ErrorCode → ℕ → Action R A
  raise code status w = (err (domain_error code status), w)

  -- A query, with the checks on its result.
  unfoldable pub check : (Db → Result A) → Action R A
  check f w = (f w.pending, w)

  -- A call of the object storage.
  unfoldable pub call : (R → A × R) → Action R A
  call f w = let (a, r) = f w.remote in (ok a, record w { remote = r })

module _ {R : Type 0} where
  -- `session.add`, `session.delete`, an assignment to a row, and the flush of these.
  unfoldable pub write : (Db → Db) → Action R (Unit {0})
  write f w = (ok tt, record w { pending = f w.pending })

  -- `await session.commit()`
  unfoldable pub commit : Action R (Unit {0})
  commit w = (ok tt, record w { durable = w.pending })

  -- What other requests have committed when this one has released its locks.
  unfoldable pub others_run : (Db → Db) → Action R (Unit {0})
  others_run f w = (ok tt, record w { durable = f w.durable; pending = f w.durable })

module _ {R A B : Type 0} where
  abbrev then_do : Result A → (A → Action R B) → Action R B
  then_do (ok a) f w = f a w
  then_do (err e) f w = (err e, w)

  infixl 5 ◌>>=◌ ◌>>◌
  unfoldable pub ◌>>=◌ : Action R A → (A → Action R B) → Action R B
  unfolding pure raise check call write commit others_run
  ◌>>=◌ m f w = let (r, w') = m w in then_do r f w'

  abbrev pub ◌>>◌ : Action R A → Action R B → Action R B
  m >> k = m >>= λ _. k

module _ {R A : Type 0} where
  abbrev finish : Result A × World R → Result A × World R
  finish (ok a, w) = (ok a, record w { durable = w.pending })
  finish (err e, w) = (err e, record w { pending = w.durable })

  -- `get_session` around a handler: a new transaction, a commit if it returns, a rollback if it raises.
  unfoldable pub serve : Action R A → World R → Result A × World R
  serve m w = finish (m (record w { pending = w.durable }))

-- What a handler reads besides the database: the authenticated user, `request.state.trace_id`,
-- `datetime.now(UTC)`, the database's `now()` and the value of `uuid4()` for a new row.
pub record Context : Type 0 where
  pub actor_id : ℕ
  pub actor_email : String
  pub actor_name : String
  pub trace_id : Option String
  pub now : ℕ
  pub db_now : ℕ
  pub new_id : ℕ

-- A response: its status, its body, and the headers `Idempotent-Replayed` and `ETag` (a version).
pub record Response (A : Type 0) : Type 0 where
  pub status_code : ℕ
  pub content : A
  pub replayed : Option Bool
  pub etag : Option ℕ
