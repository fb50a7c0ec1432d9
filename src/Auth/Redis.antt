-- ===== src/Auth/Redis.antt =====
-- `RedisSessionStore`: texts in Redis, under a prefix for logins and one for sessions.
pub mod Refinement
use Prim.Native.String.{◌++◌}
use ai_auto_platform.Prelude.{
  ℕ, Bool, true, false, Option, none, some, String, if◌then◌else◌, is_empty,
}
use ai_auto_platform.Errors.{Result, ok, err, unhandled}
use ai_auto_platform.Auth.Sessions.{LoginTransaction, BrowserSession, SessionStore}

-- The commands of Redis that the store sends: `set(key, value, ex=…, nx=…)`, `get`, `getdel` and
-- `delete`.
pub record Redis (R : Type 0) : Type 0 where
  pub set : (key value : String) (ex : ℕ) (nx : Bool) → R → R
  pub get : String → R → Option String
  pub getdel : String → R → Option String × R
  pub delete : String → R → R

-- `json.dumps(asdict(…))` and `…(**json.loads(value))`; `none` is an exception.
pub record Codec : Type 0 where
  pub dump_login : LoginTransaction → String
  pub load_login : String → Option LoginTransaction
  pub dump_session : BrowserSession → String
  pub load_session : String → Option BrowserSession

abbrev pub login_key : String → String
login_key state = "bff:login:" ++ state

abbrev pub session_key : String → String
session_key id = "bff:session:" ++ id

abbrev loaded : {A : Type 0} → Option A → Result (Option A)
loaded none = err unhandled
loaded (some a) = ok (some a)

-- `load(value) if value else None`
unfoldable pub load_value : {A : Type 0} → (String → Option A) → Option String → Result (Option A)
load_value load none = ok none
load_value load (some value) = if is_empty value then ok none else loaded (load value)

unfoldable pub redis_store : {R : Type 0} → Redis R → Codec → (session_ttl : ℕ) → SessionStore R
unfolding load_value
redis_store redis codec session_ttl = record {
  create_login = λ state login s. redis.set (login_key state) (codec.dump_login login) 300 true s;
  consume_login = λ state s.
      let (value, s') = redis.getdel (login_key state) s in (load_value codec.load_login value, s');
  get_session = λ id s. load_value codec.load_session (redis.get (session_key id) s);
  save_session = λ session s.
      redis.set (session_key session.session_id) (codec.dump_session session) session_ttl false s;
  delete_session = λ id s. redis.delete (session_key id) s;
}
