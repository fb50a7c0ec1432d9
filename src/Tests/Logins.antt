-- ===== src/Tests/Logins.antt =====
-- Logins over the store in memory, and a Redis that is a dict.
use ai_auto_platform.Prelude.{
  ℕ, ◌≡◌, refl, Bool, none, some, List, [], ◌∷◌, String, if◌then◌else◌, is_some,
}
use ai_auto_platform.Errors.{ok, err, domain_error, invalid_login_state}
use ai_auto_platform.Auth.Sessions.{
  LoginTransaction, IdentityClaims, BrowserSession, Contents, Refines,
}
use ai_auto_platform.Auth.Memory.{
  dict_get, dict_pop, dict_set, MemoryState, memory_store, HoldsInMemory, dict_get-dict_set,
  dict_get-dict_pop, memory_store-Refines,
}
use ai_auto_platform.Auth.Redis.{Redis, redis_store}
use ai_auto_platform.Auth.Redis.Refinement.{IsRedis, HoldsInRedis, redis_store-Refines}
use ai_auto_platform.Tests.Codecs.{codec, codec-IsCodec}
use ai_auto_platform.Auth.Run.{Outside}
use ai_auto_platform.Auth.Service.{
  BffSettings, Provider, Fresh, complete_login, get_session, logout,
}
use ai_auto_platform.Auth.Service.Logins.{complete_login-again, logout-get_session}

abbrev Dict : Type 0
Dict = List (String × String)

abbrev set_dict : String → String → Bool → Dict → Dict
set_dict k v nx d =
    if nx then (if is_some (dict_get k d) then d else dict_set k v d) else dict_set k v d

abbrev dict_redis : Redis Dict
dict_redis = record {
  set = λ k v ex nx d. set_dict k v nx d;
  get = dict_get;
  getdel = λ k d. (dict_get k d, dict_pop k d);
  delete = dict_pop;
}

dict_redis-IsRedis : IsRedis dict_redis
dict_redis-IsRedis = record {
  set = λ k v j ex d. dict_get-dict_set k j v d;
  set_new = λ k v j ex d new. rw new (dict_get-dict_set k j v d);
  getdel_value = λ k d. refl;
  getdel = λ k j d. dict_get-dict_pop k j d;
  delete = λ k j d. dict_get-dict_pop k j d;
}

abbrev identity : IdentityClaims
identity = record {
  issuer = "issuer";
  subject = "subject";
  email = "owner@company";
  display_name = "Owner";
}

abbrev session : BrowserSession
session = record {
  session_id = "id";
  csrf_token = "csrf";
  access_token = "access";
  refresh_token = "refresh";
  id_token = "token";
  expires_at = 500;
  identity = identity;
}

abbrev login : LoginTransaction
login = record { return_to = "/"; code_verifier = "verifier"; nonce = "nonce" }

abbrev filled : MemoryState
filled = record { logins = ("state", login) ∷ []; sessions = ("id", session) ∷ [] }

abbrev contents : Contents
contents = record {
  logins = λ k. dict_get k filled.logins;
  sessions = λ k. dict_get k filled.sessions;
}

filled-HoldsInMemory : HoldsInMemory filled contents
filled-HoldsInMemory = record { logins = λ k. refl; sessions = λ k. refl }

abbrev settings : BffSettings
settings = record {
  bff_client_id = "client";
  bff_client_secret = "secret";
  bff_callback_url = "callback";
  keycloak_issuer = "issuer";
  keycloak_internal_issuer = none;
}

-- It answers every request.
abbrev provider : Provider ℕ
provider = record {
  post = λ url form n. (some "body", n);
  json = λ body. some (record {
    access_token = some "access";
    refresh_token = some "refresh";
    id_token = some "token";
    expires_in = none;
  });
  verify = λ token n. (some identity, n);
  verify_id_token = λ token n. (some identity, n);
  nonce_of = λ token. "nonce";
  sha256_base64 = λ verifier. "digest";
  urlencode = λ form. "query";
}

abbrev fresh : Fresh
fresh = record { session_id = "new"; csrf_token = "csrf"; now = 100 }

abbrev outside : Outside ℕ MemoryState
outside = record { provider = 0; store = filled }

complete_login-again_example :
    (complete_login settings provider memory_store fresh "code" "state"
      (complete_login settings provider memory_store fresh "code" "state" outside).1).0
    ≡ err (domain_error invalid_login_state 400)
complete_login-again_example =
    complete_login-again settings provider memory_store HoldsInMemory memory_store-Refines fresh
      fresh "code" "code" "state" outside contents filled-HoldsInMemory

logout-get_session_example :
    (get_session settings provider memory_store fresh 100 "id"
      (logout settings provider memory_store "id" outside).1).0
    ≡ ok none
logout-get_session_example =
    logout-get_session settings provider memory_store HoldsInMemory memory_store-Refines fresh 100
      "id" outside contents filled-HoldsInMemory

redis_store-Refines_example :
    Refines (redis_store dict_redis codec 3600) (HoldsInRedis dict_redis codec)
redis_store-Refines_example =
    redis_store-Refines dict_redis codec 3600 dict_redis-IsRedis codec-IsCodec
