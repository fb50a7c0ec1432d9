-- ===== src/Auth/Sessions.antt =====
-- `SessionStore`: what the service keeps of logins and sessions. The operations pass the state of
-- the store on; a token that an operation makes (`secrets.token_urlsafe(32)`) is an argument.
use ai_auto_platform.Prelude.{ℕ, ◌≡◌, Option, none, some, String, str_eq, if◌then◌else◌}
use ai_auto_platform.Errors.{Result, ok}

pub record LoginTransaction : Type 0 where
  pub return_to : String
  pub code_verifier : String
  pub nonce : String

pub record IdentityClaims : Type 0 where
  pub issuer : String
  pub subject : String
  pub email : String
  pub display_name : String

pub record BrowserSession : Type 0 where
  pub session_id : String
  pub csrf_token : String
  pub access_token : String
  pub refresh_token : String
  pub id_token : String
  pub expires_at : ℕ
  pub identity : IdentityClaims

-- `create_session`, in both stores, makes a session (`new_session` of Auth/Service) and saves it with
-- `save_session`.
pub record SessionStore (S : Type 0) : Type 0 where
  pub create_login : (state : String) → LoginTransaction → S → S
  pub consume_login : (state : String) → S → Result (Option LoginTransaction) × S
  pub get_session : (session_id : String) → S → Result (Option BrowserSession)
  pub save_session : BrowserSession → S → S
  pub delete_session : (session_id : String) → S → S

-- What a store is about: the logins under their states and the sessions under their ids.
pub record Contents : Type 0 where
  pub logins : String → Option LoginTransaction
  pub sessions : String → Option BrowserSession

abbrev pub update {ℓ} : {A : Type ℓ} → String → Option A → (String → Option A) → String → Option A
update k value f j = if str_eq k j then value else f j

abbrev pub with_login : String → Option LoginTransaction → Contents → Contents
with_login state login m = record m { logins = update state login m.logins }

abbrev pub with_session : String → Option BrowserSession → Contents → Contents
with_session id session m = record m { sessions = update id session m.sessions }

-- A store does to its state what `Contents` says, under the relation `Holds` between the two.
pub record Refines {S : Type 0} (store : SessionStore S) (Holds : S → Contents → Type 0)
    : Type 0 where
  -- A new state is one that is not in use.
  pub create_login :
      (s : S) (m : Contents) (state : String) (login : LoginTransaction)
      → m.logins state ≡ none
      → Holds s m
      → Holds (store.create_login state login s) (with_login state (some login) m)
  pub consume_login :
      (s : S) (m : Contents) (state : String)
      → Holds s m
      → ((store.consume_login state s).0 ≡ ok (m.logins state))
        × Holds (store.consume_login state s).1 (with_login state none m)
  pub get_session :
      (s : S) (m : Contents) (id : String) → Holds s m → store.get_session id s ≡ ok (m.sessions id)
  pub save_session :
      (s : S) (m : Contents) (session : BrowserSession)
      → Holds s m
      → Holds (store.save_session session s) (with_session session.session_id (some session) m)
  pub delete_session :
      (s : S) (m : Contents) (id : String)
      → Holds s m
      → Holds (store.delete_session id s) (with_session id none m)
