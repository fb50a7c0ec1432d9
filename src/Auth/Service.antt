-- ===== src/Auth/Service.antt =====
-- `BffService`
pub mod Logins
use Prim.Native.String.{◌++◌}
use ai_auto_platform.Prelude.{
  ℕ, ◌+◌, Bool, not, Option, none, some, List, [], ◌∷◌, String, str_eq, ltb, if◌then◌else◌,
  is_empty, rstrip_char,
}
use mathlib.Core.List.{◌++◌ as append}
use ai_auto_platform.Errors.{
  Result, ok, err, unhandled, throw, throw_if, or_throw, invalid_login_state, invalid_login_nonce,
  identity_provider_unavailable, identity_provider_error, authentication_required,
}
use ai_auto_platform.Auth.Sessions.{LoginTransaction, IdentityClaims, BrowserSession, SessionStore}
use ai_auto_platform.Auth.Run.{
  Outside, Run, pure, from, ask, look, catch_domain, store_by, ◌>>=◌, ◌>>◌,
}

-- The settings that the service reads.
pub record BffSettings : Type 0 where
  pub bff_client_id : String
  pub bff_client_secret : String
  pub bff_callback_url : String
  pub keycloak_issuer : String
  pub keycloak_internal_issuer : Option String

-- The JSON value that the token endpoint answers with. An `expires_in` that is no number is
-- `some none`. A value that is no object is one without keys: the callers look `access_token` up
-- first, which is a `TypeError` then, and do the same on it as on a `KeyError`.
pub record Tokens : Type 0 where
  pub access_token : Option String
  pub refresh_token : Option String
  pub id_token : Option String
  pub expires_in : Option (Option ℕ)

abbrev pub Form : Type 0
Form = List (String × String)

-- `httpx`, the two verifiers of tokens, `json`, `jwt`, `hashlib` and `urlencode`.
pub record Provider (P : Type 0) : Type 0 where
  -- `client.post(url, data=payload)` with `raise_for_status`; `none` is an `HTTPError`.
  pub post : (url : String) → Form → P → Option String × P
  -- `response.json()`; `none` is a `ValueError`.
  pub json : String → Option Tokens
  -- What `OidcTokenVerifier.verify` does with a token, for the access token and for the id token;
  -- `none` is an exception of any kind, which it turns into `AUTHENTICATION_REQUIRED`.
  pub verify : String → P → Option IdentityClaims × P
  pub verify_id_token : String → P → Option IdentityClaims × P
  -- `str(id_claims.get("nonce", ""))` of the token, decoded without its signature.
  pub nonce_of : String → String
  -- `base64.urlsafe_b64encode(hashlib.sha256(verifier.encode()).digest()).decode()`
  pub sha256_base64 : String → String
  pub urlencode : Form → String

-- The tokens and times that a call makes: `token_urlsafe` and `int(time.time())`.
pub record Fresh : Type 0 where
  pub session_id : String
  pub csrf_token : String
  pub now : ℕ

abbrev pub present : Option String → String → String
present none other = other
present (some s) other = if is_empty s then other else s

-- `settings.keycloak_internal_issuer or settings.keycloak_issuer`
abbrev pub endpoint : BffSettings → String → String
endpoint cfg name =
    present cfg.keycloak_internal_issuer cfg.keycloak_issuer
    ++ ("/protocol/openid-connect/" ++ name)

-- The request for the tokens of a code.
abbrev pub code_form : BffSettings → String → LoginTransaction → Form
code_form cfg code login =
    ("grant_type", "authorization_code")
    ∷ ("code", code)
    ∷ ("redirect_uri", cfg.bff_callback_url)
    ∷ ("code_verifier", login.code_verifier)
    ∷ []

-- `tokens[key]`: a key that is missing is a `KeyError`.
abbrev pub item : Option String → Result String
item none = err unhandled
item (some s) = ok s

abbrev pub item_or : Option String → String → String
item_or none other = other
item_or (some s) other = s

-- `int(tokens.get("expires_in", 300))`
abbrev pub lifetime : Option (Option ℕ) → Result ℕ
lifetime none = ok 300
lifetime (some none) = err unhandled
lifetime (some (some n)) = ok n

-- The session that `create_session` of both stores makes; it is then saved.
unfoldable pub new_session :
    Fresh
    → (access_token refresh_token id_token : String) → (expires_in : ℕ) → IdentityClaims
    → BrowserSession
new_session fresh access_token refresh_token id_token expires_in identity = record {
  session_id = fresh.session_id;
  csrf_token = fresh.csrf_token;
  access_token = access_token;
  refresh_token = refresh_token;
  id_token = id_token;
  expires_at = fresh.now + expires_in;
  identity = identity;
}

module _ {P S : Type 0} (cfg : BffSettings) (provider : Provider P) (store : SessionStore S) where
  -- `_post`
  unfoldable pub post_form : String → Form → Run P S String
  post_form url form = do
    answer ← ask λ p.
        let (answer, p') =
          provider.post url
            (append form
              (("client_id", cfg.bff_client_id) ∷ ("client_secret", cfg.bff_client_secret) ∷ []))
            p in
        (ok answer, p')
    from (or_throw answer identity_provider_unavailable 502)

  -- `_token_request`
  unfoldable pub token_request : Form → Run P S Tokens
  unfolding post_form
  token_request form = do
    body ← post_form (endpoint cfg "token") form
    from (or_throw (provider.json body) identity_provider_error 502)

  -- `_oidc_url`, for `authorization_url` and `registration_url`
  unfoldable pub oidc_url : (verifier nonce state : String) → String → String → Run P S String
  unfolding rstrip_char
  oidc_url verifier nonce state return_to name = do
    let challenge = rstrip_char b'=' (provider.sha256_base64 verifier)
    store_by (
        store.create_login state
          (record { return_to = return_to; code_verifier = verifier; nonce = nonce }))
    pure (
        cfg.keycloak_issuer
        ++ ("/protocol/openid-connect/"
            ++ (name
                ++ ("?"
                    ++ provider.urlencode (
                        ("client_id", cfg.bff_client_id)
                        ∷ ("response_type", "code")
                        ∷ ("scope", "openid profile email")
                        ∷ ("redirect_uri", cfg.bff_callback_url)
                        ∷ ("state", state)
                        ∷ ("nonce", nonce)
                        ∷ ("code_challenge", challenge)
                        ∷ ("code_challenge_method", "S256")
                        ∷ [])))))

  -- `await verifier.verify(token)`
  abbrev pub verified_by : (P → Option IdentityClaims × P) → Run P S IdentityClaims
  verified_by f = do
    claims ← ask (λ p. let (answer, p') = f p in (ok answer, p'))
    from (or_throw claims authentication_required 401)

  -- The tokens of a login, checked, and its session.
  unfoldable pub login_session :
      Fresh → String → LoginTransaction → Run P S (BrowserSession × String)
  unfolding token_request new_session
  login_session fresh code login = do
    tokens ← token_request (code_form cfg code login)
    access_token ← from (item tokens.access_token)
    identity ← verified_by (provider.verify access_token)
    id_token ← from (item tokens.id_token)
    verified_by (provider.verify_id_token id_token)
    from (throw_if (not (str_eq (provider.nonce_of id_token) login.nonce)) invalid_login_nonce 401)
    refresh_token ← from (item tokens.refresh_token)
    expires_in ← from (lifetime tokens.expires_in)
    let session = new_session fresh access_token refresh_token id_token expires_in identity
    store_by (store.save_session session)
    pure (session, login.return_to)

  abbrev pub with_login_found :
      Fresh → String → Option LoginTransaction → Run P S (BrowserSession × String)
  with_login_found fresh code none = from (throw invalid_login_state 400)
  with_login_found fresh code (some login) = login_session fresh code login

  unfoldable pub complete_login : Fresh → (code state : String) → Run P S (BrowserSession × String)
  unfolding login_session
  complete_login fresh code state = do
    login ← look (store.consume_login state)
    with_login_found fresh code login

  abbrev pub verified : Tokens → Option String → Run P S (Option (Tokens × String × IdentityClaims))
  verified tokens none = pure none
  verified tokens (some access_token) = do
    identity ← verified_by (provider.verify access_token)
    pure (some (tokens, access_token, identity))

  -- The `try` of `get_session`; `none` stands for the `KeyError` or `TypeError` of
  -- `tokens["access_token"]`, which is caught too. Its calls raise nothing but `DomainError`
  -- besides: `_token_request` and `verify` turn what else they meet into one.
  unfoldable pub renew : String → Run P S (Option (Tokens × String × IdentityClaims))
  unfolding token_request
  renew refresh_token = do
    tokens ← token_request (("grant_type", "refresh_token") ∷ ("refresh_token", refresh_token) ∷ [])
    verified tokens tokens.access_token

  abbrev pub renewed :
      String
      → ℕ
      → BrowserSession
      → Option (Option (Tokens × String × IdentityClaims))
      → Run P S (Option BrowserSession)
  renewed session_id later session (some (some (tokens, access_token, identity))) = do
    expires_in ← from (lifetime tokens.expires_in)
    let refreshed : BrowserSession = record {
      session_id = session.session_id;
      csrf_token = session.csrf_token;
      access_token = access_token;
      refresh_token = item_or tokens.refresh_token session.refresh_token;
      id_token = item_or tokens.id_token session.id_token;
      expires_at = later + expires_in;
      identity = identity;
    }
    store_by (store.save_session refreshed)
    pure (some refreshed)
  renewed session_id later session _ = do store_by (store.delete_session session_id); pure none

  abbrev pub current : Fresh → String → ℕ → Option BrowserSession → Run P S (Option BrowserSession)
  current fresh session_id later none = pure none
  current fresh session_id later (some session) =
      if ltb (fresh.now + 60) session.expires_at then pure (some session) else do
        answer ← catch_domain (renew session.refresh_token)
        renewed session_id later session answer

  -- `later` is the time when the provider has answered.
  unfoldable pub get_session : Fresh → (later : ℕ) → String → Run P S (Option BrowserSession)
  unfolding renew
  get_session fresh later session_id = do
    session ← look λ s. (store.get_session session_id s, s)
    current fresh session_id later session

  abbrev pub leave : String → Option BrowserSession → Run P S (Unit {0})
  leave session_id none = pure tt
  leave session_id (some session) = do
    catch_domain (post_form (endpoint cfg "logout") (("refresh_token", session.refresh_token) ∷ []))
    store_by (store.delete_session session_id)

  unfoldable pub logout : String → Run P S (Unit {0})
  unfolding post_form
  logout session_id = do
    session ← look λ s. (store.get_session session_id s, s)
    leave session_id session
