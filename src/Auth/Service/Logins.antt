-- ===== src/Auth/Service/Logins.antt =====
-- A login and the end of a session, over any store that does what `SessionStore` is about:
-- `complete_login` and `logout` of auth/bff.py.
use ai_auto_platform.Prelude.{
  ℕ, ◌≡◌, refl, ap, ◌∙◌, Option, none, some, inl, inr, String, eq_refl, Option-cases, [], ◌∷◌,
}
use ai_auto_platform.Errors.{
  Result, ok, err, domain_error, invalid_login_state, or_throw, identity_provider_unavailable,
}
use mathlib.Core.List.{◌++◌ as append}
use ai_auto_platform.Auth.Sessions.{
  LoginTransaction, IdentityClaims, BrowserSession, SessionStore, Contents, update, with_login,
  with_session, Refines,
}
use ai_auto_platform.Auth.Run.{
  Outside, Run, pure, from, ask, look, catch_domain, caught, store_by, ◌>>=◌, then_do,
}
use ai_auto_platform.Auth.Service.{
  BffSettings, Provider, Fresh, Form, post_form, token_request, verified_by, login_session,
  complete_login, get_session, logout, code_form, with_login_found, endpoint,
}

-- A run leaves the store as some predicate has it, whether it returns or raises.
record Leaves {P S A : Type 0} (Q : S → Type 0) (m : Run P S A) : Type 0 where
  left : (x : Outside P S) → Q x.store → Q (m x).1.store

module _ {P S A : Type 0} {Q : S → Type 0} where
  Leaves-from : (r : Result A) → Leaves Q (from {P = P} r)
  unfolding from
  Leaves-from r = record { left = λ x q. q }

  Leaves-pure : (a : A) → Leaves Q (pure {P = P} a)
  unfolding pure
  Leaves-pure a = record { left = λ x q. q }

  Leaves-ask : (f : P → Result A × P) → Leaves Q (ask f)
  unfolding ask
  Leaves-ask f = record { left = λ x q. q }

module _ {P S A B : Type 0} {Q : S → Type 0} where
  then-Leaves :
      (r : Result A) (k : A → Run P S B) (x : Outside P S)
      → ((a : A) → Leaves Q (k a))
      → Q x.store
      → Q (then_do r k x).1.store
  then-Leaves (ok a) k x h q = (h a).left x q
  then-Leaves (err e) k x h q = q

  Leaves-bind :
      (m : Run P S A) (k : A → Run P S B)
      → Leaves Q m
      → ((a : A) → Leaves Q (k a))
      → Leaves Q (m >>= k)
  unfolding ◌>>=◌
  Leaves-bind m k h n = record { left = λ x q. then-Leaves (m x).0 k (m x).1 n (h.left x q) }

module _ {P S : Type 0} (cfg : BffSettings) (provider : Provider P) (store : SessionStore S)
    (Q : S → Type 0) where
  token_request-Leaves : (form : Form) → Leaves Q (token_request cfg provider store form)
  unfolding token_request post_form
  token_request-Leaves form =
      Leaves-bind _ _ (Leaves-bind _ _ (Leaves-ask _) (λ a. Leaves-from _)) (λ a. Leaves-from _)

  verified_by-Leaves :
      (f : P → Option IdentityClaims × P) → Leaves Q (verified_by cfg provider store f)
  verified_by-Leaves f = Leaves-bind _ _ (Leaves-ask _) (λ claims. Leaves-from _)

  login_session-Leaves :
      (fresh : Fresh) (code : String) (login : LoginTransaction)
      → ((session : BrowserSession) (s : S) → Q s → Q (store.save_session session s))
      → Leaves Q (login_session cfg provider store fresh code login)
  unfolding login_session store_by
  login_session-Leaves fresh code login saves =
      Leaves-bind _ _ (token_request-Leaves (code_form cfg code login)) λ tokens.
        Leaves-bind _ _ (Leaves-from _) λ access. Leaves-bind _ _ (verified_by-Leaves _) λ identity.
          Leaves-bind _ _ (Leaves-from _) λ id. Leaves-bind _ _ (verified_by-Leaves _) λ _.
            Leaves-bind _ _ (Leaves-from _) λ _. Leaves-bind _ _ (Leaves-from _) λ refresh.
              Leaves-bind _ _ (Leaves-from _) λ expires.
                Leaves-bind _ _ (record { left = λ x q. saves _ x.store q }) λ _. Leaves-pure _

  with_login_found-Leaves :
      (fresh : Fresh) (code : String) (login : Option LoginTransaction)
      → ((session : BrowserSession) (s : S) → Q s → Q (store.save_session session s))
      → Leaves Q (with_login_found cfg provider store fresh code login)
  with_login_found-Leaves fresh code none saves = Leaves-from _
  with_login_found-Leaves fresh code (some login) saves =
      login_session-Leaves fresh code login saves

caught-answers :
    {P S : Type 0} (o : Option String) (y : Outside P S)
    → ((p : Option String) × ((caught (or_throw o identity_provider_unavailable 502, y)).0 ≡ ok p))
      × ((caught (or_throw o identity_provider_unavailable 502, y)).1.store ≡ y.store)
caught-answers none y = ((none, refl), refl)
caught-answers (some s) y = ((some s, refl), refl)

-- The store holds contents without this login.
abbrev IsUsed : {S : Type 0} → (S → Contents → Type 0) → String → S → Type 0
IsUsed Holds state s = (m : Contents) × Holds s m × (m.logins state ≡ none)

module _ {P S : Type 0} (cfg : BffSettings) (provider : Provider P) (store : SessionStore S)
    (Holds : S → Contents → Type 0) (refines : Refines store Holds) where
  complete_login-IsUsed :
      (fresh : Fresh) (code state : String) (x : Outside P S) (m : Contents)
      → Holds x.store m
      → IsUsed Holds state (complete_login cfg provider store fresh code state x).1.store
  unfolding complete_login ◌>>=◌ look
  complete_login-IsUsed fresh code state x m h =
      let (_, taken) = refines.consume_login x.store m state h in
      let x' : Outside P S = record x { store = (store.consume_login state x.store).1 } in
      then-Leaves (store.consume_login state x.store).0 _ x'
        (λ login.
          with_login_found-Leaves cfg provider store (IsUsed Holds state) fresh code login
            λ session s (m', held, used). (
              with_session session.session_id (some session) m',
              refines.save_session s m' session held,
              used,
            ))
        (with_login state none m, taken, rw (eq_refl state) refl)

  -- A login's state is used once: whatever the first login with it has come to, the next one is
  -- refused with 400, for any store that does what `SessionStore` is about.
  pub complete_login-again :
      (first second : Fresh) (code other state : String) (x : Outside P S) (m : Contents)
      → Holds x.store m
      → (complete_login cfg provider store second other state
          (complete_login cfg provider store first code state x).1).0
        ≡ err (domain_error invalid_login_state 400)
  unfolding complete_login ◌>>=◌ look from
  complete_login-again first second code other state x m h =
      let x' = (complete_login cfg provider store first code state x).1 in
      let (m', held, used) = complete_login-IsUsed first code state x m h in
      let (found, _) = refines.consume_login x'.store m' state held in rw found (rw used refl)

  post_form-answers :
      (url : String) (form : Form) (x : Outside P S)
      → ((o : Option String) × ((catch_domain (post_form cfg provider store url form) x).0 ≡ ok o))
        × ((catch_domain (post_form cfg provider store url form) x).1.store ≡ x.store)
  unfolding post_form catch_domain ◌>>=◌ ask from
  post_form-answers url form x =
      let form' =
        append form
          (("client_id", cfg.bff_client_id) ∷ ("client_secret", cfg.bff_client_secret) ∷ []) in
      caught-answers (provider.post url form' x.provider).0
        (record x { provider = (provider.post url form' x.provider).1 })

  -- After a logout there is no session, whatever the identity provider has answered, for any store
  -- that does what `SessionStore` is about.
  pub logout-get_session :
      (fresh : Fresh) (later : ℕ) (id : String) (x : Outside P S) (m : Contents)
      → Holds x.store m
      → (get_session cfg provider store fresh later id (logout cfg provider store id x).1).0
        ≡ ok none
  unfolding get_session logout ◌>>=◌ look pure store_by
  logout-get_session fresh later id x m h = elim (Option-cases (m.sessions id)) [
    | inl gone ↦
        let found = refines.get_session x.store m id h ∙ ap ok gone in rw found (rw found refl)
    | inr (session, there) ↦
        let found = refines.get_session x.store m id h ∙ ap ok there in
        let form = ("refresh_token", session.refresh_token) ∷ [] in
        let ((o, answered), same) = post_form-answers (endpoint cfg "logout") form x in
        let removed : update id none m.sessions id ≡ none = rw (eq_refl id) refl in
        let gone =
          refines.get_session (store.delete_session id x.store) (with_session id none m) id
            (refines.delete_session x.store m id h)
          ∙ ap ok removed in
        rw found (rw answered (rw same (rw gone refl)))
  ]
