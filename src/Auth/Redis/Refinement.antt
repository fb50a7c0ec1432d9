-- ===== src/Auth/Redis/Refinement.antt =====
-- The store in Redis does what `SessionStore` is about: `RedisSessionStore` of auth/bff.py.
use Prim.Native.String.{◌∷◌, ◌++◌}
use Prim.Native.Char.{code}
use Prim.Native.String.append
use text.Mathlib.TextLemmas.{append_cancel_left}
use ai_auto_platform.Prelude.{
  ℕ, ◌==◌, ◌≡◌, refl, ap, ◌∙◌, sym, true, false, Bool, Option, none, some, inl, inr, String, str_eq,
  eq_iff, Bool-cases, is_empty,
}
use ai_auto_platform.Errors.{ok}
use ai_auto_platform.Auth.Sessions.{LoginTransaction, BrowserSession, Contents, update, Refines}
use ai_auto_platform.Auth.Redis.{Redis, Codec, login_key, session_key, load_value, redis_store}

-- The commands, as Redis documents them, on keys that have not expired: `nx` sets only a key that
-- is not there, and each command leaves the other keys alone.
pub record IsRedis {R : Type 0} (redis : Redis R) : Type 0 where
  pub set :
      (k v j : String) (ex : ℕ) (r : R)
      → redis.get j (redis.set k v ex false r) ≡ update k (some v) (λ i. redis.get i r) j
  pub set_new :
      (k v j : String) (ex : ℕ) (r : R)
      → redis.get k r ≡ none
      → redis.get j (redis.set k v ex true r) ≡ update k (some v) (λ i. redis.get i r) j
  pub getdel_value : (k : String) (r : R) → (redis.getdel k r).0 ≡ redis.get k r
  pub getdel :
      (k j : String) (r : R)
      → redis.get j (redis.getdel k r).1 ≡ update k none (λ i. redis.get i r) j
  pub delete :
      (k j : String) (r : R) → redis.get j (redis.delete k r) ≡ update k none (λ i. redis.get i r) j

-- JSON texts are not empty, and are read back as what was written.
pub record IsCodec (codec : Codec) : Type 0 where
  pub login : (l : LoginTransaction) → codec.load_login (codec.dump_login l) ≡ some l
  pub session : (s : BrowserSession) → codec.load_session (codec.dump_session s) ≡ some s
  pub login_text : (l : LoginTransaction) → is_empty (codec.dump_login l) ≡ false
  pub session_text : (s : BrowserSession) → is_empty (codec.dump_session s) ≡ false

abbrev map_option : {A B : Type 0} → (A → B) → Option A → Option B
map_option f none = none
map_option f (some a) = some (f a)

pub record HoldsInRedis {R : Type 0} (redis : Redis R) (codec : Codec) (r : R) (m : Contents)
    : Type 0 where
  pub logins : (k : String) → redis.get (login_key k) r ≡ map_option codec.dump_login (m.logins k)
  pub sessions :
      (k : String) → redis.get (session_key k) r ≡ map_option codec.dump_session (m.sessions k)

str_eq-append : (p k j : String) → str_eq (p ++ k) (p ++ j) ≡ str_eq k j
str_eq-append p k j = elim (Bool-cases (str_eq k j)) [
  | inl e ↦
      let same = (eq_iff k j).0 e in (eq_iff (p ++ k) (p ++ j)).1 (ap (λ t. p ++ t) same) ∙ sym e
  | inr e ↦ elim (Bool-cases (str_eq (p ++ k) (p ++ j))) [
    | inl t ↦
        let same = append_cancel_left p k j ((eq_iff (p ++ k) (p ++ j)).0 t) in
        let clash = (eq_iff k j).1 same in cc
    | inr f ↦ f ∙ sym e
  ]
]

-- The fifth character of a key tells a login from a session.
is_login_key : String → Bool
is_login_key (a ∷ (b ∷ (c ∷ (d ∷ (e ∷ s))))) = code e == b'l'
is_login_key s = false

login_key-is_login_key : (k : String) → is_login_key (login_key k) ≡ true
unfolding is_login_key
login_key-is_login_key k = ap is_login_key (
    append.cons "b" "ff:login:" k
    ∙ ap (λ t. "b" ∷ t)
        (append.cons "f" "f:login:" k
          ∙ ap (λ t. "f" ∷ t)
              (append.cons "f" ":login:" k
                ∙ ap (λ t. "f" ∷ t)
                    (append.cons ":" "login:" k ∙ ap (λ t. ":" ∷ t) (append.cons "l" "ogin:" k)))))

session_key-is_login_key : (k : String) → is_login_key (session_key k) ≡ false
unfolding is_login_key
session_key-is_login_key k = ap is_login_key (
    append.cons "b" "ff:session:" k
    ∙ ap (λ t. "b" ∷ t)
        (append.cons "f" "f:session:" k
          ∙ ap (λ t. "f" ∷ t)
              (append.cons "f" ":session:" k
                ∙ ap (λ t. "f" ∷ t)
                    (append.cons ":" "session:" k
                      ∙ ap (λ t. ":" ∷ t) (append.cons "s" "ession:" k)))))

keys_apart : (k j : String) → str_eq (login_key k) (session_key j) ≡ false
keys_apart k j = elim (Bool-cases (str_eq (login_key k) (session_key j))) [
  | inr f ↦ f
  | inl t ↦
      let same = ap is_login_key ((eq_iff (login_key k) (session_key j)).0 t) in
      let clash = sym (login_key-is_login_key k) ∙ same ∙ session_key-is_login_key j in cc
]

keys_apart_sym : (k j : String) → str_eq (session_key k) (login_key j) ≡ false
keys_apart_sym k j = elim (Bool-cases (str_eq (session_key k) (login_key j))) [
  | inr f ↦ f
  | inl t ↦
      let same = ap is_login_key ((eq_iff (session_key k) (login_key j)).0 t) in
      let clash = sym (session_key-is_login_key k) ∙ same ∙ login_key-is_login_key j in cc
]

module _ {A : Type 0} (dump : A → String) (get : String → Option String)
    (f : String → Option A) where
  -- An update of the text under a key is an update of the value under its name.
  updated :
      (p k j : String) (o : Option A)
      → get (p ++ j) ≡ map_option dump (f j)
      → update (p ++ k) (map_option dump o) get (p ++ j) ≡ map_option dump (update k o f j)
  updated p k j o h =
      rw (str_eq-append p k j)
        (elim (Bool-cases (str_eq k j)) [ inl t ↦ rw t refl | inr n ↦ rw n h ])

  untouched :
      (k j : String) (o : Option String) (a : Option A)
      → str_eq k j ≡ false
      → get j ≡ map_option dump a
      → update k o get j ≡ map_option dump a
  untouched k j o a n h = rw n h

load_dumped :
    {A : Type 0} (dump : A → String) (load : String → Option A)
    → ((a : A) → load (dump a) ≡ some a)
    → ((a : A) → is_empty (dump a) ≡ false)
    → (o : Option A) → load_value load (map_option dump o) ≡ ok o
unfolding load_value
load_dumped dump load reads written none = refl
load_dumped dump load reads written (some a) = rw (written a) (rw (reads a) refl)

-- The store in Redis keeps the logins under their states and the sessions under their ids, as texts
-- that it reads back: each of its operations does to the keys what the contents say, as long as no
-- key expires, if the commands do what Redis documents and JSON reads back what it has written.
pub redis_store-Refines :
    {R : Type 0} (redis : Redis R) (codec : Codec) (session_ttl : ℕ)
    → IsRedis redis
    → IsCodec codec
    → Refines (redis_store redis codec session_ttl) (HoldsInRedis redis codec)
unfolding redis_store
redis_store-Refines redis codec session_ttl is_redis is_codec = record {
  create_login = λ s m state login new h. record {
    logins = λ k.
        is_redis.set_new (login_key state) (codec.dump_login login) (login_key k) 300 s
          (h.logins state ∙ ap (map_option codec.dump_login) new)
        ∙ updated codec.dump_login (λ i. redis.get i s) m.logins "bff:login:" state k (some login)
            (h.logins k);
    sessions = λ k.
        is_redis.set_new (login_key state) (codec.dump_login login) (session_key k) 300 s
          (h.logins state ∙ ap (map_option codec.dump_login) new)
        ∙ untouched codec.dump_session (λ i. redis.get i s) m.sessions (login_key state)
            (session_key k) (some (codec.dump_login login)) (m.sessions k) (keys_apart state k)
            (h.sessions k);
  };
  consume_login = λ s m state h. (
    ap (load_value codec.load_login) (is_redis.getdel_value (login_key state) s ∙ h.logins state)
        ∙ load_dumped codec.dump_login codec.load_login is_codec.login is_codec.login_text
            (m.logins state),
    record {
      logins = λ k.
          is_redis.getdel (login_key state) (login_key k) s
          ∙ updated codec.dump_login (λ i. redis.get i s) m.logins "bff:login:" state k none
              (h.logins k);
      sessions = λ k.
          is_redis.getdel (login_key state) (session_key k) s
          ∙ untouched codec.dump_session (λ i. redis.get i s) m.sessions (login_key state)
              (session_key k) none (m.sessions k) (keys_apart state k) (h.sessions k);
    },
  );
  get_session = λ s m id h.
      ap (load_value codec.load_session) (h.sessions id)
      ∙ load_dumped codec.dump_session codec.load_session is_codec.session is_codec.session_text
          (m.sessions id);
  save_session = λ s m session h. record {
    logins = λ k.
        is_redis.set (session_key session.session_id) (codec.dump_session session) (login_key k)
          session_ttl s
        ∙ untouched codec.dump_login (λ i. redis.get i s) m.logins (session_key session.session_id)
            (login_key k) (some (codec.dump_session session)) (m.logins k)
            (keys_apart_sym session.session_id k) (h.logins k);
    sessions = λ k.
        is_redis.set (session_key session.session_id) (codec.dump_session session) (session_key k)
          session_ttl s
        ∙ updated codec.dump_session (λ i. redis.get i s) m.sessions "bff:session:"
            session.session_id k (some session) (h.sessions k);
  };
  delete_session = λ s m id h. record {
    logins = λ k.
        is_redis.delete (session_key id) (login_key k) s
        ∙ untouched codec.dump_login (λ i. redis.get i s) m.logins (session_key id) (login_key k)
            none (m.logins k) (keys_apart_sym id k) (h.logins k);
    sessions = λ k.
        is_redis.delete (session_key id) (session_key k) s
        ∙ updated codec.dump_session (λ i. redis.get i s) m.sessions "bff:session:" id k none
            (h.sessions k);
  };
}
