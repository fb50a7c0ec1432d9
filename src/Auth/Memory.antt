-- ===== src/Auth/Memory.antt =====
-- `MemorySessionStore`: two dicts, whose order is never read.
use ai_auto_platform.Prelude.{
  ◌≡◌, refl, ap, ◌∙◌, sym, true, Option, none, some, inl, inr, List, [], ◌∷◌, String, str_eq,
  eq_iff, if◌then◌else◌, Bool-cases,
}
use ai_auto_platform.Errors.{ok}
use ai_auto_platform.Auth.Sessions.{
  LoginTransaction, BrowserSession, SessionStore, Contents, update, Refines,
}

module _ {A : Type 0} where
  -- `values.get(key)`
  unfoldable pub dict_get : String → List (String × A) → Option A
  dict_get k [] = none
  dict_get k ((j, a) ∷ d) = let rest = dict_get k d in if str_eq j k then some a else rest

  -- `values.pop(key, None)`, as to what is left
  unfoldable pub dict_pop : String → List (String × A) → List (String × A)
  dict_pop k [] = []
  dict_pop k ((j, a) ∷ d) = let rest = dict_pop k d in if str_eq j k then rest else (j, a) ∷ rest

  -- `values[key] = value`
  unfoldable pub dict_set : String → A → List (String × A) → List (String × A)
  unfolding dict_pop
  dict_set k a d = (k, a) ∷ dict_pop k d

pub record MemoryState : Type 0 where
  pub logins : List (String × LoginTransaction)
  pub sessions : List (String × BrowserSession)

unfoldable pub memory_store : SessionStore MemoryState
unfolding dict_get dict_pop dict_set
memory_store = record {
  create_login = λ state login s. record s { logins = dict_set state login s.logins };
  consume_login =
      λ state s. (ok (dict_get state s.logins), record s { logins = dict_pop state s.logins });
  get_session = λ id s. ok (dict_get id s.sessions);
  save_session =
      λ session s. record s { sessions = dict_set session.session_id session s.sessions };
  delete_session = λ id s. record s { sessions = dict_pop id s.sessions };
}

pub record HoldsInMemory (s : MemoryState) (m : Contents) : Type 0 where
  pub logins : (k : String) → dict_get k s.logins ≡ m.logins k
  pub sessions : (k : String) → dict_get k s.sessions ≡ m.sessions k

-- Equal texts, and texts that are not.
str_eq_trans : (i j k : String) → str_eq i j ≡ true → str_eq k j ≡ true → str_eq i k ≡ true
str_eq_trans i j k h e = (eq_iff i k).1 ((eq_iff i j).0 h ∙ sym ((eq_iff k j).0 e))

module _ {A : Type 0} where
  pub dict_get-dict_pop :
      (k j : String) (d : List (String × A))
      → dict_get j (dict_pop k d) ≡ (if str_eq k j then none else dict_get j d)
  unfolding dict_get dict_pop
  dict_get-dict_pop k j [] = elim (Bool-cases (str_eq k j)) [
    | inl e ↦ rw e refl
    | inr e ↦ rw e refl
  ]
  dict_get-dict_pop k j ((i, a) ∷ d) = elim (Bool-cases (str_eq i k)) [
    | inl e ↦
        let same : i ≡ k = (eq_iff i k).0 e in
        rw e (
          dict_get-dict_pop k j d
          ∙ rw same (elim (Bool-cases (str_eq k j)) [ inl t ↦ rw t refl | inr f ↦ rw f refl ]))
    | inr e ↦ rw e (elim (Bool-cases (str_eq i j)) [
      | inl t ↦ rw t (elim (Bool-cases (str_eq k j)) [
        | inl u ↦ let clash = str_eq_trans i j k t u in cc
        | inr u ↦ rw u refl
      ])
      | inr f ↦ rw f (dict_get-dict_pop k j d)
    ])
  ]

  pub dict_get-dict_set :
      (k j : String) (a : A) (d : List (String × A))
      → dict_get j (dict_set k a d) ≡ (if str_eq k j then some a else dict_get j d)
  unfolding dict_get dict_set
  dict_get-dict_set k j a d = elim (Bool-cases (str_eq k j)) [
    | inl t ↦ rw t refl
    | inr f ↦ rw f (dict_get-dict_pop k j d ∙ rw f refl)
  ]

  -- A dict that holds what a function says, holds it after an update.
  popped :
      (k : String) (d : List (String × A)) (f : String → Option A)
      → ((j : String) → dict_get j d ≡ f j)
      → (j : String) → dict_get j (dict_pop k d) ≡ update k none f j
  popped k d f h j = dict_get-dict_pop k j d ∙ ap (λ o. if str_eq k j then none else o) (h j)

  put :
      (k : String) (a : A) (d : List (String × A)) (f : String → Option A)
      → ((j : String) → dict_get j d ≡ f j)
      → (j : String) → dict_get j (dict_set k a d) ≡ update k (some a) f j
  put k a d f h j = dict_get-dict_set k j a d ∙ ap (λ o. if str_eq k j then some a else o) (h j)

-- The store in memory keeps the logins under their states and the sessions under their ids: each
-- of its operations does to its dicts what the contents say.
pub memory_store-Refines : Refines memory_store HoldsInMemory
unfolding memory_store
memory_store-Refines = record {
  create_login = λ s m state login new h. record {
    logins = put state login s.logins m.logins h.logins;
    sessions = h.sessions;
  };
  consume_login = λ s m state h. (
    ap ok (h.logins state),
    record { logins = popped state s.logins m.logins h.logins; sessions = h.sessions },
  );
  get_session = λ s m id h. ap ok (h.sessions id);
  save_session = λ s m session h. record {
    logins = h.logins;
    sessions = put session.session_id session s.sessions m.sessions h.sessions;
  };
  delete_session = λ s m id h. record {
    logins = h.logins;
    sessions = popped id s.sessions m.sessions h.sessions;
  };
}
