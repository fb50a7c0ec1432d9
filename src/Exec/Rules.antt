-- ===== src/Exec/Rules.antt =====
-- A predicate on databases through a run: one rule for each way in which an action goes on.
use ai_auto_platform.Prelude.{ℕ, ◌≡◌, refl, Bool, true, false, inl, inr, if◌then◌else◌}
use ai_auto_platform.Errors.{ErrorCode, Result, ok, err, Result-cases}
use ai_auto_platform.Db.Models.{Db}
use ai_auto_platform.Exec.{
  World, Action, pure, raise, check, call, write, commit, others_run, ◌>>=◌, serve, finish, then_do,
}

abbrev Holds : {R A : Type 0} → (Db → Type 0) → Result A → World R → Type 0
Holds D (ok a) w = D w.durable × D w.pending
Holds D (err e) w = D w.durable

-- `D` holds at a run's end of what is durable, and if the run has returned, also of what is
-- pending, which is then committed.
pub record Keeps {R A : Type 0} (D : Db → Type 0) (end : Result A × World R) : Type 0 where
  pub at : Holds D end.0 end.1

module _ {R A : Type 0} {D : Db → Type 0} (w : World R) (h : D w.durable) where
  pub Keeps-pure : (a : A) → D w.pending → Keeps D (pure a w)
  unfolding pure
  Keeps-pure a p = record { at = (h, p) }

  pub Keeps-raise : (code : ErrorCode) (status : ℕ) → Keeps D (raise {A = A} code status w)
  unfolding raise
  Keeps-raise code status = record { at = h }

module _ {R A B : Type 0} {D : Db → Type 0} where
  pub Keeps-check :
      (f : Db → Result A) (k : A → Action R B) (w : World R)
      → D w.durable
      → ((a : A) → f w.pending ≡ ok a → Keeps D (k a w))
      → Keeps D ((check f >>= k) w)
  unfolding ◌>>=◌
  Keeps-check f k w h next = elim (Result-cases (f w.pending)) [
    | inl (a, e) ↦ rw e (next a e)
    | inr (x, e) ↦ rw e (record { at = h })
  ]

  pub Keeps-call :
      (f : R → A × R) (k : A → Action R B) (w : World R)
      → ((a : A) (r : R) → Keeps D (k a (record w { remote = r })))
      → Keeps D ((call f >>= k) w)
  unfolding ◌>>=◌
  Keeps-call f k w next = let (a, r) = f w.remote in next a r

module _ {R B : Type 0} {D : Db → Type 0} where
  pub Keeps-write :
      (f : Db → Db) (k : Unit {0} → Action R B) (w : World R)
      → Keeps D (k tt (record w { pending = f w.pending }))
      → Keeps D ((write f >>= k) w)
  unfolding ◌>>=◌
  Keeps-write f k w next = next

  pub Keeps-commit :
      (k : Unit {0} → Action R B) (w : World R)
      → Keeps D (k tt (record w { durable = w.pending }))
      → Keeps D ((commit >>= k) w)
  unfolding ◌>>=◌
  Keeps-commit k w next = next

  pub Keeps-others_run :
      (f : Db → Db) (k : Unit {0} → Action R B) (w : World R)
      → Keeps D (k tt (record w { durable = f w.durable; pending = f w.durable }))
      → Keeps D ((others_run f >>= k) w)
  unfolding ◌>>=◌
  Keeps-others_run f k w next = next

  pub Keeps-if :
      (b : Bool) (m n : Action R B) (w : World R)
      → (b ≡ true → Keeps D (m w))
      → (b ≡ false → Keeps D (n w))
      → Keeps D ((if b then m else n) w)
  Keeps-if true m n w yes_case no_case = yes_case refl
  Keeps-if false m n w yes_case no_case = no_case refl

-- Actions in front of others.
module _ {R A B C : Type 0} {D : Db → Type 0} where
  assoc_result :
      (f : A → Action R B) (k : B → Action R C) (r : Result A) (w : World R)
      → Keeps D (then_do r (λ a. f a >>= k) w)
      → Keeps D (let (s, v) = then_do r f w in then_do s k v)
  unfolding ◌>>=◌
  assoc_result f k (ok a) w h = h
  assoc_result f k (err e) w h = h

  pub Keeps-assoc :
      (m : Action R A) (f : A → Action R B) (k : B → Action R C) (w : World R)
      → Keeps D ((m >>= λ a. f a >>= k) w)
      → Keeps D ((m >>= f >>= k) w)
  unfolding ◌>>=◌
  Keeps-assoc m f k w h = assoc_result f k (m w).0 (m w).1 h

module _ {R A B : Type 0} {D : Db → Type 0} where
  pub Keeps-pure_bind :
      (a : A) (k : A → Action R B) (w : World R) → Keeps D (k a w) → Keeps D ((pure a >>= k) w)
  unfolding ◌>>=◌
  Keeps-pure_bind a k w h = h

  pub Keeps-if_bind :
      (b : Bool) (m n : Action R A) (k : A → Action R B) (w : World R)
      → (b ≡ true → Keeps D ((m >>= k) w))
      → (b ≡ false → Keeps D ((n >>= k) w))
      → Keeps D (((if b then m else n) >>= k) w)
  Keeps-if_bind true m n k w yes_case no_case = yes_case refl
  Keeps-if_bind false m n k w yes_case no_case = no_case refl

module _ {R A : Type 0} {D : Db → Type 0} where
  pub Keeps-check_last :
      (f : Db → Result A) (w : World R) → D w.durable → D w.pending → Keeps D (check f w)
  unfolding check
  Keeps-check_last f w h p = elim (Result-cases (f w.pending)) [
    | inl (a, e) ↦ rw e (record { at = (h, p) })
    | inr (x, e) ↦ rw e (record { at = h })
  ]

module _ {R A : Type 0} where
  finish-keeps :
      (D : Db → Type 0) (r : Result A) (w : World R) → Holds D r w → D (finish (r, w)).1.durable
  finish-keeps D (ok a) w k = k.1
  finish-keeps D (err e) w k = k

  -- What an action keeps, its request keeps durably.
  pub serve-keeps :
      (D : Db → Type 0) (m : Action R A) (w : World R)
      → ((v : World R) → D v.durable → D v.pending → Keeps D (m v))
      → D w.durable
      → D (serve m w).1.durable
  unfolding serve
  serve-keeps D m w step h =
      let v : World R = record w { pending = w.durable } in
      finish-keeps D (m v).0 (m v).1 (step v h h).at
