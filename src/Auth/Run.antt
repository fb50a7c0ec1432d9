-- ===== src/Auth/Run.antt =====
-- The service's calls as steps on the state outside of it: the identity provider and the store.
use ai_auto_platform.Prelude.{Option, none, some}
use ai_auto_platform.Errors.{domain_error, unhandled, Result, ok, err}

pub record Outside (P S : Type 0) : Type 0 where
  pub provider : P
  pub store : S

abbrev pub Run : Type 0 → Type 0 → Type 0 → Type 0
Run P S A = Outside P S → Result A × Outside P S

module _ {P S A : Type 0} where
  unfoldable pub pure : A → Run P S A
  pure a x = (ok a, x)

  unfoldable pub from : Result A → Run P S A
  from r x = (r, x)

  -- A call of the identity provider.
  unfoldable pub ask : (P → Result A × P) → Run P S A
  ask f x = let (r, p) = f x.provider in (r, record x { provider = p })

  -- A command of the store that answers.
  unfoldable pub look : (S → Result A × S) → Run P S A
  look f x = let (r, s) = f x.store in (r, record x { store = s })

  abbrev pub caught : Result A × Outside P S → Result (Option A) × Outside P S
  caught (ok a, x) = (ok (some a), x)
  caught (err (domain_error code status), x) = (ok none, x)
  caught (err unhandled, x) = (err unhandled, x)

  -- `try: … except DomainError`
  unfoldable pub catch_domain : Run P S A → Run P S (Option A)
  catch_domain m x = caught (m x)

module _ {P S : Type 0} where
  -- A command of the store that writes.
  unfoldable pub store_by : (S → S) → Run P S (Unit {0})
  store_by f x = (ok tt, record x { store = f x.store })

module _ {P S A B : Type 0} where
  abbrev pub then_do : Result A → (A → Run P S B) → Run P S B
  then_do (ok a) f x = f a x
  then_do (err e) f x = (err e, x)

  infixl 5 ◌>>=◌ ◌>>◌
  unfoldable pub ◌>>=◌ : Run P S A → (A → Run P S B) → Run P S B
  unfolding pure from ask look catch_domain store_by
  ◌>>=◌ m f x = let (r, x') = m x in then_do r f x'

  abbrev pub ◌>>◌ : Run P S A → Run P S B → Run P S B
  m >> k = m >>= λ _. k
