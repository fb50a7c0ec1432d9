-- ===== src/Prelude/Tables.antt =====
-- Tables of rows: a query by a test on the row, the write of one row, and sums over the rows that
-- pass a test. `find_by` is `session.scalar(select(…).where(…))`, `select` is `session.scalars`.
use Prim.Native.Nat.{ℕ, suc, ◌+◌}
use mathlib.Core.Path.{◌≡◌, refl, subst}
use mathlib.Core.Logic.{inl, inr}
use mathlib.Core.Bool.{Bool, true, false}
use mathlib.Core.Option.{Option, none, some}
use mathlib.Core.List.{List, [], ◌∷◌, ◌++◌}
use native.Mathlib.Omega.{arith}
use ai_auto_platform.Prelude.Tests.{if◌then◌else◌, when, Bool-cases}

module _ {ℓ} {A : Type ℓ} where
  abbrev pub length : List A → ℕ
  length [] = 0
  length (x ∷ xs) = suc (length xs)

  abbrev pub find_by : (A → Bool) → List A → Option A
  find_by p [] = none
  find_by p (x ∷ xs) = if p x then some x else find_by p xs

  -- The row that `find_by` finds is written over.
  abbrev pub replace_by : (A → Bool) → A → List A → List A
  replace_by p y [] = []
  replace_by p y (x ∷ xs) = if p x then y ∷ xs else x ∷ replace_by p y xs

  -- The row that `find_by` finds is deleted.
  abbrev pub delete_by : (A → Bool) → List A → List A
  delete_by p [] = []
  delete_by p (x ∷ xs) = if p x then xs else x ∷ delete_by p xs

  abbrev pub select : (A → Bool) → List A → List A
  select p [] = []
  select p (x ∷ xs) = let rest = select p xs in if p x then x ∷ rest else rest

  abbrev pub exists_by : (A → Bool) → List A → Bool
  exists_by p [] = false
  exists_by p (x ∷ xs) = if p x then true else exists_by p xs

  abbrev pub sum_by : (A → Bool) → (A → ℕ) → List A → ℕ
  sum_by p f [] = 0
  sum_by p f (x ∷ xs) = when (p x) (f x) + sum_by p f xs

  abbrev pub count_by : (A → Bool) → List A → ℕ
  count_by p = sum_by p (λ _. 1)

  abbrev pub All {κ} : (A → Type κ) → List A → Type κ
  All P [] = Unit
  All P (x ∷ xs) = P x × All P xs

module _ {ℓ} {A : Type ℓ} where
  pub find_by-holds : (p : A → Bool) (xs : List A) (x : A) → find_by p xs ≡ some x → p x ≡ true
  find_by-holds p [] x h = cc
  find_by-holds p (y ∷ xs) x h = ground (arith, find_by-holds p xs x)

  pub sum_by-append :
      (p : A → Bool) (f : A → ℕ) (xs ys : List A)
      → sum_by p f (xs ++ ys) ≡ sum_by p f xs + sum_by p f ys
  sum_by-append p f [] ys = omega arith
  sum_by-append p f (x ∷ xs) ys = omega (arith, sum_by-append p f xs ys)

  -- A write moves a sum by the contributions of the old and of the new row.
  pub sum_by-replace_by :
      (p q : A → Bool) (f : A → ℕ) (new old : A) (xs : List A)
      → find_by p xs ≡ some old
      → sum_by q f (replace_by p new xs) + when (q old) (f old)
        ≡ sum_by q f xs + when (q new) (f new)
  sum_by-replace_by p q f new old [] h = cc
  sum_by-replace_by p q f new old (x ∷ xs) h = ground (arith, sum_by-replace_by p q f new old xs)

  pub sum_by-delete_by :
      (p q : A → Bool) (f : A → ℕ) (old : A) (xs : List A)
      → find_by p xs ≡ some old
      → sum_by q f (delete_by p xs) + when (q old) (f old) ≡ sum_by q f xs
  sum_by-delete_by p q f old [] h = cc
  sum_by-delete_by p q f old (x ∷ xs) h = ground (arith, sum_by-delete_by p q f old xs)

  pub length-append_one : (xs : List A) (x : A) → length (xs ++ x ∷ []) ≡ length xs + 1
  length-append_one [] x = refl
  length-append_one (y ∷ xs) x = omega (arith, length-append_one xs x)

  pub length-delete_by :
      (p : A → Bool) (old : A) (xs : List A)
      → find_by p xs ≡ some old
      → suc (length (delete_by p xs)) ≡ length xs
  length-delete_by p old [] h = cc
  length-delete_by p old (x ∷ xs) h = ground (arith, length-delete_by p old xs)

  pub All-append {κ} : (P : A → Type κ) (xs ys : List A) → All P xs → All P ys → All P (xs ++ ys)
  All-append P [] ys hx hy = hy
  All-append P (x ∷ xs) ys hx hy = (hx.0, All-append P xs ys hx.1 hy)

  pub All-find_by {κ} :
      (P : A → Type κ) (p : A → Bool) (xs : List A) (x : A) → All P xs → find_by p xs ≡ some x → P x
  All-find_by P p [] x a h = cc
  All-find_by P p (y ∷ xs) x a h = elim (Bool-cases (p y)) [
    | inl e ↦ let same : y ≡ x = ground arith in subst P same a.0
    | inr e ↦ All-find_by P p xs x a.1 (ground arith)
  ]

  pub All-replace_by {κ} :
      (P : A → Type κ) (p : A → Bool) (y : A) (xs : List A)
      → All P xs
      → P y
      → All P (replace_by p y xs)
  All-replace_by P p y [] a h = tt
  All-replace_by P p y (x ∷ xs) a h = elim (Bool-cases (p x)) [
    | inl e ↦ rw e (h, a.1)
    | inr e ↦ rw e (a.0, All-replace_by P p y xs a.1 h)
  ]

  pub find_by-append :
      (p : A → Bool) (x : A) (xs ys : List A)
      → find_by p xs ≡ some x
      → find_by p (xs ++ ys) ≡ some x
  find_by-append p x [] ys h = cc
  find_by-append p x (z ∷ xs) ys h = ground (arith, find_by-append p x xs ys)
