-- ===== src/Prelude/Keys.antt =====
-- Tables with a primary key: no two rows have the same key.
use Prim.Native.Nat.{ℕ}
use mathlib.Core.Path.{◌≡◌, refl}
use mathlib.Core.Logic.{inl, inr}
use mathlib.Core.Bool.{Bool, true, false, ◌&&◌, not}
use mathlib.Core.Option.{none, some}
use mathlib.Core.List.{List, [], ◌∷◌, ◌++◌}
use native.Mathlib.Omega.{arith}
use ai_auto_platform.Prelude.Tests.{◌==◌, Bool-cases}
use ai_auto_platform.Prelude.Tables.{find_by, replace_by, exists_by}

module _ {ℓ} {A : Type ℓ} (key : A → ℕ) where
  abbrev pub has_key : ℕ → A → Bool
  has_key k x = key x == k

  abbrev pub Distinct : List A → Type ℓ
  Distinct [] = Unit
  Distinct (x ∷ xs) = (find_by (has_key (key x)) xs ≡ none) × Distinct xs

  -- A row that some query finds is the row under its key.
  pub find_by-has_key :
      (p : A → Bool) (x : A) (xs : List A)
      → Distinct xs
      → find_by p xs ≡ some x
      → find_by (has_key (key x)) xs ≡ some x
  find_by-has_key p x [] d h = cc
  find_by-has_key p x (y ∷ ys) d h = elim (Bool-cases (p y)) [
    | inl e ↦ let same : y ≡ x = ground arith in rw same (ground arith)
    | inr e ↦ later (find_by-has_key p x ys d.1 (ground arith))
  ]
    where
      clash : find_by (has_key (key x)) ys ≡ some x → key y ≡ key x → ⊥
      clash ih e = let missing = rw e at (d.0) in cc

      later : find_by (has_key (key x)) ys ≡ some x → find_by (has_key (key x)) (y ∷ ys) ≡ some x
      later ih = ground (arith, clash ih)

  pub exists_by-has_key :
      (k : ℕ) (xs : List A) → exists_by (has_key k) xs ≡ false → find_by (has_key k) xs ≡ none
  exists_by-has_key k [] h = refl
  exists_by-has_key k (x ∷ xs) h = ground (arith, exists_by-has_key k xs)

  find_by-append_new :
      (k : ℕ) (y : A) (xs : List A)
      → find_by (has_key k) xs ≡ none
      → (key y == k) ≡ false
      → find_by (has_key k) (xs ++ y ∷ []) ≡ none
  find_by-append_new k y [] h e = ground arith
  find_by-append_new k y (x ∷ xs) h e = ground (arith, find_by-append_new k y xs)

  pub Distinct-append :
      (y : A) (xs : List A)
      → Distinct xs
      → find_by (has_key (key y)) xs ≡ none
      → Distinct (xs ++ y ∷ [])
  Distinct-append y [] d h = (refl, tt)
  Distinct-append y (x ∷ xs) d h =
      (find_by-append_new (key x) y xs d.0 (ground arith), Distinct-append y xs d.1 (ground arith))

  find_by-replace_by-none :
      (k j : ℕ) (y : A) (xs : List A)
      → find_by (has_key k) xs ≡ none
      → key y ≡ j
      → find_by (has_key k) (replace_by (has_key j) y xs) ≡ none
  find_by-replace_by-none k j y [] h e = refl
  find_by-replace_by-none k j y (x ∷ xs) h e = ground (arith, find_by-replace_by-none k j y xs)

  pub Distinct-replace_by :
      (y : A) (xs : List A) → Distinct xs → Distinct (replace_by (has_key (key y)) y xs)
  Distinct-replace_by y [] d = tt
  Distinct-replace_by y (x ∷ xs) d = elim (Bool-cases (key x == key y)) [
    | inl e ↦ let same : key x ≡ key y = ground arith in rw e (rw same at (d.0), d.1)
    | inr e ↦
        rw e (find_by-replace_by-none (key x) (key y) y xs d.0 refl, Distinct-replace_by y xs d.1)
  ]

  -- After a write the row is found under its key.
  pub find_by-replace_by_self :
      (y old : A) (xs : List A)
      → find_by (has_key (key y)) xs ≡ some old
      → find_by (has_key (key y)) (replace_by (has_key (key y)) y xs) ≡ some y
  find_by-replace_by_self y old [] h = cc
  find_by-replace_by_self y old (x ∷ xs) h = ground (arith, find_by-replace_by_self y old xs)

  pub find_by-replace_by_ne :
      (k : ℕ) (y : A) (xs : List A)
      → (key y == k) ≡ false
      → find_by (has_key k) (replace_by (has_key (key y)) y xs) ≡ find_by (has_key k) xs
  find_by-replace_by_ne k y [] e = refl
  find_by-replace_by_ne k y (x ∷ xs) e = ground (arith, find_by-replace_by_ne k y xs e)

  -- A row that a query finds, written over by one that satisfies the query too, is found again.
  pub find_by-replace_by_found :
      (p : A → Bool) (old new : A) (xs : List A)
      → Distinct xs
      → find_by p xs ≡ some old
      → p new ≡ true
      → find_by p (replace_by (has_key (key old)) new xs) ≡ some new
  find_by-replace_by_found p old new [] d h e = cc
  find_by-replace_by_found p old new (x ∷ xs) d h e = elim (Bool-cases (p x)) [
    | inl t ↦ let same : x ≡ old = ground arith in rw same (ground arith)
    | inr f ↦
        let there = find_by-has_key p old xs d.1 (ground arith) in
        elim (Bool-cases (key x == key old)) [
          | inl clash ↦
              let same : key x ≡ key old = ground arith in let missing = rw same at (d.0) in cc
          | inr other ↦ rw other (rw f (find_by-replace_by_found p old new xs d.1 (ground arith) e))
        ]
  ]

  -- A row that is the only one to satisfy a query is found by it.
  pub find_by-replace_by_only :
      (p : A → Bool) (old new : A) (k : ℕ) (xs : List A)
      → exists_by (λ x. p x && not (key x == k)) xs ≡ false
      → find_by (has_key k) xs ≡ some old
      → p new ≡ true
      → find_by p (replace_by (has_key k) new xs) ≡ some new
  find_by-replace_by_only p old new k [] only h e = cc
  find_by-replace_by_only p old new k (x ∷ xs) only h e = elim (Bool-cases (key x == k)) [
    | inl t ↦ rw t (rw e refl)
    | inr f ↦
        let passed : p x ≡ false = ground arith in
        rw f (rw passed (find_by-replace_by_only p old new k xs (ground arith) (ground arith) e))
  ]

  pub find_by-append_only :
      (p : A → Bool) (new : A) (k : ℕ) (xs : List A)
      → exists_by (λ x. p x && not (key x == k)) xs ≡ false
      → exists_by (has_key k) xs ≡ false
      → p new ≡ true
      → find_by p (xs ++ new ∷ []) ≡ some new
  find_by-append_only p new k [] only h e = ground arith
  find_by-append_only p new k (x ∷ xs) only h e =
      let other : (key x == k) ≡ false = ground arith in
      let passed : p x ≡ false = ground (arith, other) in
      rw passed (find_by-append_only p new k xs (ground (arith, passed)) (ground (arith, other)) e)
