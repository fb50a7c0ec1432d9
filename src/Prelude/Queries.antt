-- ===== src/Prelude/Queries.antt =====
-- `.order_by(…)` and `.limit(n)` on the rows of a query.
use Prim.Native.Nat.{ℕ, suc, zero}
use mathlib.Core.Bool.{Bool}
use mathlib.Core.List.{List, [], ◌∷◌, ◌++◌, map}
use ai_auto_platform.Prelude.Tests.{if◌then◌else◌}
use ai_auto_platform.Prelude.Tables.{select}

module _ {ℓ} {A : Type ℓ} where
  -- A row goes in front of the first one that it is not behind.
  abbrev pub insert_by : (A → A → Bool) → A → List A → List A
  insert_by before x [] = x ∷ []
  insert_by before x (y ∷ ys) =
      let rest = insert_by before x ys in if before x y then x ∷ y ∷ ys else y ∷ rest

  abbrev pub order_by : (A → A → Bool) → List A → List A
  order_by before [] = []
  order_by before (x ∷ xs) = insert_by before x (order_by before xs)

  abbrev pub limit : ℕ → List A → List A
  limit zero xs = []
  limit (suc n) [] = []
  limit (suc n) (x ∷ xs) = x ∷ limit n xs

module _ {ℓ κ} {A : Type ℓ} {B : Type κ} where
  -- `.join(…)`: every pair of rows that match.
  abbrev pub join_by : (A → B → Bool) → List A → List B → List (A × B)
  join_by matches [] ys = []
  join_by matches (x ∷ xs) ys =
      map (λ (y : B). (x, y)) (select (matches x) ys) ++ join_by matches xs ys
