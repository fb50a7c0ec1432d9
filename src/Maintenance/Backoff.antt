-- ===== src/Maintenance/Backoff.antt =====
-- The wait between two attempts, about `_backoff` of modules/artifact/maintenance.py.
use native.Mathlib.Nat.{pow-succ'}
use native.Mathlib.Numerals.{add-one}
use ai_auto_platform.Prelude.{
  sym, subst, leb, Bool-cases, ℕ, ◌+◌, ◌*◌, ◌^◌, ◌≤◌, ◌≡◌, min, refl, arith, zero, suc, ◌⊎◌, inl,
  inr,
}
use ai_auto_platform.Common.Settings.{seconds}
use ai_auto_platform.Maintenance.{backoff}

power_step : (k : ℕ) → 2 ^ (k + 1) ≡ 2 * 2 ^ k
power_step k = ground (arith, pow-succ' 2 k)

power_positive : (k : ℕ) → 1 ≤ 2 ^ k
power_positive zero = omega arith
power_positive (suc k) = omega (arith, power_positive k, power_step k)

-- Without the cap of an hour, a further attempt doubles the wait or, from the eighth on, keeps it.
exponent_step : (n : ℕ) → (min (suc n) 7 ≡ min n 7) ⊎ (min (suc n) 7 ≡ min n 7 + 1)
exponent_step n = elim (Bool-cases (leb (suc n) 7)) [
  | inl inside ↦ inr (ground arith)
  | inr outside ↦ inl (ground arith)
]

grows : (attempts : ℕ) → backoff attempts ≤ backoff (attempts + 1)
unfolding backoff
grows zero = omega arith
grows (suc n) = rw (add-one (suc n)) (elim (exponent_step n) [
  | inl same ↦ rw same (omega arith)
  | inr grown ↦ rw grown (omega (arith, power_step (min n 7)))
])

from_eighth : (k : ℕ) → backoff (suc (k + 7)) ≡ seconds 3600
unfolding backoff
from_eighth k = let top : min (k + 7) 7 ≡ 7 = omega arith in rw top refl

eighth : (k : ℕ) → backoff (k + 8) ≡ seconds 3600
eighth k =
    let later : k + 8 ≡ suc (k + 7) = omega arith in
    subst (λ n. backoff n ≡ seconds 3600) (sym later) (from_eighth k)

-- The wait is at most an hour and never shrinks from one attempt to the next; it is at least half
-- a minute after a failed attempt, and an hour from the eighth one on.
pub backoff-bounds :
    (attempts : ℕ)
    → (seconds 30 ≤ backoff (attempts + 1))
      × (backoff attempts ≤ seconds 3600)
      × (backoff attempts ≤ backoff (attempts + 1))
      × (backoff (attempts + 8) ≡ seconds 3600)
unfolding backoff
backoff-bounds n =
    (rw (add-one n) (omega (arith, power_positive (min n 7))), capped n, grows n, eighth n)
  where
    capped : (k : ℕ) → backoff k ≤ seconds 3600
    capped zero = omega arith
    capped (suc k) = omega arith
