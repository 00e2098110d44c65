-- ===== src/Decimal/Rounding.antt =====
-- Rounding of a quotient of naturals to the nearest integer, a tie to the even one
-- (ROUND_HALF_EVEN, the default of Python's decimal context).
use native.Mathlib.Decide.{dec_lt}
use native.Mathlib.Nat.{div-le_of_le-mul, div-add-mod', le-div_iff_mul-le, mul_comm}
use trading_ai_framework.Prelude.{
  ℕ, ◌+◌, ◌*◌, ◌/◌, ◌%◌, ◌≤◌, ◌<◌, ◌≡◌, ap, ◌⊎◌, inl, inr, arith, ltb, if◌then◌else◌,
}

unfoldable pub round_half_even : ℕ → ℕ → ℕ
round_half_even n d =
    let q = n / d in
    let r = n % d in if ltb (2 * r) d then q else if ltb d (2 * r) then q + 1 else q + q % 2

-- The result is within half a unit of the quotient.
pub round_half_even_near :
    (n d : ℕ)
    → 0 < d
    → (2 * (round_half_even n d * d) ≤ 2 * n + d) × (2 * n ≤ 2 * (round_half_even n d * d) + d)
unfolding round_half_even
round_half_even_near n d h = grind arith

-- Where a quotient does not exceed an integer, its floor is below it or there is no remainder.
floor_below : (n d c : ℕ) → 0 < d → n ≤ c * d → (n / d < c) ⊎ ((n / d ≡ c) × (n % d ≡ 0))
floor_below n d c h k =
    let low : n / d ≤ c = div-le_of_le-mul d (rw (mul_comm d c) k) in
    elim (dec_lt (n / d) c) [
      | yes l ↦ inl l
      | no g ↦
          let same : n / d ≡ c = omega arith in
          inr (same, omega (arith, div-add-mod' n d, ap (λ (t : ℕ). t * d) same))
    ]

-- A quotient that does not exceed an integer is not rounded above it.
pub round_half_even-le : (n d c : ℕ) → 0 < d → n ≤ c * d → round_half_even n d ≤ c
unfolding round_half_even
round_half_even-le n d c h k = ground (arith, floor_below n d c h k)

-- A quotient that is not below an integer is not rounded below it.
pub le-round_half_even : (n d c : ℕ) → 0 < d → c * d ≤ n → c ≤ round_half_even n d
unfolding round_half_even
le-round_half_even n d c h k = ground (arith, (le-div_iff_mul-le h).1 k)
