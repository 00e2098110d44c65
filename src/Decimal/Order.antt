-- ===== src/Decimal/Order.antt =====
-- The order of decimals under `min`, and under rounding to a fixed number of places.
use native.Mathlib.Nat.{le_antisymm, le_of_mul-le-mul_right, mul-le-mul_right}
use trading_ai_framework.Prelude.{ℕ, ◌+◌, ◌-◌, ◌*◌, ◌^◌, ◌≤◌, max, ◌≡◌, refl, ap, ◌⊎◌, arith}
use trading_ai_framework.Prelude.Int.{◌-ℤ◌}
use trading_ai_framework.Decimal.{Decimal, decimal, ◌≼◌, min, quantize, sub, mul}
use trading_ai_framework.Decimal.Rounding.{round_half_even, round_half_even-le, le-round_half_even}
use trading_ai_framework.Decimal.Floor.{pow-pos, mul-decimal}

pub ≼_refl : (a : Decimal) → a ≼ a
≼_refl a = omega arith

-- Both sides are compared over the denominators of all three.
pub ≼_trans : (a b c : Decimal) → a ≼ b → b ≼ c → a ≼ c
≼_trans a b c h k =
    le_of_mul-le-mul_right
      (omega (arith, mul-le-mul_right (10 ^ c.places) h, mul-le-mul_right (10 ^ a.places) k))
      (pow-pos b.places)

pub min-eq_or : (a b : Decimal) → (min a b ≡ a) ⊎ (min a b ≡ b)
unfolding min
min-eq_or a b = ground arith

pub min-≼ : (a b : Decimal) → (min a b ≼ a) × (min a b ≼ b)
unfolding min
min-≼ a b = ground arith

pub quantize_places : (k : ℕ) (a : Decimal) → (quantize k a).places ≡ k
unfolding quantize
quantize_places k a = refl

-- Rounding does not pass a number that is on the grid of the result.
pub quantize-≼ : (k n p c : ℕ) → decimal n p ≼ decimal c k → quantize k (decimal n p) ≼ decimal c k
unfolding quantize
quantize-≼ k n p c h =
    grind (arith, round_half_even-le (n * 10 ^ k) (10 ^ p) c (pow-pos p) (omega arith))

pub ≼-quantize : (k n p c : ℕ) → decimal c k ≼ decimal n p → decimal c k ≼ quantize k (decimal n p)
unfolding quantize
≼-quantize k n p c h =
    grind (arith, le-round_half_even (n * 10 ^ k) (10 ^ p) c (pow-pos p) (omega arith))

-- A number that is on the grid already is not changed.
pub quantize_self : (n p : ℕ) → quantize p (decimal n p) ≡ decimal n p
unfolding quantize
quantize_self n p =
    ap (λ (t : ℕ). decimal t p)
      (le_antisymm (round_half_even-le (n * 10 ^ p) (10 ^ p) n (pow-pos p) (omega arith))
        (le-round_half_even (n * 10 ^ p) (10 ^ p) n (pow-pos p) (omega arith)))

pub sub-decimal : (a b p : ℕ) → b ≤ a → sub (decimal a p) (decimal b p) ≡ decimal (a - b) p
unfolding sub ◌-ℤ◌
sub-decimal a b p h =
    let places : max p p ≡ p = omega arith in
    let none_left : p - p ≡ 0 = omega arith in rw (places, none_left) (ground arith)

-- The rounded product of two numbers that are not negative, with no sign.
pub quantize-mul-decimal :
    (k a p b s : ℕ)
    → quantize k (mul (decimal a p) (decimal b s))
      ≡ decimal (round_half_even (a * b * 10 ^ k) (10 ^ (p + s))) k
unfolding quantize
quantize-mul-decimal k a p b s = rw (mul-decimal a p b s)
