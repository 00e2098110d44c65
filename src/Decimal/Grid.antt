-- ===== src/Decimal/Grid.antt =====
-- Amounts of money on the grid of four places: paying, receiving and valuing keep to the grid, and
-- a payment that the amount covers leaves an amount that is not negative.
use trading_ai_framework.Prelude.{ℕ, ◌+◌, ◌-◌, ◌*◌, ◌^◌, ◌≤◌, max, ◌≡◌, refl, arith}
use trading_ai_framework.Prelude.Int.{ℤ, pos, negsuc, ◌+ℤ◌}
use trading_ai_framework.Decimal.{Decimal, decimal, nought, of_ℕ, ◌≼◌, ◌≺◌, quantize, add, sub, mul}
use trading_ai_framework.Decimal.Rounding.{round_half_even}
use trading_ai_framework.Decimal.Floor.{pow-pos, mul-decimal, add-decimal}
use trading_ai_framework.Decimal.Order.{
  quantize-≼, quantize_self, sub-decimal, quantize-mul-decimal,
}

-- A number that is not negative.
abbrev pub IsNonneg : Decimal → Type 0
IsNonneg a = (n : ℕ) × (p : ℕ) × (a ≡ decimal n p)

-- An amount of money that is not negative, on the grid.
abbrev pub IsMoney : Decimal → Type 0
IsMoney a = (n : ℕ) × (a ≡ decimal n 4)

pub IsMoney-IsNonneg : {a : Decimal} → IsMoney a → IsNonneg a
IsMoney-IsNonneg (n, e) = (n, 4, e)

pub IsNonneg-of_pos : (a : Decimal) → nought ≺ a → IsNonneg a
IsNonneg-of_pos a h = go a.coefficient a.places h
  where
    go :
        (c : ℤ) (p : ℕ)
        → nought ≺ record { coefficient = c; places = p }
        → IsNonneg (record { coefficient = c; places = p })
    go (pos n) p h = (n, p, refl)
    go (negsuc n) p h = absurd (grind (arith, pow-pos p))

pub IsNonneg-of_one : (a : Decimal) → of_ℕ 1 ≼ a → IsNonneg a
IsNonneg-of_one a h = IsNonneg-of_pos a (positive a.coefficient a.places h)
  where
    positive :
        (c : ℤ) (p : ℕ)
        → of_ℕ 1 ≼ record { coefficient = c; places = p }
        → nought ≺ record { coefficient = c; places = p }
    positive (pos n) p h = omega (arith, pow-pos p)
    positive (negsuc n) p h = absurd (omega (arith, pow-pos p))

pub value-IsMoney : {q b : Decimal} → IsNonneg q → IsNonneg b → IsMoney (quantize 4 (mul q b))
value-IsMoney (k, r, e) (m, s, f) =
    (round_half_even (k * m * 10 ^ 4) (10 ^ (r + s)), rw (e, f) (quantize-mul-decimal 4 k r m s))

pub mul-IsNonneg : {a b : Decimal} → IsNonneg a → IsNonneg b → IsNonneg (mul a b)
mul-IsNonneg (k, r, e) (m, s, f) = (k * m, r + s, rw (e, f) (mul-decimal k r m s))

module _ (c : ℕ) where
  -- Paying a rounded amount that the money covers.
  pub pay :
      (x : Decimal)
      → IsNonneg x
      → x ≼ decimal c 4
      → (r : ℕ) × (quantize 4 x ≡ decimal r 4)
        × (r ≤ c)
        × (quantize 4 (sub (decimal c 4) (quantize 4 x)) ≡ decimal (c - r) 4)
  unfolding quantize
  pay x (n, p, e) h =
      let r : ℕ = round_half_even (n * 10 ^ 4) (10 ^ p) in
      let rounded : quantize 4 x ≡ decimal r 4 = rw e in
      let small : decimal r 4 ≼ decimal c 4 = quantize-≼ 4 n p c (rw e at h) in
      let le : r ≤ c = omega arith in
      (r, rounded, le, rw rounded (rw (sub-decimal c r 4 le) (quantize_self (c - r) 4)))

  -- Receiving an amount of money.
  pub receive : (r : ℕ) → quantize 4 (add (decimal c 4) (decimal r 4)) ≡ decimal (c + r) 4
  receive r = rw (add-decimal c r 4) (quantize_self (c + r) 4)

-- A held quantity plus a bought one.
pub add-IsNonneg : {a b : Decimal} → IsNonneg a → IsNonneg b → IsNonneg (add a b)
unfolding add ◌+ℤ◌
add-IsNonneg (n, p, e) (m, s, f) =
    (n * 10 ^ (max p s - p) + m * 10 ^ (max p s - s), max p s, rw (e, f) (ground arith))

pub pay-IsMoney :
    {cash x : Decimal}
    → IsMoney cash
    → IsNonneg x
    → x ≼ cash
    → IsMoney (quantize 4 (sub cash (quantize 4 x)))
pay-IsMoney {cash} {x} (c, e) nx h =
    let paid = pay c x nx (rw e at h) in (c - paid.0, rw e (paid.3))

pub receive-IsMoney :
    {cash x : Decimal} → IsMoney cash → IsMoney x → IsMoney (quantize 4 (add cash x))
receive-IsMoney (c, e) (r, f) = (c + r, rw (e, f) (receive c r))

pub quantize-IsMoney : {x : Decimal} → IsNonneg x → IsMoney (quantize 4 x)
unfolding quantize
quantize-IsMoney (n, p, e) = (round_half_even (n * 10 ^ 4) (10 ^ p), rw e)
