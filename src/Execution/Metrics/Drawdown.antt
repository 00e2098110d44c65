-- ===== src/Execution/Metrics/Drawdown.antt =====
-- The range of the maximal drawdown (backend/app/modules/execution/metrics.py).
use trading_ai_framework.Prelude.{
  ℕ, zero, suc, ◌+◌, ◌-◌, ◌*◌, ◌^◌, ◌≤◌, ◌<◌, ◌≡◌, refl, ◌⊎◌, inl, inr, Option, none, some, List,
  [], ◌∷◌, arith, All, Bool-cases,
}
use trading_ai_framework.Prelude.Int.{pos, negsuc, neg_of_ℕ, ◌-ℤ◌}
use trading_ai_framework.Decimal
use trading_ai_framework.Decimal.{Decimal, decimal, ◌≼◌, ◌≺◌}
use trading_ai_framework.Decimal.Rounding.{round_half_even, round_half_even-le}
use trading_ai_framework.Decimal.Grid.{IsMoney}
use trading_ai_framework.Execution.Metrics.{
  raise_peak, drawdown, deepen, max_drawdown_from, max_drawdown,
}

-- -1, at eight places
abbrev pub total_loss : Decimal
total_loss = record { coefficient = negsuc 99_999_999; places = 8 }

abbrev pub IsLoss : Decimal → Type 0
IsLoss d = (total_loss ≼ d) × (d ≼ Decimal.nought)

sub-neg_of_ℕ : (v p : ℕ) → v ≤ p → pos v -ℤ pos p ≡ neg_of_ℕ (p - v)
unfolding ◌-ℤ◌
sub-neg_of_ℕ v p h = elim (zero_or_suc (p - v)) [
  | inl e ↦ rw e (ground arith)
  | inr (k, e) ↦ rw e (ground arith)
]
  where
    zero_or_suc : (n : ℕ) → (n ≡ 0) ⊎ ((k : ℕ) × (n ≡ suc k))
    zero_or_suc zero = inl refl
    zero_or_suc (suc k) = inr (k, refl)

scale-neg_of_ℕ : (n m : ℕ) → Decimal.scale (neg_of_ℕ n) m ≡ neg_of_ℕ (n * m)
scale-neg_of_ℕ zero m = ground arith
scale-neg_of_ℕ (suc n) m = refl

round_ℤ-neg_of_ℕ :
    (n d : ℕ) → 0 < d → Decimal.round_ℤ (neg_of_ℕ n) d ≡ neg_of_ℕ (round_half_even n d)
round_ℤ-neg_of_ℕ zero d h =
    let none_left : round_half_even 0 d ≡ 0 =
      omega (arith, round_half_even-le 0 d 0 h (omega arith)) in
    rw none_left
round_ℤ-neg_of_ℕ (suc n) d h = refl

-- Below a positive peak no more than everything is lost.
drawdown-decimal :
    (v p : ℕ)
    → 0 < p
    → v ≤ p
    → (r : ℕ) × (r ≤ 10 ^ 8)
      × (drawdown (decimal v 4) (decimal p 4) ≡ record { coefficient = neg_of_ℕ r; places = 8 })
unfolding Decimal.quantized_div Decimal.sub
drawdown-decimal v p h k =
    let unit : 0 < (p + 0) * 10 ^ 4 = omega arith in
    (
      round_half_even ((p * 1 - v * 1) * (10 ^ 4 * 10 ^ 8)) ((p + 0) * 10 ^ 4),
      round_half_even-le _ _ (10 ^ 8) unit (omega arith),
      rw (sub-neg_of_ℕ (v * 1) (p * 1) (omega arith))
          (rw scale-neg_of_ℕ (rw (round_ℤ-neg_of_ℕ _ _ unit) refl)),
    )

drawdown-IsLoss : (v p : ℕ) → 0 < p → v ≤ p → IsLoss (drawdown (decimal v 4) (decimal p 4))
drawdown-IsLoss v p h k = let (r, small, e) = drawdown-decimal v p h k in rw e (loss r small)
  where
    loss : (r : ℕ) → r ≤ 10 ^ 8 → IsLoss (record { coefficient = neg_of_ℕ r; places = 8 })
    loss zero h = omega arith
    loss (suc r) h = omega arith

-- A peak that the loop has reached.
abbrev IsPeak : Option Decimal → Type 0
IsPeak none = Unit
IsPeak (some p) = IsMoney p

module _ (n : ℕ) where
  raise_peak-covers :
      (peak : Option Decimal)
      → IsPeak peak
      → (m : ℕ) × (raise_peak peak (decimal n 4) ≡ decimal m 4) × (n ≤ m)
  unfolding raise_peak
  raise_peak-covers none h = (n, refl, omega arith)
  raise_peak-covers (some p) (m, e) =
      rw e (elim (Bool-cases (Decimal.lt (decimal m 4) (decimal n 4))) [
        | inl up ↦ (n, rw up, omega arith)
        | inr down ↦ (m, rw down, ground arith)
      ])

  deepen-IsLoss :
      (m : ℕ) (deepest : Decimal)
      → n ≤ m
      → IsLoss deepest
      → IsLoss (deepen deepest (decimal m 4) (decimal n 4))
  unfolding deepen
  deepen-IsLoss m deepest h l = elim (Bool-cases (Decimal.lt Decimal.nought (decimal m 4))) [
    | inl positive ↦
        let d = drawdown-IsLoss n m (ground arith) h in
        rw positive (elim (Bool-cases (Decimal.lt (drawdown (decimal n 4) (decimal m 4)) deepest)) [
          | inl deeper ↦ rw deeper d
          | inr less ↦ rw less l
        ])
    | inr zero_peak ↦ rw zero_peak l
  ]

max_drawdown_from-IsLoss :
    (values : List Decimal) (peak : Option Decimal) (deepest : Decimal)
    → All IsMoney values
    → IsPeak peak
    → IsLoss deepest
    → IsLoss (max_drawdown_from peak deepest values)
unfolding max_drawdown_from
max_drawdown_from-IsLoss [] peak deepest v p l = l
max_drawdown_from-IsLoss (x ∷ xs) peak deepest ((n, e), vs) p l =
    let (m, f, h) = raise_peak-covers n peak p in
    max_drawdown_from-IsLoss xs (some (raise_peak peak x)) (deepen deepest (raise_peak peak x) x) vs
      (m, rw (e, f)) (rw (e, f) (deepen-IsLoss n m deepest h l))

-- Over portfolio values that are not negative the maximal drawdown lies between -1 and 0.
pub max_drawdown-IsLoss :
    (values : List Decimal) → All IsMoney values → IsLoss (max_drawdown values)
unfolding max_drawdown
max_drawdown-IsLoss values v =
    max_drawdown_from-IsLoss values none Decimal.nought v tt (omega arith)
