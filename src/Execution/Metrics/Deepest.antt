-- ===== src/Execution/Metrics/Deepest.antt =====
-- The maximal drawdown is the deepest of all falls (backend/app/modules/execution/metrics.py).
use mathlib.Core.Path.{subst}
use trading_ai_framework.Prelude.{
  ◌≡◌, refl, sym, ◌∙◌, ◌⊎◌, inl, inr, Option, none, some, List, [], ◌∷◌, arith, All, Bool-cases,
}
use trading_ai_framework.Decimal
use trading_ai_framework.Decimal.{Decimal, ◌≼◌, ◌≺◌}
use trading_ai_framework.Decimal.Order.{≼_refl, ≼_trans}
use trading_ai_framework.Decimal.Grid.{IsMoney}
use trading_ai_framework.Execution.Metrics.{
  raise_peak, drawdown, deepen, max_drawdown_from, max_drawdown,
}
use trading_ai_framework.Execution.Metrics.Drawdown.{IsLoss, max_drawdown-IsLoss}

abbrev pub IsIn : Decimal → List Decimal → Type 0
IsIn x [] = ⊥
IsIn x (y ∷ ys) = (x ≡ y) ⊎ IsIn x ys

-- The highest of some values.
abbrev pub IsTop : Decimal → List Decimal → Type 0
IsTop top values = IsIn top values × All (λ v. v ≼ top) values

-- After the values seen, no value falls deeper below the highest up to it.
abbrev pub IsBelowAll : Decimal → List Decimal → List Decimal → Type 0
IsBelowAll d seen [] = Unit
IsBelowAll d seen (v ∷ values) =
    ((top : Decimal) × IsTop top (v ∷ seen) × ((top ≼ Decimal.nought) ⊎ (d ≼ drawdown v top)))
    × IsBelowAll d (v ∷ seen) values

-- After the values seen, one value falls by this much below the highest up to it.
abbrev pub IsFall : Decimal → List Decimal → List Decimal → Type 0
IsFall d seen [] = ⊥
IsFall d seen (v ∷ values) =
    ((top : Decimal) × IsTop top (v ∷ seen) × (Decimal.nought ≺ top) × (d ≡ drawdown v top))
    ⊎ IsFall d (v ∷ seen) values

-- The peak that the loop has reached after some values.
abbrev IsPeak : Option Decimal → List Decimal → Type 0
IsPeak none seen = seen ≡ []
IsPeak (some p) seen = IsTop p seen

All-up :
    (p v : Decimal) (values : List Decimal)
    → p ≼ v
    → All (λ x. x ≼ p) values
    → All (λ x. x ≼ v) values
All-up p v [] h all = tt
All-up p v (x ∷ xs) h (low, all) = (≼_trans x p v low h, All-up p v xs h all)

raise_peak-cases :
    (p v : Decimal)
    → ((raise_peak (some p) v ≡ v) × (p ≼ v)) ⊎ ((raise_peak (some p) v ≡ p) × (v ≼ p))
unfolding raise_peak
raise_peak-cases p v = elim (Bool-cases (Decimal.lt p v)) [
  | inl up ↦ inl (rw up refl, ground arith)
  | inr down ↦ inr (rw down refl, ground arith)
]

raise_peak-IsTop :
    (peak : Option Decimal) (v : Decimal) (seen : List Decimal)
    → IsPeak peak seen
    → IsTop (raise_peak peak v) (v ∷ seen)
unfolding raise_peak
raise_peak-IsTop none v seen h = rw h (inl refl, (≼_refl v, tt))
raise_peak-IsTop (some p) v seen (is_in, all) = elim (raise_peak-cases p v) [
  | inl (raised, up) ↦
      subst (λ x. IsTop x (v ∷ seen)) (sym raised) (inl refl, (≼_refl v, All-up p v seen up all))
  | inr (kept, down) ↦ subst (λ x. IsTop x (v ∷ seen)) (sym kept) (inr is_in, (down, all))
]

-- What the body of the loop makes of the deepest fall.
module _ (deepest top v : Decimal) where
  deepen-below : deepen deepest top v ≼ deepest
  unfolding deepen
  deepen-below = elim (Bool-cases (Decimal.lt Decimal.nought top)) [
    | inl positive ↦ rw positive (elim (Bool-cases (Decimal.lt (drawdown v top) deepest)) [
      | inl deeper ↦ rw deeper (ground arith)
      | inr less ↦ rw less (≼_refl deepest)
    ])
    | inr zero_peak ↦ rw zero_peak (≼_refl deepest)
  ]

  deepen-covers : (top ≼ Decimal.nought) ⊎ (deepen deepest top v ≼ drawdown v top)
  unfolding deepen
  deepen-covers = elim (Bool-cases (Decimal.lt Decimal.nought top)) [
    | inl positive ↦ inr (
        rw positive (elim (Bool-cases (Decimal.lt (drawdown v top) deepest)) [
          | inl deeper ↦ rw deeper (≼_refl (drawdown v top))
          | inr less ↦ rw less (ground arith)
        ]))
    | inr zero_peak ↦ inl (ground arith)
  ]

  deepen-cases :
      (deepen deepest top v ≡ deepest)
      ⊎ ((Decimal.nought ≺ top) × (deepen deepest top v ≡ drawdown v top))
  unfolding deepen
  deepen-cases = elim (Bool-cases (Decimal.lt Decimal.nought top)) [
    | inl positive ↦ rw positive (elim (Bool-cases (Decimal.lt (drawdown v top) deepest)) [
      | inl deeper ↦ inr (ground arith, rw deeper refl)
      | inr less ↦ inl (rw less refl)
    ])
    | inr zero_peak ↦ inl (rw zero_peak refl)
  ]

loop-below :
    (values : List Decimal) (peak : Option Decimal) (deepest : Decimal)
    → max_drawdown_from peak deepest values ≼ deepest
unfolding max_drawdown_from
loop-below [] peak deepest = ≼_refl deepest
loop-below (v ∷ values) peak deepest =
    ≼_trans _ (deepen deepest (raise_peak peak v) v) deepest
      (loop-below values (some (raise_peak peak v)) (deepen deepest (raise_peak peak v) v))
      (deepen-below deepest (raise_peak peak v) v)

or_below :
    (r d top v : Decimal)
    → r ≼ d
    → (top ≼ Decimal.nought) ⊎ (d ≼ drawdown v top)
    → (top ≼ Decimal.nought) ⊎ (r ≼ drawdown v top)
or_below r d top v h (inl low) = inl low
or_below r d top v h (inr covers) = inr (≼_trans r d (drawdown v top) h covers)

loop-IsBelowAll :
    (values : List Decimal) (peak : Option Decimal) (deepest : Decimal) (seen : List Decimal)
    → IsPeak peak seen
    → IsBelowAll (max_drawdown_from peak deepest values) seen values
unfolding max_drawdown_from
loop-IsBelowAll [] peak deepest seen h = tt
loop-IsBelowAll (v ∷ values) peak deepest seen h =
    let top : Decimal = raise_peak peak v in
    let d : Decimal = deepen deepest top v in
    let is : IsTop top (v ∷ seen) = raise_peak-IsTop peak v seen h in
    (
      (
        top,
        is,
        or_below (max_drawdown_from (some top) d values) d top v (loop-below values (some top) d)
            (deepen-covers deepest top v),
      ),
      loop-IsBelowAll values (some top) d (v ∷ seen) is,
    )

loop-IsFall :
    (values : List Decimal) (peak : Option Decimal) (deepest : Decimal) (seen : List Decimal)
    → IsPeak peak seen
    → (max_drawdown_from peak deepest values ≡ deepest)
      ⊎ IsFall (max_drawdown_from peak deepest values) seen values
unfolding max_drawdown_from
loop-IsFall [] peak deepest seen h = inl refl
loop-IsFall (v ∷ values) peak deepest seen h =
    let top : Decimal = raise_peak peak v in
    let is : IsTop top (v ∷ seen) = raise_peak-IsTop peak v seen h in
    elim (loop-IsFall values (some top) (deepen deepest top v) (v ∷ seen) is) [
      | inr later ↦ inr (inr later)
      | inl same ↦ elim (deepen-cases deepest top v) [
        | inl kept ↦ inl (same ∙ kept)
        | inr (positive, falls) ↦ inr (inl (top, is, positive, same ∙ falls))
      ]
    ]

-- The maximal drawdown is the deepest fall of any value below the highest value up to it: no fall from
-- a peak above zero is deeper, and it is one of these falls or zero. Over values that are amounts of
-- money on the grid of four places and not negative, it lies between -1 and 0.
pub max_drawdown-IsDeepest :
    (values : List Decimal)
    → All IsMoney values
    → IsBelowAll (max_drawdown values) [] values
      × ((max_drawdown values ≡ Decimal.nought) ⊎ IsFall (max_drawdown values) [] values)
      × IsLoss (max_drawdown values)
unfolding max_drawdown
max_drawdown-IsDeepest values money = (
  loop-IsBelowAll values none Decimal.nought [] refl,
  loop-IsFall values none Decimal.nought [] refl,
  max_drawdown-IsLoss values money,
)
