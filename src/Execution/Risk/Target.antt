-- ===== src/Execution/Risk/Target.antt =====
-- What a trade towards a target exposure may cost and sell (`evaluate_target_exposure` of
-- backend/app/modules/execution/risk.py).
use trading_ai_framework.Prelude.{
  ◌≡◌, refl, ◌⊎◌, inl, inr, false, none, some, ◌||◌, arith, Bool-cases,
}
use trading_ai_framework.Prelude.Text.{String}
use trading_ai_framework.Domain.{TradeAction, FinalAction}
use trading_ai_framework.Decimal
use trading_ai_framework.Decimal.{Decimal, ◌≼◌, ◌≺◌}
use trading_ai_framework.Decimal.Floor.{floor_div_covers}
use trading_ai_framework.Decimal.Order.{min-≼}
use trading_ai_framework.Models.{Portfolio}
use trading_ai_framework.Execution.Risk.{
  RiskResult, TargetExposureAudit, is_hold, to_target, target_or_default, evaluate_target,
  evaluate_target_exposure, portfolio_value, target_audit, raise_exposure, lower_exposure,
}

-- A result that holds, or that trades an amount q for which `Buys q` or `Sells q` holds.
abbrev pub Trades : (Decimal → Type 0) → (Decimal → Type 0) → RiskResult → Type 0
Trades Buys Sells r =
    (r.final_action ≡ FinalAction.hold) × (r.final_quantity ≡ none)
    ⊎ ((q : Decimal) × (r.final_action ≡ FinalAction.buy) × (r.final_quantity ≡ some q) × Buys q)
    ⊎ ((q : Decimal) × (r.final_action ≡ FinalAction.sell) × (r.final_quantity ≡ some q) × Sells q)

-- At least one share, paid for by the cash and within the distance to the target.
abbrev pub BuyFits : Decimal → TargetExposureAudit → Decimal → Decimal → Type 0
BuyFits price a cash q =
    (Decimal.of_ℕ 1 ≼ q) × (Decimal.mul q price ≼ cash) × (Decimal.mul q price ≼ a.delta_value)

-- At least one share, held in the position and within the distance to the target.
abbrev pub SellFits : Decimal → TargetExposureAudit → Decimal → Decimal → Type 0
SellFits price a position q =
    (Decimal.of_ℕ 1 ≼ q) × (q ≼ position) × (Decimal.mul q price ≼ Decimal.abs a.delta_value)

module _ (price : Decimal) (h : Decimal.nought ≺ price) (a : TargetExposureAudit) where
  raise_exposure-Trades :
      (Sells : Decimal → Type 0) (cash : Decimal)
      → Trades (BuyFits price a cash) Sells (raise_exposure cash price a)
  unfolding raise_exposure
  raise_exposure-Trades Sells cash =
      let wanted : Decimal = Decimal.floor_div a.delta_value price in
      let affordable : Decimal = Decimal.floor_div cash price in
      let q : Decimal = Decimal.min wanted affordable in
      let least = min-≼ wanted affordable in
      elim (Bool-cases (Decimal.lt q (Decimal.of_ℕ 1))) [
        | inl short ↦ inl (ground arith, ground arith)
        | inr enough ↦ inr (
            inl (
              q,
              ground arith,
              ground arith,
              (
                ground arith,
                floor_div_covers q cash price h enough least.1,
                floor_div_covers q a.delta_value price h enough least.0,
              ),
            ))
      ]

  lower_exposure-Trades :
      (Buys : Decimal → Type 0) (symbol : String) (position : Decimal)
      → Trades Buys (SellFits price a position) (lower_exposure symbol position price a)
  unfolding lower_exposure
  lower_exposure-Trades Buys symbol position =
      let given : Decimal = Decimal.floor_div (Decimal.abs a.delta_value) price in
      let q : Decimal = Decimal.min given position in
      let least = min-≼ given position in
      elim (Bool-cases (Decimal.le position Decimal.nought)) [
        | inl flat ↦ inl (ground arith, ground arith)
        | inr holds ↦ elim (Bool-cases (Decimal.lt q (Decimal.of_ℕ 1))) [
          | inl short ↦ inl (ground arith, ground arith)
          | inr enough ↦ inr (
              inr (
                q,
                ground arith,
                ground arith,
                (
                  ground arith,
                  least.1,
                  floor_div_covers q (Decimal.abs a.delta_value) price h enough least.0,
                ),
              ))
        ]
      ]

  to_target-Trades :
      (action : TradeAction) (symbol : String) (cash position : Decimal)
      → Trades
          (BuyFits price a cash)
          (SellFits price a position)
          (to_target action symbol cash position price a)
  unfolding to_target
  to_target-Trades action symbol cash position =
      elim (Bool-cases (is_hold action || Decimal.lt (Decimal.abs a.delta_value) price)) [
        | inl stay ↦ rw stay (inl (refl, refl))
        | inr move ↦ rw move (elim (Bool-cases (Decimal.lt Decimal.nought a.delta_value)) [
          | inl more ↦ rw more (raise_exposure-Trades (SellFits price a position) cash)
          | inr less ↦ rw less (lower_exposure-Trades (BuyFits price a cash) symbol position)
        ])
      ]

abbrev pub current_value : Portfolio → Decimal → Decimal
current_value portfolio price = Decimal.mul (Decimal.or_zero portfolio.position_quantity) price

abbrev pub figures : Decimal → Decimal → Portfolio → Decimal → TargetExposureAudit
figures requested maximum portfolio price =
    let current = current_value portfolio price in
    target_audit requested maximum
      (portfolio_value portfolio.current_portfolio_value portfolio.cash current) current

module _ (action : TradeAction) (symbol : String) (requested : Decimal) (portfolio : Portfolio)
    (price maximum : Decimal) (h : Decimal.nought ≺ price) where
  -- With a target exposure and a price above zero, the check holds with no quantity, or buys at
  -- least one share that the cash pays for, or sells at least one share of the position; what is
  -- bought or sold is worth no more than the distance between the position and the clamped target.
  pub evaluate_target_exposure-Trades :
      Trades
        (BuyFits price (figures requested maximum portfolio price) portfolio.cash)
        (SellFits price
          (figures requested maximum portfolio price)
          (Decimal.or_zero portfolio.position_quantity))
        (evaluate_target_exposure action symbol (some requested) portfolio price maximum)
  unfolding evaluate_target_exposure target_or_default evaluate_target
  evaluate_target_exposure-Trades =
      let current = current_value portfolio price in
      let value = portfolio_value portfolio.current_portfolio_value portfolio.cash current in
      let positive : Decimal.le price Decimal.nought ≡ false = ground arith in
      rw positive (elim (Bool-cases (Decimal.le value Decimal.nought)) [
        | inl broke ↦ rw broke (inl (refl, refl))
        | inr solvent ↦ rw solvent (
            to_target-Trades price h (figures requested maximum portfolio price) action symbol
              portfolio.cash (Decimal.or_zero portfolio.position_quantity))
      ])
