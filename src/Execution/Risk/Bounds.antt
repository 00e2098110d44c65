-- ===== src/Execution/Risk/Bounds.antt =====
-- What an approved trade of the risk check may cost and sell
-- (backend/app/modules/execution/risk.py).
use trading_ai_framework.Prelude.{◌≡◌, ◌⊎◌, inl, inr, true, some, arith, Bool-cases}
use trading_ai_framework.Prelude.Text.{String}
use trading_ai_framework.Domain.{TradeAction, FinalAction}
use trading_ai_framework.Decimal
use trading_ai_framework.Decimal.{Decimal, ◌≼◌, ◌≺◌}
use trading_ai_framework.Decimal.Floor.{
  floor_div_places, floor_div_covers, floor_div_largest, floor_div_short,
}
use trading_ai_framework.Decimal.Order.{≼_refl}
use trading_ai_framework.Models.{Portfolio}
use trading_ai_framework.Execution.Risk.{RiskResult, evaluate}

-- The result buys as many whole shares as the cash pays for.
pub record BuysAllAffordable (cash price : Decimal) (r : RiskResult) : Type 0 where
  pub quantity : Decimal
  pub buys : r.final_action ≡ FinalAction.buy
  pub chosen : r.final_quantity ≡ some quantity
  pub whole : quantity.places ≡ 0
  pub some_share : Decimal.of_ℕ 1 ≼ quantity
  pub paid : Decimal.mul quantity price ≼ cash
  pub largest : cash ≺ Decimal.mul (Decimal.add quantity (Decimal.of_ℕ 1)) price

module _ (symbol : String) (portfolio : Portfolio) (price : Decimal)
    (h : Decimal.nought ≺ price) where
  shares : Decimal
  shares = Decimal.floor_div portfolio.cash price

  -- A BUY at a price above zero is approved for the largest whole number of shares that the cash
  -- pays for, if that is at least one; otherwise it is held, and the cash is less than the price.
  pub evaluate_buy :
      BuysAllAffordable portfolio.cash price (evaluate TradeAction.buy symbol portfolio price)
      ⊎ (((evaluate TradeAction.buy symbol portfolio price).final_action ≡ FinalAction.hold)
          × (portfolio.cash ≺ price))
  unfolding evaluate shares
  evaluate_buy = elim (Bool-cases (Decimal.lt shares (Decimal.of_ℕ 1))) [
    | inl short ↦ inr (ground arith, floor_div_short portfolio.cash price h short)
    | inr enough ↦ inl (record {
      quantity = shares;
      buys = ground arith;
      chosen = ground arith;
      whole = floor_div_places portfolio.cash price;
      some_share = ground arith;
      paid = floor_div_covers shares portfolio.cash price h enough (≼_refl shares);
      largest = floor_div_largest portfolio.cash price h enough;
    })
  ]

-- A SELL at a price above zero is approved for the whole position where one is held, and is itself
-- held exactly where there is none.
pub evaluate_sell :
    (symbol : String) (portfolio : Portfolio) (price : Decimal)
    → Decimal.nought ≺ price
    → ((evaluate TradeAction.sell symbol portfolio price).final_action ≡ FinalAction.hold)
        × (Decimal.or_zero portfolio.position_quantity ≼ Decimal.nought)
      ⊎ ((evaluate TradeAction.sell symbol portfolio price).final_action ≡ FinalAction.sell)
        × ((evaluate TradeAction.sell symbol portfolio price).final_quantity
            ≡ some (Decimal.or_zero portfolio.position_quantity))
        × (Decimal.nought ≺ Decimal.or_zero portfolio.position_quantity)
unfolding evaluate
evaluate_sell symbol portfolio price h =
    elim (Bool-cases (Decimal.le (Decimal.or_zero portfolio.position_quantity) Decimal.nought)) [
      | inl flat ↦ inl (ground arith, ground arith)
      | inr holds ↦ inr (ground arith, ground arith, ground arith)
    ]

pub evaluate-hold :
    (symbol : String) (portfolio : Portfolio) (price : Decimal)
    → (evaluate TradeAction.hold symbol portfolio price).final_action ≡ FinalAction.hold
unfolding evaluate
evaluate-hold symbol portfolio price = ground arith

-- At a price of zero or below nothing is traded.
pub evaluate_worthless :
    (action : TradeAction) (symbol : String) (portfolio : Portfolio) (price : Decimal)
    → Decimal.le price Decimal.nought ≡ true
    → (evaluate action symbol portfolio price).final_action ≡ FinalAction.hold
unfolding evaluate
evaluate_worthless action symbol portfolio price h = rw h
