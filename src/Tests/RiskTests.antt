-- ===== src/Tests/RiskTests.antt =====
-- The risk check, the simulated execution and the figures of
-- backend/app/modules/execution, on concrete portfolios.
use trading_ai_framework.Prelude.{◌≡◌, refl, ◌⊎◌, some, none, List, [], ◌∷◌, arith}
use trading_ai_framework.Domain.{TradeAction, FinalAction}
use trading_ai_framework.Decimal
use trading_ai_framework.Decimal.{Decimal, decimal, ◌≼◌, ◌≺◌}
use trading_ai_framework.Models.{Portfolio}
use trading_ai_framework.Execution.Risk.{evaluate, evaluate_target_exposure}
use trading_ai_framework.Execution.Risk.Bounds.{BuysAllAffordable, evaluate_buy, evaluate_sell}
use trading_ai_framework.Execution.Risk.Target.{
  Trades, BuyFits, SellFits, figures, evaluate_target_exposure-Trades,
}
use trading_ai_framework.Execution.Simulation.{Call, execute_if_applicable}
use trading_ai_framework.Execution.Simulation.Laws.{IsSolvent, execute-evaluate-IsSolvent}
use trading_ai_framework.Prelude.Int.{◌+ℤ◌, ◌-ℤ◌}
use trading_ai_framework.Decimal.Rounding.{round_half_even}
use trading_ai_framework.Execution.Metrics.{max_drawdown, max_drawdown_from, deepen, raise_peak}
use trading_ai_framework.Execution.Metrics.Drawdown.{IsLoss}
use trading_ai_framework.Execution.Metrics.Deepest.{IsBelowAll, IsFall, max_drawdown-IsDeepest}

-- 1000.00 in cash, and 2.5 shares.
abbrev holder : Portfolio
holder = record {
  cash = decimal 10000000 4;
  position_symbol = some "SPY";
  position_quantity = some (decimal 250000000 8);
  current_price = none;
  current_position_value = none;
  current_portfolio_value = none;
  updated_at = 0;
}

-- 300.125
abbrev price : Decimal
price = decimal 300125 3

-- Three shares cost 900.375.
buys_three : (evaluate TradeAction.buy "SPY" holder price).final_quantity ≡ some (decimal 3 0)
unfolding evaluate Decimal.floor_div
buys_three = refl

evaluate_buy_example :
    BuysAllAffordable holder.cash price (evaluate TradeAction.buy "SPY" holder price)
    ⊎ (((evaluate TradeAction.buy "SPY" holder price).final_action ≡ FinalAction.hold)
        × (holder.cash ≺ price))
evaluate_buy_example = evaluate_buy "SPY" holder price (omega arith)

evaluate_sell_example :
    ((evaluate TradeAction.sell "SPY" holder price).final_action ≡ FinalAction.hold)
      × (decimal 250000000 8 ≼ Decimal.nought)
    ⊎ ((evaluate TradeAction.sell "SPY" holder price).final_action ≡ FinalAction.sell)
      × ((evaluate TradeAction.sell "SPY" holder price).final_quantity ≡ some (decimal 250000000 8))
      × (Decimal.nought ≺ decimal 250000000 8)
evaluate_sell_example = evaluate_sell "SPY" holder price (omega arith)

-- A target of half the value of the portfolio, at most 0.8 of it.
evaluate_target_exposure-Trades_example :
    Trades
      (BuyFits price (figures (decimal 5 1) (decimal 8 1) holder price) holder.cash)
      (SellFits price (figures (decimal 5 1) (decimal 8 1) holder price) (decimal 250000000 8))
      (evaluate_target_exposure TradeAction.buy "SPY"
        (some (decimal 5 1))
        holder
        price
        (decimal 8 1))
evaluate_target_exposure-Trades_example =
    evaluate_target_exposure-Trades TradeAction.buy "SPY" (decimal 5 1) holder price (decimal 8 1)
      (omega arith)

abbrev call : Call
call = record { execution_step_id = 1; risk_check_id = 1; timestamp = 5; price = price; now = 9 }

holder-IsSolvent : IsSolvent holder
holder-IsSolvent = record { money = (10000000, refl); long = (250000000, 8, refl) }

execute-evaluate-IsSolvent_example :
    IsSolvent
      (execute_if_applicable (evaluate TradeAction.buy "SPY" holder price) holder call).portfolio
execute-evaluate-IsSolvent_example =
    execute-evaluate-IsSolvent "SPY" holder call holder-IsSolvent TradeAction.buy

abbrev values : List Decimal
values = decimal 10000000 4 ∷ decimal 12000000 4 ∷ decimal 9000000 4 ∷ decimal 11000000 4 ∷ []

-- From 1200 to 900.
falls_by_a_quarter : Decimal.add (max_drawdown values) (decimal 25000000 8) ≡ decimal 0 8
unfolding max_drawdown max_drawdown_from deepen raise_peak Decimal.add Decimal.sub ◌+ℤ◌ ◌-ℤ◌
    Decimal.quantized_div round_half_even
falls_by_a_quarter = refl

max_drawdown-IsDeepest_example :
    IsBelowAll (max_drawdown values) [] values
    × ((max_drawdown values ≡ Decimal.nought) ⊎ IsFall (max_drawdown values) [] values)
    × IsLoss (max_drawdown values)
max_drawdown-IsDeepest_example =
    max_drawdown-IsDeepest values
      ((10000000, refl), ((12000000, refl), ((9000000, refl), ((11000000, refl), tt))))
