-- ===== src/Execution/Simulation.antt =====
-- Orders filled at once, without a broker: backend/app/modules/execution/simulation_provider.py.
-- The portfolio that the source updates in place is returned.
pub mod Laws
pub mod Made
use trading_ai_framework.Prelude.{ℕ, Option, none, some}
use trading_ai_framework.Prelude.Text.{String}
use trading_ai_framework.Domain.{FinalAction, OrderMode, BrokerName, OrderSide, OrderStatus}
use trading_ai_framework.Decimal
use trading_ai_framework.Decimal.{Decimal}
use trading_ai_framework.Models.{Portfolio, Order, Trade}
use trading_ai_framework.Execution.Risk.{RiskResult}

-- What a call is given besides the result and the portfolio.
pub record Call : Type 0 where
  pub execution_step_id : ℕ
  pub risk_check_id : ℕ
  pub timestamp : ℕ
  pub price : Decimal
  pub now : ℕ

-- `SimulationResult`, with the portfolio after the call.
pub record SimulationResult : Type 0 where
  pub order : Option Order
  pub trade : Option Trade
  pub portfolio : Portfolio

abbrev pub untouched : Portfolio → SimulationResult
untouched p = record { order = none; trade = none; portfolio = p }

-- The identity of a row is 0 until the database sets it.
abbrev filled_order : Call → OrderSide → Decimal → Order
filled_order c side quantity = record {
  id = 0;
  execution_step_id = c.execution_step_id;
  risk_check_id = c.risk_check_id;
  mode = OrderMode.simulated;
  broker_name = some BrokerName.none;
  broker_order_id = none;
  symbol = "SPY";
  side = side;
  quantity = quantity;
  status = OrderStatus.filled;
  submitted_at = some c.timestamp;
  filled_at = some c.timestamp;
  average_fill_price = some c.price;
  error_message = none;
  created_at = c.now;
}

abbrev new_trade : Call → OrderSide → Decimal → Decimal → Trade
new_trade c side quantity order_value = record {
  execution_step_id = c.execution_step_id;
  order_id = 0;
  timestamp = c.timestamp;
  symbol = "SPY";
  side = side;
  quantity = quantity;
  price = c.price;
  order_value = some order_value;
  fee = some Decimal.nought;
  portfolio_value_after_trade = none;
  created_at = c.now;
}

-- `(quantity * price).quantize(Decimal("0.0001"))`
abbrev pub value_of : Decimal → Decimal → Decimal
value_of quantity price = Decimal.quantize 4 (Decimal.mul quantity price)

-- The branches on the final action, for a quantity that is given.
fill : FinalAction → Decimal → Portfolio → Call → SimulationResult
fill FinalAction.hold quantity p c = untouched p
fill FinalAction.buy quantity p c =
    let order_value = value_of quantity c.price in
    record {
      order = some (filled_order c OrderSide.buy quantity);
      trade = some (new_trade c OrderSide.buy quantity order_value);
      portfolio = record p {
        cash = Decimal.quantize 4 (Decimal.sub p.cash order_value);
        position_symbol = some "SPY";
        position_quantity = some (Decimal.add (Decimal.or_zero p.position_quantity) quantity);
      };
    }
fill FinalAction.sell quantity p c =
    let order_value = value_of quantity c.price in
    record {
      order = some (filled_order c OrderSide.sell quantity);
      trade = some (new_trade c OrderSide.sell quantity order_value);
      portfolio = record p {
        cash = Decimal.quantize 4 (Decimal.add p.cash order_value);
        position_symbol = none;
        position_quantity = some Decimal.nought;
        current_position_value = some (Decimal.decimal 0 4);
      };
    }

fill_quantity : FinalAction → Option Decimal → Portfolio → Call → SimulationResult
unfolding fill
fill_quantity action none p c = untouched p
fill_quantity action (some quantity) p c = fill action quantity p c

-- `SimulationExecutionProvider.execute_if_applicable`
unfoldable pub execute_if_applicable : RiskResult → Portfolio → Call → SimulationResult
unfolding fill_quantity
execute_if_applicable r p c = fill_quantity r.final_action r.final_quantity p c
