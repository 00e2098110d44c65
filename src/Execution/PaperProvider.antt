-- ===== src/Execution/PaperProvider.antt =====
-- Orders placed with the paper broker: backend/app/modules/execution/paper_provider.py. The broker is a
-- parameter, which answers an order or raises. The portfolio that the source updates in place is
-- returned; an order that has no row yet has the identity 0. The broker's quantities and prices have at
-- most the eight places of the columns that keep them, Numeric(19, 8).
pub mod Laws
pub mod Once
use trading_ai_framework.Prelude.{
  ℕ, Bool, true, false, not, ◌||◌, Option, none, some, List, [], ◌∷◌, ◌==◌, if◌then◌else◌,
}
use trading_ai_framework.Prelude.Text.{String, ◌<>◌, str, str_eq, is_in, lower}
use trading_ai_framework.Domain.{FinalAction, OrderMode, BrokerName, OrderSide, OrderStatus}
use trading_ai_framework.Decimal
use trading_ai_framework.Decimal.{Decimal}
use trading_ai_framework.Models.{Portfolio, Order, Trade}
use trading_ai_framework.Execution.Risk.{RiskResult}
use trading_ai_framework.Execution.Simulation.{value_of}
use trading_ai_framework.Execution.BrokerSync.{BrokerOrderResult}
use trading_ai_framework.Execution.Errors.{Result, ok, err, unexpected}

-- The arguments of `BrokerAdapter.place_order`; the order type is always MARKET.
pub record PlaceOrder : Type 0 where
  pub symbol : String
  pub side : OrderSide
  pub quantity : Decimal
  pub client_order_id : String

-- `PaperExecutionResult`, with the portfolio after the call
pub record PaperExecutionResult : Type 0 where
  pub order : Option Order
  pub trade : Option Trade
  pub broker_result : Option BrokerOrderResult
  pub rejected : Bool
  pub portfolio : Portfolio

-- What a call is given besides the result, the portfolio and the rows.
pub record PaperCall : Type 0 where
  pub experiment_id : ℕ
  pub execution_step_id : ℕ
  pub risk_check_id : ℕ
  pub symbol : String
  pub timestamp : ℕ
  pub now : ℕ

-- `_map_order_status`
unfoldable pub paper_order_status : String → OrderStatus
paper_order_status status =
    let normalized = lower status in
    if str_eq normalized "filled"
    then OrderStatus.filled
    else if is_in normalized ("accepted" ∷ "new" ∷ "pending_new" ∷ "partially_filled" ∷ [])
    then OrderStatus.submitted
    else if str_eq normalized "rejected"
    then OrderStatus.rejected
    else if is_in normalized ("canceled" ∷ "cancelled" ∷ "expired" ∷ [])
    then OrderStatus.cancelled
    else OrderStatus.failed

-- The branches of `_apply_fill_to_portfolio` on the side.
unfoldable pub filled_portfolio : OrderSide → BrokerOrderResult → Decimal → Portfolio → Portfolio
filled_portfolio OrderSide.buy r fill_value p = record p {
  cash = Decimal.quantize 4 (Decimal.sub p.cash fill_value);
  position_symbol = some r.symbol;
  position_quantity = some (Decimal.add (Decimal.or_zero p.position_quantity) r.filled_quantity);
}
filled_portfolio OrderSide.sell r fill_value p =
    let cash = Decimal.quantize 4 (Decimal.add p.cash fill_value) in
    let remaining = Decimal.sub (Decimal.or_zero p.position_quantity) r.filled_quantity in
    if Decimal.le remaining Decimal.nought
    then record p {
      cash = cash;
      position_symbol = none;
      position_quantity = some Decimal.nought;
      current_position_value = some (Decimal.decimal 0 4);
    }
    else record p {
      cash = cash;
      position_symbol = some r.symbol;
      position_quantity = some remaining;
    }

-- The trade of `_apply_fill_to_portfolio`.
abbrev pub paper_trade : PaperCall → BrokerOrderResult → Decimal → Trade
paper_trade c r fill_price = record {
  execution_step_id = c.execution_step_id;
  order_id = 0;
  timestamp = c.timestamp;
  symbol = r.symbol;
  side = r.side;
  quantity = r.filled_quantity;
  price = fill_price;
  order_value = some (value_of r.filled_quantity fill_price);
  fee = some Decimal.nought;
  portfolio_value_after_trade = none;
  created_at = c.now;
}

abbrev pub time_or : Option ℕ → ℕ → ℕ
time_or none now = now
time_or (some t) now = t

abbrev pub paper_order : PaperCall → BrokerOrderResult → Order
paper_order c r = record {
  id = 0;
  execution_step_id = c.execution_step_id;
  risk_check_id = c.risk_check_id;
  mode = OrderMode.paper_broker;
  broker_name = some BrokerName.alpaca;
  broker_order_id = some r.broker_order_id;
  symbol = r.symbol;
  side = r.side;
  quantity = r.quantity;
  status = paper_order_status r.status;
  submitted_at = some (time_or r.submitted_at c.timestamp);
  filled_at = r.filled_at;
  average_fill_price = r.average_fill_price;
  error_message = r.error_message;
  created_at = c.now;
}

abbrev pub is_rejected : OrderStatus → Bool
is_rejected OrderStatus.rejected = true
is_rejected _ = false

abbrev pub unfilled : PaperCall → BrokerOrderResult → Portfolio → PaperExecutionResult
unfilled c r p = record {
  order = some (paper_order c r);
  trade = none;
  broker_result = some r;
  rejected = is_rejected (paper_order_status r.status);
  portfolio = p;
}

-- The order of the broker's answer, with its fill where there is one.
unfoldable pub answered :
    PaperCall → BrokerOrderResult → Option Decimal → Portfolio → PaperExecutionResult
answered c r none p = unfilled c r p
answered c r (some fill_price) p =
    if Decimal.lt Decimal.nought r.filled_quantity
    then record (unfilled c r p) {
      trade = some (paper_trade c r fill_price);
      portfolio = filled_portfolio r.side r (value_of r.filled_quantity fill_price) p;
    }
    else unfilled c r p

-- The order of the step or of the risk check, whichever comes first.
unfoldable pub existing_order : ℕ → ℕ → List Order → Option Order
existing_order step_id risk_check_id [] = none
existing_order step_id risk_check_id (o ∷ orders) =
    let rest = existing_order step_id risk_check_id orders in
    if (o.execution_step_id == step_id) || (o.risk_check_id == risk_check_id) then some o else rest

-- `_side_for_action`
abbrev pub side_for_action : FinalAction → Option OrderSide
side_for_action FinalAction.buy = some OrderSide.buy
side_for_action FinalAction.sell = some OrderSide.sell
side_for_action FinalAction.hold = none

abbrev pub client_order_id : PaperCall → String
client_order_id c =
    "experiment-"
    <> str c.experiment_id
    <> "-step-"
    <> str c.execution_step_id
    <> "-risk-"
    <> str c.risk_check_id

abbrev pub nothing_placed : Portfolio → PaperExecutionResult
nothing_placed p = record {
  order = none;
  trade = none;
  broker_result = none;
  rejected = false;
  portfolio = p;
}

abbrev pub found_order : Order → Portfolio → PaperExecutionResult
found_order o p = record {
  order = some o;
  trade = none;
  broker_result = none;
  rejected = is_rejected o.status;
  portfolio = p;
}

abbrev is_hold : FinalAction → Bool
is_hold FinalAction.hold = true
is_hold _ = false

-- An approved BUY or SELL of a quantity above zero.
unfoldable pub submits : RiskResult → Decimal → Bool
submits r quantity =
    not (not r.approved || (is_hold r.final_action || Decimal.le quantity Decimal.nought))

module _ (broker : PlaceOrder → Result BrokerOrderResult) where
  on_answer : PaperCall → Portfolio → Result BrokerOrderResult → Result PaperExecutionResult
  on_answer c p (err e) = err e
  on_answer c p (ok r) = ok (answered c r r.average_fill_price p)

  on_side : Decimal → PaperCall → Portfolio → Option OrderSide → Result PaperExecutionResult
  unfolding on_answer
  on_side quantity c p none = err unexpected
  on_side quantity c p (some side) = on_answer c p (
      broker (record {
        symbol = c.symbol;
        side = side;
        quantity = quantity;
        client_order_id = client_order_id c;
      }))

  on_existing :
      FinalAction → Decimal → PaperCall → Portfolio → Option Order → Result PaperExecutionResult
  unfolding on_side
  on_existing action quantity c p (some o) = ok (found_order o p)
  on_existing action quantity c p none = on_side quantity c p (side_for_action action)

  on_quantity :
      RiskResult → Portfolio → PaperCall → List Order → Option Decimal → Result PaperExecutionResult
  unfolding on_existing
  on_quantity r p c orders none = ok (nothing_placed p)
  on_quantity r p c orders (some quantity) =
      if submits r quantity
      then on_existing r.final_action quantity c p
          (existing_order c.execution_step_id c.risk_check_id orders)
      else ok (nothing_placed p)

  -- `PaperExecutionProvider.execute_if_applicable`
  unfoldable pub place_if_applicable :
      RiskResult → Portfolio → PaperCall → List Order → Result PaperExecutionResult
  unfolding on_quantity
  place_if_applicable r p c orders = on_quantity r p c orders r.final_quantity
