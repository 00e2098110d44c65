-- ===== src/Execution/BrokerSync.antt =====
-- The status and the fills of paper orders, taken over from the broker:
-- backend/app/modules/execution/broker_sync.py, over the rows of one experiment. The broker is a
-- parameter; a call that raises commits nothing. The broker's quantities and prices have at most the
-- eight places of the columns that keep them, Numeric(19, 8).
pub mod Fill
pub mod OpenOrders
pub mod Repeat
use mathlib.Core.List.{foldl}
use trading_ai_framework.Prelude.{
  ℕ, suc, ◌+◌, Bool, true, false, ◌&&◌, Option, none, some, List, [], ◌∷◌, ◌++◌, map, leb, ◌==◌,
  is_some, if◌then◌else◌,
}
use trading_ai_framework.Prelude.Text.{String, str_eq, is_in, lower}
use trading_ai_framework.Domain.{OrderMode, BrokerName, OrderSide, OrderStatus, BrokerSyncStatus}
use trading_ai_framework.Decimal
use trading_ai_framework.Decimal.{Decimal}
use trading_ai_framework.Models.{Portfolio, Order, Trade, BrokerSyncLog}
use trading_ai_framework.Execution.Store.{Store}
use trading_ai_framework.Execution.Simulation.{value_of}
use trading_ai_framework.Execution.Errors.{
  Error, Result, ok, err, order_not_found, portfolio_not_found,
}

-- `BrokerOrderResult` of backend/app/modules/broker/broker_adapter.py, less its raw payload
pub record BrokerOrderResult : Type 0 where
  pub broker_order_id : String
  pub status : String
  pub symbol : String
  pub side : OrderSide
  pub quantity : Decimal
  pub filled_quantity : Decimal
  pub average_fill_price : Option Decimal
  pub submitted_at : Option ℕ
  pub filled_at : Option ℕ
  pub error_message : Option String

pub record BrokerOrderSyncResult : Type 0 where
  pub order_id : ℕ
  pub broker_order_id : String
  pub sync_status : BrokerSyncStatus
  pub broker_status : Option String
  pub message : String

-- `_map_order_status`
unfoldable pub map_order_status : String → Option OrderStatus
map_order_status status =
    let normalized = lower status in
    if str_eq normalized "filled"
    then some OrderStatus.filled
    else if is_in normalized ("accepted" ∷ "new" ∷ "pending_new" ∷ "partially_filled" ∷ [])
    then some OrderStatus.submitted
    else if str_eq normalized "rejected"
    then some OrderStatus.rejected
    else if is_in normalized ("canceled" ∷ "cancelled" ∷ "expired" ∷ [])
    then some OrderStatus.cancelled
    else none

-- Cash, symbol and quantity after a fill, and then the figures at its price.
abbrev priced : Portfolio → Decimal → ℕ → Portfolio
priced p fill_price now =
    let position_value = value_of (Decimal.or_zero p.position_quantity) fill_price in
    record p {
      current_price = some fill_price;
      current_position_value = some position_value;
      current_portfolio_value = some (Decimal.quantize 4 (Decimal.add p.cash position_value));
      updated_at = now;
    }

abbrev bought : Order → Portfolio → Decimal → Decimal → Portfolio
bought order p fill_quantity fill_value = record p {
  cash = Decimal.quantize 4 (Decimal.sub p.cash fill_value);
  position_symbol = some order.symbol;
  position_quantity = some (Decimal.add (Decimal.or_zero p.position_quantity) fill_quantity);
}

abbrev sold : Order → Portfolio → Decimal → Decimal → Portfolio
sold order p fill_quantity fill_value =
    let cash = Decimal.quantize 4 (Decimal.add p.cash fill_value) in
    let remaining = Decimal.sub (Decimal.or_zero p.position_quantity) fill_quantity in
    if Decimal.le remaining Decimal.nought
    then record p {
      cash = cash;
      position_symbol = none;
      position_quantity = some Decimal.nought;
      current_position_value = some (Decimal.decimal 0 4);
    }
    else record p {
      cash = cash;
      position_symbol = some order.symbol;
      position_quantity = some remaining;
    }

abbrev traded : OrderSide → Order → Portfolio → Decimal → Decimal → Portfolio
traded OrderSide.buy order p fill_quantity fill_value = bought order p fill_quantity fill_value
traded OrderSide.sell order p fill_quantity fill_value = sold order p fill_quantity fill_value

-- `_apply_fill_delta_to_portfolio`: the portfolio and the trade
unfoldable pub apply_fill_delta_to_portfolio :
    Order → Portfolio → Decimal → Decimal → ℕ → ℕ → Portfolio × Trade
apply_fill_delta_to_portfolio order p fill_quantity fill_price timestamp now =
    let fill_value = value_of fill_quantity fill_price in
    let after = priced (traded order.side order p fill_quantity fill_value) fill_price now in
    (
      after,
      record {
        execution_step_id = order.execution_step_id;
        order_id = order.id;
        timestamp = timestamp;
        symbol = order.symbol;
        side = order.side;
        quantity = fill_quantity;
        price = fill_price;
        order_value = some fill_value;
        fee = some Decimal.nought;
        portfolio_value_after_trade = after.current_portfolio_value;
        created_at = now;
      },
    )

-- `session.get(OrderModel, id)`, and an update of that row
unfoldable pub get_order : ℕ → List Order → Option Order
get_order id [] = none
get_order id (o ∷ orders) = let rest = get_order id orders in if o.id == id then some o else rest

unfoldable pub update_order : ℕ → (Order → Order) → List Order → List Order
update_order id f [] = []
update_order id f (o ∷ orders) = (if o.id == id then f o else o) ∷ update_order id f orders

abbrev pub of_order : ℕ → Decimal → Trade → Decimal
of_order id sum t = if t.order_id == id then Decimal.add sum t.quantity else sum

-- `TradeRepository.filled_quantity_by_order`
unfoldable pub filled_quantity_by_order : ℕ → List Trade → Decimal
filled_quantity_by_order id trades = foldl (of_order id) Decimal.nought trades

abbrev cash_of : Option Portfolio → Option Decimal
cash_of none = none
cash_of (some p) = some p.cash

-- `_sync_log`
abbrev sync_log : Order → Option Portfolio → ℕ → BrokerSyncStatus → Option String → BrokerSyncLog
sync_log order p now status error = record {
  execution_step_id = order.execution_step_id;
  timestamp = now;
  sync_status = status;
  local_cash = cash_of p;
  error_message = error;
  created_at = now;
}

-- `order.broker_order_id or ""`
abbrev pub text_or_empty : Option String → String
text_or_empty none = ""
text_or_empty (some text) = text

abbrev result_of : Order → BrokerSyncStatus → Option String → String → BrokerOrderSyncResult
result_of order status broker_status message = record {
  order_id = order.id;
  broker_order_id = text_or_empty order.broker_order_id;
  sync_status = status;
  broker_status = broker_status;
  message = message;
}

-- The order with what the broker says of it.
abbrev pub synced_order : OrderStatus → BrokerOrderResult → Order → Order
synced_order status r o = record o {
  status = status;
  average_fill_price = r.average_fill_price;
  filled_at = r.filled_at;
  error_message = r.error_message;
}

abbrev pub time_or : Option ℕ → ℕ → ℕ
time_or none now = now
time_or (some t) now = t

-- The portfolio and the trades after the part of the fill that is new, if there is a price.
abbrev pub apply_delta :
    Option Decimal → Decimal → Order → Portfolio → ℕ → ℕ → List Trade → Portfolio × List Trade
apply_delta none fill_delta order p timestamp now trades = (p, trades)
apply_delta (some price) fill_delta order p timestamp now trades =
    let (after, trade) = apply_fill_delta_to_portfolio order p fill_delta price timestamp now in
    if Decimal.lt Decimal.nought fill_delta then (after, trades ++ (trade ∷ [])) else (p, trades)

-- `_persist_order_sync`, once the order and the portfolio are found and the status is mapped.
unfoldable pub sync_found :
    ℕ
    → BrokerOrderResult
    → ℕ
    → Store
    → Order
    → Portfolio
    → Option OrderStatus
    → BrokerOrderSyncResult × Store
sync_found id r now s order p none =
    let message : String = "Broker returned an unknown order status." in
    (
      result_of order BrokerSyncStatus.failed (some r.status) message,
      record s {
        sync_logs =
            s.sync_logs
            ++ (sync_log order (some p) now BrokerSyncStatus.failed (some message) ∷ []);
      },
    )
sync_found id r now s order p (some status) =
    let fill_delta = Decimal.sub r.filled_quantity (filled_quantity_by_order order.id s.trades) in
    let (portfolio, trades) =
      apply_delta r.average_fill_price fill_delta order p (time_or r.filled_at now) now s.trades in
    (
      result_of order BrokerSyncStatus.success (some r.status) "Broker order status synced.",
      record s {
        orders = update_order id (synced_order status r) s.orders;
        portfolio = some portfolio;
        trades = trades;
        sync_logs =
            s.sync_logs ++ (sync_log order (some portfolio) now BrokerSyncStatus.success none ∷ []);
      },
    )

abbrev pub with_order {ℓ} : {A : Type ℓ} → Option Order → (Order → Result A) → Result A
with_order none run = err order_not_found
with_order (some o) run = run o

abbrev pub with_portfolio {ℓ} : {A : Type ℓ} → Option Portfolio → (Portfolio → Result A) → Result A
with_portfolio none run = err portfolio_not_found
with_portfolio (some p) run = run p

-- `_persist_order_sync`
unfoldable pub persist_order_sync :
    ℕ → BrokerOrderResult → ℕ → Store → Result (BrokerOrderSyncResult × Store)
persist_order_sync id r now s = with_order (get_order id s.orders) λ order.
    with_portfolio s.portfolio λ p. ok (sync_found id r now s order p (map_order_status r.status))

-- `_persist_sync_failure`
unfoldable pub persist_sync_failure :
    ℕ → String → ℕ → Store → Result (BrokerOrderSyncResult × Store)
persist_sync_failure id message now s = with_order (get_order id s.orders) λ order. ok (
  result_of order BrokerSyncStatus.failed none message,
  record s {
    sync_logs =
        s.sync_logs ++ (sync_log order s.portfolio now BrokerSyncStatus.failed (some message) ∷ []);
  },
)
