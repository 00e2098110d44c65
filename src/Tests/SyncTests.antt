-- ===== src/Tests/SyncTests.antt =====
-- A paper order that is filled in part, and the broker's answer taken over twice
-- (backend/app/modules/execution/broker_sync.py).
use trading_ai_framework.Prelude.{some, none, [], ◌∷◌}
use trading_ai_framework.Domain.{OrderMode, BrokerName, OrderSide, OrderStatus}
use trading_ai_framework.Decimal.{decimal, of_ℕ}
use trading_ai_framework.Models.{Order}
use trading_ai_framework.Execution.Store.{Store}
use trading_ai_framework.Execution.BrokerSync.{BrokerOrderResult, BrokerOrderSyncResult, sync_found}
use trading_ai_framework.Tests.RunTests.{start, portfolio}

abbrev order : Order
order = record {
  id = 1;
  execution_step_id = 1;
  risk_check_id = 1;
  mode = OrderMode.paper_broker;
  broker_name = some BrokerName.alpaca;
  broker_order_id = some "b-1";
  symbol = "SPY";
  side = OrderSide.buy;
  quantity = of_ℕ 3;
  status = OrderStatus.submitted;
  submitted_at = some 4;
  filled_at = none;
  average_fill_price = none;
  error_message = none;
  created_at = 4;
}

abbrev paper : Store
paper = record start { orders = order ∷ [] }

abbrev answer : BrokerOrderResult
answer = record {
  broker_order_id = "b-1";
  status = "PARTIALLY_FILLED";
  symbol = "SPY";
  side = OrderSide.buy;
  quantity = of_ℕ 3;
  filled_quantity = of_ℕ 2;
  average_fill_price = some (decimal 31025 2);
  submitted_at = some 4;
  filled_at = none;
  error_message = none;
}

abbrev synced : BrokerOrderSyncResult × Store
synced = sync_found 1 answer 5 paper order portfolio (some OrderStatus.submitted)
