-- ===== src/Execution/BrokerSync/Repeat.antt =====
-- A repeated answer of the broker changes nothing more
-- (backend/app/modules/execution/broker_sync.py).
use mathlib.Core.Path.{ap₂}
use trading_ai_framework.Prelude.{ℕ, ◌≡◌, ap, ◌∙◌, Option, some, List}
use trading_ai_framework.Domain.{OrderStatus}
use trading_ai_framework.Decimal
use trading_ai_framework.Decimal.{Decimal, add, sub}
use trading_ai_framework.Models.{Portfolio, Order, Trade}
use trading_ai_framework.Execution.Store.{Store}
use trading_ai_framework.Execution.Errors.{ok}
use trading_ai_framework.Execution.BrokerSync.{
  BrokerOrderResult, map_order_status, get_order, filled_quantity_by_order, sync_found,
  persist_order_sync, with_order, with_portfolio,
}

-- What is left of a fill after it was applied.
module _ (q : Decimal) (o : Order) (p : Portfolio) (t now : ℕ) (trades : List Trade) where
  abbrev missing : List Trade → Decimal
  missing ts = sub q (filled_quantity_by_order o.id ts)

-- What a second answer leaves as the first has left it.
pub record IsUnchanged (s s' : Store) : Type 0 where
  pub trades : s'.trades ≡ s.trades
  pub portfolio : s'.portfolio ≡ s.portfolio
  pub orders : s'.orders ≡ s.orders

module _ (id : ℕ) (r : BrokerOrderResult) (now : ℕ) where
  -- A call whose order and portfolio are found.
  answered :
      (t : ℕ) (s : Store) (o : Order) (p : Portfolio) (status : Option OrderStatus)
      → get_order id s.orders ≡ some o
      → s.portfolio ≡ some p
      → map_order_status r.status ≡ status
      → persist_order_sync id r t s ≡ ok (sync_found id r t s o p status)
  unfolding persist_order_sync
  answered t s o p status found held known =
      ap₂
        (λ (x : Option Order) (y : Option Portfolio). with_order x λ order.
          with_portfolio y λ p. ok (sync_found id r t s order p (map_order_status r.status)))
        found held
      ∙ ap (λ (z : Option OrderStatus). ok (sync_found id r t s o p z)) known
