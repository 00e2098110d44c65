-- ===== src/Execution/BrokerSync/OpenOrders.antt =====
-- The synchronisation of all open paper orders: `sync_open_orders` of
-- backend/app/modules/execution/broker_sync.py. The broker is a parameter.
use trading_ai_framework.Prelude.{
  ℕ, suc, Bool, true, false, ◌&&◌, Option, none, some, List, [], ◌∷◌, leb, is_some, if◌then◌else◌,
}
use trading_ai_framework.Prelude.Text.{String}
use trading_ai_framework.Domain.{OrderMode, BrokerName, OrderStatus, BrokerSyncStatus}
use trading_ai_framework.Models.{Order}
use trading_ai_framework.Execution.Store.{Store}
use trading_ai_framework.Execution.Errors.{Error, Result, ok, err}
use trading_ai_framework.Execution.BrokerSync.{
  BrokerOrderResult, BrokerOrderSyncResult, persist_order_sync, persist_sync_failure, text_or_empty,
  time_or,
}

-- What the broker answers when it is asked for an order, or the message of its error.
pub data Answer : Type 0 where
  answered : BrokerOrderResult → Answer
  provider_error : String → Answer

abbrev pub is_open_paper : Order → Bool
is_open_paper o =
    is_paper o.mode
    && (is_alpaca o.broker_name && (is_submitted o.status && is_some o.broker_order_id))
  where
    is_paper : OrderMode → Bool
    is_paper OrderMode.paper_broker = true
    is_paper OrderMode.simulated = false

    is_alpaca : Option BrokerName → Bool
    is_alpaca none = false
    is_alpaca (some BrokerName.alpaca) = true
    is_alpaca (some BrokerName.none) = false

    is_submitted : OrderStatus → Bool
    is_submitted OrderStatus.submitted = true
    is_submitted _ = false

abbrev submission : Order → ℕ
submission o = time_or o.submitted_at 0

insert_by_submission : Order → List Order → List Order
insert_by_submission x [] = x ∷ []
insert_by_submission x (y ∷ ys) =
    let later = y ∷ insert_by_submission x ys in
    if leb (submission x) (submission y) then x ∷ y ∷ ys else later

-- `OrderRepository.list_open_paper_orders`, in the order of submission; a paper order that is
-- submitted has a time.
unfoldable pub list_open_paper_orders : List Order → List Order
unfolding insert_by_submission
list_open_paper_orders [] = []
list_open_paper_orders (o ∷ orders) =
    let rest = list_open_paper_orders orders in
    if is_open_paper o then insert_by_submission o rest else rest

-- `BrokerSyncRunResult`, with the rows after the run, and the error that cut it short, if any.
pub record BrokerSyncRunResult : Type 0 where
  pub synced : List BrokerOrderSyncResult
  pub failed : List BrokerOrderSyncResult
  pub store : Store
  pub error : Option Error

abbrev add_result :
    BrokerSyncStatus → BrokerOrderSyncResult → BrokerSyncRunResult → BrokerSyncRunResult
add_result BrokerSyncStatus.failed result run = record run { failed = result ∷ run.failed }
add_result _ result run = record run { synced = result ∷ run.synced }

abbrev go_on :
    Store
    → Result (BrokerOrderSyncResult × Store)
    → (Store → BrokerSyncRunResult)
    → BrokerSyncRunResult
go_on s (err e) rest = record { synced = []; failed = []; store = s; error = some e }
go_on s (ok (result, s')) rest = add_result result.sync_status result (rest s')

abbrev persist_answer : ℕ → Answer → ℕ → Store → Result (BrokerOrderSyncResult × Store)
persist_answer id (answered r) now s = persist_order_sync id r now s
persist_answer id (provider_error message) now s = persist_sync_failure id message now s

module _ (clock : ℕ → ℕ) (get_order_status : ℕ → String → Answer) where
  -- The loop of `sync_open_orders`, at the n-th order: the broker's n-th answer, and the clock's.
  unfoldable pub sync_orders : ℕ → List Order → Store → BrokerSyncRunResult
  sync_orders n [] s = record { synced = []; failed = []; store = s; error = none }
  sync_orders n (o ∷ orders) s =
      go_on s
        (persist_answer o.id (get_order_status n (text_or_empty o.broker_order_id)) (clock n) s)
        (λ s'. sync_orders (suc n) orders s')

  -- `sync_open_orders`
  unfoldable pub sync_open_orders : Store → BrokerSyncRunResult
  sync_open_orders s = sync_orders 0 (list_open_paper_orders s.orders) s
