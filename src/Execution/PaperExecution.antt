-- ===== src/Execution/PaperExecution.antt =====
-- The second transaction of a paper step: the order is placed and the figures are written
-- (`_run_broker_execution`, `_persist_snapshot_and_metrics` and `_controlled_order_failure` of
-- backend/app/modules/execution/paper_step_runner.py).
pub mod Laws
use trading_ai_framework.Prelude.{
  ℕ, Bool, true, false, ◌&&◌, Option, none, some, List, [], ◌∷◌, ◌++◌, length, ◌==◌, if◌then◌else◌,
}
use trading_ai_framework.Prelude.Text.{String, str_eq, is_in, lower}
use trading_ai_framework.Domain.{FinalAction, ExperimentStatus, EventLevel, SystemEventType}
use trading_ai_framework.Decimal
use trading_ai_framework.Decimal.{Decimal}
use trading_ai_framework.Models.{Portfolio, Order, Experiment, ExecutionStep, SystemEventLog}
use trading_ai_framework.Execution.Risk.{RiskResult}
use trading_ai_framework.Execution.Metrics.{MetricResult, calculate}
use trading_ai_framework.Execution.Store.{
  Store, next_id, get_step, update_step, list_by_experiment, total_values,
}
use trading_ai_framework.Execution.Errors.{Result, ok, err, missing_state}
use trading_ai_framework.Execution.RunEnd.{new_event, with_status, fail_step}
use trading_ai_framework.Execution.Orchestrator.{
  revalue, shown_value, new_snapshot, new_metrics, add_trade, complete_step, or_division,
}
use trading_ai_framework.Execution.BrokerSync.{BrokerOrderResult}
use trading_ai_framework.Execution.PaperProvider.{
  PlaceOrder, PaperCall, PaperExecutionResult, place_if_applicable,
}

-- `PaperStepFailure`, less the broker's answer, which goes into the JSON of the event
pub record PaperStepFailure : Type 0 where
  pub error_code : String
  pub message : String

-- `_requires_broker_submission`
abbrev is_trade : FinalAction → Bool
is_trade FinalAction.hold = false
is_trade _ = true

abbrev is_above_zero : Option Decimal → Bool
is_above_zero none = false
is_above_zero (some q) = Decimal.lt Decimal.nought q

unfoldable pub requires_broker_submission : RiskResult → Bool
requires_broker_submission r =
    r.approved && (is_trade r.final_action && is_above_zero r.final_quantity)

-- `_persist_snapshot_and_metrics`; the value after the trade is set where the trade is added.
unfoldable pub persist_snapshot_and_metrics :
    ℕ → Experiment → Portfolio → Decimal → ℕ → Store → Result Store
persist_snapshot_and_metrics step_id experiment portfolio price timestamp s =
    let revalued = revalue portfolio price timestamp in
    or_division
      (calculate experiment.initial_capital (shown_value portfolio price)
        (total_values (list_by_experiment s.snapshots)) (length s.trades))
      (λ (figures : MetricResult). record s {
        portfolio = some revalued;
        snapshots = s.snapshots ++ (new_snapshot revalued price step_id timestamp timestamp ∷ []);
        metrics = s.metrics ++ (new_metrics figures step_id timestamp timestamp ∷ []);
      })

-- `session.add` of an order: a row that is there already stays as it is.
abbrev pub store_order : Option Order → List Order → List Order
store_order none orders = orders
store_order (some o) orders =
    if o.id == 0 then orders ++ (record o { id = next_id orders } ∷ []) else orders

abbrev pub order_row_id : Option Order → List Order → ℕ
order_row_id none orders = 0
order_row_id (some o) orders = if o.id == 0 then next_id orders else o.id

-- `_controlled_order_failure`
unfoldable pub failure_of_status : String → Option PaperStepFailure
failure_of_status status =
    let normalized = lower status in
    if str_eq normalized "rejected"
    then some
        (record { error_code = "ORDER_REJECTED"; message = "Broker rejected the paper order." })
    else if is_in normalized (
        "accepted" ∷ "new" ∷ "pending_new" ∷ "partially_filled" ∷ "filled" ∷ "canceled"
        ∷ "cancelled" ∷ "expired" ∷ [])
    then none
    else some (record {
      error_code = "ORDER_FAILED";
      message = "Broker returned an unsupported order status.";
    })

abbrev pub controlled_order_failure : Option BrokerOrderResult → Option PaperStepFailure
controlled_order_failure none = none
controlled_order_failure (some r) = failure_of_status r.status

abbrev pub is_experiment_failed : SystemEventType → Bool
is_experiment_failed SystemEventType.experiment_failed = true
is_experiment_failed _ = false

-- `_failure_event`
abbrev pub failure_event : Option ℕ → ℕ → SystemEventType → String → SystemEventLog
failure_event step_id now event_type message =
    new_event step_id now EventLevel.error event_type
      (if is_experiment_failed event_type then "Experiment failed." else message)

-- The end of the transaction: the step is completed, or it fails with the experiment.
unfoldable pub settle_step :
    ℕ → ℕ → Experiment → Option PaperStepFailure → Store → Option PaperStepFailure × Store
settle_step step_id now e none s =
    (none, record s { steps = update_step step_id (complete_step now) s.steps })
settle_step step_id now e (some failure) s = (
  some failure,
  record s {
    steps = update_step step_id (fail_step failure.message now) s.steps;
    experiment = some (with_status ExperimentStatus.failed now e);
    events =
        s.events
        ++ (failure_event (some step_id) now SystemEventType.experiment_failed failure.message
            ∷ []);
  },
)

infixl 5 ◌>>=◌
abbrev pub ◌>>=◌ {ℓ κ} : {A : Type ℓ} {B : Type κ} → Result A → (A → Result B) → Result B
ok a >>= f = f a
err e >>= f = err e

-- The rows of a placed order and of its trade.
abbrev pub placed_rows : Decimal → PaperExecutionResult → Store → Store
placed_rows price placed s = record s {
  orders = store_order placed.order s.orders;
  trades =
      add_trade placed.trade (order_row_id placed.order s.orders)
        (shown_value placed.portfolio price) s.trades;
}

-- The transaction from the broker's answer on.
unfoldable pub write_placed :
    Decimal
    → ℕ
    → ℕ
    → Experiment
    → Store
    → PaperExecutionResult
    → Result (Option PaperStepFailure × Store)
write_placed price step_id now e s placed = do
  s' ←
      persist_snapshot_and_metrics step_id e placed.portfolio price now (placed_rows price placed s)
  ok (settle_step step_id now e (controlled_order_failure placed.broker_result) s')

module _ (broker : PlaceOrder → Result BrokerOrderResult) where
  abbrev pub call_of : ℕ → String → ℕ → ℕ → Experiment → PaperCall
  call_of risk_check_id symbol step_id now e = record {
    experiment_id = e.id;
    execution_step_id = step_id;
    risk_check_id = risk_check_id;
    symbol = symbol;
    timestamp = now;
    now = now;
  }

  -- The transaction with the rows that it needs at hand.
  unfoldable pub execute_found :
      RiskResult
      → ℕ
      → Decimal
      → String
      → ℕ
      → ℕ
      → Experiment
      → Portfolio
      → Store
      → Result (Option PaperStepFailure × Store)
  execute_found risk risk_check_id price symbol step_id now e p s =
      place_if_applicable broker risk p (call_of risk_check_id symbol step_id now e) s.orders
      >>= write_placed price step_id now e s

  execute_rows :
      RiskResult
      → ℕ
      → Decimal
      → String
      → ℕ
      → ℕ
      → Store
      → Option Experiment
      → Option Portfolio
      → Option ExecutionStep
      → Result (Option PaperStepFailure × Store)
  execute_rows risk risk_check_id price symbol step_id now s (some e) (some p) (some step) =
      execute_found risk risk_check_id price symbol step_id now e p s
  execute_rows risk risk_check_id price symbol step_id now s _ _ _ = err missing_state

  -- `_run_broker_execution`
  unfoldable pub run_broker_execution :
      RiskResult → ℕ → Decimal → String → ℕ → ℕ → Store → Result (Option PaperStepFailure × Store)
  unfolding execute_rows
  run_broker_execution risk risk_check_id price symbol step_id now s =
      execute_rows risk risk_check_id price symbol step_id now s s.experiment s.portfolio
        (get_step step_id s.steps)
