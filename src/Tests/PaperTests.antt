-- ===== src/Tests/PaperTests.antt =====
-- Paper steps of backend/app/modules/execution/paper_step_runner.py with a daily Buy-and-Hold
-- experiment, a broker that fills what it is sent, and with a provider of market data that fails.
use trading_ai_framework.Prelude.{true, false, ◌≡◌, refl, some, none, [], ◌∷◌}
use trading_ai_framework.Prelude.Text.{String, upper, strip}
use trading_ai_framework.Domain.{ExperimentMode, TriggerType, FinalAction, OrderSide}
use trading_ai_framework.Decimal
use trading_ai_framework.Decimal.{decimal}
use trading_ai_framework.Models.{Experiment, DailyBar}
use trading_ai_framework.Experiments.Validators.{
  Settings, is_supported_equity_symbol, normalize_symbol,
}
use trading_ai_framework.Execution.Store.{Store, has_running_step, get_step}
use trading_ai_framework.Execution.Errors.{Error, Result, ok, err, market_data_failed, agent_failed}
use trading_ai_framework.Execution.Orchestrator.{create_running_step}
use trading_ai_framework.Execution.BrokerSync.{BrokerOrderResult, map_order_status}
use trading_ai_framework.Execution.PaperProvider.{
  PlaceOrder, PaperCall, PaperExecutionResult, paper_order_status, paper_order, answered,
  place_if_applicable, submits, existing_order,
}
use trading_ai_framework.Execution.PaperProvider.Once.{NotPlaced, place_if_applicable-NotPlaced}
use trading_ai_framework.Execution.Risk.{RiskResult, RuleReason, trade, rule}
use trading_ai_framework.Execution.PaperProvider.Laws.{
  or_failed, paper_order_status-eq-map_order_status,
}
use trading_ai_framework.Execution.PaperSteps.{Outside}
use trading_ai_framework.Execution.PaperRunner.{
  run_next_paper_step, run_event_step, check_paper_step, check_state, check_found,
  is_supported_experiment,
}
use trading_ai_framework.Execution.PaperArtifacts.{
  run_paper_artifacts, given, run_kind, run_daily_step_artifacts, with_rows,
}
use trading_ai_framework.Execution.PaperRunner.Event.{IsRefused, run_event_step-blocks}
use trading_ai_framework.Execution.StepRunner.{Ended, raised, other}
use trading_ai_framework.Tests.RunTests.{start, experiment, portfolio, bars, clock, bar}

abbrev paper_experiment : Experiment
paper_experiment = record experiment { mode = ExperimentMode.paper_trading }

abbrev paper_start : Store
paper_start = record start { experiment = some paper_experiment }

abbrev settings : Settings
settings = record {
  paper_trading_test_mode_enabled = false;
  scadsai_default_model = "model";
  scadsai_allowed_model_list = "model" ∷ [];
}

-- A broker that fills every order at 300.
abbrev fill : PlaceOrder → Result BrokerOrderResult
fill o = ok (record {
  broker_order_id = "b1";
  status = "filled";
  symbol = o.symbol;
  side = o.side;
  quantity = o.quantity;
  filled_quantity = o.quantity;
  average_fill_price = some (decimal 30000 2);
  submitted_at = some 5;
  filled_at = some 6;
  error_message = none;
})

abbrev with_bar : Result DailyBar → Outside
with_bar latest = record {
  broker = fill;
  get_latest_bar = λ symbol. latest;
  load_range = λ from to symbol. ok bars;
  load_session_until = λ date until symbol. err market_data_failed;
  agent = λ event_id context. err agent_failed;
  default_model = "model";
  to_new_york = λ t. t;
}

abbrev outside : Outside
outside = with_bar (ok (bar 3 (decimal 30000 2)))

abbrev broken : Outside
broken = with_bar (err market_data_failed)

abbrev describe : Error → String
describe e = "failed"

abbrev first : Store × Ended
first =
    run_next_paper_step outside clock settings true describe none TriggerType.manual none
      paper_start

-- The step that an event leaves when the market data cannot be loaded.
abbrev stuck : Store
stuck = (create_running_step TriggerType.event 0 0 paper_start).1

run_event_step-blocks_example :
    (run_event_step broken clock settings true none 7 none paper_start
      ≡ (stuck, raised (other market_data_failed)))
    × (has_running_step stuck.steps ≡ true)
    × IsRefused stuck (
        run_next_paper_step outside clock settings true describe none TriggerType.manual none stuck)
unfolding check_paper_step check_state check_found is_supported_experiment
    is_supported_equity_symbol normalize_symbol upper strip has_running_step run_paper_artifacts
    given create_running_step run_kind run_daily_step_artifacts with_rows get_step
run_event_step-blocks_example =
    run_event_step-blocks broken clock settings true 7 none paper_start stuck market_data_failed
      outside clock settings true describe none TriggerType.manual none refl refl

paper_order_status-eq-map_order_status_example :
    paper_order_status "partially_filled" ≡ or_failed (map_order_status "partially_filled")
paper_order_status-eq-map_order_status_example =
    paper_order_status-eq-map_order_status "partially_filled"

-- An order of three shares, which the broker fills, and a second call for its step.
abbrev buy_three : RiskResult
buy_three =
    trade FinalAction.buy (Decimal.of_ℕ 3) (decimal 30000 2)
      (rule RuleReason.default_whole_share_buy)

abbrev call : PaperCall
call = record {
  experiment_id = 1;
  execution_step_id = 1;
  risk_check_id = 1;
  symbol = "SPY";
  timestamp = 4;
  now = 4;
}

abbrev fill_result : BrokerOrderResult
fill_result = record {
  broker_order_id = "b1";
  status = "filled";
  symbol = "SPY";
  side = OrderSide.buy;
  quantity = Decimal.of_ℕ 3;
  filled_quantity = Decimal.of_ℕ 3;
  average_fill_price = some (decimal 30000 2);
  submitted_at = some 5;
  filled_at = some 6;
  error_message = none;
}

abbrev placed : PaperExecutionResult
placed = answered call fill_result (some (decimal 30000 2)) portfolio

broker_asked : place_if_applicable fill buy_three portfolio call [] ≡ ok placed
unfolding place_if_applicable submits existing_order
broker_asked = refl

place_if_applicable-NotPlaced_example : NotPlaced portfolio (
    place_if_applicable fill buy_three portfolio call
      (record (paper_order call fill_result) { id = 1 } ∷ []))
unfolding answered
place_if_applicable-NotPlaced_example =
    place_if_applicable-NotPlaced fill fill buy_three buy_three portfolio portfolio call call []
      placed fill_result (paper_order call fill_result) 1 broker_asked refl refl refl
