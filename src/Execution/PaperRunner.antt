-- ===== src/Execution/PaperRunner.antt =====
-- A paper step: `PaperTradingStepRunner` of backend/app/modules/execution/paper_step_runner.py, its
-- guards, its two ways to be run and its failures. `connect` is the message of the exception with which
-- the broker adapter cannot be made, if there is one; `lock` says whether the advisory lock was free;
-- `describe` gives the text of an exception.
pub mod Ending
pub mod Event
pub mod Refused
use trading_ai_framework.Prelude.{
  ℕ, Bool, true, false, not, ◌&&◌, ◌||◌, Option, none, some, List, [], ◌∷◌, ◌++◌, if◌then◌else◌,
}
use trading_ai_framework.Prelude.Text.{String, str_eq}
use trading_ai_framework.Domain.{
  ExperimentMode, ExperimentStatus, StrategyType, TradingFrequency, TriggerType,
  ExecutionStepStatus, BrokerSyncStatus, SystemEventType,
}
use trading_ai_framework.Models.{Experiment, StrategyConfig, BrokerSyncLog}
use trading_ai_framework.Experiments.{
  AppError, not_found, invalid_status, invalid_experiment_configuration, step_already_running,
}
use trading_ai_framework.Experiments.Validators.{Settings, is_supported_equity_symbol}
use trading_ai_framework.Execution.Store.{
  Store, has_running_step, has_step_for_scheduled_slot, is_scheduled,
}
use trading_ai_framework.Execution.Errors.{
  Error, agent_misconfigured, market_data_missing, market_data_failed,
}
use trading_ai_framework.Execution.RunEnd.{with_status, fail_current}
use trading_ai_framework.Execution.Orchestrator.{create_running_step}
use trading_ai_framework.Execution.StepRunner.{
  StepRunResult, RunStatus, step_status, Ended, returned, raised, application, other,
  is_running_status,
}
use trading_ai_framework.Execution.PaperProvider.{time_or}
use trading_ai_framework.Execution.PaperExecution.{PaperStepFailure, failure_event}
use trading_ai_framework.Execution.PaperSteps.{Outside, ArtifactsEnd, ended, broke}
use trading_ai_framework.Execution.PaperArtifacts.{run_paper_artifacts}

-- What is supported, by strategy and frequency.
abbrev pub supports : Settings → TriggerType → String → StrategyType → TradingFrequency → Bool
supports settings trigger symbol StrategyType.buy_and_hold TradingFrequency.daily =
    is_supported_equity_symbol symbol
supports settings trigger symbol StrategyType.moving_average TradingFrequency.daily =
    is_supported_equity_symbol symbol
supports settings trigger symbol StrategyType.agentic_ai TradingFrequency.daily =
    is_supported_equity_symbol symbol
supports settings trigger symbol StrategyType.agentic_ai TradingFrequency.hourly =
    is_supported_equity_symbol symbol
supports settings trigger symbol StrategyType.opening_range_breakout
      TradingFrequency.intraday_5_min =
    is_supported_equity_symbol symbol && is_scheduled trigger
supports settings trigger symbol StrategyType.paper_trading_smoke_test TradingFrequency.test_1_min =
    settings.paper_trading_test_mode_enabled && (is_scheduled trigger && str_eq symbol "SPY")
supports settings trigger symbol _ _ = false

abbrev pub is_paper : ExperimentMode → Bool
is_paper ExperimentMode.paper_trading = true
is_paper _ = false

-- `_is_supported_experiment`
unfoldable pub is_supported_experiment : Settings → TriggerType → Experiment → Bool
is_supported_experiment settings trigger e =
    is_paper e.mode && supports settings trigger e.asset_symbol e.strategy_type e.trading_frequency

-- `trigger_type not in {MANUAL, SCHEDULED, EVENT}`
abbrev pub is_historical_trigger : TriggerType → Bool
is_historical_trigger TriggerType.historical = true
is_historical_trigger _ = false

-- The guards with the experiment and its configuration at hand, and the error of the first that fails.
unfoldable pub check_found :
    Settings → TriggerType → Bool → ℕ → Experiment → Store → Option AppError
check_found settings trigger lock slot e s =
    if not (is_supported_experiment settings trigger e)
    then some (
        invalid_experiment_configuration
          "Paper trading supports configured equity symbols for Buy-and-Hold daily, Moving Average daily, and Agentic AI daily/hourly; Opening Range Breakout and smoke-test remain SPY-only.")
    else if not lock || has_running_step s.steps
    then some (step_already_running "Experiment already has a step in progress.")
    else if is_scheduled trigger && has_step_for_scheduled_slot slot s.steps
    then some
        (step_already_running "Experiment already has a step for the scheduled paper trading slot.")
    else none

-- The guard on the status, and that the configuration is there.
unfoldable pub check_state :
    Settings → TriggerType → Bool → ℕ → Experiment → Option StrategyConfig → Store → Option AppError
check_state settings trigger lock slot e config s =
    if not (is_running_status e.status)
    then some (invalid_status "Experiment must be RUNNING to execute the next step.")
    else elim config [
      | none ↦
          some (invalid_experiment_configuration "Experiment is missing strategy configuration.")
      | some c ↦ check_found settings trigger lock slot e s
    ]

-- All the guards of `_validate_and_create_step`.
unfoldable pub check_paper_step : Settings → TriggerType → Bool → ℕ → Store → Option AppError
check_paper_step settings trigger lock slot s =
    if is_historical_trigger trigger
    then some (
        invalid_experiment_configuration
          "Paper trading supports manual, scheduled, and event execution only.")
    else elim s.experiment [
      | none ↦ some (not_found "Experiment was not found.")
      | some e ↦ check_state settings trigger lock slot e s.strategy_config s
    ]

-- A log of the failed submission of an order.
abbrev pub submit_log : ℕ → ℕ → String → BrokerSyncLog
submit_log step_id now message = record {
  execution_step_id = step_id;
  timestamp = now;
  sync_status = BrokerSyncStatus.failed;
  local_cash = none;
  error_message = some message;
  created_at = now;
}

abbrev pub is_order_failed : SystemEventType → Bool
is_order_failed SystemEventType.order_failed = true
is_order_failed _ = false

abbrev pub failure_logs :
    SystemEventType → Option ℕ → ℕ → String → List BrokerSyncLog → List BrokerSyncLog
failure_logs event_type none now message logs = logs
failure_logs event_type (some step_id) now message logs =
    if is_order_failed event_type then logs ++ (submit_log step_id now message ∷ []) else logs

-- `_persist_failure`
unfoldable pub persist_paper_failure :
    String → Bool → SystemEventType → Option ℕ → ℕ → Store → Store
persist_paper_failure message fail_experiment event_type step_id now s =
    let steps = fail_current message now step_id s.steps in
    elim s.experiment [
      | none ↦ record s { steps = steps }
      | some e ↦ record s {
        steps = steps;
        experiment =
            some (if fail_experiment then with_status ExperimentStatus.failed now e else e);
        events = s.events ++ (failure_event step_id now event_type message ∷ []);
        sync_logs = failure_logs event_type step_id now message s.sync_logs;
      }
    ]

abbrev pub paper_done : String → ℕ → StepRunResult
paper_done message id = record {
  execution_step_id = some id;
  status = step_status ExecutionStepStatus.completed;
  message = message;
}

abbrev pub paper_failed : PaperStepFailure → ℕ → StepRunResult
paper_failed failure id = record {
  execution_step_id = some id;
  status = step_status ExecutionStepStatus.failed;
  message = failure.message;
}

-- The result of a step whose artifacts have ended.
abbrev pub paper_result : String → ℕ → Option PaperStepFailure → StepRunResult
paper_result message id none = paper_done message id
paper_result message id (some failure) = paper_failed failure id

module _ (describe : Error → String) where
  -- The `except` clauses of `run_next_step` for an exception that is not the application's.
  unfoldable pub handle : Error → Option ℕ → ℕ → Store → Store × Ended
  handle agent_misconfigured id now s = (
    persist_paper_failure (describe agent_misconfigured) true SystemEventType.experiment_failed id
        now s,
    raised (application (invalid_experiment_configuration (describe agent_misconfigured))),
  )
  handle market_data_missing id now s = (
    persist_paper_failure (describe market_data_missing) false SystemEventType.market_data_missing
        id now s,
    raised (other market_data_missing),
  )
  handle market_data_failed id now s = (
    persist_paper_failure (describe market_data_failed) false SystemEventType.market_data_missing id
        now s,
    raised (other market_data_failed),
  )
  handle e id now s = (
    persist_paper_failure (describe e) false SystemEventType.order_failed id now s,
    raised (other e),
  )

  unfoldable pub end_next : ℕ → ℕ → ArtifactsEnd → Store × Ended
  end_next id now (ended failure s) =
      (s, returned (paper_result "Paper trading execution step completed." id failure))
  end_next id now (broke e s) = handle e (some id) now s

-- The end of `run_event_step`, which catches nothing.
unfoldable pub end_event : ℕ → ArtifactsEnd → Store × Ended
end_event id (ended failure s) =
    (s, returned (paper_result "Event-triggered paper trading step completed." id failure))
end_event id (broke e s) = (s, raised (other e))

module _ (outside : Outside) (clock : ℕ → ℕ) (settings : Settings) (lock : Bool) where
  -- The new step and its artifacts, unless a guard fails.
  run_checked :
      TriggerType
      → ℕ
      → Option ℕ
      → Store
      → (ℕ → ArtifactsEnd → Store × Ended)
      → Option AppError
      → Store × Ended
  run_checked trigger slot event_id s end (some e) = (s, raised (application e))
  run_checked trigger slot event_id s end none =
      let (id, created) = create_running_step trigger slot (clock 0) s in
      end id (run_paper_artifacts outside clock id created event_id)

  run_connected :
      TriggerType
      → ℕ
      → Option ℕ
      → Store
      → (ℕ → ArtifactsEnd → Store × Ended)
      → Option String
      → Store × Ended
  unfolding run_checked
  run_connected trigger slot event_id s end (some message) =
      (s, raised (application (invalid_experiment_configuration message)))
  run_connected trigger slot event_id s end none =
      run_checked trigger slot event_id s end (check_paper_step settings trigger lock slot s)

  -- `run_next_step`
  unfoldable pub run_next_paper_step :
      (Error → String) → Option String → TriggerType → Option ℕ → Store → Store × Ended
  unfolding run_connected
  run_next_paper_step describe connect trigger scheduled_for s =
      run_connected trigger (time_or scheduled_for (clock 0)) none s
        (λ id. end_next describe id (clock 3)) connect

  -- `run_event_step`
  unfoldable pub run_event_step : Option String → ℕ → Option ℕ → Store → Store × Ended
  unfolding run_connected
  run_event_step connect event_id scheduled_for s =
      run_connected TriggerType.event (time_or scheduled_for (clock 0)) (some event_id) s end_event
        connect
