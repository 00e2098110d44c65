-- ===== src/Execution/StepRunner.antt =====
-- One bar of a simulation on demand: `HistoricalStepRunner` of
-- backend/app/modules/execution/step_runner.py. In the n-th reading of one call, `clock n` is the time
-- and `load n start end` gives the bars of the range, or `none` where the provider raises; `lock` says
-- whether the advisory lock was free. The agent is a parameter.
pub mod OneBar
pub mod WholeRun
pub mod Outcomes
pub mod Ending
pub mod Progress
use trading_ai_framework.Prelude.{
  ℕ, suc, Bool, true, false, not, ◌&&◌, ◌||◌, Option, none, some, List, [], ◌∷◌, ◌++◌, length, leb,
  ◌==◌, get_elem?, if◌then◌else◌,
}
use trading_ai_framework.Prelude.Text.{String, str_eq}
use trading_ai_framework.Domain.{
  ExperimentMode, ExperimentStatus, StrategyType, TradingFrequency, TriggerType,
  ExecutionStepStatus, EventLevel, SystemEventType,
}
use trading_ai_framework.Decimal.{Decimal}
use trading_ai_framework.Models.{Experiment, StrategyConfig, DailyBar}
use trading_ai_framework.Agents.Types.{AgentContext, AgentRunResult}
use trading_ai_framework.Experiments.{
  AppError, not_found, invalid_status, invalid_experiment_configuration, step_already_running,
}
use trading_ai_framework.Execution.Store.{Store, has_running_step, max_sequence_number}
use trading_ai_framework.Execution.Errors.{Error, Result, ok, err, load_failed, missing_state}
use trading_ai_framework.Execution.RunEnd.{new_event, with_status, persist_failure}
use trading_ai_framework.Execution.Orchestrator.{bar_timestamp, create_running_step, run_step}
use trading_ai_framework.Execution.Historical.{
  observe_buy_and_hold, observe_moving_average, window_or_default,
}
use trading_ai_framework.Execution.AgentStep.{run_agentic_ai_step}

-- What a call raises: an error of the application, which is passed on as it is, or another one.
pub data StepError : Type 0 where
  application : AppError → StepError
  other : Error → StepError

pub data RunStatus : Type 0 where
  step_status : ExecutionStepStatus → RunStatus
  experiment_status : ExperimentStatus → RunStatus

-- `StepRunResult`
pub record StepRunResult : Type 0 where
  pub execution_step_id : Option ℕ
  pub status : RunStatus
  pub message : String

-- A part of a call gives a value, or raises.
pub data Attempt {ℓ} (A : Type ℓ) : Type ℓ where
  gives : A → Attempt A
  raises : StepError → Attempt A

abbrev pub attempt {ℓ} : {A : Type ℓ} → Result A → Attempt A
attempt (ok a) = gives a
attempt (err e) = raises (other e)

infixl 5 ◌>>=◌
abbrev pub ◌>>=◌ {ℓ κ} : {A : Type ℓ} {B : Type κ} → Attempt A → (A → Attempt B) → Attempt B
gives a >>= f = f a
raises e >>= f = raises e

abbrev pub found : Option Experiment → Attempt Experiment
found none = raises (application (not_found "Experiment was not found."))
found (some e) = gives e

abbrev pub loaded : Option (List DailyBar) → Attempt (List DailyBar)
loaded none = raises (other load_failed)
loaded (some bars) = gives bars

abbrev pub is_running_status : ExperimentStatus → Bool
is_running_status ExperimentStatus.running = true
is_running_status _ = false

abbrev pub is_completed_status : ExperimentStatus → Bool
is_completed_status ExperimentStatus.completed = true
is_completed_status _ = false

abbrev pub steps_manually : ExperimentMode → StrategyType → TradingFrequency → Bool
steps_manually ExperimentMode.historical_simulation StrategyType.buy_and_hold
      TradingFrequency.daily =
    true
steps_manually ExperimentMode.historical_simulation StrategyType.moving_average
      TradingFrequency.daily =
    true
steps_manually _ _ _ = false

-- The guards of `_select_bar_and_create_step`, with the error of the first that fails.
unfoldable pub check_step : Bool → Experiment → Store → Option AppError
check_step lock e s =
    if not (is_running_status e.status)
    then some (invalid_status "Experiment must be RUNNING to execute the next step.")
    else if not
        (steps_manually e.mode e.strategy_type e.trading_frequency && str_eq e.asset_symbol "SPY")
    then some (
        invalid_experiment_configuration
          "Manual stepping supports only daily historical SPY Buy-and-Hold and Moving Average experiments.")
    else if not lock || has_running_step s.steps
    then some (step_already_running "Experiment already has a step in progress.")
    else none

-- `_mark_completed_in_session`, with the experiment at hand
unfoldable pub mark_completed : ℕ → Experiment → Store → Store
mark_completed now e s = if is_completed_status e.status then s else record s {
  experiment = some (with_status ExperimentStatus.completed now e);
  events =
      s.events
      ++ (new_event none now EventLevel.info SystemEventType.experiment_completed
            "Experiment completed."
          ∷ []);
}

-- What `_select_bar_and_create_step` leaves: no bar is left and the experiment is completed, or a bar,
-- its place and the step that was created for it.
pub data Selected : Type 0 where
  nothing_left : Store → Selected
  selected : DailyBar → ℕ → ℕ → Store → Selected

-- `bars[next_index]`, and the new step
abbrev pub select_at : TriggerType → ℕ → Experiment → ℕ → Store → Option DailyBar → Selected
select_at trigger now e next_index s none = nothing_left (mark_completed now e s)
select_at trigger now e next_index s (some bar) =
    let (id, created) = create_running_step trigger (bar_timestamp bar) now s in
    selected bar (suc next_index) id created

abbrev pub permitted : Option AppError → Attempt (Unit {0})
permitted none = gives tt
permitted (some e) = raises (application e)

-- `_select_bar_and_create_step`
unfoldable pub select_bar_and_create_step :
    TriggerType → Bool → (ℕ → ℕ → Option (List DailyBar)) → ℕ → Store → Attempt Selected
select_bar_and_create_step trigger lock load now s = do
  e ← found s.experiment
  ready ← permitted (check_step lock e s)
  bars ← loaded (load e.start_date e.end_date)
  let next_index = max_sequence_number s.steps
  gives (select_at trigger now e next_index s (get_elem? bars next_index))

-- `_prices_through_bar`: the prices up to the first bar of the same date
unfoldable pub prices_through_bar : ℕ → List DailyBar → List Decimal
prices_through_bar date [] = []
prices_through_bar date (bar ∷ bars) =
    bar.adjusted_close ∷ (if bar.date == date then [] else prices_through_bar date bars)

-- `_moving_average_window`
abbrev pub window_of : Option StrategyConfig → Attempt ℕ
window_of none = raises (other missing_state)
window_of (some c) = gives (window_or_default c.moving_average_window)

-- `_complete_experiment`
unfoldable pub complete_experiment_once : ℕ → Store → Attempt Store
complete_experiment_once now s = found s.experiment >>= λ e. gives (mark_completed now e s)

abbrev pub step_message : String
step_message = "Manual historical execution step failed."

-- How a call ends: it returns or raises.
pub data Ended : Type 0 where
  returned : StepRunResult → Ended
  raised : StepError → Ended

abbrev pub no_bars_left : StepRunResult
no_bars_left = record {
  execution_step_id = none;
  status = experiment_status ExperimentStatus.completed;
  message = "Experiment completed; no remaining historical bars.";
}

abbrev pub step_done : ℕ → StepRunResult
step_done id = record {
  execution_step_id = some id;
  status = step_status ExecutionStepStatus.completed;
  message = "Manual execution step completed.";
}

-- The `except` clauses: an error of the application is passed on, any other is persisted first.
unfoldable pub end_raised : ℕ → Option ℕ → StepError → Store → Store × Ended
end_raised now failure_step_id (application e) s = (s, raised (application e))
end_raised now failure_step_id (other e) s =
    (persist_failure step_message failure_step_id now s, raised (other e))

-- An attempt is followed by the rest, or by the `except` clauses over the rows before it.
abbrev pub otherwise {ℓ} :
    {A : Type ℓ} → ℕ → Option ℕ → Store → Attempt A → (A → Store × Ended) → Store × Ended
otherwise now failure_step_id s (gives a) rest = rest a
otherwise now failure_step_id s (raises e) rest = end_raised now failure_step_id e s

module _ (clock : ℕ → ℕ) (load : ℕ → ℕ → ℕ → Option (List DailyBar))
    (agent : AgentContext → Option AgentRunResult) where
  -- The branches of `_run_step_artifacts` on the strategy.
  unfoldable pub run_strategy_step :
      StrategyType → DailyBar → ℕ → Experiment → Store → Attempt Store
  run_strategy_step StrategyType.buy_and_hold bar id e s =
      attempt (run_step (observe_buy_and_hold [] bar) id (clock 1) s)
  run_strategy_step StrategyType.agentic_ai bar id e s =
      attempt (run_agentic_ai_step agent bar id (clock 1) s)
  run_strategy_step _ bar id e s = do
    bars ← loaded (load 1 e.start_date e.end_date)
    window ← window_of s.strategy_config
    attempt (
        run_step (observe_moving_average window (prices_through_bar bar.date bars) bar) id (clock 1)
          s)

  -- `_run_step_artifacts`
  unfoldable pub run_step_artifacts : DailyBar → ℕ → Store → Attempt Store
  run_step_artifacts bar id s =
      found s.experiment >>= λ e. run_strategy_step e.strategy_type bar id e s

  -- `_is_final_bar`
  unfoldable pub is_final_bar : ℕ → Store → Attempt Bool
  is_final_bar sequence_number s = do
    e ← found s.experiment
    bars ← loaded (load 2 e.start_date e.end_date)
    gives (leb (length bars) sequence_number)

  -- The experiment is completed after its last bar.
  unfoldable pub finish_step : ℕ → Store → Bool → Store × Ended
  finish_step id s false = (s, returned (step_done id))
  finish_step id s true =
      otherwise (clock 3) none s (complete_experiment_once (clock 2) s)
        (λ s'. (s', returned (step_done id)))

  run_selected : Selected → Store × Ended
  unfolding finish_step
  run_selected (nothing_left s) = (s, returned no_bars_left)
  run_selected (selected bar sequence_number id created) =
      otherwise (clock 2) (some id) created (run_step_artifacts bar id created)
        λ s. otherwise (clock 2) none s (is_final_bar sequence_number s) (finish_step id s)

  -- `run_next_step`
  unfoldable pub run_next_step : Bool → TriggerType → Store → Store × Ended
  unfolding run_selected
  run_next_step lock trigger s =
      otherwise (clock 1) none s (select_bar_and_create_step trigger lock (load 0) (clock 0) s)
        run_selected
