-- ===== src/Execution/Historical.antt =====
-- A whole historical run: `HistoricalBuyAndHoldOrchestrator.run` and
-- `HistoricalMovingAverageOrchestrator.run` of backend/app/modules/execution/orchestrator.py.
-- The clock is a parameter: `clock n` is its n-th reading. So is the market data provider:
-- `load start end` gives the bars of the range, or `none` where it raises.
pub mod Bar
pub mod Completion
pub mod Ending
use mathlib.Core.List.{foldl}
use trading_ai_framework.Prelude.{
  ℕ, zero, suc, ◌+◌, ◌-◌, ◌*◌, Option, none, some, List, [], ◌∷◌, ◌++◌, drop, length, ltb,
  if◌then◌else◌,
}
use trading_ai_framework.Prelude.Text.{String}
use trading_ai_framework.Decimal
use trading_ai_framework.Decimal.{Decimal}
use trading_ai_framework.Domain.{TriggerType}
use trading_ai_framework.Models.{Experiment, StrategyConfig, DailyBar}
use trading_ai_framework.Strategies.{buy_and_hold, moving_average, default_moving_average_window}
use trading_ai_framework.Execution.Store.{Store}
use trading_ai_framework.Execution.Errors.{
  Error, Result, ok, err, load_failed, experiment_not_found, missing_state,
}
use trading_ai_framework.Execution.RunEnd.{complete_experiment, persist_failure}
use trading_ai_framework.Execution.Orchestrator.{
  Quote, Observation, bar_timestamp, create_running_step, run_step,
}

-- How the loop over the bars ends: with a store, or by an exception in a step of that identity.
pub data LoopEnd : Type 0 where
  finished : Store → LoopEnd
  raised : ℕ → Error → Store → LoopEnd

-- The loop goes on with the store that a step leaves, unless the step raises.
abbrev pub go_on : ℕ → Store → Result Store → (Store → LoopEnd) → LoopEnd
go_on id created (ok s) rest = rest s
go_on id created (err e) rest = raised id e created

module _ (clock : ℕ → ℕ) (observe : List Decimal → DailyBar → Observation) where
  -- The loop, at the n-th bar, with the prices of the bars before.
  unfoldable pub run_bars : ℕ → List Decimal → List DailyBar → Store → LoopEnd
  run_bars n prices [] s = finished s
  run_bars n prices (bar ∷ bars) s =
      let seen = prices ++ (bar.adjusted_close ∷ []) in
      let (id, created) =
        create_running_step TriggerType.historical (bar_timestamp bar) (clock (2 * n)) s in
      go_on id created (run_step (observe seen bar) id (clock (2 * n + 1)) created)
        (λ s'. run_bars (suc n) seen bars s')

-- The end of `run`: the experiment is completed, or the failure is persisted and raised again.
unfoldable pub end_run : String → ℕ → LoopEnd → Store × Option Error
end_run message now (finished s) = elim (complete_experiment now s) [
  | ok s' ↦ (s', none)
  | err e ↦ (persist_failure message none now s, some e)
]
end_run message now (raised id e s) = (persist_failure message (some id) now s, some e)

-- A failure outside any step.
abbrev pub fail_run : String → ℕ → Error → Store → Store × Option Error
fail_run message now e s = (persist_failure message none now s, some e)

abbrev pub buy_and_hold_message : String
buy_and_hold_message = "Historical Buy-and-Hold simulation failed."

abbrev pub moving_average_message : String
moving_average_message = "Historical Moving Average simulation failed."

abbrev pub quote_of : DailyBar → Option Decimal → Quote
quote_of bar average = record {
  timestamp = bar_timestamp bar;
  price = bar.adjusted_close;
  moving_average = average;
}

abbrev pub observe_buy_and_hold : List Decimal → DailyBar → Observation
observe_buy_and_hold prices bar = record {
  quote = quote_of bar none;
  source_name = "BuyAndHoldStrategy";
  decide = buy_and_hold "SPY";
}

-- `sum(prices)`
unfoldable pub total : List Decimal → Decimal
total prices = foldl Decimal.add Decimal.nought prices

-- `_moving_average`: the mean of the last `window` prices
unfoldable pub moving_average_of : List Decimal → ℕ → Option Decimal
moving_average_of prices window =
    if ltb (length prices) window
    then none
    else some (
        Decimal.quantized_div 8 (total (drop (length prices - window) prices))
          (Decimal.of_ℕ window))

abbrev pub observe_moving_average : ℕ → List Decimal → DailyBar → Observation
observe_moving_average window prices bar =
    let average = moving_average_of prices window in
    record {
      quote = quote_of bar average;
      source_name = "MovingAverageStrategy";
      decide = λ position_quantity.
          moving_average "SPY" bar.adjusted_close average position_quantity window;
    }

-- `strategy_config.moving_average_window or DEFAULT_MOVING_AVERAGE_WINDOW`
abbrev pub window_or_default : Option ℕ → ℕ
window_or_default none = default_moving_average_window
window_or_default (some n) = elim n [ zero ↦ default_moving_average_window | suc m ↦ suc m ]

module _ (clock : ℕ → ℕ) (load : ℕ → ℕ → Option (List DailyBar)) where
  run_loaded :
      String
      → (List Decimal → DailyBar → Observation)
      → List DailyBar
      → Store
      → Store × Option Error
  run_loaded message observe bars s =
      end_run message (clock (2 * length bars)) (run_bars clock observe 0 [] bars s)

  with_loaded :
      String
      → (List DailyBar → Store → Store × Option Error)
      → Option (List DailyBar)
      → Store
      → Store × Option Error
  with_loaded message run none s = fail_run message (clock 0) load_failed s
  with_loaded message run (some bars) s = run bars s

  with_bars :
      String
      → (List DailyBar → Store → Store × Option Error)
      → Option Experiment
      → Store
      → Store × Option Error
  unfolding with_loaded
  with_bars message run none s = fail_run message (clock 0) experiment_not_found s
  with_bars message run (some e) s = with_loaded message run (load e.start_date e.end_date) s

  -- `HistoricalBuyAndHoldOrchestrator.run`
  unfoldable pub run_buy_and_hold : Store → Store × Option Error
  unfolding run_loaded with_bars
  run_buy_and_hold s =
      with_bars buy_and_hold_message (run_loaded buy_and_hold_message observe_buy_and_hold)
        s.experiment s

  with_window : Option StrategyConfig → List DailyBar → Store → Store × Option Error
  unfolding run_loaded
  with_window none bars s = fail_run moving_average_message (clock 0) missing_state s
  with_window (some c) bars s =
      run_loaded moving_average_message
        (observe_moving_average (window_or_default c.moving_average_window)) bars s

  -- `HistoricalMovingAverageOrchestrator.run`
  unfoldable pub run_moving_average : Store → Store × Option Error
  unfolding with_bars with_window
  run_moving_average s =
      with_bars moving_average_message (with_window s.strategy_config) s.experiment s
