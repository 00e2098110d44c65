-- ===== src/Execution/StepRunner/WholeRun/Equivalence.antt =====
-- The step runner and the background run end with the same rows, by strategy
-- (backend/app/modules/execution/step_runner.py and orchestrator.py).
use mathlib.Core.Path.{subst}
use trading_ai_framework.Prelude.{
  ℕ, ◌*◌, ◌≡◌, refl, sym, ap, ◌∙◌, Option, some, List, [], ◌∷◌, length,
}
use trading_ai_framework.Prelude.Text.{String}
use trading_ai_framework.Decimal.{Decimal}
use trading_ai_framework.Domain.{StrategyType, TriggerType}
use trading_ai_framework.Models.{DailyBar}
use trading_ai_framework.Agents.Types.{AgentContext, AgentRunResult}
use trading_ai_framework.Execution.Errors.{Error}
use trading_ai_framework.Execution.Store.{Store}
use trading_ai_framework.Execution.Orchestrator.{Observation}
use trading_ai_framework.Execution.Historical.{
  run_buy_and_hold, run_moving_average, buy_and_hold_message, moving_average_message, run_bars,
  end_run, observe_buy_and_hold, observe_moving_average, window_or_default,
}
use trading_ai_framework.Execution.Historical.Bar.{IsReady}
use trading_ai_framework.Execution.Historical.Completion.{
  run_buy_and_hold-eq, run_moving_average-eq,
}
use trading_ai_framework.Execution.StepRunner.{run_strategy_step, prices_through_bar}
use trading_ai_framework.Execution.StepRunner.OneBar.{CanStep}
use trading_ai_framework.Execution.StepRunner.WholeRun.{
  HaveDistinctDates, prices_through_bar-append, step_through, Decides, calls-eq-run,
}

module _ (clock : ℕ → ℕ) (load : ℕ → ℕ → Option (List DailyBar))
    (agent : AgentContext → Option AgentRunResult) (s : Store) (r : IsReady s)
    (can : CanStep r.experiment) (b : DailyBar) (rest : List DailyBar)
    (loads : load r.experiment.start_date r.experiment.end_date ≡ some (b ∷ rest))
    (unstepped : s.steps ≡ []) where
  start-StandsAt :
      (observe : List Decimal → DailyBar → Observation)
      (decides : Decides load agent r.experiment (b ∷ rest) r.config observe) (message : String)
      → step_through clock load agent TriggerType.historical (length (b ∷ rest)) 0 s
        ≡ (end_run message
            (clock (2 * length (b ∷ rest)))
            (run_bars clock observe 0 [] (b ∷ rest) s)).0
  start-StandsAt observe decides message =
      calls-eq-run clock load agent r.experiment can (b ∷ rest) loads r.config observe decides
        message rest [] b s
        (record {
          split = refl;
          has_experiment = r.has_experiment;
          has_config = r.has_config;
          steps = ap length unstepped;
          ready = r;
        })

  buy_and_hold-Decides :
      r.experiment.strategy_type ≡ StrategyType.buy_and_hold
      → Decides load agent r.experiment (b ∷ rest) r.config observe_buy_and_hold
  unfolding run_strategy_step
  buy_and_hold-Decides kind times done c left split id created has = rw kind refl

  moving_average-Decides :
      r.experiment.strategy_type ≡ StrategyType.moving_average
      → HaveDistinctDates (b ∷ rest)
      → Decides load agent r.experiment
          (b ∷ rest)
          r.config
          (observe_moving_average (window_or_default r.config.moving_average_window))
  unfolding run_strategy_step
  moving_average-Decides kind distinct times done c left split id created has = simp (
    kind,
    loads,
    has,
    ap (prices_through_bar c.date) split
        ∙ prices_through_bar-append done c left (subst HaveDistinctDates split distinct),
  )

  -- Called once for each bar with the trigger of a simulation and the times of a run, the step runner
  -- leaves every row of a ready Buy-and-Hold experiment as the background run does.
  pub step_through-eq-run_buy_and_hold :
      r.experiment.strategy_type ≡ StrategyType.buy_and_hold
      → step_through clock load agent TriggerType.historical (length (b ∷ rest)) 0 s
        ≡ (run_buy_and_hold clock load s).0
  step_through-eq-run_buy_and_hold kind =
      start-StandsAt observe_buy_and_hold (buy_and_hold-Decides kind) buy_and_hold_message
      ∙ sym (
          ap (λ (x : Store × Option Error). x.0)
            (run_buy_and_hold-eq clock load (b ∷ rest) s r loads))

  -- Called once for each bar with the trigger of a simulation and the times of a run, the step runner
  -- leaves every row of a ready Moving Average experiment, whose bars have distinct dates, as the
  -- background run does.
  pub step_through-eq-run_moving_average :
      r.experiment.strategy_type ≡ StrategyType.moving_average
      → HaveDistinctDates (b ∷ rest)
      → step_through clock load agent TriggerType.historical (length (b ∷ rest)) 0 s
        ≡ (run_moving_average clock load s).0
  step_through-eq-run_moving_average kind distinct =
      start-StandsAt (observe_moving_average (window_or_default r.config.moving_average_window))
        (moving_average-Decides kind distinct) moving_average_message
      ∙ sym (
          ap (λ (x : Store × Option Error). x.0)
            (run_moving_average-eq clock load (b ∷ rest) s r loads))
