-- ===== src/Tests/StepTests.antt =====
-- Calls of the step runner of backend/app/modules/execution/step_runner.py over the two bars.
use trading_ai_framework.Prelude.{◌≡◌, refl, Option, some, none, true, arith}
use trading_ai_framework.Domain.{StrategyType, TriggerType}
use trading_ai_framework.Models.{Experiment}
use trading_ai_framework.Agents.Types.{AgentContext, AgentRunResult}
use trading_ai_framework.Execution.Store.{Store}
use trading_ai_framework.Execution.Historical.{run_buy_and_hold, run_moving_average}
use trading_ai_framework.Execution.Historical.Bar.{IsReady}
use trading_ai_framework.Execution.StepRunner.{run_next_step}
use trading_ai_framework.Execution.StepRunner.OneBar.{CanStep}
use trading_ai_framework.Execution.StepRunner.WholeRun.{step_through}
use trading_ai_framework.Execution.StepRunner.WholeRun.Equivalence.{
  step_through-eq-run_buy_and_hold, step_through-eq-run_moving_average,
}
use trading_ai_framework.Execution.StepRunner.Ending.{StepEnds, run_next_step-StepEnds}
use trading_ai_framework.Execution.StepRunner.Progress.{
  Advances, IsDone, run_next_step-Advances, step_through-IsDone,
}
use trading_ai_framework.Tests.RunTests.{start, experiment, bars, clock, load, start-IsReady}

abbrev agent : AgentContext → Option AgentRunResult
agent c = none

start-CanStep : CanStep experiment
start-CanStep = record { running = refl; kind = refl; spy = refl }

step_through-eq-run_buy_and_hold_example :
    step_through clock load agent TriggerType.historical 2 0 start
    ≡ (run_buy_and_hold clock load start).0
step_through-eq-run_buy_and_hold_example =
    step_through-eq-run_buy_and_hold clock load agent start start-IsReady start-CanStep _ _ refl
      refl refl

-- The same rows with the other strategy.
abbrev average_experiment : Experiment
average_experiment = record experiment { strategy_type = StrategyType.moving_average }

abbrev average_start : Store
average_start = record start { experiment = some average_experiment }

abbrev average-IsReady : IsReady average_start
average-IsReady = record {
  experiment = average_experiment;
  portfolio = start-IsReady.portfolio;
  config = start-IsReady.config;
  has_experiment = refl;
  has_portfolio = refl;
  has_config = refl;
  capital = refl;
  solvent = start-IsReady.solvent;
  steps_finished = tt;
}

abbrev average_run : Store
average_run = (run_moving_average clock load average_start).0

step_through-eq-run_moving_average_example :
    step_through clock load agent TriggerType.historical 2 0 average_start ≡ average_run
step_through-eq-run_moving_average_example =
    step_through-eq-run_moving_average clock load agent average_start average-IsReady
      (record { running = refl; kind = refl; spy = refl }) _ _ refl refl refl
      (((λ h. absurd (omega (arith, h))), tt), (tt, tt))

run_next_step-StepEnds_example :
    StepEnds start (run_next_step clock (λ n from to. none) agent true TriggerType.manual start)
run_next_step-StepEnds_example =
    run_next_step-StepEnds clock (λ n from to. none) agent true TriggerType.manual start

run_next_step-Advances_example :
    Advances 2 bars experiment start
      (run_next_step clock (λ n. load) agent true TriggerType.manual start)
run_next_step-Advances_example =
    run_next_step-Advances start start-IsReady experiment refl start-CanStep clock (λ n. load) agent
      bars (λ n. refl) TriggerType.manual _ refl

step_through-IsDone_example :
    IsDone bars experiment (step_through clock load agent TriggerType.manual 2 0 start)
step_through-IsDone_example =
    step_through-IsDone clock load agent TriggerType.manual experiment start-CanStep bars refl 1 0
      start start-IsReady refl refl
