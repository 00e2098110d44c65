-- ===== src/Execution/Historical/Bar.antt =====
-- One bar of a run that lacks nothing: it is executed, and the run lacks nothing afterwards
-- (`_create_running_step` and `_run_step` of backend/app/modules/execution/orchestrator.py).
use mathlib.Core.Path.{subst}
use trading_ai_framework.Prelude.{
  ℕ, suc, ◌+◌, ◌≡◌, refl, ap, sym, ◌∙◌, none, some, List, [], ◌∷◌, ◌++◌, false, arith, length,
  length-append, Bool, if◌then◌else◌,
}
use trading_ai_framework.Decimal
use trading_ai_framework.Decimal.{Decimal}
use trading_ai_framework.Domain.{ExecutionStepStatus, TriggerType}
use trading_ai_framework.Models.{Portfolio, Experiment, StrategyConfig, ExecutionStep}
use trading_ai_framework.Execution.Risk.{evaluate}
use trading_ai_framework.Execution.Metrics.{MetricResult, calculate}
use trading_ai_framework.Strategies.{StrategyDecision}
use trading_ai_framework.Execution.Simulation.{SimulationResult, execute_if_applicable}
use trading_ai_framework.Execution.Simulation.Laws.{IsSolvent, execute-evaluate-IsSolvent}
use trading_ai_framework.Execution.Store.{
  Store, get_step, update_step, next_id, total_values, list_by_experiment, max_sequence_number,
}
use trading_ai_framework.Execution.Store.Steps.{
  IsFinished, AreFinished, AreFinished-append, get_step_last, update_step_last,
  max_sequence_number_last,
}
use trading_ai_framework.Execution.Errors.{ok}
use trading_ai_framework.Execution.Orchestrator.{
  Observation, create_running_step, run_step, run_found, revalue, complete_step, write_step,
  shown_value, add_trade, new_decision, run_decided,
}

-- A run that lacks nothing: the experiment, its solvent portfolio and its configuration are there,
-- the capital is not zero, and the steps so far are finished and numbered from 1.
pub record IsReady (s : Store) : Type 0 where
  pub experiment : Experiment
  pub portfolio : Portfolio
  pub config : StrategyConfig
  pub has_experiment : s.experiment ≡ some experiment
  pub has_portfolio : s.portfolio ≡ some portfolio
  pub has_config : s.strategy_config ≡ some config
  pub capital : Decimal.is_zero experiment.initial_capital ≡ false
  pub solvent : IsSolvent portfolio
  pub steps_finished : AreFinished 1 s.steps

if_some {ℓ} :
    {A : Type ℓ} (b : Bool) (x : A) → b ≡ false → (m : A) × ((if b then none else some x) ≡ some m)
if_some b x h = (x, rw h)

calculate-some :
    (initial current : Decimal) (values : List Decimal) (n : ℕ)
    → Decimal.is_zero initial ≡ false
    → (m : MetricResult) × (calculate initial current values n ≡ some m)
unfolding calculate
calculate-some initial current values n h = if_some (Decimal.is_zero initial) _ h

module _ (o : Observation) (now : ℕ) (s : Store) (ready : IsReady s) where
  open ready use {experiment, portfolio, config}

  unfoldable pub decision : StrategyDecision
  decision = o.decide portfolio.position_quantity

  unfoldable pub executed : ℕ → SimulationResult
  executed id =
      execute_if_applicable (evaluate decision.action decision.symbol portfolio o.quote.price)
        portfolio
        (record {
          execution_step_id = id;
          risk_check_id = next_id s.risk_checks;
          timestamp = o.quote.timestamp;
          price = o.quote.price;
          now = now;
        })

  executed-IsSolvent : (id : ℕ) → IsSolvent (executed id).portfolio
  unfolding executed
  executed-IsSolvent id =
      execute-evaluate-IsSolvent decision.symbol portfolio _ ready.solvent decision.action

  found_runs :
      (id : ℕ) (steps : List ExecutionStep)
      → (m : MetricResult) × (run_found o id now experiment portfolio (record s { steps = steps })
          ≡ ok (
              write_step o.quote id now
                (revalue (executed id).portfolio o.quote.price now)
                (new_decision o.source_name decision id now)
                (evaluate decision.action decision.symbol portfolio o.quote.price)
                (executed id)
                m
                (record s { steps = steps })))
  unfolding run_found run_decided executed decision
  found_runs id steps =
      let value = shown_value (executed id).portfolio o.quote.price in
      let trades = add_trade (executed id).trade (next_id s.orders) value s.trades in
      let (m, e) =
        calculate-some experiment.initial_capital value
          (total_values (list_by_experiment s.snapshots)) (length trades) ready.capital in
      (m, rw e)

  -- The rows of the steps before the bar, and the row that the bar adds.
  module _ (trigger : TriggerType) (timestamp started : ℕ) where
    unfoldable pub new_step : ExecutionStep
    new_step = record {
      id = next_id s.steps;
      scheduled_for = some timestamp;
      started_at = some started;
      completed_at = none;
      status = ExecutionStepStatus.running;
      trigger_type = trigger;
      sequence_number = max_sequence_number s.steps + 1;
      error_message = none;
      created_at = started;
    }

    get_new : get_step (next_id s.steps) (s.steps ++ (new_step ∷ [])) ≡ some new_step
    unfolding new_step
    get_new = get_step_last new_step 1 s.steps ready.steps_finished (omega arith)

    update_new :
        update_step (next_id s.steps) (complete_step now) (s.steps ++ (new_step ∷ []))
        ≡ s.steps ++ (complete_step now new_step ∷ [])
    unfolding new_step
    update_new =
        update_step_last new_step (complete_step now) 1 s.steps ready.steps_finished (omega arith)

    new-IsFinished : IsFinished (1 + length s.steps) (complete_step now new_step)
    unfolding new_step
    new-IsFinished = record {
      numbered = omega arith;
      in_sequence = omega (arith, max_sequence_number_last s.steps ready.steps_finished);
      finished = refl;
    }

    step_runs :
        run_step o (next_id s.steps) now (record s { steps = s.steps ++ (new_step ∷ []) })
        ≡ run_found o
            (next_id s.steps)
            now
            experiment
            portfolio
            (record s { steps = s.steps ++ (new_step ∷ []) })
    unfolding run_step
    step_runs = ground (arith, get_new, ready.has_experiment, ready.has_portfolio, ready.has_config)

    -- The store after the bar, with the figures that it computes.
    unfoldable pub after : MetricResult → Store
    after m =
        write_step o.quote (next_id s.steps) now
          (revalue (executed (next_id s.steps)).portfolio o.quote.price now)
          (new_decision o.source_name decision (next_id s.steps) now)
          (evaluate decision.action decision.symbol portfolio o.quote.price)
          (executed (next_id s.steps)) m (record s { steps = s.steps ++ (new_step ∷ []) })

    pub after-IsReady : (m : MetricResult) → IsReady (after m)
    unfolding after write_step revalue
    after-IsReady m = record {
      experiment = experiment;
      portfolio = revalue (executed (next_id s.steps)).portfolio o.quote.price now;
      config = config;
      has_experiment = ready.has_experiment;
      has_portfolio = refl;
      has_config = ready.has_config;
      capital = ready.capital;
      solvent = record {
        money = (executed-IsSolvent (next_id s.steps)).money;
        long = (executed-IsSolvent (next_id s.steps)).long;
      };
      steps_finished = subst (AreFinished 1) (sym update_new) (
          AreFinished-append 1 s.steps (complete_step now new_step) ready.steps_finished
            new-IsFinished);
    }

    pub length-after : (m : MetricResult) → length (after m).steps ≡ suc (length s.steps)
    unfolding after write_step
    length-after m =
        ap length update_new
        ∙ (length-append s.steps (complete_step now new_step ∷ []) ∙ omega arith)

    pub after-experiment : (m : MetricResult) → (after m).experiment ≡ s.experiment
    unfolding after write_step
    after-experiment m = refl

    pub after-config : (m : MetricResult) → (after m).strategy_config ≡ s.strategy_config
    unfolding after write_step
    after-config m = refl

    -- A bar of a run that lacks nothing raises no exception.
    pub bar_runs :
        (m : MetricResult) × (let (id, created) = create_running_step trigger timestamp started s in
          run_step o id now created ≡ ok (after m))
    unfolding create_running_step after new_step
    bar_runs =
        let (m, e) = found_runs (next_id s.steps) (s.steps ++ (new_step ∷ [])) in (m, step_runs ∙ e)
