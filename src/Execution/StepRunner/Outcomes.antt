-- ===== src/Execution/StepRunner/Outcomes.antt =====
-- How a call of `run_next_step` ends, whatever is missing or raises
-- (backend/app/modules/execution/step_runner.py).
use trading_ai_framework.Prelude.{
  ℕ, ◌≡◌, refl, sym, ◌⊎◌, inl, inr, false, Option, some, none, List, [], ◌∷◌, ◌++◌, arith,
}
use trading_ai_framework.Domain.{StrategyType}
use trading_ai_framework.Models.{Experiment, StrategyConfig, DailyBar, ExecutionStep}
use trading_ai_framework.Agents.Types.{AgentContext, AgentRunResult}
use trading_ai_framework.Execution.Store.{Store, has_running_step, update_step, is_running}
use trading_ai_framework.Execution.Errors.{Error, Result, ok, err, load_failed, missing_state}
use trading_ai_framework.Execution.Orchestrator.{Observation, run_step}
use trading_ai_framework.Execution.Orchestrator.Success.{Settled, run_step-Settled}
use trading_ai_framework.Execution.AgentStep.Success.{run_agentic_ai_step-Settled}
use trading_ai_framework.Execution.StepRunner.OneBar.{found-bind}
use mathlib.Core.Path.{subst}
use trading_ai_framework.Execution.StepRunner.{
  Attempt, gives, raises, attempt, other, run_strategy_step, run_step_artifacts, loaded, window_of,
  ◌>>=◌,
}

-- A row that an update of the last step settles leaves none running.
pub update_step-settles :
    (id : ℕ) (f : ExecutionStep → ExecutionStep) (new : ExecutionStep) (steps : List ExecutionStep)
    → ((x : ExecutionStep) → is_running (f x).status ≡ false)
    → new.id ≡ id
    → has_running_step steps ≡ false
    → has_running_step (update_step id f (steps ++ (new ∷ []))) ≡ false
unfolding has_running_step update_step
update_step-settles id f new [] settles same h = ground (arith, settles new)
update_step-settles id f new (s ∷ steps) settles same h =
    ground (arith, settles s, update_step-settles id f new steps settles same)

-- A part of a call raises an error that is not the application's, or gives a store.
abbrev pub GivesOr : Attempt Store → (Store → Type 0) → Type 0
GivesOr a P = ((x : Error) × (a ≡ raises (other x))) ⊎ ((s' : Store) × (a ≡ gives s') × P s')

attempt-GivesOr :
    (P : Store → Type 0) (r : Result Store)
    → ((s' : Store) → r ≡ ok s' → P s')
    → GivesOr (attempt r) P
attempt-GivesOr P (err x) k = inl (x, refl)
attempt-GivesOr P (ok s') k = inr (s', refl, k s' refl)

module _ (clock : ℕ → ℕ) (load : ℕ → ℕ → ℕ → Option (List DailyBar))
    (agent : AgentContext → Option AgentRunResult) (bar : DailyBar) (id : ℕ) (s : Store) where
  average_step-GivesOr :
      (bars : Option (List DailyBar)) (config : Option StrategyConfig)
      (observe : List DailyBar → ℕ → Observation)
      → GivesOr
          (loaded bars >>= λ bs.
            window_of config >>= λ window. attempt (run_step (observe bs window) id (clock 1) s))
          (Settled id (clock 1) s)
  average_step-GivesOr none config observe = inl (load_failed, refl)
  average_step-GivesOr (some bs) none observe = inl (missing_state, refl)
  average_step-GivesOr (some bs) (some c) observe =
      attempt-GivesOr (Settled id (clock 1) s) _ (run_step-Settled _ id (clock 1) s)

  strategy_step-GivesOr :
      (kind : StrategyType) (e : Experiment)
      → GivesOr (run_strategy_step clock load agent kind bar id e s) (Settled id (clock 1) s)
  unfolding run_strategy_step
  strategy_step-GivesOr StrategyType.buy_and_hold e =
      attempt-GivesOr (Settled id (clock 1) s) _ (run_step-Settled _ id (clock 1) s)
  strategy_step-GivesOr StrategyType.agentic_ai e =
      attempt-GivesOr (Settled id (clock 1) s) _
        (run_agentic_ai_step-Settled agent bar id (clock 1) s)
  strategy_step-GivesOr StrategyType.moving_average e = average_step-GivesOr _ _ _
  strategy_step-GivesOr StrategyType.opening_range_breakout e = average_step-GivesOr _ _ _
  strategy_step-GivesOr StrategyType.paper_trading_smoke_test e = average_step-GivesOr _ _ _

  pub artifacts-GivesOr :
      (e : Experiment)
      → s.experiment ≡ some e
      → GivesOr (run_step_artifacts clock load agent bar id s) (Settled id (clock 1) s)
  unfolding run_step_artifacts
  artifacts-GivesOr e has =
      subst (λ a. GivesOr a (Settled id (clock 1) s)) (sym (found-bind _ has))
        (strategy_step-GivesOr e.strategy_type e)
