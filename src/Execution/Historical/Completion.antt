-- ===== src/Execution/Historical/Completion.antt =====
-- A run that lacks nothing goes through all its bars and completes the experiment
-- (backend/app/modules/execution/orchestrator.py).
use mathlib.Core.Path.{subst}
use trading_ai_framework.Prelude.{
  ℕ, suc, ◌+◌, ◌*◌, ◌≡◌, refl, sym, ap, ◌∙◌, Option, none, some, List, [], ◌∷◌, ◌++◌, arith, length,
}
use trading_ai_framework.Prelude.Text.{String}
use trading_ai_framework.Decimal.{Decimal}
use trading_ai_framework.Domain.{ExperimentStatus, TriggerType}
use trading_ai_framework.Models.{Portfolio, Experiment, StrategyConfig, DailyBar}
use trading_ai_framework.Execution.Simulation.Laws.{IsSolvent}
use trading_ai_framework.Execution.Store.{Store}
use trading_ai_framework.Execution.Store.Steps.{AreFinished}
use trading_ai_framework.Execution.Errors.{Error}
use trading_ai_framework.Execution.RunEnd.{complete_experiment, with_status}
use trading_ai_framework.Execution.Orchestrator.{Observation, bar_timestamp}
use trading_ai_framework.Execution.Historical.{
  finished, run_bars, end_run, run_loaded, with_loaded, with_bars, with_window,
  buy_and_hold_message, moving_average_message, observe_buy_and_hold, observe_moving_average,
  window_or_default, run_buy_and_hold, run_moving_average,
}
use trading_ai_framework.Execution.Historical.Bar.{
  IsReady, after, after-IsReady, after-experiment, length-after, bar_runs,
}

-- The loop has ended after so many more bars, with a run that lacks nothing.
pub record HasRun (bars : ℕ) (s s' : Store) : Type 0 where
  pub ready : IsReady s'
  pub steps : length s'.steps ≡ length s.steps + bars
  pub same_experiment : s'.experiment ≡ s.experiment

module _ (clock : ℕ → ℕ) (observe : List Decimal → DailyBar → Observation) where
  pub run_bars-HasRun :
      (bars : List DailyBar) (n : ℕ) (prices : List Decimal) (s : Store)
      → IsReady s
      → (s' : Store) × (run_bars clock observe n prices bars s ≡ finished s')
        × HasRun (length bars) s s'
  unfolding run_bars
  run_bars-HasRun [] n prices s r =
      (s, refl, record { ready = r; steps = omega arith; same_experiment = refl })
  run_bars-HasRun (bar ∷ bars) n prices s r =
      let seen : List Decimal = prices ++ (bar.adjusted_close ∷ []) in
      let o : Observation = observe seen bar in
      let now : ℕ = clock (2 * n + 1) in
      let started : ℕ = clock (2 * n) in
      let at : ℕ = bar_timestamp bar in
      let (m, runs) = bar_runs o now s r TriggerType.historical at started in
      let next : Store = after o now s r TriggerType.historical at started m in
      let ready : IsReady next = after-IsReady o now s r TriggerType.historical at started m in
      let (s', ends, has) = run_bars-HasRun bars (suc n) seen next ready in
      (
        s',
        rw runs ends,
        record {
          ready = has.ready;
          steps =
              omega (arith, has.steps, length-after o now s r TriggerType.historical at started m);
          same_experiment =
              has.same_experiment ∙ after-experiment o now s r TriggerType.historical at started m;
        },
      )

-- What a run that ends well leaves: a completed experiment, one finished step for each bar, all
-- numbered from 1, and a solvent portfolio.
pub record Completes (bars : ℕ) (s : Store) (result : Store × Option Error) : Type 0 where
  pub no_error : result.1 ≡ none
  pub experiment : Experiment
  pub has_experiment : result.0.experiment ≡ some experiment
  pub completed : experiment.status ≡ ExperimentStatus.completed
  pub steps : length result.0.steps ≡ length s.steps + bars
  pub steps_finished : AreFinished 1 result.0.steps
  pub portfolio : Portfolio
  pub has_portfolio : result.0.portfolio ≡ some portfolio
  pub solvent : IsSolvent portfolio

end_run-Completes :
    (message : String) (now bars : ℕ) (s s' : Store)
    → HasRun bars s s'
    → Completes bars s (end_run message now (finished s'))
unfolding end_run complete_experiment
end_run-Completes message now bars s s' h = rw (h.ready.has_experiment) (record {
  no_error = refl;
  experiment = with_status ExperimentStatus.completed now h.ready.experiment;
  has_experiment = refl;
  completed = refl;
  steps = h.steps;
  steps_finished = h.ready.steps_finished;
  portfolio = h.ready.portfolio;
  has_portfolio = h.ready.has_portfolio;
  solvent = h.ready.solvent;
})

module _ (clock : ℕ → ℕ) (load : ℕ → ℕ → Option (List DailyBar)) (bars : List DailyBar) (s : Store)
    (r : IsReady s) (loaded : load r.experiment.start_date r.experiment.end_date ≡ some bars) where
  run_loaded-Completes :
      (message : String) (observe : List Decimal → DailyBar → Observation)
      → Completes (length bars) s (run_loaded clock load message observe bars s)
  unfolding run_loaded
  run_loaded-Completes message observe =
      let (s', ends, has) = run_bars-HasRun clock observe bars 0 [] s r in
      rw ends (end_run-Completes message (clock (2 * length bars)) (length bars) s s' has)

  with_bars-eq :
      (message : String) (run : List DailyBar → Store → Store × Option Error)
      → with_bars clock load message run s.experiment s ≡ run bars s
  unfolding with_bars
  with_bars-eq message run =
      ap (λ (e : Option Experiment). with_bars clock load message run e s) r.has_experiment
      ∙ ap (λ (l : Option (List DailyBar)). with_loaded clock load message run l s) loaded

  pub run_buy_and_hold-eq :
      run_buy_and_hold clock load s
      ≡ end_run buy_and_hold_message
          (clock (2 * length bars))
          (run_bars clock observe_buy_and_hold 0 [] bars s)
  unfolding run_buy_and_hold run_loaded
  run_buy_and_hold-eq = with_bars-eq buy_and_hold_message _

  pub run_moving_average-eq :
      run_moving_average clock load s
      ≡ end_run moving_average_message (clock (2 * length bars)) (
          run_bars clock
            (observe_moving_average (window_or_default r.config.moving_average_window))
            0
            []
            bars
            s)
  unfolding run_moving_average run_loaded with_window
  run_moving_average-eq =
      with_bars-eq moving_average_message _
      ∙ ap (λ (c : Option StrategyConfig). with_window clock load c bars s) r.has_config

  -- A Buy-and-Hold run whose state is complete and whose bars can be loaded raises nothing: it
  -- completes the experiment with one finished step for each bar, and leaves no debt.
  pub run_buy_and_hold-Completes : Completes (length bars) s (run_buy_and_hold clock load s)
  unfolding run_buy_and_hold
  run_buy_and_hold-Completes =
      rw with_bars-eq (run_loaded-Completes buy_and_hold_message observe_buy_and_hold)

  -- A Moving Average run whose state is complete and whose bars can be loaded raises nothing: it
  -- completes the experiment with one finished step for each bar, and leaves no debt.
  pub run_moving_average-Completes : Completes (length bars) s (run_moving_average clock load s)
  unfolding run_moving_average
  run_moving_average-Completes =
      let window : ℕ = window_or_default r.config.moving_average_window in
      rw with_bars-eq (
        subst
          (λ (c : Option StrategyConfig).
            Completes (length bars) s (with_window clock load c bars s))
          (sym r.has_config)
          (run_loaded-Completes moving_average_message (observe_moving_average window)))
