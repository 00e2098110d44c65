-- ===== src/Execution/StepRunner/Progress.antt =====
-- Every call of `run_next_step` for a run that lacks nothing advances it by one bar, so that so many
-- calls as bars complete it (backend/app/modules/execution/step_runner.py).
use mathlib.Core.Path.{subst}
use trading_ai_framework.Prelude.{
  ℕ, zero, suc, ◌+◌, ◌≡◌, refl, sym, ap, ◌∙◌, ◌⊎◌, inl, inr, Bool, true, false, Option, some, none,
  List, [], arith, get_elem?, get_elem?-some, leb, length,
}
use trading_ai_framework.Domain.{
  ExperimentMode, ExperimentStatus, StrategyType, TradingFrequency, TriggerType,
}
use trading_ai_framework.Models.{Experiment, DailyBar}
use trading_ai_framework.Agents.Types.{AgentContext, AgentRunResult}
use trading_ai_framework.Execution.Store.{Store}
use trading_ai_framework.Execution.RunEnd.{with_status}
use trading_ai_framework.Execution.Orchestrator.{Observation, run_step}
use trading_ai_framework.Execution.Historical.{
  observe_buy_and_hold, observe_moving_average, window_or_default,
}
use trading_ai_framework.Execution.Historical.Bar.{IsReady}
use trading_ai_framework.Execution.StepRunner.{
  attempt, otherwise, Ended, returned, step_done, steps_manually, mark_completed,
  complete_experiment_once, finish_step, run_strategy_step, run_next_step, prices_through_bar,
}
use trading_ai_framework.Execution.StepRunner.OneBar.{
  CanStep, found-bind, stepped-experiment, stepped-IsReady, length-stepped, run_next_step-eq,
}
use trading_ai_framework.Execution.StepRunner.WholeRun.{step_through, call_clock}

-- The experiment after a call that has, or has not, executed its last bar.
abbrev pub after_call : Bool → ℕ → Experiment → Experiment
after_call true now e = with_status ExperimentStatus.completed now e
after_call false now e = e

-- A call has executed one more bar, and has completed the experiment if that was the last one.
pub record Advances (now : ℕ) (bars : List DailyBar) (e : Experiment) (s : Store)
    (result : Store × Ended) : Type 0 where
  pub answered : result.1 ≡ returned (step_done (suc (length s.steps)))
  pub steps : length result.0.steps ≡ suc (length s.steps)
  pub has_experiment :
      result.0.experiment ≡ some (after_call (leb (length bars) (suc (length s.steps))) now e)
  pub ready : IsReady result.0

mark_completed-IsReady :
    (now : ℕ) (e : Experiment) (s : Store) (r : IsReady s)
    → s.experiment ≡ some e
    → e.status ≡ ExperimentStatus.running
    → IsReady (mark_completed now e s)
unfolding mark_completed
mark_completed-IsReady now e s r has running = rw running (record {
  experiment = with_status ExperimentStatus.completed now e;
  portfolio = r.portfolio;
  config = r.config;
  has_experiment = refl;
  has_portfolio = r.has_portfolio;
  has_config = r.has_config;
  capital = cc r.capital;
  solvent = r.solvent;
  steps_finished = r.steps_finished;
})

mark_completed-keeps :
    (now : ℕ) (e : Experiment) (s : Store)
    → e.status ≡ ExperimentStatus.running
    → ((mark_completed now e s).experiment ≡ some (with_status ExperimentStatus.completed now e))
      × ((mark_completed now e s).steps ≡ s.steps)
unfolding mark_completed
mark_completed-keeps now e s running = rw running (refl, refl)

-- A strategy that may be stepped is one of two.
kinds_of :
    (mode : ExperimentMode) (kind : StrategyType) (frequency : TradingFrequency)
    → steps_manually mode kind frequency ≡ true
    → (kind ≡ StrategyType.buy_and_hold) ⊎ (kind ≡ StrategyType.moving_average)
kinds_of ExperimentMode.historical_simulation StrategyType.buy_and_hold f h = inl refl
kinds_of ExperimentMode.historical_simulation StrategyType.moving_average f h = inr refl
kinds_of ExperimentMode.historical_simulation StrategyType.agentic_ai f h = cc
kinds_of ExperimentMode.historical_simulation StrategyType.opening_range_breakout f h = cc
kinds_of ExperimentMode.historical_simulation StrategyType.paper_trading_smoke_test f h = cc
kinds_of ExperimentMode.paper_trading k f h = cc

module _ (s : Store) (r : IsReady s) (e : Experiment) (has : s.experiment ≡ some e)
    (can : CanStep e) (clock : ℕ → ℕ) (load : ℕ → ℕ → ℕ → Option (List DailyBar))
    (agent : AgentContext → Option AgentRunResult) (bars : List DailyBar)
    (loads : (n : ℕ) → load n e.start_date e.end_date ≡ some bars) (trigger : TriggerType)
    (bar : DailyBar) (at : get_elem? bars (length s.steps) ≡ some bar) where
  -- The rows after the bar, and what finishing the call makes of them.
  finish-Advances :
      (t : Store) (last : Bool)
      → IsReady t
      → t.experiment ≡ some e
      → length t.steps ≡ suc (length s.steps)
      → last ≡ leb (length bars) (suc (length s.steps))
      → Advances (clock 2) bars e s (finish_step clock load agent (suc (length s.steps)) t last)
  unfolding finish_step complete_experiment_once
  finish-Advances t false ready kept steps test = record {
    answered = refl;
    steps = steps;
    has_experiment = kept ∙ ap (λ l. some (after_call l (clock 2) e)) test;
    ready = ready;
  }
  finish-Advances t true ready kept steps test =
      let (completed, same) = mark_completed-keeps (clock 2) e t can.running in
      let final : IsReady (mark_completed (clock 2) e t) =
        mark_completed-IsReady (clock 2) e t ready kept can.running in
      subst
        (λ a.
          Advances (clock 2) bars e s (
            otherwise (clock 3) none t a (λ t'. (t', returned (step_done (suc (length s.steps)))))))
        (sym (found-bind _ kept))
        (record {
          answered = refl;
          steps = ap length same ∙ steps;
          has_experiment = completed ∙ ap (λ l. some (after_call l (clock 2) e)) test;
          ready = final;
        })

  decided-Advances :
      (o : Observation)
      → ((id : ℕ) (created : Store)
          → created.strategy_config ≡ s.strategy_config
          → run_strategy_step clock load agent e.strategy_type bar id e created
            ≡ attempt (run_step o id (clock 1) created))
      → Advances (clock 2) bars e s (run_next_step clock load agent true trigger s)
  decided-Advances o decided =
      subst (Advances (clock 2) bars e s)
        (sym (run_next_step-eq s r e has can clock load agent bars loads bar at o decided trigger))
        (finish-Advances _ _
          (stepped-IsReady s r e has can clock load agent bars loads bar at o decided trigger)
          (stepped-experiment s r e has can clock load agent bars loads bar at o decided trigger
            ∙ has)
          (length-stepped s r e has can clock load agent bars loads bar at o decided trigger) refl)

  average_decided :
      e.strategy_type ≡ StrategyType.moving_average
      → (id : ℕ) (created : Store) → created.strategy_config ≡ s.strategy_config
      → run_strategy_step clock load agent e.strategy_type bar id e created
        ≡ attempt (
            run_step
              (observe_moving_average
                (window_or_default r.config.moving_average_window)
                (prices_through_bar bar.date bars)
                bar)
              id
              (clock 1)
              created)
  unfolding run_strategy_step
  average_decided kind id created same = simp (kind, loads, same, r.has_config)

  simple_decided :
      e.strategy_type ≡ StrategyType.buy_and_hold
      → (id : ℕ) (created : Store) → created.strategy_config ≡ s.strategy_config
      → run_strategy_step clock load agent e.strategy_type bar id e created
        ≡ attempt (run_step (observe_buy_and_hold [] bar) id (clock 1) created)
  unfolding run_strategy_step
  simple_decided kind id created same = rw kind refl

  -- A call for a running experiment of a strategy that may be stepped, with complete state, a free
  -- lock, loadable bars and a bar left, returns: it has executed one step more, and has completed the
  -- experiment exactly if that was the last bar.
  pub run_next_step-Advances :
      Advances (clock 2) bars e s (run_next_step clock load agent true trigger s)
  run_next_step-Advances = elim (kinds_of e.mode e.strategy_type e.trading_frequency can.kind) [
    | inl kind ↦ decided-Advances _ (simple_decided kind)
    | inr kind ↦ decided-Advances _ (average_decided kind)
  ]

is_last : (n k : ℕ) → k + 1 ≡ n → leb n (suc k) ≡ true
is_last n k h = ground arith

is_not_last : (n k m : ℕ) → k + suc (suc m) ≡ n → leb n (suc k) ≡ false
is_not_last n k m h = ground arith

-- What the last of the calls leaves: a completed experiment, one finished step for each bar.
pub record IsDone (bars : List DailyBar) (e : Experiment) (s : Store) : Type 0 where
  pub now : ℕ
  pub completed : s.experiment ≡ some (with_status ExperimentStatus.completed now e)
  pub steps : length s.steps ≡ length bars
  pub ready : IsReady s

module _ (clock : ℕ → ℕ) (load : ℕ → ℕ → Option (List DailyBar))
    (agent : AgentContext → Option AgentRunResult) (trigger : TriggerType) (e : Experiment)
    (can : CanStep e) (bars : List DailyBar)
    (loads : load e.start_date e.end_date ≡ some bars) where
  -- So many calls as bars are left, with any trigger, complete a running experiment of a strategy that
  -- may be stepped, whose state is complete: then it has one finished step for each bar.
  pub step_through-IsDone :
      (n k : ℕ) (s : Store)
      → IsReady s
      → s.experiment ≡ some e
      → length s.steps + suc n ≡ length bars
      → IsDone bars e (step_through clock load agent trigger (suc n) k s)
  unfolding step_through
  step_through-IsDone zero k s r has left =
      let (bar, at) = get_elem?-some bars (length s.steps) (omega arith) in
      let a =
        run_next_step-Advances s r e has can (call_clock clock k) (λ i. load) agent bars
          (λ i. loads) trigger bar at in
      record {
        now = call_clock clock k 2;
        completed =
            a.has_experiment
            ∙ ap (λ l. some (after_call l (call_clock clock k 2) e))
                (is_last (length bars) (length s.steps) left);
        steps = omega (arith, a.steps);
        ready = a.ready;
      }
  step_through-IsDone (suc n) k s r has left =
      let (bar, at) = get_elem?-some bars (length s.steps) (omega arith) in
      let a =
        run_next_step-Advances s r e has can (call_clock clock k) (λ i. load) agent bars
          (λ i. loads) trigger bar at in
      step_through-IsDone n (suc k) _ a.ready
        (a.has_experiment
          ∙ ap (λ l. some (after_call l (call_clock clock k 2) e))
              (is_not_last (length bars) (length s.steps) n left))
        (omega (arith, a.steps))
