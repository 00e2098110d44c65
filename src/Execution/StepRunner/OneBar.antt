-- ===== src/Execution/StepRunner/OneBar.antt =====
-- One call of `run_next_step` for a run that lacks nothing and has a bar left
-- (backend/app/modules/execution/step_runner.py).
use trading_ai_framework.Prelude.{
  ℕ, suc, ◌≡◌, refl, ap, ◌∙◌, true, Option, some, none, List, length, leb, get_elem?,
}
use trading_ai_framework.Prelude.Text.{str_eq}
use trading_ai_framework.Domain.{ExperimentStatus, TriggerType}
use trading_ai_framework.Models.{Experiment, DailyBar}
use trading_ai_framework.Agents.Types.{AgentContext, AgentRunResult}
use trading_ai_framework.Execution.Store.{Store}
use trading_ai_framework.Execution.Store.Steps.{
  max_sequence_number_last, AreFinished-has_running_step,
}
use trading_ai_framework.Execution.Metrics.{MetricResult}
use trading_ai_framework.Execution.Orchestrator.{
  Observation, bar_timestamp, create_running_step, run_step,
}
use trading_ai_framework.Execution.Historical.Bar.{
  IsReady, after, after-IsReady, length-after, after-config, after-experiment, bar_runs,
}
use trading_ai_framework.Execution.StepRunner.{
  found, ◌>>=◌, Attempt, gives, attempt, select_bar_and_create_step, select_at, check_step,
  steps_manually, run_strategy_step, run_step_artifacts, is_final_bar, finish_step, run_selected,
  run_next_step,
}

-- An experiment that may be stepped.
pub record CanStep (e : Experiment) : Type 0 where
  pub running : e.status ≡ ExperimentStatus.running
  pub kind : steps_manually e.mode e.strategy_type e.trading_frequency ≡ true
  pub spy : str_eq e.asset_symbol "SPY" ≡ true

pub found-bind {ℓ} :
    {B : Type ℓ} {row : Option Experiment} {e : Experiment} (f : Experiment → Attempt B)
    → row ≡ some e
    → (found row >>= f) ≡ f e
found-bind f h = rw h refl

module _ (s : Store) (r : IsReady s) (e : Experiment) (has : s.experiment ≡ some e)
    (can : CanStep e) where
  check_step-none : check_step true e s ≡ none
  unfolding check_step
  check_step-none =
      rw (can.running, can.kind, can.spy, AreFinished-has_running_step 1 s.steps r.steps_finished)

  select-eq :
      (trigger : TriggerType) (load : ℕ → ℕ → Option (List DailyBar)) (now : ℕ)
      (bars : List DailyBar)
      → load e.start_date e.end_date ≡ some bars
      → select_bar_and_create_step trigger true load now s
        ≡ gives (select_at trigger now e (length s.steps) s (get_elem? bars (length s.steps)))
  unfolding select_bar_and_create_step
  select-eq trigger load now bars loads =
      simp (has, check_step-none, loads, max_sequence_number_last s.steps r.steps_finished)

  module _ (clock : ℕ → ℕ) (load : ℕ → ℕ → ℕ → Option (List DailyBar))
      (agent : AgentContext → Option AgentRunResult) (bars : List DailyBar)
      (loads : (n : ℕ) → load n e.start_date e.end_date ≡ some bars) (bar : DailyBar)
      (at : get_elem? bars (length s.steps) ≡ some bar) (o : Observation)
      (decided : (id : ℕ) (created : Store)
        → created.strategy_config ≡ s.strategy_config
        → run_strategy_step clock load agent e.strategy_type bar id e created
          ≡ attempt (run_step o id (clock 1) created))
      (trigger : TriggerType) where
    unfoldable pub figures : MetricResult
    figures = (bar_runs o (clock 1) s r trigger (bar_timestamp bar) (clock 0)).0

    -- The rows after the call, before the experiment is completed.
    unfoldable pub stepped : Store
    stepped = after o (clock 1) s r trigger (bar_timestamp bar) (clock 0) figures

    pub stepped-experiment : stepped.experiment ≡ s.experiment
    unfolding stepped
    stepped-experiment =
        after-experiment o (clock 1) s r trigger (bar_timestamp bar) (clock 0) figures

    pub stepped-config : stepped.strategy_config ≡ s.strategy_config
    unfolding stepped
    stepped-config = after-config o (clock 1) s r trigger (bar_timestamp bar) (clock 0) figures

    pub stepped-IsReady : IsReady stepped
    unfolding stepped
    stepped-IsReady = after-IsReady o (clock 1) s r trigger (bar_timestamp bar) (clock 0) figures

    pub length-stepped : length stepped.steps ≡ suc (length s.steps)
    unfolding stepped
    length-stepped = length-after o (clock 1) s r trigger (bar_timestamp bar) (clock 0) figures

    artifacts-eq :
        let (id, created) = create_running_step trigger (bar_timestamp bar) (clock 0) s in
        run_step_artifacts clock load agent bar id created ≡ gives stepped
    unfolding run_step_artifacts create_running_step stepped figures
    artifacts-eq =
        found-bind _ has
        ∙ (decided _ _ refl
            ∙ ap attempt (bar_runs o (clock 1) s r trigger (bar_timestamp bar) (clock 0)).1)

    final-eq :
        is_final_bar clock load agent (suc (length s.steps)) stepped
        ≡ gives (leb (length bars) (suc (length s.steps)))
    unfolding is_final_bar
    final-eq = simp (stepped-experiment, has, loads)

    -- The call executes the bar, and completes the experiment if it was the last one.
    pub run_next_step-eq :
        run_next_step clock load agent true trigger s
        ≡ finish_step clock load agent
            (suc (length s.steps))
            stepped
            (leb (length bars) (suc (length s.steps)))
    unfolding run_next_step run_selected create_running_step
    run_next_step-eq =
        simp (select-eq trigger (load 0) (clock 0) bars (loads 0), at)
          (simp (artifacts-eq, final-eq))
