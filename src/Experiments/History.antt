-- ===== src/Experiments/History.antt =====
-- All that may happen to the rows of a simulated experiment, in any order: the calls of
-- backend/app/modules/experiments/service.py, the transactions of a background run and of the step
-- runner, and the calls of the paper runner and of the broker synchronisation, which nothing in
-- backend/app/modules keeps apart. The agent is asked where the step runner asks it.
pub mod Numbering
pub mod Simulated
pub mod Invariant
use trading_ai_framework.Prelude.{ℕ, ◌≡◌, Bool, Option, some}
use trading_ai_framework.Prelude.Text.{String}
use trading_ai_framework.Domain.{ExperimentMode, StrategyType, TriggerType}
use trading_ai_framework.Models.{Experiment, DailyBar}
use trading_ai_framework.Agents.Types.{AgentContext, AgentRunResult}
use trading_ai_framework.Execution.Store.{Store}
use trading_ai_framework.Execution.Errors.{Error, ok}
use trading_ai_framework.Execution.AgentStep.{run_agentic_ai_step}
use trading_ai_framework.Execution.StepRunner.{mark_completed}
use trading_ai_framework.Execution.PaperSteps.{Outside}
use trading_ai_framework.Execution.PaperRunner.{run_next_paper_step, run_event_step}
use trading_ai_framework.Execution.BrokerSync.OpenOrders.{Answer, sync_open_orders}
use trading_ai_framework.Execution.RunEnd.{complete_experiment, persist_failure}
use trading_ai_framework.Execution.Orchestrator.{Observation, create_running_step, run_step}
use trading_ai_framework.Experiments.{done}
use trading_ai_framework.Experiments.StatusMachine.{Action}
use trading_ai_framework.Experiments.Validators.{CreateExperimentRequest, Settings}
use trading_ai_framework.Experiments.Service.{
  ExperimentActionResponse, Task, create_experiment, apply_lifecycle_action, start_experiment,
}

-- One committed transaction.
pub data Transaction : Store → Store → Type 0 where
  acts :
      {s : Store} (action : Action) (now : ℕ) (response : ExperimentActionResponse)
      → apply_lifecycle_action action now s ≡ done response
      → Transaction s response.store
  opens_step :
      {s : Store} (trigger : TriggerType) (timestamp now : ℕ)
      → Transaction s (create_running_step trigger timestamp now s).1
  runs_step :
      {s s' : Store} (o : Observation) (step_id now : ℕ)
      → run_step o step_id now s ≡ ok s'
      → Transaction s s'
  completes : {s s' : Store} (now : ℕ) → complete_experiment now s ≡ ok s' → Transaction s s'
  marks_completed :
      {s : Store} (now : ℕ) (e : Experiment)
      → s.experiment ≡ some e
      → Transaction s (mark_completed now e s)
  asks_agent :
      {s s' : Store} (agent : AgentContext → Option AgentRunResult) (bar : DailyBar)
      (step_id now : ℕ) (e : Experiment)
      → s.experiment ≡ some e
      → e.strategy_type ≡ StrategyType.agentic_ai
      → run_agentic_ai_step agent bar step_id now s ≡ ok s'
      → Transaction s s'
  steps_on_paper :
      {s : Store} (outside : Outside) (clock : ℕ → ℕ) (settings : Settings) (lock : Bool)
      (describe : Error → String) (connect : Option String) (trigger : TriggerType)
      (scheduled_for : Option ℕ)
      → Transaction s
          (run_next_paper_step outside clock settings lock describe connect trigger scheduled_for
            s).0
  answers_event :
      {s : Store} (outside : Outside) (clock : ℕ → ℕ) (settings : Settings) (lock : Bool)
      (connect : Option String) (event_id : ℕ) (scheduled_for : Option ℕ)
      → Transaction s
          (run_event_step outside clock settings lock connect event_id scheduled_for s).0
  syncs :
      {s : Store} (clock : ℕ → ℕ) (get_order_status : ℕ → String → Answer)
      → Transaction s (sync_open_orders clock get_order_status s).store
  fails :
      {s : Store} (message : String) (step_id : Option ℕ) (now : ℕ)
      → Transaction s (persist_failure message step_id now s)

-- The rows that a simulated experiment can have, from its creation on.
pub data Reachable : Store → Type 0 where
  creates :
      {s : Store} (settings : Settings) (r : CreateExperimentRequest) (id now : ℕ)
      → r.mode ≡ ExperimentMode.historical_simulation
      → create_experiment settings r id now ≡ done s
      → Reachable s
  continues : {s s' : Store} → Reachable s → Transaction s s' → Reachable s'
