-- ===== src/Execution/AgentStep/Success.antt =====
-- What an agent's bar that raises nothing leaves (backend/app/modules/execution/step_runner.py).
use trading_ai_framework.Prelude.{ℕ, ◌≡◌, Option, none, some}
use trading_ai_framework.Domain.{AgentMode}
use trading_ai_framework.Models.{Portfolio, Experiment, StrategyConfig, DailyBar}
use trading_ai_framework.Agents.Types.{AgentContext, AgentRunResult}
use trading_ai_framework.Execution.Store.{Store}
use trading_ai_framework.Execution.Errors.{ok, err≢ok}
use trading_ai_framework.Execution.Orchestrator.Success.{Settled, run_decided-Settled, with_step-ok}
use trading_ai_framework.Execution.AgentStep.{run_answered, run_configured, run_agentic_ai_step}

module _ (agent : AgentContext → Option AgentRunResult) (bar : DailyBar) (id now : ℕ)
    (s s' : Store) where
  run_answered-Settled :
      (mode : AgentMode) (e : Experiment) (p : Portfolio) (answer : Option AgentRunResult)
      → run_answered agent mode bar id now e p s answer ≡ ok s'
      → Settled id now s s'
  unfolding run_answered
  run_answered-Settled mode e p none h = absurd (err≢ok h)
  run_answered-Settled mode e p (some result) h = run_decided-Settled _ id now e p _ _ _ s' h

  run_configured-Settled :
      (e : Option Experiment) (p : Option Portfolio) (c : Option StrategyConfig)
      → run_configured agent bar id now s e p c ≡ ok s'
      → Settled id now s s'
  unfolding run_configured
  run_configured-Settled (some e) (some p) (some c) h =
      run_answered-Settled _ e p _ (with_step-ok _ _ s' h)
  run_configured-Settled (some e) (some p) none h = absurd (err≢ok h)
  run_configured-Settled (some e) none c h = absurd (err≢ok h)
  run_configured-Settled none p c h = absurd (err≢ok h)

  pub run_agentic_ai_step-Settled :
      run_agentic_ai_step agent bar id now s ≡ ok s' → Settled id now s s'
  unfolding run_agentic_ai_step
  run_agentic_ai_step-Settled h =
      run_configured-Settled s.experiment s.portfolio s.strategy_config h
