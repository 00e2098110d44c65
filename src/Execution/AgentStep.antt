-- ===== src/Execution/AgentStep.antt =====
-- A bar on which an agent decides: `_run_agentic_ai_step` of
-- backend/app/modules/execution/step_runner.py, and the rows that the paper runner writes alike. The
-- agent is a parameter, which answers or raises.
pub mod Success
use trading_ai_framework.Prelude.{ℕ, Option, none, some, List, ◌++◌, map}
use trading_ai_framework.Prelude.Text.{String}
use trading_ai_framework.Domain.{AgentMode, DecisionSourceType}
use trading_ai_framework.Decimal
use trading_ai_framework.Decimal.{Decimal}
use trading_ai_framework.Models.{
  Portfolio, Experiment, StrategyConfig, DailyBar, TradingDecision, AgentDecisionLog,
}
use trading_ai_framework.Agents.Types.{
  AgentContext, AgentDecision, AgentDecisionLogPayload, AgentRunResult, payloads_or,
}
use trading_ai_framework.Execution.Risk.{evaluate_target_exposure}
use trading_ai_framework.Execution.Store.{Store, get_step, next_id}
use trading_ai_framework.Execution.Errors.{Result, err, agent_failed, missing_state}
use trading_ai_framework.Execution.Orchestrator.{run_decided, with_step}
use trading_ai_framework.Execution.Historical.{quote_of}

abbrev pub agent_source_name : String
agent_source_name = "AgenticAIStrategy"

-- `strategy_config.agent_mode or AgentMode.SINGLE_AGENT`
abbrev pub agent_mode_or : Option AgentMode → AgentMode
agent_mode_or none = AgentMode.single_agent
agent_mode_or (some mode) = mode

-- The row of an agent's decision.
abbrev pub agent_decision : AgentDecision → ℕ → ℕ → TradingDecision
agent_decision d step_id now = record {
  execution_step_id = step_id;
  source_type = DecisionSourceType.agent;
  source_name = agent_source_name;
  action = d.action;
  symbol = d.symbol;
  confidence = d.confidence;
  trade_intent = d.trade_intent;
  target_exposure_pct = d.target_exposure_pct;
  primary_driver = d.primary_driver;
  new_information = d.new_information;
  reason = d.reason;
  created_at = now;
}

-- The row of one entry of the agent's log.
abbrev pub agent_log : AgentMode → ℕ → ℕ → ℕ → AgentDecisionLogPayload → AgentDecisionLog
agent_log mode decision_id step_id now p = record {
  execution_step_id = step_id;
  trading_decision_id = decision_id;
  agent_mode = mode;
  agent_step_name = p.agent_step_name;
  agent_name = p.agent_name;
  prompt_version = p.prompt_version;
  model_name = p.model_name;
  model_version = p.model_version;
  prompt_text = p.prompt_text;
  raw_output_text = p.raw_output_text;
  parsing_status = p.parsing_status;
  repair_prompt_text = p.repair_prompt_text;
  repair_raw_output_text = p.repair_raw_output_text;
  created_at = now;
}

-- The log rows of an answer, for the decision that is added next.
abbrev pub add_logs : AgentMode → AgentRunResult → ℕ → ℕ → Store → List AgentDecisionLog
add_logs mode result step_id now s =
    s.agent_logs
    ++ map (agent_log mode (next_id s.decisions) step_id now)
        (payloads_or result.log_payload result.log_payloads)

abbrev pub context_of :
    String → DailyBar → ℕ → Portfolio → StrategyConfig → Option String → AgentContext
context_of symbol bar step_id portfolio config model_name = record {
  execution_step_id = step_id;
  symbol = symbol;
  bar = bar;
  cash = portfolio.cash;
  position_quantity = portfolio.position_quantity;
  current_portfolio_value = portfolio.current_portfolio_value;
  confidence_threshold = config.confidence_threshold;
  agent_mode = agent_mode_or config.agent_mode;
  model_name = model_name;
}

-- `max_exposure_pct`, by default
abbrev pub max_exposure_pct : Decimal
max_exposure_pct = Decimal.decimal 10000 4

module _ (agent : AgentContext → Option AgentRunResult) where
  -- A step once the agent has answered, or raised.
  run_answered :
      AgentMode
      → DailyBar
      → ℕ
      → ℕ
      → Experiment
      → Portfolio
      → Store
      → Option AgentRunResult
      → Result Store
  run_answered mode bar step_id now e p s none = err agent_failed
  run_answered mode bar step_id now e p s (some result) =
      run_decided (quote_of bar none) step_id now e p (agent_decision result.decision step_id now)
        (evaluate_target_exposure result.decision.action result.decision.symbol
          result.decision.target_exposure_pct p bar.adjusted_close max_exposure_pct)
        (record s { agent_logs = add_logs mode result step_id now s })

  run_configured :
      DailyBar
      → ℕ
      → ℕ
      → Store
      → Option Experiment
      → Option Portfolio
      → Option StrategyConfig
      → Result Store
  unfolding run_answered
  run_configured bar step_id now s (some e) (some p) (some c) =
      with_step (get_step step_id s.steps) (
        run_answered (agent_mode_or c.agent_mode) bar step_id now e p s
          (agent (context_of "SPY" bar step_id p c c.model_name)))
  run_configured bar step_id now s _ _ _ = err missing_state

  -- `_run_agentic_ai_step`
  unfoldable pub run_agentic_ai_step : DailyBar → ℕ → ℕ → Store → Result Store
  unfolding run_configured
  run_agentic_ai_step bar step_id now s =
      run_configured bar step_id now s s.experiment s.portfolio s.strategy_config
