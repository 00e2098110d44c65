-- ===== src/Agents/Types.antt =====
-- What an agent is given and what it answers: backend/app/modules/agents/types.py. JSON is left out.
use trading_ai_framework.Prelude.{ℕ, Bool, Option, List, [], ◌∷◌}
use trading_ai_framework.Prelude.Text.{String}
use trading_ai_framework.Domain.{
  TradeAction, TradeIntent, PrimaryDriver, AgentMode, AgentStepName, ParsingStatus,
}
use trading_ai_framework.Decimal.{Decimal}
use trading_ai_framework.Models.{DailyBar}

-- `AgentContext`
pub record AgentContext : Type 0 where
  pub execution_step_id : ℕ
  pub symbol : String
  pub bar : DailyBar
  pub cash : Decimal
  pub position_quantity : Option Decimal
  pub current_portfolio_value : Option Decimal
  pub confidence_threshold : Option Decimal
  pub agent_mode : AgentMode
  pub model_name : Option String

-- `AgentDecision`
pub record AgentDecision : Type 0 where
  pub action : TradeAction
  pub symbol : String
  pub confidence : Decimal
  pub reason : String
  pub trade_intent : Option TradeIntent
  pub target_exposure_pct : Option Decimal
  pub primary_driver : Option PrimaryDriver
  pub new_information : Option Bool

-- `AgentDecisionLogPayload`
pub record AgentDecisionLogPayload : Type 0 where
  pub agent_step_name : AgentStepName
  pub agent_name : String
  pub prompt_version : String
  pub model_name : Option String
  pub model_version : Option String
  pub prompt_text : String
  pub raw_output_text : String
  pub parsing_status : ParsingStatus
  pub repair_prompt_text : Option String
  pub repair_raw_output_text : Option String

-- `AgentRunResult`
pub record AgentRunResult : Type 0 where
  pub decision : AgentDecision
  pub log_payload : AgentDecisionLogPayload
  pub log_payloads : List AgentDecisionLogPayload

-- `agent_result.log_payloads or (agent_result.log_payload,)`
abbrev pub payloads_or :
    AgentDecisionLogPayload → List AgentDecisionLogPayload → List AgentDecisionLogPayload
payloads_or payload [] = payload ∷ []
payloads_or payload (p ∷ payloads) = p ∷ payloads
