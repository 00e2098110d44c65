-- ===== src/Tests/AgentTests.antt =====
-- A BUY that passes the gate of backend/app/modules/agents/decision_gate.py.
use trading_ai_framework.Prelude.{true, none, some}
use trading_ai_framework.Domain.{AgentMode, TradeAction, TradeIntent, PrimaryDriver}
use trading_ai_framework.Decimal.{decimal, of_ℕ}
use trading_ai_framework.Models.{DailyBar}
use trading_ai_framework.Agents.Types.{AgentContext}
use trading_ai_framework.Agents.DecisionGate.{ParsedAgentOutput, apply}
use trading_ai_framework.Agents.DecisionGate.Laws.{IsSound, apply-IsSound}

abbrev parsed : ParsedAgentOutput
parsed = record {
  action = TradeAction.buy;
  trade_intent = TradeIntent.open_long;
  target_exposure_pct = decimal 75 2;
  confidence = decimal 81 2;
  primary_driver = PrimaryDriver.technical;
  new_information = true;
  rationale = "Momentum.";
  event_id = none;
}

abbrev bar : DailyBar
bar = record {
  date = 3;
  open_price = of_ℕ 300;
  high = of_ℕ 310;
  low = of_ℕ 290;
  close = of_ℕ 300;
  adjusted_close = of_ℕ 300;
  volume = of_ℕ 1000;
  timestamp = none;
}

abbrev context : AgentContext
context = record {
  execution_step_id = 1;
  symbol = "SPY";
  agent_mode = AgentMode.pipeline;
  model_name = none;
  bar = bar;
  cash = decimal 10000000 4;
  position_quantity = none;
  current_portfolio_value = none;
  confidence_threshold = some (decimal 60 2);
}

apply-IsSound_example :
    IsSound parsed context
      (some "LOW")
      (of_ℕ 1)
      (apply parsed context (some "LOW") (of_ℕ 1)).decision
apply-IsSound_example = apply-IsSound parsed context (some "LOW") (of_ℕ 1)
