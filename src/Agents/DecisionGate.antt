-- ===== src/Agents/DecisionGate.antt =====
-- The gate that an agent's decision passes before the risk check:
-- backend/app/modules/agents/decision_gate.py. The floats of the audit are kept as the decimals
-- that they are made from.
pub mod Laws
use trading_ai_framework.Prelude.{
  ℕ, zero, suc, ◌/◌, ◌%◌, ◌^◌, Bool, true, false, not, ◌&&◌, ◌||◌, Option, none, some, is_some,
  if◌then◌else◌,
}
use trading_ai_framework.Prelude.Int.{ℤ, pos, negsuc}
use trading_ai_framework.Prelude.Text.{String, ◌<>◌, str, str_eq, pad}
use trading_ai_framework.Domain.{TradeAction, TradeIntent, PrimaryDriver}
use trading_ai_framework.Decimal
use trading_ai_framework.Decimal.{Decimal}
use trading_ai_framework.Agents.Types.{AgentContext}

-- `ParsedAgentOutput` of backend/app/modules/agents/types.py
pub record ParsedAgentOutput : Type 0 where
  pub action : TradeAction
  pub trade_intent : TradeIntent
  pub target_exposure_pct : Decimal
  pub confidence : Decimal
  pub primary_driver : PrimaryDriver
  pub new_information : Bool
  pub rationale : String
  pub event_id : Option String

-- The fallback reasons.
pub data FallbackReason : Type 0 where
  confidence_below_threshold buy_target_not_above_current_exposure : FallbackReason
  sell_without_position sell_target_not_below_current_exposure : FallbackReason
  buy_without_new_information agent_risk_manager_blocked_buy : FallbackReason

-- `audit_json`, less what it repeats of the two decisions
pub record Audit : Type 0 where
  pub current_exposure_pct : Decimal
  pub fallback_reason : Option FallbackReason
  pub confidence_threshold_applied : Bool
  pub target_exposure_clamped : Bool
  pub max_exposure_pct : Decimal
  pub risk_level : Option String

pub record DecisionGateResult : Type 0 where
  pub decision : ParsedAgentOutput
  pub audit_json : Audit

-- `_position_value`
abbrev pub position_value : AgentContext → Decimal
position_value c = Decimal.mul (Decimal.or_zero c.position_quantity) c.bar.adjusted_close

-- `_has_position`
abbrev pub holds_position : AgentContext → Bool
holds_position c = Decimal.lt Decimal.nought (Decimal.or_zero c.position_quantity)

-- `_hold_intent`
abbrev hold_intent : AgentContext → TradeIntent
hold_intent c = if holds_position c then TradeIntent.hold_position else TradeIntent.stay_out

abbrev value_or : Option Decimal → Decimal → Decimal
value_or none total = total
value_or (some v) total = if Decimal.le v Decimal.nought then total else v

-- `_current_exposure_pct`
unfoldable pub current_exposure_pct : AgentContext → Decimal
current_exposure_pct c =
    let portfolio_value =
      value_or c.current_portfolio_value (Decimal.add c.cash (position_value c)) in
    if Decimal.le portfolio_value Decimal.nought
    then Decimal.decimal 0 4
    else Decimal.quantized_div 4 (position_value c) portfolio_value

abbrev is_buy : TradeAction → Bool
is_buy TradeAction.buy = true
is_buy _ = false

abbrev is_sell : TradeAction → Bool
is_sell TradeAction.sell = true
is_sell _ = false

-- `confidence_threshold is not None and confidence < confidence_threshold`
abbrev is_unsure : Option Decimal → Decimal → Bool
is_unsure none confidence = false
is_unsure (some threshold) confidence = Decimal.lt confidence threshold

abbrev is_high : Option String → Bool
is_high none = false
is_high (some level) = str_eq level "HIGH"

-- `str(d)` of a decimal that Python writes without an exponent
unsigned_str : ℕ → ℕ → String
unsigned_str n zero = str n
unsigned_str n (suc p) = str (n / 10 ^ suc p) <> "." <> pad (suc p) n

decimal_str : Decimal → String
unfolding unsigned_str
decimal_str d = elim d.coefficient [
  | pos n ↦ unsigned_str n d.places
  | negsuc n ↦ "-" <> unsigned_str (suc n) d.places
]

threshold_str : Option Decimal → String
unfolding decimal_str
threshold_str none = "None"
threshold_str (some t) = decimal_str t

-- What a branch decides: nothing, or a hold with an intent, a reason and a rationale.
pub record Fallback : Type 0 where
  pub intent : TradeIntent
  pub reason : FallbackReason
  pub rationale : String

abbrev fallback : TradeIntent → FallbackReason → String → Option Fallback
fallback i r t = some (record { intent = i; reason = r; rationale = t })

-- The branches of `apply`, for the two exposures.
unfoldable pub fallback_of :
    ParsedAgentOutput → AgentContext → Option String → Decimal → Decimal → Option Fallback
unfolding decimal_str threshold_str
fallback_of p c risk_level target current =
    if is_unsure c.confidence_threshold p.confidence
    then fallback (hold_intent c) FallbackReason.confidence_below_threshold (
        "Agent confidence "
        <> decimal_str p.confidence
        <> " is below configured threshold "
        <> threshold_str c.confidence_threshold
        <> "; converted to HOLD before RiskCheck.")
    else if is_buy p.action && Decimal.le target current
    then fallback (hold_intent c) FallbackReason.buy_target_not_above_current_exposure
        "BUY was converted to HOLD because target exposure is not above current exposure."
    else if is_sell p.action && not (holds_position c)
    then fallback TradeIntent.stay_out FallbackReason.sell_without_position
        "SELL was converted to HOLD because no long position exists."
    else if is_sell p.action && Decimal.le current target
    then fallback (hold_intent c) FallbackReason.sell_target_not_below_current_exposure
        "SELL was converted to HOLD because target exposure is not below current exposure."
    else if is_buy p.action && not p.new_information
    then fallback (hold_intent c) FallbackReason.buy_without_new_information
        "BUY was converted to HOLD because the agent did not identify new information."
    else if is_buy p.action && is_high risk_level
    then fallback (hold_intent c) FallbackReason.agent_risk_manager_blocked_buy
        "BUY was converted to HOLD because the agent risk stage reported HIGH risk."
    else none

abbrev is_hold : TradeAction → Bool
is_hold TradeAction.hold = true
is_hold _ = false

-- `final_decision`
abbrev final_decision : ParsedAgentOutput → Decimal → Decimal → Option Fallback → ParsedAgentOutput
final_decision p target current none = record p {
  target_exposure_pct = if is_hold p.action then current else target;
}
final_decision p target current (some f) = record p {
  action = TradeAction.hold;
  trade_intent = f.intent;
  target_exposure_pct = current;
  rationale = f.rationale;
}

abbrev reason_of : Option Fallback → Option FallbackReason
reason_of none = none
reason_of (some f) = some f.reason

-- `AgentDecisionGate.apply`
unfoldable pub apply :
    ParsedAgentOutput → AgentContext → Option String → Decimal → DecisionGateResult
apply p c risk_level max_exposure_pct =
    let current = current_exposure_pct c in
    let target = Decimal.min p.target_exposure_pct max_exposure_pct in
    let f = fallback_of p c risk_level target current in
    record {
      decision = final_decision p target current f;
      audit_json = record {
        current_exposure_pct = current;
        fallback_reason = reason_of f;
        confidence_threshold_applied = is_unsure c.confidence_threshold p.confidence;
        target_exposure_clamped =
            Decimal.lt target p.target_exposure_pct || Decimal.lt p.target_exposure_pct target;
        max_exposure_pct = max_exposure_pct;
        risk_level = risk_level;
      };
    }
