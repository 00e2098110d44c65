-- ===== src/Execution/Risk.antt =====
-- The risk check of backend/app/modules/execution/risk.py: how many whole shares a decision may
-- trade. The floats of the JSON audit are kept as the decimals that they are made from.
pub mod Bounds
pub mod Target
use trading_ai_framework.Prelude.{Bool, true, false, Option, none, some, ◌||◌, if◌then◌else◌}
use trading_ai_framework.Prelude.Text.{String, ◌<>◌}
use trading_ai_framework.Domain.{TradeAction, FinalAction}
use trading_ai_framework.Decimal
use trading_ai_framework.Decimal.{Decimal}
use trading_ai_framework.Models.{Portfolio}

-- The codes under the key "reason" of `rules_triggered_json`.
pub data RuleReason : Type 0 where
  invalid_execution_price hold_action no_position_to_sell sell_full_position : RuleReason
  insufficient_cash_for_one_share default_whole_share_buy invalid_portfolio_value : RuleReason
  target_exposure_risk_check target_exposure_below_one_share : RuleReason
  insufficient_cash_for_target_exposure smoke_test_fixed_one_share : RuleReason

-- The object under the key "targetExposure".
pub record TargetExposureAudit : Type 0 where
  pub target_exposure_pct : Decimal
  pub requested_target_exposure_pct : Decimal
  pub max_exposure_pct : Decimal
  pub current_position_value : Decimal
  pub target_position_value : Decimal
  pub delta_value : Decimal
  pub final_quantity : Option Decimal

pub record RulesTriggered : Type 0 where
  pub reason : RuleReason
  pub target_exposure : Option TargetExposureAudit

pub record RiskResult : Type 0 where
  pub approved : Bool
  pub final_action : FinalAction
  pub final_quantity : Option Decimal
  pub final_notional : Option Decimal
  pub rejection_reason : Option String
  pub rules_triggered_json : RulesTriggered

-- An approved result that holds.
abbrev pub held : Option String → RulesTriggered → RiskResult
held rejection rules = record {
  approved = true;
  final_action = FinalAction.hold;
  final_quantity = none;
  final_notional = none;
  rejection_reason = rejection;
  rules_triggered_json = rules;
}

-- An approved result that trades, with its value rounded to the cash column.
abbrev pub trade : FinalAction → Decimal → Decimal → RulesTriggered → RiskResult
trade action quantity price rules = record {
  approved = true;
  final_action = action;
  final_quantity = some quantity;
  final_notional = some (Decimal.quantize 4 (Decimal.mul quantity price));
  rejection_reason = none;
  rules_triggered_json = rules;
}

abbrev pub rule : RuleReason → RulesTriggered
rule r = record { reason = r; target_exposure = none }

-- The branches of `HistoricalSimulationRiskValidator.evaluate` for a price above zero.
evaluate_action : TradeAction → String → Portfolio → Decimal → RiskResult
evaluate_action TradeAction.hold symbol portfolio price = held none (rule RuleReason.hold_action)
evaluate_action TradeAction.sell symbol portfolio price =
    let position_quantity = Decimal.or_zero portfolio.position_quantity in
    if Decimal.le position_quantity Decimal.nought
    then held (some ("No " <> symbol <> " position exists to sell."))
        (rule RuleReason.no_position_to_sell)
    else trade FinalAction.sell position_quantity price (rule RuleReason.sell_full_position)
evaluate_action TradeAction.buy symbol portfolio price =
    let quantity = Decimal.floor_div portfolio.cash price in
    if Decimal.lt quantity (Decimal.of_ℕ 1)
    then held (some ("Insufficient cash to buy at least one whole " <> symbol <> " share."))
        (rule RuleReason.insufficient_cash_for_one_share)
    else trade FinalAction.buy quantity price (rule RuleReason.default_whole_share_buy)

-- `HistoricalSimulationRiskValidator.evaluate`
unfoldable pub evaluate : TradeAction → String → Portfolio → Decimal → RiskResult
unfolding evaluate_action
evaluate action symbol portfolio price =
    if Decimal.le price Decimal.nought
    then held (some "Execution price must be positive.") (rule RuleReason.invalid_execution_price)
    else evaluate_action action symbol portfolio price

-- `portfolio.current_portfolio_value`, or cash and position where it is missing or not positive
unfoldable pub portfolio_value : Option Decimal → Decimal → Decimal → Decimal
portfolio_value none cash current_position_value = Decimal.add cash current_position_value
portfolio_value (some v) cash current_position_value =
    if Decimal.le v Decimal.nought then Decimal.add cash current_position_value else v

abbrev pub audit : RuleReason → TargetExposureAudit → RulesTriggered
audit r a = record { reason = r; target_exposure = some a }

abbrev with_quantity : TargetExposureAudit → Decimal → TargetExposureAudit
with_quantity a q = record a { final_quantity = some q }

abbrev is_hold : TradeAction → Bool
is_hold TradeAction.hold = true
is_hold other = false

-- `delta_value > 0`: as many shares as the target asks for and the cash pays.
unfoldable pub raise_exposure : Decimal → Decimal → TargetExposureAudit → RiskResult
raise_exposure cash price a =
    let target_quantity = Decimal.floor_div a.delta_value price in
    let affordable_quantity = Decimal.floor_div cash price in
    let quantity = Decimal.min target_quantity affordable_quantity in
    if Decimal.lt quantity (Decimal.of_ℕ 1)
    then held (some "Insufficient cash for at least one share.")
        (audit RuleReason.insufficient_cash_for_target_exposure a)
    else trade FinalAction.buy quantity price
        (audit RuleReason.target_exposure_risk_check (with_quantity a quantity))

-- `delta_value <= 0`: as many shares as the target gives up and the position holds.
unfoldable pub lower_exposure : String → Decimal → Decimal → TargetExposureAudit → RiskResult
lower_exposure symbol position_quantity price a =
    let quantity =
      Decimal.min (Decimal.floor_div (Decimal.abs a.delta_value) price) position_quantity in
    if Decimal.le position_quantity Decimal.nought
    then held (some ("No " <> symbol <> " position exists to sell."))
        (audit RuleReason.no_position_to_sell a)
    else if Decimal.lt quantity (Decimal.of_ℕ 1)
    then held none (audit RuleReason.target_exposure_below_one_share a)
    else trade FinalAction.sell quantity price
        (audit RuleReason.target_exposure_risk_check (with_quantity a quantity))

-- The branches on the distance to the target.
unfoldable pub to_target :
    TradeAction → String → Decimal → Decimal → Decimal → TargetExposureAudit → RiskResult
to_target action symbol cash position_quantity price a =
    if is_hold action || Decimal.lt (Decimal.abs a.delta_value) price
    then held none (audit RuleReason.target_exposure_below_one_share a)
    else if Decimal.lt Decimal.nought a.delta_value
    then raise_exposure cash price a
    else lower_exposure symbol position_quantity price a

-- The figures that the audit records: the clamped target and its distance from the position.
unfoldable pub target_audit : Decimal → Decimal → Decimal → Decimal → TargetExposureAudit
target_audit requested maximum value current =
    let clamped_target = Decimal.min (Decimal.max_of requested Decimal.nought) maximum in
    let target_position_value = Decimal.mul value clamped_target in
    record {
      target_exposure_pct = clamped_target;
      requested_target_exposure_pct = requested;
      max_exposure_pct = maximum;
      current_position_value = current;
      target_position_value = target_position_value;
      delta_value = Decimal.sub target_position_value current;
      final_quantity = none;
    }

-- `evaluate_target_exposure` with a target, for a price above zero.
unfoldable pub evaluate_target :
    TradeAction → String → Decimal → Portfolio → Decimal → Decimal → RiskResult
evaluate_target action symbol requested portfolio price maximum =
    let position_quantity = Decimal.or_zero portfolio.position_quantity in
    let current = Decimal.mul position_quantity price in
    let value = portfolio_value portfolio.current_portfolio_value portfolio.cash current in
    if Decimal.le value Decimal.nought
    then held (some "Portfolio value must be positive.") (rule RuleReason.invalid_portfolio_value)
    else to_target action symbol portfolio.cash position_quantity price
        (target_audit requested maximum value current)

unfoldable pub target_or_default :
    TradeAction → String → Option Decimal → Portfolio → Decimal → Decimal → RiskResult
target_or_default action symbol none portfolio price maximum =
    evaluate action symbol portfolio price
target_or_default action symbol (some requested) portfolio price maximum =
    evaluate_target action symbol requested portfolio price maximum

-- `HistoricalSimulationRiskValidator.evaluate_target_exposure`
unfoldable pub evaluate_target_exposure :
    TradeAction → String → Option Decimal → Portfolio → Decimal → Decimal → RiskResult
evaluate_target_exposure action symbol target portfolio price maximum =
    if Decimal.le price Decimal.nought
    then held (some "Execution price must be positive.") (rule RuleReason.invalid_execution_price)
    else target_or_default action symbol target portfolio price maximum
