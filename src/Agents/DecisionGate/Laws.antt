-- ===== src/Agents/DecisionGate/Laws.antt =====
-- What the gate lets through (backend/app/modules/agents/decision_gate.py).
use trading_ai_framework.Prelude.{
  ◌≡◌, refl, Bool, true, false, not, ◌&&◌, Option, none, some, arith, if◌then◌else◌, Option-cases,
  leb→lt, inl, inr, ◌⊎◌,
}
use trading_ai_framework.Prelude.Text.{String}
use trading_ai_framework.Domain.{TradeAction}
use trading_ai_framework.Decimal
use trading_ai_framework.Decimal.{Decimal, ◌≺◌, ◌≼◌}
use trading_ai_framework.Decimal.Order.{min-≼}
use trading_ai_framework.Agents.Types.{AgentContext}
use trading_ai_framework.Agents.DecisionGate.{
  ParsedAgentOutput, apply, current_exposure_pct, fallback_of, holds_position, is_unsure, is_high,
  is_buy, is_sell, final_decision,
}

-- A BUY that the gate lets through.
pub record IsSoundBuy (p : ParsedAgentOutput) (c : AgentContext) (risk_level : Option String)
    (max_exposure_pct : Decimal) (d : ParsedAgentOutput) : Type 0 where
  pub asked : p.action ≡ TradeAction.buy
  pub above : current_exposure_pct c ≺ d.target_exposure_pct
  pub bounded : d.target_exposure_pct ≼ max_exposure_pct
  pub sure : is_unsure c.confidence_threshold p.confidence ≡ false
  pub informed : p.new_information ≡ true
  pub calm : is_high risk_level ≡ false

-- A SELL that the gate lets through.
pub record IsSoundSell (p : ParsedAgentOutput) (c : AgentContext) (d : ParsedAgentOutput)
    : Type 0 where
  pub asked : p.action ≡ TradeAction.sell
  pub below : d.target_exposure_pct ≺ current_exposure_pct c
  pub held : holds_position c ≡ true
  pub sure : is_unsure c.confidence_threshold p.confidence ≡ false

-- A HOLD keeps the exposure.
pub record IsSoundHold (c : AgentContext) (d : ParsedAgentOutput) : Type 0 where
  pub holds : d.action ≡ TradeAction.hold
  pub kept : d.target_exposure_pct ≡ current_exposure_pct c

-- Where no branch of a chain is taken, no test holds.
none_taken :
    {A : Type 0} (b₁ b₂ b₃ b₄ b₅ b₆ : Bool) (x₁ x₂ x₃ x₄ x₅ x₆ : A)
    → (if b₁
        then some x₁
        else if b₂
        then some x₂
        else if b₃
        then some x₃
        else if b₄
        then some x₄
        else if b₅
        then some x₅
        else if b₆
        then some x₆
        else none)
      ≡ none
    → (b₁ ≡ false) × (b₂ ≡ false) × (b₃ ≡ false) × (b₄ ≡ false) × (b₅ ≡ false) × (b₆ ≡ false)
none_taken b₁ b₂ b₃ b₄ b₅ b₆ x₁ x₂ x₃ x₄ x₅ x₆ h = ground arith

not-false : (b : Bool) → not b ≡ false → b ≡ true
not-false true h = refl
not-false false h = cc

-- The gate's decision is a BUY, a SELL or a HOLD of these kinds.
abbrev pub IsSound :
    ParsedAgentOutput → AgentContext → Option String → Decimal → ParsedAgentOutput → Type 0
IsSound p c risk_level maximum d =
    ((d.action ≡ TradeAction.buy) × IsSoundBuy p c risk_level maximum d)
    ⊎ ((d.action ≡ TradeAction.sell) × IsSoundSell p c d)
    ⊎ IsSoundHold c d

module _ (p : ParsedAgentOutput) (c : AgentContext) (risk_level : Option String)
    (max_exposure_pct : Decimal) where
  abbrev target : Decimal
  target = Decimal.min p.target_exposure_pct max_exposure_pct

  passed :
      fallback_of p c risk_level target (current_exposure_pct c) ≡ none
      → IsSound p c risk_level max_exposure_pct
          (final_decision p target (current_exposure_pct c) none)
  unfolding fallback_of
  passed h =
      let (sure, raises, holds, lowers, informed, calm) = none_taken _ _ _ _ _ _ _ _ _ _ _ _ h in
      by_action p.action refl sure raises holds lowers informed calm
    where
      by_action :
          (a : TradeAction)
          → p.action ≡ a
          → is_unsure c.confidence_threshold p.confidence ≡ false
          → (is_buy p.action && Decimal.le target (current_exposure_pct c)) ≡ false
          → (is_sell p.action && not (holds_position c)) ≡ false
          → (is_sell p.action && Decimal.le (current_exposure_pct c) target) ≡ false
          → (is_buy p.action && not p.new_information) ≡ false
          → (is_buy p.action && is_high risk_level) ≡ false
          → IsSound p c risk_level max_exposure_pct
              (final_decision p target (current_exposure_pct c) none)
      by_action TradeAction.hold e sure raises holds lowers informed calm =
          inr (inr (record { holds = e; kept = rw e refl }))
      by_action TradeAction.buy e sure raises holds lowers informed calm = inl (
        e,
        record {
          asked = e;
          above = rw e (leb→lt _ _ (rw e at raises));
          bounded = rw e ((min-≼ p.target_exposure_pct max_exposure_pct).1);
          sure = sure;
          informed = not-false _ (rw e at informed);
          calm = rw e at calm;
        },
      )
      by_action TradeAction.sell e sure raises holds lowers informed calm = inr (
          inl (
            e,
            record {
              asked = e;
              below = rw e (leb→lt _ _ (rw e at lowers));
              held = not-false _ (rw e at holds);
              sure = sure;
            },
          ))

  -- What the gate lets through: a BUY that was asked for, towards an exposure above the current
  -- one and within the maximum, with confidence and new information and no high risk; a SELL that
  -- was asked for, of a position, towards an exposure below the current one, with confidence; or a
  -- HOLD, which keeps the current exposure.
  pub apply-IsSound :
      IsSound p c risk_level max_exposure_pct (apply p c risk_level max_exposure_pct).decision
  unfolding apply
  apply-IsSound = elim (Option-cases (fallback_of p c risk_level target (current_exposure_pct c))) [
    | inl lets ↦ rw lets (passed lets)
    | inr (f, stops) ↦ rw stops (inr (inr (record { holds = refl; kept = refl })))
  ]
