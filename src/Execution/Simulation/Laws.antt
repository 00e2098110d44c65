-- ===== src/Execution/Simulation/Laws.antt =====
-- What the simulated execution does to cash and position
-- (backend/app/modules/execution/simulation_provider.py).
use mathlib.Core.Path.{ap₂}
use trading_ai_framework.Prelude.{◌≡◌, refl, inl, inr, Option, some, arith, Bool-cases}
use trading_ai_framework.Prelude.Text.{String}
use trading_ai_framework.Domain.{TradeAction, FinalAction}
use trading_ai_framework.Decimal
use trading_ai_framework.Decimal.{Decimal, decimal, ◌≼◌, ◌≺◌}
use trading_ai_framework.Decimal.Grid.{
  IsNonneg, IsMoney, IsNonneg-of_pos, IsNonneg-of_one, value-IsMoney, pay-IsMoney, receive-IsMoney,
  add-IsNonneg, mul-IsNonneg,
}
use trading_ai_framework.Models.{Portfolio}
use trading_ai_framework.Execution.Risk.{RiskResult, evaluate}
use trading_ai_framework.Execution.Risk.Bounds.{
  evaluate_buy, evaluate_sell, evaluate-hold, evaluate_worthless,
}
use trading_ai_framework.Execution.Simulation.{
  Call, execute_if_applicable, value_of, fill, fill_quantity,
}

-- No debt, and no short position; the cash is on the grid of its column.
pub record IsSolvent (p : Portfolio) : Type 0 where
  pub money : IsMoney p.cash
  pub long : IsNonneg (Decimal.or_zero p.position_quantity)

module _ (r : RiskResult) (p : Portfolio) (c : Call) where
  execute-fill :
      (a : FinalAction) (q : Decimal)
      → r.final_action ≡ a
      → r.final_quantity ≡ some q
      → execute_if_applicable r p c ≡ fill a q p c
  unfolding execute_if_applicable
  execute-fill a q ea eq =
      ap₂ (λ (x : FinalAction) (o : Option Decimal). fill_quantity x o p c) ea eq

  pub execute-hold : r.final_action ≡ FinalAction.hold → (execute_if_applicable r p c).portfolio ≡ p
  unfolding execute_if_applicable
  execute-hold e = ground arith

  -- Buying a quantity that the cash pays for.
  pub buy-IsSolvent :
      (q : Decimal)
      → r.final_action ≡ FinalAction.buy
      → r.final_quantity ≡ some q
      → IsNonneg q
      → IsNonneg c.price
      → Decimal.mul q c.price ≼ p.cash
      → IsSolvent p
      → IsSolvent (execute_if_applicable r p c).portfolio
  unfolding fill
  buy-IsSolvent q b s nq np paid v = rw (execute-fill FinalAction.buy q b s) (record {
    money =
        pay-IsMoney {cash = p.cash} {x = Decimal.mul q c.price} v.money (mul-IsNonneg nq np) paid;
    long = add-IsNonneg v.long nq;
  })

  -- Selling any quantity.
  pub sell-IsSolvent :
      (q : Decimal)
      → r.final_action ≡ FinalAction.sell
      → r.final_quantity ≡ some q
      → IsNonneg q
      → IsNonneg c.price
      → IsSolvent p
      → IsSolvent (execute_if_applicable r p c).portfolio
  unfolding fill
  sell-IsSolvent q b s nq np v = rw (execute-fill FinalAction.sell q b s) (record {
    money = receive-IsMoney {cash = p.cash} {x = value_of q c.price} v.money (value-IsMoney nq np);
    long = (0, 0, refl);
  })

module _ (symbol : String) (p : Portfolio) (c : Call) (v : IsSolvent p) where
  by_action :
      (action : TradeAction)
      → Decimal.nought ≺ c.price
      → IsSolvent (execute_if_applicable (evaluate action symbol p c.price) p c).portfolio
  by_action TradeAction.hold h =
      let r = evaluate TradeAction.hold symbol p c.price in
      rw (execute-hold r p c (evaluate-hold symbol p c.price)) v
  by_action TradeAction.sell h =
      let r = evaluate TradeAction.sell symbol p c.price in
      elim (evaluate_sell symbol p c.price h) [
        | inl keeps ↦ rw (execute-hold r p c keeps.0) v
        | inr sells ↦
            sell-IsSolvent r p c (Decimal.or_zero p.position_quantity) sells.0 sells.1 v.long
              (IsNonneg-of_pos c.price h) v
      ]
  by_action TradeAction.buy h =
      let r = evaluate TradeAction.buy symbol p c.price in
      elim (evaluate_buy symbol p c.price h) [
        | inl buys ↦
            buy-IsSolvent r p c buys.quantity buys.buys buys.chosen
              (IsNonneg-of_one buys.quantity buys.some_share) (IsNonneg-of_pos c.price h) buys.paid
              v
        | inr keeps ↦ rw (execute-hold r p c keeps.0) v
      ]

  -- Executing whatever the risk check makes of any decision, at any price, keeps a solvent
  -- portfolio solvent: rounding included, the cash never falls below zero.
  pub execute-evaluate-IsSolvent :
      (action : TradeAction)
      → IsSolvent (execute_if_applicable (evaluate action symbol p c.price) p c).portfolio
  execute-evaluate-IsSolvent action = elim (Bool-cases (Decimal.le c.price Decimal.nought)) [
    | inl worthless ↦
        rw
          (execute-hold (evaluate action symbol p c.price) p c
            (evaluate_worthless action symbol p c.price worthless))
          v
    | inr priced ↦ by_action action (ground arith)
  ]
