-- ===== src/Execution/Simulation/Made.antt =====
-- What a simulated execution makes (backend/app/modules/execution/simulation_provider.py).
use trading_ai_framework.Prelude.{◌≡◌, refl, Bool, true, false, Option, none, some}
use trading_ai_framework.Decimal.{Decimal}
use trading_ai_framework.Domain.{FinalAction, OrderSide, OrderMode}
use trading_ai_framework.Models.{Portfolio, Order, Trade}
use trading_ai_framework.Strategies.{has_position}
use trading_ai_framework.Execution.Risk.{RiskResult}
use trading_ai_framework.Execution.Simulation.{
  Call, SimulationResult, execute_if_applicable, fill_quantity, fill,
}

abbrev pub is_sell_side : OrderSide → Bool
is_sell_side OrderSide.sell = true
is_sell_side OrderSide.buy = false

-- Nothing, a purchase, or the sale of the whole position.
pub data Made (action : FinalAction) (x : SimulationResult) : Type 0 where
  makes_nothing : x.trade ≡ none → Made action x
  buys :
      (t : Trade)
      → x.trade ≡ some t
      → is_sell_side t.side ≡ false
      → action ≡ FinalAction.buy
      → Made action x
  sells :
      (t : Trade)
      → x.trade ≡ some t
      → is_sell_side t.side ≡ true
      → action ≡ FinalAction.sell
      → has_position x.portfolio.position_quantity ≡ false
      → Made action x

fill-Made :
    (action : FinalAction) (quantity : Option Decimal) (p : Portfolio) (c : Call)
    → Made action (fill_quantity action quantity p c)
unfolding fill_quantity fill
fill-Made FinalAction.hold none p c = makes_nothing refl
fill-Made FinalAction.buy none p c = makes_nothing refl
fill-Made FinalAction.sell none p c = makes_nothing refl
fill-Made FinalAction.hold (some quantity) p c = makes_nothing refl
fill-Made FinalAction.buy (some quantity) p c = buys _ refl refl refl
fill-Made FinalAction.sell (some quantity) p c = sells _ refl refl refl refl

pub execute-Made :
    (r : RiskResult) (p : Portfolio) (c : Call) → Made r.final_action (execute_if_applicable r p c)
unfolding execute_if_applicable
execute-Made r p c = fill-Made r.final_action r.final_quantity p c

-- An order that no broker has got.
abbrev pub IsSimulated : Order → Type 0
IsSimulated o = o.mode ≡ OrderMode.simulated

abbrev pub AreSimulated : Option Order → Type 0
AreSimulated none = Unit
AreSimulated (some o) = IsSimulated o

fill-AreSimulated :
    (action : FinalAction) (quantity : Option Decimal) (p : Portfolio) (c : Call)
    → AreSimulated (fill_quantity action quantity p c).order
unfolding fill_quantity fill
fill-AreSimulated FinalAction.hold none p c = tt
fill-AreSimulated FinalAction.buy none p c = tt
fill-AreSimulated FinalAction.sell none p c = tt
fill-AreSimulated FinalAction.hold (some quantity) p c = tt
fill-AreSimulated FinalAction.buy (some quantity) p c = refl
fill-AreSimulated FinalAction.sell (some quantity) p c = refl

pub execute-AreSimulated :
    (r : RiskResult) (p : Portfolio) (c : Call) → AreSimulated (execute_if_applicable r p c).order
unfolding execute_if_applicable
execute-AreSimulated r p c = fill-AreSimulated r.final_action r.final_quantity p c
