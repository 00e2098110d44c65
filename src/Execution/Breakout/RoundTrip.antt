-- ===== src/Execution/Breakout/RoundTrip.antt =====
-- What an Opening Range Breakout run does in a session after its round trip
-- (backend/app/modules/execution/orchestrator.py).
use trading_ai_framework.Prelude.{
  ℕ, suc, ◌+◌, ◌*◌, ◌≡◌, refl, sym, ap, ◌∙◌, Bool, true, false, Option, none, some, List, [], ◌∷◌,
  arith,
}
use trading_ai_framework.Prelude.Text.{String}
use trading_ai_framework.Decimal.{Decimal}
use trading_ai_framework.Domain.{TradeAction, FinalAction, TriggerType}
use trading_ai_framework.Models.{Portfolio, Experiment, Order, Trade}
use trading_ai_framework.Strategies.{
  OpeningRangeBreakoutState, opening_range_breakout, has_position,
}
use trading_ai_framework.MarketData.Intraday.{IntradayBar}
use trading_ai_framework.Execution.Risk.{RiskResult, evaluate}
use trading_ai_framework.Execution.Risk.Bounds.{evaluate-hold}
use trading_ai_framework.Execution.Simulation.{Call, execute_if_applicable}
use trading_ai_framework.Execution.Simulation.Laws.{execute-hold}
use trading_ai_framework.Execution.Store.{Store, next_id}
use trading_ai_framework.Execution.Errors.{Result, ok, err}
use trading_ai_framework.Execution.Orchestrator.{
  Observation, create_running_step, run_step, run_found, run_decided, write_step, revalue,
  add_order, add_trade, shown_value,
}
use trading_ai_framework.Execution.Orchestrator.Success.{
  or_division-ok, with_state-ok, with_step-ok,
}
use trading_ai_framework.Execution.Breakout.Ending.{store_of}
use trading_ai_framework.Execution.Breakout.{
  RunStop, finished, go_on_unless_raised, session_state, observe_breakout, run_session_bars,
}

-- Whether a position is held.
abbrev pub holds_position : Option Portfolio → Bool
holds_position none = false
holds_position (some p) = has_position p.position_quantity

-- Rows with the same orders and trades, and no position.
pub record Idle (s s' : Store) : Type 0 where
  pub orders : s'.orders ≡ s.orders
  pub trades : s'.trades ≡ s.trades
  pub flat : holds_position s'.portfolio ≡ false

-- An approved hold executes nothing.
module _ (r : RiskResult) (p : Portfolio) (c : Call)
    (hold : r.final_action ≡ FinalAction.hold) where
  no_order : (execute_if_applicable r p c).order ≡ none
  unfolding execute_if_applicable
  no_order = ground arith

  no_trade : (execute_if_applicable r p c).trade ≡ none
  unfolding execute_if_applicable
  no_trade = ground arith

hold-Idle :
    (o : Observation) (id now : ℕ) (e : Experiment) (p : Portfolio) (s s' : Store)
    → (o.decide p.position_quantity).action ≡ TradeAction.hold
    → has_position p.position_quantity ≡ false
    → run_found o id now e p s ≡ ok s'
    → Idle s s'
unfolding run_found run_decided write_step revalue
hold-Idle o id now e p s s' hold flat h =
    let symbol : String = (o.decide p.position_quantity).symbol in
    let r : RiskResult = evaluate (o.decide p.position_quantity).action symbol p o.quote.price in
    let c : Call = record {
      execution_step_id = id;
      risk_check_id = next_id s.risk_checks;
      timestamp = o.quote.timestamp;
      price = o.quote.price;
      now = now;
    } in
    let held : r.final_action ≡ FinalAction.hold =
      ap (λ (a : TradeAction). (evaluate a symbol p o.quote.price).final_action) hold
      ∙ evaluate-hold symbol p o.quote.price in
    let (figures, same) = or_division-ok _ _ s' h in
    record {
      orders =
          ap (λ (x : Store). x.orders) (sym same)
          ∙ ap (λ (x : Option Order). add_order x s.orders) (no_order r p c held);
      trades =
          ap (λ (x : Store). x.trades) (sym same)
          ∙ ap
              (λ (x : Option Trade).
                add_trade x (next_id s.orders)
                  (shown_value (execute_if_applicable r p c).portfolio o.quote.price) s.trades)
              (no_trade r p c held);
      flat =
          ap (λ (x : Store). holds_position x.portfolio) (sym same)
          ∙ ap (λ (x : Portfolio). has_position x.position_quantity) (execute-hold r p c held)
          ∙ flat;
    }

-- After the round trip, and without a position, the strategy holds.
breakout-hold :
    (close : Decimal) (quantity : Option Decimal) (state : OpeningRangeBreakoutState)
    → state.round_trip_completed ≡ true
    → has_position quantity ≡ false
    → (opening_range_breakout "SPY" close quantity state).action ≡ TradeAction.hold
unfolding opening_range_breakout
breakout-hold close quantity state done flat = ground arith

step-Idle :
    (bar : IntradayBar) (state : OpeningRangeBreakoutState) (id now : ℕ) (s s' : Store)
    → state.round_trip_completed ≡ true
    → holds_position s.portfolio ≡ false
    → run_step (observe_breakout bar state) id now s ≡ ok s'
    → Idle s s'
unfolding run_step observe_breakout
step-Idle bar state id now s s' done flat h =
    let (e, p, has, runs) = with_state-ok s.experiment s.portfolio s.strategy_config _ s' h in
    let none_held : has_position p.position_quantity ≡ false = sym (ap holds_position has) ∙ flat in
    hold-Idle (observe_breakout bar state) id now e p s s'
      (breakout-hold bar.close p.position_quantity state done none_held) none_held
      (with_step-ok _ _ s' runs)

then-Idle : {s t u : Store} → Idle s t → Idle t u → Idle s u
then-Idle a b = record { orders = b.orders ∙ a.orders; trades = b.trades ∙ a.trades; flat = b.flat }

go_on_unless_raised-Idle :
    (id : ℕ) (s created : Store) (result : Result Store) (rest : Store → RunStop)
    → Idle s created
    → ((s' : Store) → result ≡ ok s' → Idle s (store_of (rest s')))
    → Idle s (store_of (go_on_unless_raised id created result rest))
go_on_unless_raised-Idle id s created (err x) rest a k = a
go_on_unless_raised-Idle id s created (ok s') rest a k = k s' refl

-- Once the round trip of a session is completed and no position is held, the bars that are left of
-- the session, with whatever prices, place no order and make no trade, also where a step raises, and no
-- position is held after them.
pub run_session_bars-Idle :
    (clock : ℕ → ℕ) (high low : Option Decimal) (session_bars bars : List IntradayBar) (n : ℕ)
    (s : Store)
    → holds_position s.portfolio ≡ false
    → Idle s
        (store_of (run_session_bars clock high low session_bars n true bars s (λ m t. finished t)))
unfolding run_session_bars create_running_step session_state
run_session_bars-Idle clock high low session_bars [] n s flat = record {
  orders = refl;
  trades = refl;
  flat = flat;
}
run_session_bars-Idle clock high low session_bars (bar ∷ bars) n s flat =
    let state : OpeningRangeBreakoutState = session_state high low session_bars bar true in
    let o : Observation = observe_breakout bar state in
    let now : ℕ = clock (2 * n + 1) in
    let begun : ℕ × Store =
      create_running_step TriggerType.historical bar.timestamp (clock (2 * n)) s in
    let started : Idle s begun.1 = record { orders = refl; trades = refl; flat = flat } in
    go_on_unless_raised-Idle begun.0 s begun.1 (run_step o begun.0 now begun.1)
      (λ t. run_session_bars clock high low session_bars (suc n) true bars t (λ m u. finished u))
      started
      (λ t ran.
        let stepped = step-Idle bar state begun.0 now begun.1 t refl flat ran in
        then-Idle (then-Idle started stepped)
          (run_session_bars-Idle clock high low session_bars bars (suc n) t stepped.flat))
