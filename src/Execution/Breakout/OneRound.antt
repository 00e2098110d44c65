-- ===== src/Execution/Breakout/OneRound.antt =====
-- The trades of a session of an Opening Range Breakout run
-- (backend/app/modules/execution/orchestrator.py).
use mathlib.Core.Path.{subst}
use trading_ai_framework.Prelude.{
  ℕ, suc, ◌+◌, ◌*◌, ◌≡◌, refl, sym, ap, ◌∙◌, ◌⊎◌, inl, inr, Bool, true, false, Option, none, some,
  List, [], ◌∷◌, ◌++◌,
}
use trading_ai_framework.Decimal.{Decimal}
use trading_ai_framework.Domain.{FinalAction, TriggerType}
use trading_ai_framework.Models.{Portfolio, Experiment, Trade}
use trading_ai_framework.Strategies.{has_position}
use trading_ai_framework.MarketData.Intraday.{IntradayBar}
use trading_ai_framework.Execution.Risk.{RiskResult, evaluate}
use trading_ai_framework.Execution.Simulation.{SimulationResult, execute_if_applicable}
use trading_ai_framework.Execution.Simulation.Made.{
  is_sell_side, Made, makes_nothing, buys, sells, execute-Made,
}
use trading_ai_framework.Execution.Store.{Store, next_id}
use trading_ai_framework.Execution.Errors.{Result, ok, err}
use trading_ai_framework.Execution.Orchestrator.{
  Observation, create_running_step, run_step, run_found, run_decided, write_step, revalue,
  add_trade, shown_value,
}
use trading_ai_framework.Execution.Orchestrator.Success.{
  or_division-ok, with_state-ok, with_step-ok,
}
use trading_ai_framework.Execution.Breakout.Ending.{store_of}
use trading_ai_framework.Execution.Breakout.RoundTrip.{holds_position, run_session_bars-Idle}
use trading_ai_framework.Execution.Breakout.{
  RunStop, finished, go_on_unless_raised, session_state, observe_breakout, is_sold,
  completed_round_trip, run_session_bars, run_session,
}

-- Nothing is traded after a sale.
abbrev pub EndsAtSale : List Trade → Type 0
EndsAtSale [] = Unit
EndsAtSale (t ∷ trades) =
    ((is_sell_side t.side ≡ false) × EndsAtSale trades)
    ⊎ ((is_sell_side t.side ≡ true) × (trades ≡ []))

-- The rows have the trades of a session more.
pub record TradesOnce (s s' : Store) : Type 0 where
  pub added : List Trade
  pub trades : s'.trades ≡ s.trades ++ added
  pub once : EndsAtSale added

-- What a step adds to the trades, and whether it counts as the end of the round trip.
data Adds (s s' : Store) (sold : Bool) : Type 0 where
  adds_nothing : s'.trades ≡ s.trades → sold ≡ false → Adds s s' sold
  adds_purchase :
      (t : Trade)
      → s'.trades ≡ s.trades ++ (t ∷ [])
      → is_sell_side t.side ≡ false
      → sold ≡ false
      → Adds s s' sold
  adds_sale :
      (t : Trade)
      → s'.trades ≡ s.trades ++ (t ∷ [])
      → is_sell_side t.side ≡ true
      → sold ≡ true
      → holds_position s'.portfolio ≡ false
      → Adds s s' sold

not_sold :
    (action : FinalAction) (trade : Option Trade) → trade ≡ none → is_sold action trade ≡ false
not_sold action trade h = rw h (never action)
  where
    never : (action : FinalAction) → is_sold action none ≡ false
    never FinalAction.buy = refl
    never FinalAction.sell = refl
    never FinalAction.hold = refl

sold_sale :
    (action : FinalAction) (trade : Option Trade) (t : Trade)
    → action ≡ FinalAction.sell
    → trade ≡ some t
    → is_sold action trade ≡ true
sold_sale action trade t a h = rw (a, h) refl

module _ (o : Observation) (id now : ℕ) (e : Experiment) (p : Portfolio) (s s' : Store)
    (has : s.portfolio ≡ some p) (ran : run_found o id now e p s ≡ ok s') where
  abbrev risk : RiskResult
  risk =
      evaluate (o.decide p.position_quantity).action (o.decide p.position_quantity).symbol p
        o.quote.price

  abbrev execution : SimulationResult
  execution = execute_if_applicable risk p (record {
    execution_step_id = id;
    risk_check_id = next_id s.risk_checks;
    timestamp = o.quote.timestamp;
    price = o.quote.price;
    now = now;
  })

  sold_eq : completed_round_trip o id now s.portfolio s ≡ is_sold risk.final_action execution.trade
  unfolding completed_round_trip
  sold_eq = rw has refl

  abbrev entered : Option Trade → List Trade
  entered trade =
      add_trade trade (next_id s.orders) (shown_value execution.portfolio o.quote.price) s.trades

  written :
      (s'.trades ≡ entered execution.trade)
      × (holds_position s'.portfolio ≡ has_position execution.portfolio.position_quantity)
  unfolding run_found run_decided write_step revalue
  written =
      let (figures, same) = or_division-ok _ _ s' ran in
      (
        ap (λ (x : Store). x.trades) (sym same),
        ap (λ (x : Store). holds_position x.portfolio) (sym same),
      )

  Made-Adds :
      Made risk.final_action execution → Adds s s' (completed_round_trip o id now s.portfolio s)
  Made-Adds (makes_nothing none_made) =
      adds_nothing (written.0 ∙ ap entered none_made)
        (sold_eq ∙ not_sold risk.final_action execution.trade none_made)
  Made-Adds (buys t made side action) =
      adds_purchase _ (written.0 ∙ ap entered made) side (sold_eq ∙ rw action refl)
  Made-Adds (sells t made side action flat) =
      adds_sale _ (written.0 ∙ ap entered made) side (sold_eq ∙ sold_sale _ _ t action made)
        (written.1 ∙ flat)

step-Adds :
    (o : Observation) (id now : ℕ) (s s' : Store)
    → run_step o id now s ≡ ok s'
    → Adds s s' (completed_round_trip o id now s.portfolio s)
unfolding run_step
step-Adds o id now s s' h =
    let (e, p, has, runs) = with_state-ok s.experiment s.portfolio s.strategy_config _ s' h in
    Made-Adds o id now e p s s' has (with_step-ok _ _ s' runs) (execute-Made _ p _)

append-[] {ℓ} : {A : Type ℓ} (xs : List A) → xs ++ [] ≡ xs
append-[] [] = refl
append-[] (x ∷ xs) = ap (λ ys. x ∷ ys) (append-[] xs)

append_assoc {ℓ} :
    {A : Type ℓ} (xs : List A) (x : A) (ys : List A) → (xs ++ (x ∷ [])) ++ ys ≡ xs ++ (x ∷ ys)
append_assoc [] x ys = refl
append_assoc (y ∷ xs) x ys = ap (λ zs. y ∷ zs) (append_assoc xs x ys)

same-TradesOnce : (s s' : Store) → s'.trades ≡ s.trades → TradesOnce s s'
same-TradesOnce s s' same = record {
  added = [];
  trades = same ∙ sym (append-[] s.trades);
  once = tt;
}

-- The trades of a step, and then those of the rest of the session.
module _ (s t u : Store) where
  after_nothing : t.trades ≡ s.trades → TradesOnce t u → TradesOnce s u
  after_nothing same rest = record {
    added = rest.added;
    trades = rest.trades ∙ ap (λ (l : List Trade). l ++ rest.added) same;
    once = rest.once;
  }

  after_purchase :
      (x : Trade)
      → t.trades ≡ s.trades ++ (x ∷ [])
      → is_sell_side x.side ≡ false
      → TradesOnce t u
      → TradesOnce s u
  after_purchase x more side rest = record {
    added = x ∷ rest.added;
    trades =
        rest.trades
        ∙ ap (λ (l : List Trade). l ++ rest.added) more
        ∙ append_assoc s.trades x rest.added;
    once = inl (side, rest.once);
  }

  after_sale :
      (x : Trade)
      → t.trades ≡ s.trades ++ (x ∷ [])
      → is_sell_side x.side ≡ true
      → u.trades ≡ t.trades
      → TradesOnce s u
  after_sale x more side same = record {
    added = x ∷ [];
    trades = same ∙ more;
    once = inr (side, refl);
  }

go_on-TradesOnce :
    (id : ℕ) (s created : Store) (result : Result Store) (rest : Store → RunStop)
    → created.trades ≡ s.trades
    → ((s' : Store) → result ≡ ok s' → TradesOnce s (store_of (rest s')))
    → TradesOnce s (store_of (go_on_unless_raised id created result rest))
go_on-TradesOnce id s created (err x) rest same k = same-TradesOnce s created same
go_on-TradesOnce id s created (ok s') rest same k = k s' refl

module _ (clock : ℕ → ℕ) (high low : Option Decimal) (session_bars : List IntradayBar) where
  abbrev rest_of : List IntradayBar → ℕ → Bool → Store → RunStop
  rest_of bars n done s =
      run_session_bars clock high low session_bars n done bars s (λ m t. finished t)

  -- The rest of a session after one of its steps.
  rest-TradesOnce :
      (bars : List IntradayBar) (n : ℕ) (s t : Store) (sold : Bool)
      → Adds s t sold
      → TradesOnce t (store_of (rest_of bars n false t))
      → TradesOnce s (store_of (rest_of bars n sold t))
  rest-TradesOnce bars n s t sold (adds_nothing same unsold) later =
      subst (λ b. TradesOnce s (store_of (rest_of bars n b t))) (sym unsold)
        (after_nothing s t (store_of (rest_of bars n false t)) same later)
  rest-TradesOnce bars n s t sold (adds_purchase x more side unsold) later =
      subst (λ b. TradesOnce s (store_of (rest_of bars n b t))) (sym unsold)
        (after_purchase s t (store_of (rest_of bars n false t)) x more side later)
  rest-TradesOnce bars n s t sold (adds_sale x more side is_sale flat) later =
      subst (λ b. TradesOnce s (store_of (rest_of bars n b t))) (sym is_sale)
        (after_sale s t (store_of (rest_of bars n true t)) x more side
          (run_session_bars-Idle clock high low session_bars bars n t flat).trades)

  bars-TradesOnce :
      (bars : List IntradayBar) (n : ℕ) (s : Store)
      → TradesOnce s (store_of (rest_of bars n false s))
  unfolding run_session_bars create_running_step
  bars-TradesOnce [] n s = same-TradesOnce s s refl
  bars-TradesOnce (bar ∷ bars) n s =
      let o : Observation = observe_breakout bar (session_state high low session_bars bar false) in
      let now : ℕ = clock (2 * n + 1) in
      let begun : ℕ × Store =
        create_running_step TriggerType.historical bar.timestamp (clock (2 * n)) s in
      let sold : Bool = completed_round_trip o begun.0 now begun.1.portfolio begun.1 in
      go_on-TradesOnce begun.0 s begun.1 (run_step o begun.0 now begun.1)
        (rest_of bars (suc n) sold) refl
        (λ t ran. after_nothing s begun.1 (store_of (rest_of bars (suc n) sold t)) refl (
          rest-TradesOnce bars (suc n) begun.1 t sold (step-Adds o begun.0 now begun.1 t ran)
            (bars-TradesOnce bars (suc n) t)))

-- A session sells at most once and trades nothing after that: whatever its bars and the rows before it,
-- and also where a step raises, the trades that it adds are purchases, and at most one sale, which is
-- the last of them.
pub run_session-TradesOnce :
    (clock : ℕ → ℕ) (high low : Option Decimal) (n : ℕ) (bars : List IntradayBar) (s : Store)
    → TradesOnce s (store_of (run_session clock high low n bars s (λ m t. finished t)))
unfolding run_session
run_session-TradesOnce clock (some high) (some low) n bars s =
    bars-TradesOnce clock (some high) (some low) bars bars n s
run_session-TradesOnce clock (some high) none n bars s = same-TradesOnce s s refl
run_session-TradesOnce clock none low n bars s = same-TradesOnce s s refl
