-- ===== src/Execution/Breakout.antt =====
-- The Opening Range Breakout run: `HistoricalOpeningRangeBreakoutOrchestrator` of
-- backend/app/modules/execution/orchestrator.py. `clock n` is the n-th reading of the clock, and
-- `load start end` gives the bars of the range, or `none` where the provider raises.
pub mod Ending
pub mod RoundTrip
pub mod OneRound
use trading_ai_framework.Prelude.{
  ℕ, suc, ◌+◌, ◌*◌, Bool, true, false, ◌&&◌, ◌||◌, Option, none, some, List, [], ◌∷◌, length, ltb,
  ◌==◌, if◌then◌else◌,
}
use trading_ai_framework.Prelude.Text.{String}
use trading_ai_framework.Times.{time_of}
use trading_ai_framework.Domain.{TriggerType, FinalAction}
use trading_ai_framework.Decimal.{Decimal}
use trading_ai_framework.Models.{Portfolio, Experiment, Trade}
use trading_ai_framework.Strategies.{
  StrategyDecision, OpeningRangeBreakoutState, OpeningRangeBreakoutDecision, opening_range_breakout,
}
use trading_ai_framework.MarketData.Intraday.{IntradayBar, opening_range_end}
use trading_ai_framework.MarketData.Hourly.{last_of}
use trading_ai_framework.Execution.Risk.{RiskResult, evaluate}
use trading_ai_framework.Execution.Simulation.{Call, execute_if_applicable}
use trading_ai_framework.Execution.Store.{Store, next_id}
use trading_ai_framework.Execution.Errors.{
  Error, Result, ok, err, load_failed, experiment_not_found, unexpected,
}
use trading_ai_framework.Execution.RunEnd.{complete_experiment, persist_failure}
use trading_ai_framework.Execution.Orchestrator.{Quote, Observation, create_running_step, run_step}
use trading_ai_framework.Execution.Historical.{fail_run}
use trading_ai_framework.Execution.PaperSteps.{opening_range_bars, range_high, range_low}

abbrev pub opening_range_breakout_message : String
opening_range_breakout_message = "Historical Opening Range Breakout simulation failed."

-- The bars of a session, in the order in which they were loaded.
pub record SessionBars : Type 0 where
  pub session_date : ℕ
  pub bars : List IntradayBar

-- `_group_by_session`: a bar joins the bars of its session, and the sessions stand by date.
unfoldable pub join_session : IntradayBar → List SessionBars → List SessionBars
join_session b [] = record { session_date = b.session_date; bars = b ∷ [] } ∷ []
join_session b (g ∷ groups) =
    let later = g ∷ join_session b groups in
    if b.session_date == g.session_date
    then record { session_date = g.session_date; bars = b ∷ g.bars } ∷ groups
    else if ltb b.session_date g.session_date
    then record { session_date = b.session_date; bars = b ∷ [] } ∷ g ∷ groups
    else later

unfoldable pub group_by_session : List IntradayBar → List SessionBars
unfolding join_session
group_by_session [] = []
group_by_session (b ∷ bars) = join_session b (group_by_session bars)

-- How the loops end: with a store, or by an exception, in the step of an identity if in one.
pub data RunStop : Type 0 where
  finished : Store → RunStop
  raised : Option ℕ → Error → Store → RunStop

abbrev pub after_opening : IntradayBar → Bool
after_opening bar = ltb opening_range_end (time_of bar.timestamp)

abbrev pub only_if : Bool → Option Decimal → Option Decimal
only_if true range = range
only_if false range = none

-- `bar.timestamp == session_bars[-1].timestamp`
abbrev pub is_final_of : IntradayBar → List IntradayBar → Bool
is_final_of bar [] = false
is_final_of bar (b ∷ bars) = bar.timestamp == (last_of b bars).timestamp

-- The state that the strategy is given at a bar.
unfoldable pub session_state :
    Option Decimal
    → Option Decimal
    → List IntradayBar
    → IntradayBar
    → Bool
    → OpeningRangeBreakoutState
session_state high low session_bars bar done = record {
  session_date = bar.session_date;
  opening_range_high = only_if (after_opening bar) high;
  opening_range_low = only_if (after_opening bar) low;
  opening_range_complete = after_opening bar;
  final_bar = is_final_of bar session_bars;
  round_trip_completed = done;
}

abbrev pub action_of : OpeningRangeBreakoutDecision → StrategyDecision
action_of d = record { action = d.action; symbol = d.symbol; reason = d.reason }

-- What `_run_step` is given at a bar.
unfoldable pub observe_breakout : IntradayBar → OpeningRangeBreakoutState → Observation
observe_breakout bar state = record {
  quote = record { timestamp = bar.timestamp; price = bar.close; moving_average = none };
  source_name = "OpeningRangeBreakoutStrategy";
  decide = λ position_quantity.
      action_of (opening_range_breakout "SPY" bar.close position_quantity state);
}

abbrev pub is_sold : FinalAction → Option Trade → Bool
is_sold FinalAction.sell (some t) = true
is_sold _ _ = false

-- What `_run_step` returns, from the rows before it: whether the position has been sold.
unfoldable pub completed_round_trip : Observation → ℕ → ℕ → Option Portfolio → Store → Bool
completed_round_trip o step_id now none s = false
completed_round_trip o step_id now (some p) s =
    let decision = o.decide p.position_quantity in
    let risk = evaluate decision.action decision.symbol p o.quote.price in
    let call : Call = record {
      execution_step_id = step_id;
      risk_check_id = next_id s.risk_checks;
      timestamp = o.quote.timestamp;
      price = o.quote.price;
      now = now;
    } in
    is_sold risk.final_action (execute_if_applicable risk p call).trade

abbrev pub go_on_unless_raised : ℕ → Store → Result Store → (Store → RunStop) → RunStop
go_on_unless_raised id created (ok s) rest = rest s
go_on_unless_raised id created (err e) rest = raised (some id) e created

module _ (clock : ℕ → ℕ) where
  -- The inner loop, at the n-th bar of the run, with the rest of the run.
  unfoldable pub run_session_bars :
      Option Decimal
      → Option Decimal
      → List IntradayBar
      → ℕ
      → Bool
      → List IntradayBar
      → Store
      → (ℕ → Store → RunStop)
      → RunStop
  unfolding session_state observe_breakout completed_round_trip
  run_session_bars high low session_bars n done [] s rest = rest n s
  run_session_bars high low session_bars n done (bar ∷ bars) s rest =
      let o = observe_breakout bar (session_state high low session_bars bar done) in
      let (id, created) =
        create_running_step TriggerType.historical bar.timestamp (clock (2 * n)) s in
      let sold = completed_round_trip o id (clock (2 * n + 1)) created.portfolio created in
      go_on_unless_raised id created (run_step o id (clock (2 * n + 1)) created)
        (λ s'. run_session_bars high low session_bars (suc n) (done || sold) bars s' rest)

  -- A session; `max` and `min` raise if it has no bar of the opening range.
  unfoldable pub run_session :
      Option Decimal
      → Option Decimal
      → ℕ
      → List IntradayBar
      → Store
      → (ℕ → Store → RunStop)
      → RunStop
  unfolding run_session_bars
  run_session (some high) (some low) n bars s rest =
      run_session_bars (some high) (some low) bars n false bars s rest
  run_session _ _ n bars s rest = raised none unexpected s

  -- The outer loop.
  unfoldable pub run_sessions : ℕ → List SessionBars → Store → RunStop
  unfolding run_session
  run_sessions n [] s = finished s
  run_sessions n (g ∷ groups) s =
      run_session (range_high true (opening_range_bars g.bars))
        (range_low true (opening_range_bars g.bars)) n g.bars s (λ m s'. run_sessions m groups s')

-- The end of `run`.
unfoldable pub end_breakout : ℕ → RunStop → Store × Option Error
end_breakout now (finished s) = elim (complete_experiment now s) [
  | ok s' ↦ (s', none)
  | err e ↦ (persist_failure opening_range_breakout_message none now s, some e)
]
end_breakout now (raised id e s) = (persist_failure opening_range_breakout_message id now s, some e)

module _ (clock : ℕ → ℕ) (load : ℕ → ℕ → Option (List IntradayBar)) where
  run_range : Option (List IntradayBar) → Store → Store × Option Error
  unfolding end_breakout run_sessions group_by_session
  run_range none s = fail_run opening_range_breakout_message (clock 0) load_failed s
  run_range (some bars) s =
      end_breakout (clock (2 * length bars)) (run_sessions clock 0 (group_by_session bars) s)

  run_experiment : Option Experiment → Store → Store × Option Error
  unfolding run_range
  run_experiment none s = fail_run opening_range_breakout_message (clock 0) experiment_not_found s
  run_experiment (some e) s = run_range (load e.start_date e.end_date) s

  -- `HistoricalOpeningRangeBreakoutOrchestrator.run`
  unfoldable pub run_opening_range_breakout : Store → Store × Option Error
  unfolding run_experiment
  run_opening_range_breakout s = run_experiment s.experiment s
