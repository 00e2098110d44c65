-- ===== src/Execution/Breakout/Ending.antt =====
-- How an Opening Range Breakout run ends, whatever is missing or raises
-- (backend/app/modules/execution/orchestrator.py).
use mathlib.Core.Path.{subst}
use trading_ai_framework.Prelude.{
  ℕ, suc, ◌+◌, ◌*◌, ◌≡◌, refl, sym, ◌∙◌, inl, inr, Bool, ◌||◌, Option, none, some, List, [], ◌∷◌,
}
use trading_ai_framework.Decimal.{Decimal}
use trading_ai_framework.Domain.{ExperimentStatus, TriggerType}
use trading_ai_framework.Models.{Experiment}
use trading_ai_framework.MarketData.Intraday.{IntradayBar}
use trading_ai_framework.Execution.Store.{Store}
use trading_ai_framework.Execution.Errors.{Result, ok, err}
use trading_ai_framework.Execution.Orchestrator.{Observation, create_running_step, run_step}
use trading_ai_framework.Execution.Orchestrator.Success.{run_step-keeps}
use trading_ai_framework.Execution.RunEnd.{with_status, complete_experiment}
use trading_ai_framework.Execution.Historical.Ending.{Ends, persist_failure-fails}
use trading_ai_framework.Execution.Breakout.{
  SessionBars, RunStop, finished, raised, go_on_unless_raised, session_state, observe_breakout,
  completed_round_trip, run_session_bars, run_session, run_sessions, end_breakout, run_range,
  run_experiment, run_opening_range_breakout, opening_range_breakout_message,
}

abbrev pub store_of : RunStop → Store
store_of (finished s) = s
store_of (raised id e s) = s

-- A loop that leaves the row of the experiment as it was.
record Keeps (s : Store) (stop : RunStop) : Type 0 where
  row : (store_of stop).experiment ≡ s.experiment

go_on_unless_raised-Keeps :
    (id : ℕ) (s created : Store) (result : Result Store) (rest : Store → RunStop)
    → created.experiment ≡ s.experiment
    → ((s' : Store) → result ≡ ok s' → Keeps s (rest s'))
    → Keeps s (go_on_unless_raised id created result rest)
go_on_unless_raised-Keeps id s created (err x) rest h k = record { row = h }
go_on_unless_raised-Keeps id s created (ok s') rest h k = k s' refl

module _ (clock : ℕ → ℕ) where
  run_session_bars-Keeps :
      (high low : Option Decimal) (session_bars : List IntradayBar) (n : ℕ) (done : Bool)
      (bars : List IntradayBar) (first s : Store) (rest : ℕ → Store → RunStop)
      → s.experiment ≡ first.experiment
      → ((m : ℕ) (s' : Store) → s'.experiment ≡ first.experiment → Keeps first (rest m s'))
      → Keeps first (run_session_bars clock high low session_bars n done bars s rest)
  unfolding run_session_bars create_running_step
  run_session_bars-Keeps high low session_bars n done [] first s rest h k = k n s h
  run_session_bars-Keeps high low session_bars n done (bar ∷ bars) first s rest h k =
      let o : Observation = observe_breakout bar (session_state high low session_bars bar done) in
      let now : ℕ = clock (2 * n + 1) in
      let begun : ℕ × Store =
        create_running_step TriggerType.historical bar.timestamp (clock (2 * n)) s in
      let after : Bool = done || completed_round_trip o begun.0 now begun.1.portfolio begun.1 in
      go_on_unless_raised-Keeps begun.0 first begun.1 (run_step o begun.0 now begun.1)
        (λ s'. run_session_bars clock high low session_bars (suc n) after bars s' rest) h
        (λ s' ran.
          run_session_bars-Keeps high low session_bars (suc n) after bars first s' rest
            (run_step-keeps o begun.0 now begun.1 s' ran ∙ h) k)

  run_session-Keeps :
      (high low : Option Decimal) (n : ℕ) (bars : List IntradayBar) (first s : Store)
      (rest : ℕ → Store → RunStop)
      → s.experiment ≡ first.experiment
      → ((m : ℕ) (s' : Store) → s'.experiment ≡ first.experiment → Keeps first (rest m s'))
      → Keeps first (run_session clock high low n bars s rest)
  unfolding run_session
  run_session-Keeps (some high) (some low) n bars first s rest h k =
      run_session_bars-Keeps (some high) (some low) bars n _ bars first s rest h k
  run_session-Keeps (some high) none n bars first s rest h k = record { row = h }
  run_session-Keeps none low n bars first s rest h k = record { row = h }

  run_sessions-Keeps :
      (groups : List SessionBars) (n : ℕ) (first s : Store)
      → s.experiment ≡ first.experiment
      → Keeps first (run_sessions clock n groups s)
  unfolding run_sessions
  run_sessions-Keeps [] n first s h = record { row = h }
  run_sessions-Keeps (g ∷ groups) n first s h =
      run_session-Keeps _ _ n g.bars first s _ h
        (λ m s' same. run_sessions-Keeps groups m first s' same)

end_breakout-Ends :
    (now : ℕ) (stop : RunStop) (e : Experiment)
    → (store_of stop).experiment ≡ some e
    → Ends (end_breakout now stop)
unfolding end_breakout complete_experiment
end_breakout-Ends now (raised id x s) e h =
    inr (x, refl, persist_failure-fails opening_range_breakout_message id now s e h)
end_breakout-Ends now (finished s) e h =
    rw h (inl (refl, (with_status ExperimentStatus.completed now e, refl, refl)))

module _ (clock : ℕ → ℕ) (load : ℕ → ℕ → Option (List IntradayBar)) (s : Store) (e : Experiment)
    (has : s.experiment ≡ some e) where
  run_range-Ends : (bars : Option (List IntradayBar)) → Ends (run_range clock load bars s)
  unfolding run_range
  run_range-Ends none =
      inr (_, refl, persist_failure-fails opening_range_breakout_message none (clock 0) s e has)
  run_range-Ends (some bars) =
      end_breakout-Ends _ _ e ((run_sessions-Keeps clock _ 0 s s refl).row ∙ has)

  -- An Opening Range Breakout run of an experiment that exists ends: without an exception and with the
  -- experiment completed, or, whatever is missing or raises, with an exception and the experiment
  -- failed.
  pub run_opening_range_breakout-Ends : Ends (run_opening_range_breakout clock load s)
  unfolding run_opening_range_breakout run_experiment
  run_opening_range_breakout-Ends =
      subst (λ (row : Option Experiment). Ends (run_experiment clock load row s)) (sym has)
        (run_range-Ends (load e.start_date e.end_date))
