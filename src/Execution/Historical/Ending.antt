-- ===== src/Execution/Historical/Ending.antt =====
-- How every run ends, whatever is missing or raises
-- (backend/app/modules/execution/orchestrator.py).
use mathlib.Core.Path.{subst}
use trading_ai_framework.Prelude.{
  ℕ, suc, ◌+◌, ◌*◌, ◌≡◌, refl, sym, ◌∙◌, ◌⊎◌, inl, inr, Option, none, some, List, [], ◌∷◌, ◌++◌,
}
use trading_ai_framework.Prelude.Text.{String}
use trading_ai_framework.Decimal.{Decimal}
use trading_ai_framework.Domain.{ExperimentStatus, TriggerType}
use trading_ai_framework.Models.{Experiment, StrategyConfig, DailyBar}
use trading_ai_framework.Execution.Store.{Store}
use trading_ai_framework.Execution.Errors.{Error, Result, ok, err}
use trading_ai_framework.Execution.Orchestrator.{
  Observation, bar_timestamp, create_running_step, run_step,
}
use trading_ai_framework.Execution.Orchestrator.Success.{run_step-keeps}
use trading_ai_framework.Execution.RunEnd.{with_status, complete_experiment, persist_failure}
use trading_ai_framework.Execution.Historical.{
  LoopEnd, finished, raised, go_on, run_bars, end_run, run_loaded, with_loaded, with_bars,
  with_window, fail_run, run_buy_and_hold, run_moving_average, buy_and_hold_message,
  moving_average_message, observe_buy_and_hold,
}

abbrev pub HasStatus : ExperimentStatus → Store → Type 0
HasStatus status s = (e : Experiment) × (s.experiment ≡ some e) × (e.status ≡ status)

-- A run ends without an exception and a completed experiment, or with one and a failed experiment.
abbrev pub Ends : Store × Option Error → Type 0
Ends result =
    ((result.1 ≡ none) × HasStatus ExperimentStatus.completed result.0)
    ⊎ ((e : Error) × (result.1 ≡ some e) × HasStatus ExperimentStatus.failed result.0)

abbrev store_of : LoopEnd → Store
store_of (finished s) = s
store_of (raised id e s) = s

pub persist_failure-fails :
    (message : String) (id : Option ℕ) (now : ℕ) (s : Store) (e : Experiment)
    → s.experiment ≡ some e
    → HasStatus ExperimentStatus.failed (persist_failure message id now s)
unfolding persist_failure
persist_failure-fails message id now s e h =
    rw h (with_status ExperimentStatus.failed now e, refl, refl)

end_run-Ends :
    (message : String) (now : ℕ) (end : LoopEnd) (e : Experiment)
    → (store_of end).experiment ≡ some e
    → Ends (end_run message now end)
unfolding end_run complete_experiment
end_run-Ends message now (raised id x s) e h =
    inr (x, refl, persist_failure-fails message (some id) now s e h)
end_run-Ends message now (finished s) e h =
    rw h (inl (refl, (with_status ExperimentStatus.completed now e, refl, refl)))

go_on-keeps :
    (id : ℕ) (created : Store) (result : Result Store) (rest : Store → LoopEnd)
    (row : Option Experiment)
    → created.experiment ≡ row
    → ((s' : Store) → result ≡ ok s' → (store_of (rest s')).experiment ≡ row)
    → (store_of (go_on id created result rest)).experiment ≡ row
go_on-keeps id created (err x) rest row h k = h
go_on-keeps id created (ok s') rest row h k = k s' refl

module _ (clock : ℕ → ℕ) (observe : List Decimal → DailyBar → Observation) where
  run_bars-keeps :
      (bars : List DailyBar) (n : ℕ) (prices : List Decimal) (s : Store)
      → (store_of (run_bars clock observe n prices bars s)).experiment ≡ s.experiment
  unfolding run_bars create_running_step
  run_bars-keeps [] n prices s = refl
  run_bars-keeps (bar ∷ bars) n prices s =
      let seen : List Decimal = prices ++ (bar.adjusted_close ∷ []) in
      let o : Observation = observe seen bar in
      let now : ℕ = clock (2 * n + 1) in
      let begun : ℕ × Store =
        create_running_step TriggerType.historical (bar_timestamp bar) (clock (2 * n)) s in
      go_on-keeps begun.0 begun.1 (run_step o begun.0 now begun.1)
        (λ s'. run_bars clock observe (suc n) seen bars s') s.experiment refl
        (λ s' h. run_bars-keeps bars (suc n) seen s' ∙ run_step-keeps o begun.0 now begun.1 s' h)

module _ (clock : ℕ → ℕ) (load : ℕ → ℕ → Option (List DailyBar)) (s : Store) (e : Experiment)
    (has : s.experiment ≡ some e) where
  fail_run-Ends : (message : String) (now : ℕ) (x : Error) → Ends (fail_run message now x s)
  fail_run-Ends message now x = inr (x, refl, persist_failure-fails message none now s e has)

  run_loaded-Ends :
      (message : String) (observe : List Decimal → DailyBar → Observation) (bars : List DailyBar)
      → Ends (run_loaded clock load message observe bars s)
  unfolding run_loaded
  run_loaded-Ends message observe bars =
      end_run-Ends message _ _ e (run_bars-keeps clock observe bars 0 [] s ∙ has)

  with_loaded-Ends :
      (message : String) (run : List DailyBar → Store → Store × Option Error)
      → ((bars : List DailyBar) → Ends (run bars s))
      → (loaded : Option (List DailyBar)) → Ends (with_loaded clock load message run loaded s)
  unfolding with_loaded
  with_loaded-Ends message run ends none = fail_run-Ends message _ _
  with_loaded-Ends message run ends (some bars) = ends bars

  with_bars-Ends :
      (message : String) (run : List DailyBar → Store → Store × Option Error)
      → ((bars : List DailyBar) → Ends (run bars s))
      → Ends (with_bars clock load message run s.experiment s)
  unfolding with_bars
  with_bars-Ends message run ends =
      subst (λ (row : Option Experiment). Ends (with_bars clock load message run row s)) (sym has)
        (with_loaded-Ends message run ends (load e.start_date e.end_date))

  -- A Buy-and-Hold run of an experiment that exists ends: without an exception and with the
  -- experiment completed, or, whatever is missing or raises, with an exception and the experiment
  -- failed.
  pub run_buy_and_hold-Ends : Ends (run_buy_and_hold clock load s)
  unfolding run_buy_and_hold
  run_buy_and_hold-Ends =
      with_bars-Ends buy_and_hold_message _
        (run_loaded-Ends buy_and_hold_message observe_buy_and_hold)

  with_window-Ends :
      (config : Option StrategyConfig) (bars : List DailyBar)
      → Ends (with_window clock load config bars s)
  unfolding with_window
  with_window-Ends none bars = fail_run-Ends moving_average_message _ _
  with_window-Ends (some c) bars = run_loaded-Ends moving_average_message _ bars

  -- A Moving Average run of an experiment that exists ends: without an exception and with the
  -- experiment completed, or, whatever is missing or raises, with an exception and the experiment
  -- failed.
  pub run_moving_average-Ends : Ends (run_moving_average clock load s)
  unfolding run_moving_average
  run_moving_average-Ends =
      with_bars-Ends moving_average_message _ (with_window-Ends s.strategy_config)
