-- ===== src/Execution/PaperArtifacts.antt =====
-- The three kinds of a paper step: `_run_daily_step_artifacts`, `_run_orb_step_artifacts`,
-- `_run_agentic_ai_step_artifacts` and `_run_step_artifacts` of
-- backend/app/modules/execution/paper_step_runner.py. `clock 1` is the time of the step, and `clock 2`
-- that of the order.
pub mod Ending
use trading_ai_framework.Prelude.{
  ℕ, ◌+◌, ◌-◌, ◌*◌, Option, none, some, List, [], ◌∷◌, ◌++◌, map, ltb, ◌==◌, if◌then◌else◌,
}
use trading_ai_framework.Prelude.Text.{String, str_eq}
use trading_ai_framework.Times.{date_of, minute}
use trading_ai_framework.Domain.{StrategyType, TradingFrequency, EventDecisionStatus}
use trading_ai_framework.Decimal.{Decimal}
use trading_ai_framework.Models.{
  Portfolio, Experiment, StrategyConfig, ExecutionStep, DailyBar, EventDecision,
}
use trading_ai_framework.Strategies.{
  StrategyDecision, OpeningRangeBreakoutDecision, opening_range_breakout,
}
use trading_ai_framework.MarketData.Calendar.{TradingSession, sessions_between}
use trading_ai_framework.MarketData.Intraday.{IntradayBar}
use trading_ai_framework.MarketData.Hourly.{last_of, aggregate_hourly_bar}
use trading_ai_framework.Agents.Types.{AgentRunResult}
use trading_ai_framework.Execution.Risk.{RiskResult, evaluate, evaluate_target_exposure}
use trading_ai_framework.Execution.Store.{Store, next_id, get_step}
use trading_ai_framework.Execution.Errors.{
  Error, Result, ok, err, missing_state, market_data_missing, unexpected,
}
use trading_ai_framework.Execution.Orchestrator.{Quote, new_decision}
use trading_ai_framework.Execution.Historical.{window_or_default}
use trading_ai_framework.Execution.AgentStep.{
  agent_decision, add_logs, context_of, max_exposure_pct, agent_mode_or,
}
use trading_ai_framework.Execution.PaperProvider.{time_or}
use trading_ai_framework.Execution.PaperExecution.{◌>>=◌}
use trading_ai_framework.Execution.PaperSteps.{
  Outside, ArtifactsEnd, ended, broke, finish_decided, decide_daily, source_name_of, daily_risk,
  eligible_bars, mean_of_last, orb_state,
}

-- What the rest of a step needs of its market data, or the exception that ends it.
unfoldable pub given {ℓ} : {A : Type ℓ} → Store → Result A → (A → ArtifactsEnd) → ArtifactsEnd
given s (ok a) rest = rest a
given s (err e) rest = broke e s

-- The rows that a step needs.
unfoldable pub with_rows :
    Store
    → Option Experiment
    → Option Portfolio
    → Option StrategyConfig
    → Option ExecutionStep
    → (Experiment → Portfolio → StrategyConfig → ExecutionStep → ArtifactsEnd)
    → ArtifactsEnd
with_rows s (some e) (some p) (some c) (some step) rest = rest e p c step
with_rows s _ _ _ _ rest = broke missing_state s

-- `_mark_event_decision_triggered`, for an event
abbrev pub triggered : ℕ → ℕ → ℕ → EventDecision → EventDecision
triggered step_id decision_id now d = record d {
  execution_step_id = some step_id;
  trading_decision_id = some decision_id;
  status = EventDecisionStatus.triggered;
  reason = "Event-triggered agent run executed.";
  updated_at = now;
}

unfoldable pub mark_triggered : ℕ → ℕ → ℕ → ℕ → List EventDecision → List EventDecision
mark_triggered event_id step_id decision_id now [] =
    record {
      event_id = event_id;
      execution_step_id = some step_id;
      trading_decision_id = some decision_id;
      status = EventDecisionStatus.triggered;
      reason = "Event-triggered agent run executed.";
      created_at = now;
      updated_at = now;
    }
    ∷ []
mark_triggered event_id step_id decision_id now (d ∷ decisions) =
    if d.event_id == event_id
    then triggered step_id decision_id now d ∷ decisions
    else d ∷ mark_triggered event_id step_id decision_id now decisions

abbrev pub mark_event_decision_triggered :
    Option ℕ → ℕ → ℕ → ℕ → List EventDecision → List EventDecision
mark_event_decision_triggered none step_id decision_id now decisions = decisions
mark_event_decision_triggered (some event_id) step_id decision_id now decisions =
    mark_triggered event_id step_id decision_id now decisions

-- `strategy_config.model_name or self.settings.scadsai_default_model`
abbrev pub model_or : String → Option String → String
model_or default none = default
model_or default (some name) = if str_eq name "" then default else name

-- `date - timedelta(days=n)`, which raises before the first day
abbrev pub days_before : ℕ → ℕ → Result ℕ
days_before n date = if ltb n date then ok (date - n) else err unexpected

module _ (outside : Outside) (clock : ℕ → ℕ) (step_id : ℕ) (s : Store) where
  -- `_moving_average_for_step`
  unfoldable pub moving_average_for_step :
      StrategyType → String → StrategyConfig → DailyBar → Result (Option Decimal)
  moving_average_for_step StrategyType.moving_average symbol c latest_bar = do
    let window = window_or_default c.moving_average_window
    lookback_start ← days_before (window * 2 + 10) latest_bar.date
    bars ← outside.load_range lookback_start latest_bar.date symbol
    ok (
        mean_of_last window
          (map (λ (b : DailyBar). b.adjusted_close) (eligible_bars latest_bar.date bars)))
  moving_average_for_step _ symbol c latest_bar = ok none

  -- A daily step, with its bar and its average.
  unfoldable pub run_daily_found :
      Experiment → Portfolio → StrategyConfig → DailyBar → Option Decimal → ArtifactsEnd
  run_daily_found e p c bar average =
      let quote : Quote = record {
        timestamp = clock 1;
        price = bar.adjusted_close;
        moving_average = average;
      } in
      let decision =
        decide_daily e.strategy_type p.position_quantity e.asset_symbol bar.adjusted_close average
          (window_or_default c.moving_average_window) in
      finish_decided outside.broker e.asset_symbol quote (clock 1) step_id (clock 1) (clock 2) e p
        (new_decision (source_name_of e.strategy_type) decision step_id (clock 1))
        (daily_risk e.strategy_type decision p bar.adjusted_close) s s

  -- `_run_daily_step_artifacts`
  unfoldable pub run_daily_step_artifacts : ArtifactsEnd
  run_daily_step_artifacts =
      with_rows s s.experiment s.portfolio s.strategy_config (get_step step_id s.steps)
        λ e p c step. given s (outside.get_latest_bar e.asset_symbol) λ bar.
          given s (moving_average_for_step e.strategy_type e.asset_symbol c bar)
            (run_daily_found e p c bar)

  -- `bars[-1]`
  abbrev last_bar : List IntradayBar → Result IntradayBar
  last_bar [] = err unexpected
  last_bar (b ∷ bars) = ok (last_of b bars)

  abbrev as_decision : OpeningRangeBreakoutDecision → StrategyDecision
  as_decision d = record { action = d.action; symbol = d.symbol; reason = d.reason }

  -- A breakout step, with its bars and the last of them.
  unfoldable pub run_orb_found :
      Experiment → Portfolio → List IntradayBar → IntradayBar → ArtifactsEnd
  run_orb_found e p bars bar =
      let quote : Quote = record {
        timestamp = bar.timestamp;
        price = bar.close;
        moving_average = none;
      } in
      let decision = as_decision (
        opening_range_breakout e.asset_symbol bar.close p.position_quantity
          (orb_state bars bar s.trades)) in
      finish_decided outside.broker e.asset_symbol quote bar.timestamp step_id (clock 1) (clock 2) e
        p
        (new_decision (source_name_of StrategyType.opening_range_breakout) decision step_id
          (clock 1))
        (evaluate decision.action decision.symbol p bar.close) s s

  abbrev slot_of : Option ExecutionStep → Result ℕ
  slot_of none = err missing_state
  slot_of (some step) = elim step.scheduled_for [ none ↦ err missing_state | some t ↦ ok t ]

  abbrev symbol_of : Option Experiment → Result String
  symbol_of none = err missing_state
  symbol_of (some e) = ok e.asset_symbol

  -- `_run_orb_step_artifacts`
  unfoldable pub run_orb_step_artifacts : ArtifactsEnd
  run_orb_step_artifacts = given s (slot_of (get_step step_id s.steps)) λ slot.
      given s (symbol_of s.experiment) λ symbol.
        given s (outside.load_session_until (date_of slot) slot symbol) λ bars.
          given s (last_bar bars) λ bar.
            with_rows s s.experiment s.portfolio s.strategy_config (get_step step_id s.steps)
              λ e p c step. run_orb_found e p bars bar

  abbrev first_session : List TradingSession → Result TradingSession
  first_session [] = err market_data_missing
  first_session (session ∷ sessions) = ok session

  -- `_load_hourly_agent_bar`
  unfoldable pub load_hourly_agent_bar : String → ExecutionStep → Result DailyBar
  load_hourly_agent_bar symbol step = do
    let local_slot = outside.to_new_york (time_or step.scheduled_for (clock 1))
    session ← first_session (sessions_between (date_of local_slot) (date_of local_slot))
    bars ← outside.load_session_until (date_of local_slot) (local_slot + 55 * minute) symbol
    aggregate_hourly_bar session bars local_slot

  -- `_agent_market_bar`
  unfoldable pub agent_market_bar : TradingFrequency → String → ExecutionStep → Result DailyBar
  agent_market_bar TradingFrequency.hourly symbol step = load_hourly_agent_bar symbol step
  agent_market_bar _ symbol step = outside.get_latest_bar symbol

  -- An agent's step, with its bar and its answer.
  unfoldable pub run_agentic_found :
      Option ℕ → Experiment → Portfolio → StrategyConfig → DailyBar → AgentRunResult → ArtifactsEnd
  run_agentic_found event_id e p c bar result =
      let quote : Quote = record {
        timestamp = time_or bar.timestamp (clock 1);
        price = bar.adjusted_close;
        moving_average = none;
      } in
      finish_decided outside.broker e.asset_symbol quote (time_or bar.timestamp (clock 1)) step_id
        (clock 1) (clock 2) e p (agent_decision result.decision step_id (clock 1))
        (evaluate_target_exposure result.decision.action result.decision.symbol
          result.decision.target_exposure_pct p bar.adjusted_close max_exposure_pct)
        s
        (record s {
          agent_logs = add_logs (agent_mode_or c.agent_mode) result step_id (clock 1) s;
          event_decisions =
              mark_event_decision_triggered event_id step_id (next_id s.decisions) (clock 1)
                s.event_decisions;
        })

  -- `_run_agentic_ai_step_artifacts`
  unfoldable pub run_agentic_ai_step_artifacts : Option ℕ → ArtifactsEnd
  run_agentic_ai_step_artifacts event_id =
      with_rows s s.experiment s.portfolio s.strategy_config (get_step step_id s.steps)
        λ e p c step. given s (agent_market_bar e.trading_frequency e.asset_symbol step) λ bar.
          given s
            (outside.agent event_id (
              context_of e.asset_symbol bar step_id p c
                (some (model_or outside.default_model c.model_name))))
            (run_agentic_found event_id e p c bar)

  unfoldable pub run_kind : Option ℕ → StrategyType → ArtifactsEnd
  run_kind event_id StrategyType.opening_range_breakout = run_orb_step_artifacts
  run_kind event_id StrategyType.agentic_ai = run_agentic_ai_step_artifacts event_id
  run_kind event_id _ = run_daily_step_artifacts

  kind_of : Option Experiment → Result StrategyType
  kind_of none = err missing_state
  kind_of (some e) = ok e.strategy_type

  -- `_run_step_artifacts`
  unfoldable pub run_paper_artifacts : Option ℕ → ArtifactsEnd
  unfolding kind_of
  run_paper_artifacts event_id = given s (kind_of s.experiment) (run_kind event_id)
