-- ===== src/Execution/Orchestrator/Success.antt =====
-- What a step that raises nothing has found, and what it keeps
-- (`_run_step` of backend/app/modules/execution/orchestrator.py).
use trading_ai_framework.Prelude.{ℕ, ◌≡◌, refl, sym, Option, none, some}
use trading_ai_framework.Models.{
  Portfolio, Experiment, StrategyConfig, ExecutionStep, TradingDecision,
}
use trading_ai_framework.Execution.Risk.{RiskResult}
use trading_ai_framework.Execution.Metrics.{MetricResult}
use trading_ai_framework.Execution.Store.{Store, update_step}
use trading_ai_framework.Execution.Errors.{Result, ok, ok_inj, err≢ok}
use trading_ai_framework.Execution.Orchestrator.{
  Quote, complete_step, Observation, or_division, with_state, with_step, run_found, run_decided,
  run_step, write_step,
}

pub or_division-ok :
    (m : Option MetricResult) (write : MetricResult → Store) (s' : Store)
    → or_division m write ≡ ok s'
    → (figures : MetricResult) × (write figures ≡ s')
or_division-ok none write s' h = absurd (err≢ok h)
or_division-ok (some figures) write s' h = (figures, ok_inj h)

pub with_state-ok :
    (e : Option Experiment) (p : Option Portfolio) (c : Option StrategyConfig)
    (run : Experiment → Portfolio → Result Store) (s' : Store)
    → with_state e p c run ≡ ok s'
    → (experiment : Experiment) × (portfolio : Portfolio) × (p ≡ some portfolio)
      × (run experiment portfolio ≡ ok s')
with_state-ok (some e) (some p) (some c) run s' h = (e, p, refl, h)
with_state-ok (some e) (some p) none run s' h = absurd (err≢ok h)
with_state-ok (some e) none c run s' h = absurd (err≢ok h)
with_state-ok none p c run s' h = absurd (err≢ok h)

pub with_step-ok :
    (step : Option ExecutionStep) (result : Result Store) (s' : Store)
    → with_step step result ≡ ok s'
    → result ≡ ok s'
with_step-ok none result s' h = absurd (err≢ok h)
with_step-ok (some step) result s' h = h

-- What a step that raises nothing does to the experiment and to the table of steps.
abbrev pub Settled : ℕ → ℕ → Store → Store → Type 0
Settled id now s s' =
    (s'.experiment ≡ s.experiment) × (s'.steps ≡ update_step id (complete_step now) s.steps)

pub run_decided-Settled :
    (q : Quote) (id now : ℕ) (e : Experiment) (p : Portfolio) (d : TradingDecision) (k : RiskResult)
    (s s' : Store)
    → run_decided q id now e p d k s ≡ ok s'
    → Settled id now s s'
unfolding run_decided write_step
run_decided-Settled q id now e p d k s s' h =
    let (figures, same) = or_division-ok _ _ s' h in rw (sym same) (refl, refl)

pub run_step-Settled :
    (o : Observation) (id now : ℕ) (s s' : Store)
    → run_step o id now s ≡ ok s'
    → Settled id now s s'
unfolding run_step run_found
run_step-Settled o id now s s' h =
    let (e, p, has, runs) = with_state-ok s.experiment s.portfolio s.strategy_config _ s' h in
    run_decided-Settled o.quote id now e p _ _ s s' (with_step-ok _ _ s' runs)

-- A step keeps the row of the experiment.
pub run_step-keeps :
    (o : Observation) (id now : ℕ) (s s' : Store)
    → run_step o id now s ≡ ok s'
    → s'.experiment ≡ s.experiment
run_step-keeps o id now s s' h = (run_step-Settled o id now s s' h).0
