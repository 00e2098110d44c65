-- ===== src/Execution/PaperArtifacts/Ending.antt =====
-- What the artifacts of a paper step leave of the table of steps
-- (backend/app/modules/execution/paper_step_runner.py).
use trading_ai_framework.Prelude.{
  ℕ, ◌≡◌, refl, sym, ap, ◌∙◌, Option, none, some, inl, inr, Bool-cases,
}
use trading_ai_framework.Prelude.Text.{String}
use trading_ai_framework.Domain.{StrategyType}
use trading_ai_framework.Models.{
  Portfolio, Experiment, StrategyConfig, ExecutionStep, TradingDecision,
}
use trading_ai_framework.Execution.Risk.{RiskResult}
use trading_ai_framework.Execution.Store.{Store, update_step, next_id}
use trading_ai_framework.Execution.Errors.{Result, ok, err, ok_inj}
use trading_ai_framework.Execution.Orchestrator.{Quote, complete_step}
use trading_ai_framework.Execution.BrokerSync.{BrokerOrderResult}
use trading_ai_framework.Execution.PaperProvider.{PlaceOrder}
use trading_ai_framework.Execution.PaperExecution.{
  PaperStepFailure, requires_broker_submission, persist_snapshot_and_metrics,
}
use trading_ai_framework.Execution.PaperExecution.Laws.{
  SettlesStep, >>=-ok, persist_snapshot_and_metrics-steps, run_broker_execution-SettlesStep,
}
use trading_ai_framework.Execution.PaperSteps.{
  Outside, ArtifactsEnd, ended, broke, committed, decided_rows, record_step, finish_decided,
}
use trading_ai_framework.Execution.PaperArtifacts.{
  given, with_rows, run_daily_found, run_daily_step_artifacts, run_orb_found,
  run_orb_step_artifacts, run_agentic_found, run_agentic_ai_step_artifacts, run_kind,
  run_paper_artifacts,
}

-- Artifacts that end have settled the step; those that raise leave the steps as they were.
abbrev pub StepsOf : ℕ → Store → ArtifactsEnd → Type 0
StepsOf id s (ended failure s') = SettlesStep id s s'
StepsOf id s (broke e s') = s'.steps ≡ s.steps

pub record Leaves (id : ℕ) (s : Store) (end : ArtifactsEnd) : Type 0 where
  pub steps : StepsOf id s end

given-Leaves {ℓ} :
    {A : Type ℓ} (id : ℕ) (s : Store) (r : Result A) (rest : A → ArtifactsEnd)
    → ((a : A) → Leaves id s (rest a))
    → Leaves id s (given s r rest)
unfolding given
given-Leaves id s (ok a) rest k = k a
given-Leaves id s (err e) rest k = record { steps = refl }

with_rows-Leaves :
    (id : ℕ) (s : Store) (e : Option Experiment) (p : Option Portfolio) (c : Option StrategyConfig)
    (step : Option ExecutionStep)
    (rest : Experiment → Portfolio → StrategyConfig → ExecutionStep → ArtifactsEnd)
    → ((e : Experiment) (p : Portfolio) (c : StrategyConfig) (step : ExecutionStep)
        → Leaves id s (rest e p c step))
    → Leaves id s (with_rows s e p c step rest)
unfolding with_rows
with_rows-Leaves id s (some e) (some p) (some c) (some step) rest k = k e p c step
with_rows-Leaves id s (some e) (some p) (some c) none rest k = record { steps = refl }
with_rows-Leaves id s (some e) (some p) none step rest k = record { steps = refl }
with_rows-Leaves id s (some e) none c step rest k = record { steps = refl }
with_rows-Leaves id s none p c step rest k = record { steps = refl }

-- A transaction over rows with the same steps.
committed-Leaves :
    (id : ℕ) (s t : Store) (r : Result (Option PaperStepFailure × Store))
    → t.steps ≡ s.steps
    → ((failure : Option PaperStepFailure) (s' : Store)
        → r ≡ ok (failure, s')
        → SettlesStep id s s')
    → Leaves id s (committed t r)
committed-Leaves id s t (ok (failure, s')) same k = record { steps = k failure s' refl }
committed-Leaves id s t (err e) same k = record { steps = same }

record_step-SettlesStep :
    (q : Quote) (id now : ℕ) (e : Experiment) (p : Portfolio) (timestamp : ℕ) (s : Store)
    (failure : Option PaperStepFailure) (s' : Store)
    → record_step q id now e p timestamp s ≡ ok (failure, s')
    → SettlesStep id s s'
record_step-SettlesStep q id now e p timestamp s failure s' h =
    let (t, written, settled) =
      >>=-ok (persist_snapshot_and_metrics id e p q.price timestamp s)
        (λ t. ok (none, record t { steps = update_step id (complete_step now) t.steps }))
        (failure, s') h in
    (
      complete_step now,
      (λ x. refl),
      ap (λ (x : Option PaperStepFailure × Store). x.1.steps) (sym (ok_inj settled))
          ∙ ap (update_step id (complete_step now))
              (persist_snapshot_and_metrics-steps id e p q.price timestamp s t written),
    )

finish_decided-Leaves :
    (broker : PlaceOrder → Result BrokerOrderResult) (symbol : String) (q : Quote)
    (timestamp id now later : ℕ) (e : Experiment) (p : Portfolio) (d : TradingDecision)
    (risk : RiskResult) (before s : Store)
    → s.steps ≡ before.steps
    → Leaves id before (finish_decided broker symbol q timestamp id now later e p d risk before s)
unfolding finish_decided
finish_decided-Leaves broker symbol q timestamp id now later e p d risk before s same =
    elim (Bool-cases (requires_broker_submission risk)) [
      | inl submits ↦ rw submits (
          committed-Leaves id before (decided_rows symbol q id now d risk s) _ same (λ failure s' h.
            let (g, stops, steps) =
              run_broker_execution-SettlesStep broker risk (next_id s.risk_checks) q.price symbol id
                later (decided_rows symbol q id now d risk s) failure s' h in
            (g, stops, steps ∙ ap (update_step id g) same)))
      | inr records ↦ rw records (
          committed-Leaves id before before _ refl (λ failure s' h.
            let (g, stops, steps) =
              record_step-SettlesStep q id now e p timestamp (decided_rows symbol q id now d risk s)
                failure s' h in
            (g, stops, steps ∙ ap (update_step id g) same)))
    ]

module _ (outside : Outside) (clock : ℕ → ℕ) (id : ℕ) (s : Store) (event_id : Option ℕ) where
  daily-Leaves : Leaves id s (run_daily_step_artifacts outside clock id s)
  unfolding run_daily_step_artifacts run_daily_found
  daily-Leaves = with_rows-Leaves id s _ _ _ _ _ (λ e p c step. given-Leaves id s _ _ (λ bar.
      given-Leaves id s _ _ (λ average. finish_decided-Leaves _ _ _ _ _ _ _ _ _ _ _ s s refl)))

  orb-Leaves : Leaves id s (run_orb_step_artifacts outside clock id s)
  unfolding run_orb_step_artifacts run_orb_found
  orb-Leaves = given-Leaves id s _ _ (λ slot. given-Leaves id s _ _ (λ symbol.
      given-Leaves id s _ _ (λ bars. given-Leaves id s _ _ (λ bar.
        with_rows-Leaves id s _ _ _ _ _
          (λ e p c step. finish_decided-Leaves _ _ _ _ _ _ _ _ _ _ _ s s refl)))))

  agentic-Leaves : Leaves id s (run_agentic_ai_step_artifacts outside clock id s event_id)
  unfolding run_agentic_ai_step_artifacts run_agentic_found
  agentic-Leaves = with_rows-Leaves id s _ _ _ _ _ (λ e p c step. given-Leaves id s _ _ (λ bar.
      given-Leaves id s _ _ (λ result. finish_decided-Leaves _ _ _ _ _ _ _ _ _ _ _ s _ refl)))

  kind-Leaves : (kind : StrategyType) → Leaves id s (run_kind outside clock id s event_id kind)
  unfolding run_kind
  kind-Leaves StrategyType.opening_range_breakout = orb-Leaves
  kind-Leaves StrategyType.agentic_ai = agentic-Leaves
  kind-Leaves StrategyType.buy_and_hold = daily-Leaves
  kind-Leaves StrategyType.moving_average = daily-Leaves
  kind-Leaves StrategyType.paper_trading_smoke_test = daily-Leaves

  pub run_paper_artifacts-Leaves : Leaves id s (run_paper_artifacts outside clock id s event_id)
  unfolding run_paper_artifacts
  run_paper_artifacts-Leaves = given-Leaves id s _ _ kind-Leaves
