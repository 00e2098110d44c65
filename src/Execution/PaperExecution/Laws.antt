-- ===== src/Execution/PaperExecution/Laws.antt =====
-- What the second transaction of a paper step leaves
-- (backend/app/modules/execution/paper_step_runner.py).
use trading_ai_framework.Prelude.{ℕ, ◌≡◌, refl, sym, ap, ◌∙◌, false, Option, none, some}
use trading_ai_framework.Prelude.Text.{String}
use trading_ai_framework.Decimal.{Decimal}
use trading_ai_framework.Models.{Portfolio, Experiment, ExecutionStep}
use trading_ai_framework.Execution.Risk.{RiskResult}
use trading_ai_framework.Execution.Store.{Store, is_running, update_step, get_step}
use trading_ai_framework.Execution.Errors.{Result, ok, err, ok_inj, err≢ok}
use trading_ai_framework.Execution.RunEnd.{fail_step}
use trading_ai_framework.Execution.Orchestrator.{complete_step}
use trading_ai_framework.Execution.Orchestrator.Success.{or_division-ok}
use trading_ai_framework.Execution.BrokerSync.{BrokerOrderResult}
use trading_ai_framework.Execution.PaperProvider.{
  PlaceOrder, PaperExecutionResult, place_if_applicable,
}
use trading_ai_framework.Execution.PaperExecution.{
  PaperStepFailure, persist_snapshot_and_metrics, settle_step, placed_rows, write_placed,
  controlled_order_failure, call_of, execute_found, execute_rows, run_broker_execution, ◌>>=◌,
}

-- The step of that identity is updated to a status that is not RUNNING, and the others stay.
abbrev pub SettlesStep : ℕ → Store → Store → Type 0
SettlesStep id s s' =
    (g : ExecutionStep → ExecutionStep) × ((x : ExecutionStep) → is_running (g x).status ≡ false)
    × (s'.steps ≡ update_step id g s.steps)

pub >>=-ok {ℓ κ} :
    {A : Type ℓ} {B : Type κ} (m : Result A) (f : A → Result B) (b : B)
    → (m >>= f) ≡ ok b
    → (a : A) × (m ≡ ok a) × (f a ≡ ok b)
>>=-ok (ok a) f b h = (a, refl, h)
>>=-ok (err e) f b h = absurd (err≢ok h)

pub persist_snapshot_and_metrics-steps :
    (id : ℕ) (e : Experiment) (p : Portfolio) (price : Decimal) (timestamp : ℕ) (s s' : Store)
    → persist_snapshot_and_metrics id e p price timestamp s ≡ ok s'
    → s'.steps ≡ s.steps
unfolding persist_snapshot_and_metrics
persist_snapshot_and_metrics-steps id e p price timestamp s s' h =
    let (figures, same) = or_division-ok _ _ s' h in rw (sym same) refl

settle_step-SettlesStep :
    (id now : ℕ) (e : Experiment) (failure : Option PaperStepFailure) (s : Store)
    → SettlesStep id s (settle_step id now e failure s).1
unfolding settle_step
settle_step-SettlesStep id now e none s = (complete_step now, (λ x. refl), refl)
settle_step-SettlesStep id now e (some f) s = (fail_step f.message now, (λ x. refl), refl)

write_placed-SettlesStep :
    (price : Decimal) (id now : ℕ) (e : Experiment) (s : Store) (placed : PaperExecutionResult)
    (failure : Option PaperStepFailure) (s' : Store)
    → write_placed price id now e s placed ≡ ok (failure, s')
    → SettlesStep id s s'
unfolding write_placed
write_placed-SettlesStep price id now e s placed failure s' h =
    let (t, written, settled) =
      >>=-ok
        (persist_snapshot_and_metrics id e placed.portfolio price now (placed_rows price placed s))
        (λ t. ok (settle_step id now e (controlled_order_failure placed.broker_result) t))
        (failure, s') h in
    let (g, stops, steps) =
      settle_step-SettlesStep id now e (controlled_order_failure placed.broker_result) t in
    (
      g,
      stops,
      ap (λ (x : Option PaperStepFailure × Store). x.1.steps) (sym (ok_inj settled))
          ∙ (steps
              ∙ ap (update_step id g) (
                  persist_snapshot_and_metrics-steps id e placed.portfolio price now
                    (placed_rows price placed s) t written)),
    )

module _ (broker : PlaceOrder → Result BrokerOrderResult) (risk : RiskResult) (risk_check_id : ℕ)
    (price : Decimal) (symbol : String) (id now : ℕ) (s : Store) (failure : Option PaperStepFailure)
    (s' : Store) where
  execute_found-SettlesStep :
      (e : Experiment) (p : Portfolio)
      → execute_found broker risk risk_check_id price symbol id now e p s ≡ ok (failure, s')
      → SettlesStep id s s'
  unfolding execute_found
  execute_found-SettlesStep e p h =
      let (placed, was_placed, rest) =
        >>=-ok
          (place_if_applicable broker risk p (call_of broker risk_check_id symbol id now e)
            s.orders)
          (write_placed price id now e s) (failure, s') h in
      write_placed-SettlesStep price id now e s placed failure s' rest

  execute_rows-SettlesStep :
      (e : Option Experiment) (p : Option Portfolio) (step : Option ExecutionStep)
      → execute_rows broker risk risk_check_id price symbol id now s e p step ≡ ok (failure, s')
      → SettlesStep id s s'
  unfolding execute_rows
  execute_rows-SettlesStep (some e) (some p) (some step) h = execute_found-SettlesStep e p h
  execute_rows-SettlesStep (some e) (some p) none h = absurd (err≢ok h)
  execute_rows-SettlesStep (some e) none step h = absurd (err≢ok h)
  execute_rows-SettlesStep none p step h = absurd (err≢ok h)

  pub run_broker_execution-SettlesStep :
      run_broker_execution broker risk risk_check_id price symbol id now s ≡ ok (failure, s')
      → SettlesStep id s s'
  unfolding run_broker_execution
  run_broker_execution-SettlesStep h =
      execute_rows-SettlesStep s.experiment s.portfolio (get_step id s.steps) h
