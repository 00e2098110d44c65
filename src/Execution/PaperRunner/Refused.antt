-- ===== src/Execution/PaperRunner/Refused.antt =====
-- A call of the paper runner that its guards refuse
-- (backend/app/modules/execution/paper_step_runner.py).
use trading_ai_framework.Prelude.{ℕ, ◌≡◌, refl, Bool, Option, none, some}
use trading_ai_framework.Prelude.Text.{String}
use trading_ai_framework.Domain.{TriggerType}
use trading_ai_framework.Experiments.{AppError}
use trading_ai_framework.Experiments.Validators.{Settings}
use trading_ai_framework.Execution.Store.{Store}
use trading_ai_framework.Execution.Errors.{Error}
use trading_ai_framework.Execution.StepRunner.{Ended}
use trading_ai_framework.Execution.PaperSteps.{Outside, ArtifactsEnd}
use trading_ai_framework.Execution.PaperRunner.{
  check_paper_step, run_checked, run_connected, end_next, end_event, run_next_paper_step,
  run_event_step,
}

module _ (outside : Outside) (clock : ℕ → ℕ) (settings : Settings) (lock : Bool) (s : Store)
    (trigger : TriggerType) (slot : ℕ) (event_id : Option ℕ)
    (end : ℕ → ArtifactsEnd → Store × Ended) where
  run_checked-keeps :
      (refusal : Option AppError)
      → (refusal ≡ none → ⊥)
      → (run_checked outside clock settings lock trigger slot event_id s end refusal).0 ≡ s
  unfolding run_checked
  run_checked-keeps (some x) refused = refl
  run_checked-keeps none refused = absurd (refused refl)

  run_connected-keeps :
      (connect : Option String)
      → (check_paper_step settings trigger lock slot s ≡ none → ⊥)
      → (run_connected outside clock settings lock trigger slot event_id s end connect).0 ≡ s
  unfolding run_connected
  run_connected-keeps (some message) refused = refl
  run_connected-keeps none refused = run_checked-keeps _ refused

module _ (outside : Outside) (clock : ℕ → ℕ) (settings : Settings) (lock : Bool) (s : Store)
    (refused : (trigger : TriggerType) (slot : ℕ)
      → check_paper_step settings trigger lock slot s ≡ none
      → ⊥) where
  pub run_next_paper_step-keeps :
      (describe : Error → String) (connect : Option String) (trigger : TriggerType)
      (scheduled_for : Option ℕ)
      → (run_next_paper_step outside clock settings lock describe connect trigger scheduled_for s).0
        ≡ s
  unfolding run_next_paper_step
  run_next_paper_step-keeps describe connect trigger scheduled_for =
      run_connected-keeps outside clock settings lock s trigger _ none
        (λ id. end_next describe id (clock 3)) connect (refused trigger _)

  pub run_event_step-keeps :
      (connect : Option String) (event_id : ℕ) (scheduled_for : Option ℕ)
      → (run_event_step outside clock settings lock connect event_id scheduled_for s).0 ≡ s
  unfolding run_event_step
  run_event_step-keeps connect event_id scheduled_for =
      run_connected-keeps outside clock settings lock s TriggerType.event _ (some event_id)
        end_event connect (refused TriggerType.event _)
