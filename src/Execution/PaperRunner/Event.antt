-- ===== src/Execution/PaperRunner/Event.antt =====
-- What an event step whose artifacts raise leaves
-- (`run_event_step` of backend/app/modules/execution/paper_step_runner.py).
use mathlib.Core.Path.{subst}
use trading_ai_framework.Prelude.{
  ℕ, ◌≡◌, refl, ap, ◌∙◌, Bool, true, false, Option, some, none, List, [], ◌∷◌, ◌++◌, arith,
}
use trading_ai_framework.Prelude.Text.{String}
use trading_ai_framework.Domain.{TriggerType}
use trading_ai_framework.Models.{ExecutionStep}
use trading_ai_framework.Experiments.{AppError}
use trading_ai_framework.Experiments.Validators.{Settings}
use trading_ai_framework.Execution.Store.{Store, has_running_step, is_running}
use trading_ai_framework.Execution.Errors.{Error}
use trading_ai_framework.Execution.Orchestrator.{create_running_step}
use trading_ai_framework.Execution.StepRunner.{Ended, raised, application, other}
use trading_ai_framework.Execution.PaperProvider.{time_or}
use trading_ai_framework.Execution.PaperSteps.{Outside, ArtifactsEnd, broke}
use trading_ai_framework.Execution.PaperArtifacts.{run_paper_artifacts}
use trading_ai_framework.Execution.PaperArtifacts.Ending.{Leaves, run_paper_artifacts-Leaves}
use trading_ai_framework.Execution.PaperRunner.{
  check_paper_step, end_next, end_event, run_checked, run_connected, run_next_paper_step,
  run_event_step,
}
use trading_ai_framework.Execution.PaperRunner.Ending.{check_paper_step-IsQuiet}

-- A call is refused with an error of the application and changes nothing.
abbrev pub IsRefused : Store → Store × Ended → Type 0
IsRefused s result = ((x : AppError) × (result.1 ≡ raised (application x))) × (result.0 ≡ s)

apart : {b : Bool} → b ≡ true → b ≡ false → ⊥
apart h k = cc

has_running_step-snoc :
    (new : ExecutionStep) (steps : List ExecutionStep)
    → is_running new.status ≡ true
    → has_running_step (steps ++ (new ∷ [])) ≡ true
unfolding has_running_step
has_running_step-snoc new [] h = ground arith
has_running_step-snoc new (s ∷ steps) h = ground (arith, has_running_step-snoc new steps h)

create_running_step-runs :
    (trigger : TriggerType) (slot now : ℕ) (s : Store)
    → has_running_step (create_running_step trigger slot now s).1.steps ≡ true
unfolding create_running_step
create_running_step-runs trigger slot now s = has_running_step-snoc _ s.steps refl

module _ (outside : Outside) (clock : ℕ → ℕ) (settings : Settings) (lock : Bool) (s : Store) where
  checked-IsRefused :
      (trigger : TriggerType) (slot : ℕ) (end : ℕ → ArtifactsEnd → Store × Ended)
      (refusal : Option AppError)
      → check_paper_step settings trigger lock slot s ≡ refusal
      → has_running_step s.steps ≡ true
      → IsRefused s (run_checked outside clock settings lock trigger slot none s end refusal)
  unfolding run_checked
  checked-IsRefused trigger slot end (some x) h runs = ((x, refl), refl)
  checked-IsRefused trigger slot end none h runs =
      absurd (apart runs (check_paper_step-IsQuiet settings trigger lock slot s h))

  -- While a step runs, every call of the runner is refused.
  pub running-IsRefused :
      (describe : Error → String) (connect : Option String) (trigger : TriggerType)
      (scheduled_for : Option ℕ)
      → has_running_step s.steps ≡ true
      → IsRefused s
          (run_next_paper_step outside clock settings lock describe connect trigger scheduled_for s)
  unfolding run_next_paper_step run_connected
  running-IsRefused describe (some message) trigger scheduled_for runs = ((_, refl), refl)
  running-IsRefused describe none trigger scheduled_for runs =
      checked-IsRefused trigger _ (λ id. end_next describe id (clock 3)) _ refl runs

module _ (outside : Outside) (clock : ℕ → ℕ) (settings : Settings) (lock : Bool) (event_id : ℕ)
    (scheduled_for : Option ℕ) (s t : Store) (e : Error) where
  event-broke :
      check_paper_step settings TriggerType.event lock (time_or scheduled_for (clock 0)) s ≡ none
      → (let (id, created) =
            create_running_step TriggerType.event (time_or scheduled_for (clock 0)) (clock 0) s in
          run_paper_artifacts outside clock id created (some event_id))
        ≡ broke e t
      → run_event_step outside clock settings lock none event_id scheduled_for s
        ≡ (t, raised (other e))
  unfolding run_event_step run_connected run_checked end_event
  event-broke passes h = rw passes (rw h refl)

  -- A step for an event that passes the guards, and whose artifacts raise, ends with that exception
  -- and is left running: every later call of `run_next_step`, whatever its trigger, its slot and the
  -- answers it would get, is refused and changes nothing.
  pub run_event_step-blocks :
      (outside' : Outside) (clock' : ℕ → ℕ) (settings' : Settings) (lock' : Bool)
      (describe : Error → String) (connect : Option String) (trigger : TriggerType)
      (slot : Option ℕ)
      → check_paper_step settings TriggerType.event lock (time_or scheduled_for (clock 0)) s ≡ none
      → (let (id, created) =
            create_running_step TriggerType.event (time_or scheduled_for (clock 0)) (clock 0) s in
          run_paper_artifacts outside clock id created (some event_id))
        ≡ broke e t
      → (run_event_step outside clock settings lock none event_id scheduled_for s
          ≡ (t, raised (other e)))
        × (has_running_step t.steps ≡ true)
        × IsRefused t
            (run_next_paper_step outside' clock' settings' lock' describe connect trigger slot t)
  run_event_step-blocks outside' clock' settings' lock' describe connect trigger slot passes h =
      let made : ℕ × Store =
        create_running_step TriggerType.event (time_or scheduled_for (clock 0)) (clock 0) s in
      let leaves : Leaves made.0 made.1 (broke e t) =
        subst (Leaves made.0 made.1) h
          (run_paper_artifacts-Leaves outside clock made.0 made.1 (some event_id)) in
      let runs : has_running_step t.steps ≡ true =
        ap has_running_step leaves.steps
        ∙ create_running_step-runs TriggerType.event _ (clock 0) s in
      (
        event-broke passes h,
        runs,
        running-IsRefused outside' clock' settings' lock' t describe connect trigger slot runs,
      )
