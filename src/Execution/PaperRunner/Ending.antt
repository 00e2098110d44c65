-- ===== src/Execution/PaperRunner/Ending.antt =====
-- How a paper step ends, whatever is missing or raises, and what an event step that raises leaves
-- (backend/app/modules/execution/paper_step_runner.py).
use trading_ai_framework.Prelude.{
  ℕ, suc, ◌≡◌, ◌⊎◌, inl, inr, Bool, Option, some, none, arith, length, Option-cases,
}
use trading_ai_framework.Domain.{TriggerType}
use trading_ai_framework.Models.{Experiment, StrategyConfig}
use trading_ai_framework.Experiments.{AppError}
use trading_ai_framework.Experiments.Validators.{Settings}
use trading_ai_framework.Execution.Store.{Store}
use trading_ai_framework.Execution.StepRunner.{Ended, raised, application}
use trading_ai_framework.Execution.StepRunner.Ending.{IsQuiet}
use trading_ai_framework.Execution.PaperRunner.{check_found, check_state, check_paper_step}

-- A call is refused with an error of the application and changes nothing, or it leaves one step more,
-- and no step running.
abbrev pub PaperEnds : Store → Store × Ended → Type 0
PaperEnds s result =
    ((x : AppError) × (result.1 ≡ raised (application x)) × (result.0 ≡ s))
    ⊎ (IsQuiet result.0 × (length result.0.steps ≡ suc (length s.steps)))

check_found-IsQuiet :
    (settings : Settings) (trigger : TriggerType) (lock : Bool) (slot : ℕ) (e : Experiment)
    (s : Store)
    → check_found settings trigger lock slot e s ≡ none
    → IsQuiet s
unfolding check_found
check_found-IsQuiet settings trigger lock slot e s h = ground arith

check_state-IsQuiet :
    (settings : Settings) (trigger : TriggerType) (lock : Bool) (slot : ℕ) (e : Experiment)
    (c : Option StrategyConfig) (s : Store)
    → check_state settings trigger lock slot e c s ≡ none
    → IsQuiet s
unfolding check_state
check_state-IsQuiet settings trigger lock slot e none s h = ground arith
check_state-IsQuiet settings trigger lock slot e (some c) s h =
    check_found-IsQuiet settings trigger lock slot e s (ground arith)

pub check_paper_step-IsQuiet :
    (settings : Settings) (trigger : TriggerType) (lock : Bool) (slot : ℕ) (s : Store)
    → check_paper_step settings trigger lock slot s ≡ none
    → IsQuiet s
unfolding check_paper_step
check_paper_step-IsQuiet settings trigger lock slot s h = elim (Option-cases s.experiment) [
  | inl e ↦ ground arith
  | inr (e, has) ↦
      check_state-IsQuiet settings trigger lock slot e s.strategy_config s (ground arith)
]
