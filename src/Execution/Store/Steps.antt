-- ===== src/Execution/Store/Steps.antt =====
-- Laws of the table of execution steps: rows numbered from 1, and the row that was added last.
use mathlib.Core.Path.{subst}
use trading_ai_framework.Prelude.{
  ℕ, suc, ◌+◌, ◌≡◌, refl, false, some, List, [], ◌∷◌, ◌++◌, arith, length,
}
use trading_ai_framework.Domain.{ExecutionStepStatus}
use trading_ai_framework.Models.{ExecutionStep}
use trading_ai_framework.Execution.Store.{
  has_running_step, max_sequence_number, get_step, update_step,
}

-- A finished row with a number: its identity and its place in the sequence.
pub record IsFinished (i : ℕ) (step : ExecutionStep) : Type 0 where
  pub numbered : step.id ≡ i
  pub in_sequence : step.sequence_number ≡ i
  pub finished : step.status ≡ ExecutionStepStatus.completed

-- The rows are finished and numbered i, i + 1, ….
abbrev pub AreFinished : ℕ → List ExecutionStep → Type 0
AreFinished i [] = Unit
AreFinished i (s ∷ steps) = IsFinished i s × AreFinished (suc i) steps

pub max_sequence_number-eq-length :
    (i : ℕ) (s : ExecutionStep) (steps : List ExecutionStep)
    → AreFinished i (s ∷ steps)
    → max_sequence_number (s ∷ steps) ≡ i + length steps
unfolding max_sequence_number
max_sequence_number-eq-length i s [] (h, hs) = omega (arith, h.in_sequence)
max_sequence_number-eq-length i s (t ∷ steps) (h, hs) =
    omega (arith, h.in_sequence, max_sequence_number-eq-length (suc i) t steps hs)

pub max_sequence_number_last :
    (steps : List ExecutionStep) → AreFinished 1 steps → max_sequence_number steps ≡ length steps
unfolding max_sequence_number
max_sequence_number_last [] h = refl
max_sequence_number_last (s ∷ steps) h = omega (arith, max_sequence_number-eq-length 1 s steps h)

module _ (new : ExecutionStep) where
  pub get_step_last :
      (i : ℕ) (steps : List ExecutionStep)
      → AreFinished i steps
      → new.id ≡ i + length steps
      → get_step new.id (steps ++ (new ∷ [])) ≡ some new
  unfolding get_step
  get_step_last i [] h e = ground arith
  get_step_last i (s ∷ steps) (h, hs) e =
      ground (arith, h.numbered, get_step_last (suc i) steps hs (omega arith))

  pub update_step_last :
      (f : ExecutionStep → ExecutionStep) (i : ℕ) (steps : List ExecutionStep)
      → AreFinished i steps
      → new.id ≡ i + length steps
      → update_step new.id f (steps ++ (new ∷ [])) ≡ steps ++ (f new ∷ [])
  unfolding update_step
  update_step_last f i [] h e = ground arith
  update_step_last f i (s ∷ steps) (h, hs) e =
      ground (arith, h.numbered, update_step_last f (suc i) steps hs (omega arith))

pub AreFinished-append :
    (i : ℕ) (steps : List ExecutionStep) (new : ExecutionStep)
    → AreFinished i steps
    → IsFinished (i + length steps) new
    → AreFinished i (steps ++ (new ∷ []))
AreFinished-append i [] new h k = (subst (λ j. IsFinished j new) (omega arith) k, tt)
AreFinished-append i (s ∷ steps) new (h, hs) k =
    (h, AreFinished-append (suc i) steps new hs (subst (λ j. IsFinished j new) (omega arith) k))

pub AreFinished-has_running_step :
    (i : ℕ) (steps : List ExecutionStep) → AreFinished i steps → has_running_step steps ≡ false
unfolding has_running_step
AreFinished-has_running_step i [] h = refl
AreFinished-has_running_step i (s ∷ steps) (h, hs) =
    rw h.finished (AreFinished-has_running_step (suc i) steps hs)
