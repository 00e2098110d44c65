-- ===== src/Experiments.antt =====
-- Experiments and their lifecycle: backend/app/modules/experiments.
pub mod StatusMachine
pub mod Validators
pub mod Service
pub mod History
use trading_ai_framework.Prelude.{◌≡◌}
use trading_ai_framework.Prelude.Text.{String}

-- The errors of backend/app/core/errors.py that the component raises, with their messages.
pub data AppError : Type 0 where
  step_already_running : String → AppError
  not_found validation invalid_status invalid_experiment_configuration : String → AppError

-- An operation returns, or raises an error.
pub data Outcome {ℓ} (A : Type ℓ) : Type ℓ where
  done : A → Outcome A
  refused : AppError → Outcome A

pub done_inj {ℓ} : {A : Type ℓ} {x y : A} → done x ≡ done y → x ≡ y
done_inj h = cc

pub refused≢done {ℓ} : {A : Type ℓ} {x : A} {e : AppError} → refused e ≡ done x → ⊥
refused≢done h = cc
