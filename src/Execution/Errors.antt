-- ===== src/Execution/Errors.antt =====
-- The exceptions of backend/app/modules/execution as values.
use trading_ai_framework.Prelude.{◌≡◌}

-- The exceptions that end a step or a run.
pub data Error : Type 0 where
  experiment_not_found missing_state step_not_found division_by_zero load_failed : Error
  agent_failed agent_misconfigured market_data_missing market_data_failed broker_failed : Error
  unexpected : Error
  order_not_found portfolio_not_found : Error

pub data Result {ℓ} (A : Type ℓ) : Type ℓ where
  ok : A → Result A
  err : Error → Result A

pub ok_inj {ℓ} : {A : Type ℓ} {x y : A} → ok x ≡ ok y → x ≡ y
ok_inj h = cc

pub err≢ok {ℓ} : {A : Type ℓ} {e : Error} {x : A} → err e ≡ ok x → ⊥
err≢ok h = cc
