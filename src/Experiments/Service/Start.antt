-- ===== src/Experiments/Service/Start.antt =====
-- What becomes of an experiment that was created (backend/app/modules/experiments/service.py).
use trading_ai_framework.Prelude.{
  ℕ, ◌≡◌, refl, sym, ap, ◌∙◌, ◌⊎◌, inl, inr, Bool, true, false, not, ◌&&◌, ◌||◌, Option, none, some,
  arith, Bool-cases, Option-cases, if◌then◌else◌,
}
use trading_ai_framework.Prelude.Text.{String, str_eq}
use trading_ai_framework.Domain.{ExperimentMode, StrategyType, ExperimentStatus, TradingFrequency}
use trading_ai_framework.Execution.Store.{Store}
use trading_ai_framework.Experiments.{AppError, done, refused, done_inj, refused≢done}
use trading_ai_framework.Experiments.StatusMachine.{Action}
use trading_ai_framework.Experiments.StatusMachine.Graph.{validate_transition-done, starts}
use trading_ai_framework.Experiments.Validators.{
  CreateExperimentRequest, Settings, normalize_symbol, is_historical,
  validate_create_experiment_request,
}
use trading_ai_framework.Experiments.Validators.Supported.{
  IsAdmissible, supports, is_stranded, validate_create_experiment_request-IsAdmissible,
}
use trading_ai_framework.Experiments.Service.Log.{status_of}
use trading_ai_framework.Experiments.Service.{
  ExperimentActionResponse, Task, create_experiment, new_store, new_experiment,
  apply_lifecycle_action, start_experiment, start_refusal, refusal_of, acted, task_of, is_daily,
  is_moving_average,
}

-- A simulated Moving Average that does not trade daily.
abbrev pub is_slow_average : CreateExperimentRequest → Bool
is_slow_average r =
    is_historical r.mode
    && (is_moving_average r.strategy_type && not (is_daily r.trading_frequency))

-- The tests of the start refuse, of the combinations that are supported, only such an average.
refusal_of-supported :
    (m : ExperimentMode) (t : StrategyType) (f : TradingFrequency) (is_spy : Bool)
    → (supports m t f || is_stranded m t f) ≡ true
    → (is_historical m && not is_spy) ≡ false
    → refusal_of m t f is_spy ≡ (
        if is_historical m && (is_moving_average t && not (is_daily f))
        then some "Moving Average historical simulation supports DAILY frequency only."
        else none)
refusal_of-supported m t f is_spy h k = ground arith

only_spy :
    (m : ExperimentMode) (symbol : String)
    → (m ≡ ExperimentMode.paper_trading) ⊎ (symbol ≡ "SPY")
    → (is_historical m && not (str_eq symbol "SPY")) ≡ false
only_spy m symbol (inl paper) = rw paper refl
only_spy m symbol (inr spy) = rw spy (ground arith)

pub create-accepts :
    (settings : Settings) (r : CreateExperimentRequest) (id now : ℕ) (s : Store)
    → create_experiment settings r id now ≡ done s
    → IsAdmissible r × (new_store r id now ≡ s)
unfolding create_experiment
create-accepts settings r id now s h =
    elim (Option-cases (validate_create_experiment_request settings r)) [
      | inl passes ↦ (
        validate_create_experiment_request-IsAdmissible settings r passes,
        done_inj (rw passes at h),
      )
      | inr (message, e) ↦ absurd (refused≢done (rw e at h))
    ]

module _ (r : CreateExperimentRequest) (id now : ℕ) (background : Bool) (later : ℕ) where
  -- The rows after the start.
  unfoldable pub started_store : Store
  unfolding new_store
  started_store =
      acted Action.start ExperimentStatus.running later (new_experiment r id now)
        (new_store r id now)

  abbrev started : ExperimentActionResponse × Option Task
  started = (
    record {
      experiment_id = id;
      status = ExperimentStatus.running;
      message = some "Experiment start accepted.";
      store = started_store;
    },
    task_of background (new_experiment r id now),
  )

  running : status_of started_store.experiment ≡ some ExperimentStatus.running
  unfolding started_store
  running = refl

  refusal_new :
      IsAdmissible r
      → start_refusal (new_experiment r id now) ≡ (
          if is_slow_average r
          then some "Moving Average historical simulation supports DAILY frequency only."
          else none)
  unfolding start_refusal
  refusal_new can =
      refusal_of-supported r.mode r.strategy_type r.trading_frequency _ can.combination
        (only_spy r.mode (normalize_symbol r.asset_symbol) can.spy)

  apply_new : apply_lifecycle_action Action.start later (new_store r id now) ≡ done (started.0)
  unfolding apply_lifecycle_action new_store started_store
  apply_new = rw (validate_transition-done starts) refl

  start_quick :
      IsAdmissible r
      → is_slow_average r ≡ false
      → start_experiment background later (new_store r id now) ≡ done started
  unfolding start_experiment new_store
  start_quick can quick = rw (refusal_new can) (rw quick (rw apply_new refl))

  start_slow :
      IsAdmissible r
      → is_slow_average r ≡ true
      → start_experiment background later (new_store r id now)
        ≡ refused (
            AppError.invalid_experiment_configuration
              "Moving Average historical simulation supports DAILY frequency only.")
  unfolding start_experiment new_store
  start_slow can slow = rw (refusal_new can) (rw slow refl)

module _ (settings : Settings) (r : CreateExperimentRequest) (id now : ℕ) (s : Store)
    (created : create_experiment settings r id now ≡ done s) (background : Bool) (later : ℕ) where
  -- An experiment that was created from a request starts at once, and is then running; only a
  -- simulated Moving Average that does not trade daily can never be started.
  pub create_experiment-start_experiment :
      ((started : ExperimentActionResponse × Option Task) × (start_experiment background later s
          ≡ done started)
        × (status_of started.0.store.experiment ≡ some ExperimentStatus.running)
        × (is_slow_average r ≡ false))
      ⊎ ((start_experiment background later s
            ≡ refused (
                AppError.invalid_experiment_configuration
                  "Moving Average historical simulation supports DAILY frequency only."))
          × (is_slow_average r ≡ true))
  create_experiment-start_experiment =
      let (can, same) = create-accepts settings r id now s created in
      rw (sym same) (elim (Bool-cases (is_slow_average r)) [
        | inl slow ↦ inr (start_slow r id now background later can slow, slow)
        | inr quick ↦ inl (
          started r id now background later,
          start_quick r id now background later can quick,
          running r id now background later,
          quick,
        )
      ])

  -- What a start that is accepted leaves.
  pub start_accepts :
      (response : ExperimentActionResponse) (task : Option Task)
      → start_experiment background later s ≡ done (response, task)
      → IsAdmissible r × (started_store r id now background later ≡ response.store)
  start_accepts response task h =
      let (can, same) = create-accepts settings r id now s created in
      let from_new : start_experiment background later (new_store r id now)
          ≡ done (response, task) =
        rw same h in
      elim (Bool-cases (is_slow_average r)) [
        | inl slow ↦
            absurd (refused≢done (sym (start_slow r id now background later can slow) ∙ from_new))
        | inr quick ↦ (
          can,
          ap (λ (x : ExperimentActionResponse × Option Task). x.0.store)
              (done_inj (sym (start_quick r id now background later can quick) ∙ from_new)),
        )
      ]
