-- ===== src/Experiments/Service/Simulation.antt =====
-- From the request to the end of the simulation: backend/app/modules/experiments/service.py and
-- backend/app/modules/execution/orchestrator.py together.
use trading_ai_framework.Prelude.{ℕ, ◌≡◌, refl, sym, Bool, false, Option, some, List, length}
use trading_ai_framework.Decimal
use trading_ai_framework.Decimal.{Decimal, nought, ◌≺◌}
use trading_ai_framework.Decimal.Grid.{IsNonneg-of_pos, quantize-IsMoney}
use trading_ai_framework.Models.{DailyBar}
use trading_ai_framework.Execution.Store.{Store}
use trading_ai_framework.Execution.Historical.{run_buy_and_hold, run_moving_average}
use trading_ai_framework.Execution.Historical.Bar.{IsReady}
use trading_ai_framework.Execution.Historical.Completion.{
  Completes, run_buy_and_hold-Completes, run_moving_average-Completes,
}
use trading_ai_framework.Experiments.{done}
use trading_ai_framework.Experiments.Validators.{CreateExperimentRequest, Settings}
use trading_ai_framework.Experiments.Validators.Supported.{IsAdmissible}
use trading_ai_framework.Experiments.Service.{
  ExperimentActionResponse, Task, create_experiment, start_experiment, new_store, new_portfolio,
  new_config,
}
use trading_ai_framework.Experiments.Service.Start.{started_store, start_accepts}

started-IsReady :
    (r : CreateExperimentRequest) (id now : ℕ) (background : Bool) (later : ℕ)
    → IsAdmissible r
    → Decimal.is_zero (Decimal.stored 4 r.initial_capital) ≡ false
    → (ready : IsReady (started_store r id now background later)) × (ready.experiment.start_date
        ≡ r.start_date)
      × (ready.experiment.end_date ≡ r.end_date)
unfolding started_store new_store
started-IsReady r id now background later can kept = (
  record {
    experiment = _;
    portfolio = new_portfolio r now;
    config = new_config r now;
    has_experiment = refl;
    has_portfolio = refl;
    has_config = refl;
    capital = kept;
    solvent = record {
      money = quantize-IsMoney (IsNonneg-of_pos r.initial_capital can.capital);
      long = (0, 0, refl);
    };
    steps_finished = tt;
  },
  refl,
  refl,
)

module _ (settings : Settings) (r : CreateExperimentRequest) (id now : ℕ) (s : Store)
    (kept : Decimal.is_zero (Decimal.stored 4 r.initial_capital) ≡ false)
    (created : create_experiment settings r id now ≡ done s) (background : Bool) (later : ℕ)
    (response : ExperimentActionResponse) (task : Option Task)
    (started : start_experiment background later s ≡ done (response, task)) (clock : ℕ → ℕ)
    (load : ℕ → ℕ → Option (List DailyBar)) (bars : List DailyBar)
    (loaded : load r.start_date r.end_date ≡ some bars) where
  -- A request that is accepted and started, whose capital does not become zero when its column rounds
  -- it to four places, and whose bars can be loaded is simulated to the end by Buy-and-Hold: the run
  -- raises nothing, completes the experiment with one finished step for each bar, and leaves no debt.
  pub create-start-run_buy_and_hold :
      Completes (length bars) response.store (run_buy_and_hold clock load response.store)
  create-start-run_buy_and_hold =
      let (can, same) =
        start_accepts settings r id now s created background later response task started in
      let (ready, from, to) = started-IsReady r id now background later can kept in
      rw (sym same) (run_buy_and_hold-Completes clock load bars _ ready (rw (from, to) loaded))

  -- A request that is accepted and started, whose capital does not become zero when its column rounds
  -- it to four places, and whose bars can be loaded is simulated to the end by Moving Average: the run
  -- raises nothing, completes the experiment with one finished step for each bar, and leaves no debt.
  pub create-start-run_moving_average :
      Completes (length bars) response.store (run_moving_average clock load response.store)
  create-start-run_moving_average =
      let (can, same) =
        start_accepts settings r id now s created background later response task started in
      let (ready, from, to) = started-IsReady r id now background later can kept in
      rw (sym same) (run_moving_average-Completes clock load bars _ ready (rw (from, to) loaded))
