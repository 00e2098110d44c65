-- ===== src/Experiments/History/Simulated.antt =====
-- What the paper runner, the broker synchronisation and the agent do to a simulated experiment: nothing
-- (backend/app/modules/execution/paper_step_runner.py, broker_sync.py and step_runner.py).
use trading_ai_framework.Prelude.{
  ℕ, ◌≡◌, refl, sym, ap, ◌∙◌, Bool, true, false, not, ◌&&◌, ◌||◌, Option, none, some, List, [], ◌∷◌,
  ◌++◌, arith, inl, inr, Option-cases, All,
}
use trading_ai_framework.Prelude.Text.{String}
use trading_ai_framework.Domain.{ExperimentMode, StrategyType, TradingFrequency, TriggerType}
use trading_ai_framework.Models.{Experiment, StrategyConfig, Portfolio, Order}
use trading_ai_framework.Experiments.Validators.{Settings, is_historical, is_agentic}
use trading_ai_framework.Experiments.Validators.Supported.{supports, is_stranded}
use trading_ai_framework.Execution.Risk.{RiskResult}
use trading_ai_framework.Execution.Simulation.{Call, execute_if_applicable}
use trading_ai_framework.Execution.Simulation.Made.{IsSimulated, AreSimulated, execute-AreSimulated}
use trading_ai_framework.Execution.Store.{Store, next_id}
use trading_ai_framework.Execution.Orchestrator.{add_order}
use trading_ai_framework.Execution.PaperRunner.{
  is_supported_experiment, check_found, check_state, check_paper_step,
}
use trading_ai_framework.Execution.BrokerSync.OpenOrders.{
  Answer, is_open_paper, list_open_paper_orders, sync_open_orders, sync_orders,
}

-- A simulation whose strategy is not the agent's.
abbrev pub is_simulation : Option Experiment → Bool
is_simulation none = true
is_simulation (some e) = is_historical e.mode && not (is_agentic e.strategy_type)

pub no_agent :
    (m : ExperimentMode) (t : StrategyType) (f : TradingFrequency)
    → m ≡ ExperimentMode.historical_simulation
    → (supports m t f || is_stranded m t f) ≡ true
    → (is_historical m && not (is_agentic t)) ≡ true
no_agent ExperimentMode.historical_simulation t f h k = ground arith
no_agent ExperimentMode.paper_trading t f h k = absurd (cc)

not_agentic :
    (m : Bool) (t : StrategyType)
    → t ≡ StrategyType.agentic_ai
    → (m && not (is_agentic t)) ≡ true
    → ⊥
not_agentic m t h k = ground (arith, h)

-- The agent is not asked.
pub agentic-absurd :
    (s : Store) (e : Experiment)
    → s.experiment ≡ some e
    → e.strategy_type ≡ StrategyType.agentic_ai
    → is_simulation s.experiment ≡ true
    → ⊥
agentic-absurd s e has agentic simulated =
    not_agentic (is_historical e.mode) e.strategy_type agentic
      (sym (ap is_simulation has) ∙ simulated)

-- The guards of the paper runner refuse a simulation.
module _ (settings : Settings) (trigger : TriggerType) (lock : Bool) (slot : ℕ) where
  is_supported-not :
      (e : Experiment)
      → (is_historical e.mode && not (is_agentic e.strategy_type)) ≡ true
      → is_supported_experiment settings trigger e ≡ false
  unfolding is_supported_experiment
  is_supported-not e h = ground arith

  check_state-refuses :
      (e : Experiment) (config : Option StrategyConfig) (s : Store)
      → (is_historical e.mode && not (is_agentic e.strategy_type)) ≡ true
      → check_state settings trigger lock slot e config s ≡ none
      → ⊥
  unfolding check_state check_found
  check_state-refuses e none s h k = ground arith
  check_state-refuses e (some c) s h k = ground (arith, is_supported-not e h)

  pub check_paper_step-refuses :
      (s : Store)
      → is_simulation s.experiment ≡ true
      → check_paper_step settings trigger lock slot s ≡ none
      → ⊥
  unfolding check_paper_step
  check_paper_step-refuses s h k = elim (Option-cases s.experiment) [
    | inl e ↦ ground arith
    | inr (e, has) ↦
        check_state-refuses e s.strategy_config s (sym (ap is_simulation has) ∙ h) (ground arith)
  ]

not_open : (o : Order) → IsSimulated o → is_open_paper o ≡ false
not_open o h = rw h refl

none_open : (orders : List Order) → All IsSimulated orders → list_open_paper_orders orders ≡ []
unfolding list_open_paper_orders
none_open [] all = refl
none_open (o ∷ orders) (h, all) = rw (not_open o h) (none_open orders all)

pub sync_open_orders-keeps :
    (clock : ℕ → ℕ) (get_order_status : ℕ → String → Answer) (s : Store)
    → All IsSimulated s.orders
    → (sync_open_orders clock get_order_status s).store ≡ s
unfolding sync_open_orders sync_orders
sync_open_orders-keeps clock get_order_status s all = rw (none_open s.orders all) refl

All-snoc :
    (o : Order) (orders : List Order)
    → IsSimulated o
    → All IsSimulated orders
    → All IsSimulated (orders ++ (o ∷ []))
All-snoc o [] h all = (h, tt)
All-snoc o (x ∷ orders) h (p, all) = (p, All-snoc o orders h all)

add_order-IsSimulated :
    (o : Option Order) (orders : List Order)
    → AreSimulated o
    → All IsSimulated orders
    → All IsSimulated (add_order o orders)
add_order-IsSimulated none orders h all = all
add_order-IsSimulated (some o) orders h all =
    All-snoc (record o { id = next_id orders }) orders h all

pub executed-IsSimulated :
    (r : RiskResult) (p : Portfolio) (c : Call) (orders : List Order)
    → All IsSimulated orders
    → All IsSimulated (add_order (execute_if_applicable r p c).order orders)
executed-IsSimulated r p c orders all =
    add_order-IsSimulated (execute_if_applicable r p c).order orders (execute-AreSimulated r p c)
      all
